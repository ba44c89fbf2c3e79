-- ===== src/Prelude/Bits.antt =====
-- Laws of `bit_xor` at variables, from the digit recursion that the native operation stands for.
use Prim.Native.Nat.{
  ℕ, zero, suc, ◌+◌, ◌-◌, ◌*◌, ◌/◌, ◌%◌, ◌^◌, ◌≤◌, ◌<◌, min, bit_and, bit_and-bitwise, bit_xor,
  digits, differ, bit_xor-bitwise,
}
use mathlib.Core.Path.{◌≡◌, refl, ap, ap₂, ◌∙◌}
use mathlib.Core.Logic.{◌⊎◌, inl, inr}
use mathlib.Core.Bool.{Bool, true, ◌&&◌}
use native.Mathlib.Omega.{arith}
use native.Mathlib.Nat.{pow-suc, one-le-pow}

-- The digit recursion does not depend on fuel beyond its first argument.
digits_enough :
    (base : ℕ → ℕ) (join : ℕ → ℕ → ℕ) (x y k l : ℕ)
    → x ≤ k
    → x ≤ l
    → digits base join k x y ≡ digits base join l x y
digits_enough base join zero y zero zero hk hl = refl
digits_enough base join zero y zero (suc l) hk hl = refl
digits_enough base join zero y (suc k) zero hk hl = refl
digits_enough base join zero y (suc k) (suc l) hk hl = refl
digits_enough base join (suc x) y zero l hk hl = absurd (omega arith)
digits_enough base join (suc x) y (suc k) zero hk hl = absurd (omega arith)
digits_enough base join (suc x) y (suc k) (suc l) hk hl =
    ap (λ rest. rest * 2 + join (suc x % 2) (y % 2))
      (digits_enough base join (suc x / 2) (y / 2) k l (omega arith) (omega arith))

pub zero-bit_xor : (b : ℕ) → bit_xor 0 b ≡ b
zero-bit_xor b = bit_xor-bitwise 0 b

-- The digit where two digits differ.
pub differ_lem : (x y : ℕ) → x < 2 → y < 2 → differ x y ≡ (x + y) % 2
differ_lem zero y hx hy = omega arith
differ_lem (suc zero) zero hx hy = refl
differ_lem (suc zero) (suc zero) hx hy = refl
differ_lem (suc zero) (suc (suc y)) hx hy = absurd (omega arith)
differ_lem (suc (suc x)) y hx hy = absurd (omega arith)

pub bit_xor_step : (a b : ℕ) → bit_xor a b ≡ bit_xor (a / 2) (b / 2) * 2 + (a % 2 + b % 2) % 2
bit_xor_step zero b = omega (arith, zero-bit_xor b, zero-bit_xor (b / 2))
bit_xor_step (suc a) b = omega (
  arith,
  bit_xor-bitwise (suc a) b,
  bit_xor-bitwise (suc a / 2) (b / 2),
  digits_enough (λ d. d) differ (suc a / 2) (b / 2) a (suc a / 2) (omega arith) (omega arith),
  differ_lem (suc a % 2) (b % 2) (omega arith) (omega arith),
)

bit_xor_half : (a b : ℕ) → bit_xor a b / 2 ≡ bit_xor (a / 2) (b / 2)
bit_xor_half a b = omega (arith, bit_xor_step a b)

bit_xor_parity : (a b : ℕ) → bit_xor a b % 2 ≡ (a % 2 + b % 2) % 2
bit_xor_parity a b = omega (arith, bit_xor_step a b)

bit_xor_cancel_fuel : (n a b : ℕ) → a + b ≤ n → bit_xor (bit_xor a b) b ≡ a
bit_xor_cancel_fuel zero a b h =
    rw (let e : a ≡ 0 = omega arith in e, let e : b ≡ 0 = omega arith in e) refl
bit_xor_cancel_fuel (suc n) a b h = elim (halves a b) [
  | inl e ↦ rw (e.0, e.1) refl
  | inr less ↦ omega (
    arith,
    bit_xor_step (bit_xor a b) b,
    bit_xor_parity a b,
    ap (λ (t : ℕ). bit_xor t (b / 2)) (bit_xor_half a b),
    bit_xor_cancel_fuel n (a / 2) (b / 2) (omega arith),
  )
]
  where
    halves : (x y : ℕ) → ((x ≡ 0) × (y ≡ 0)) ⊎ (x / 2 + y / 2 < x + y)
    halves zero zero = inl (refl, refl)
    halves zero (suc y) = inr (omega arith)
    halves (suc x) y = inr (omega arith)

-- Masking twice with one mask gives the value back.
pub bit_xor_cancel : (a b : ℕ) → bit_xor (bit_xor a b) b ≡ a
bit_xor_cancel a b = bit_xor_cancel_fuel (a + b) a b (omega arith)

bit_xor_comm_fuel : (n a b : ℕ) → a + b ≤ n → bit_xor a b ≡ bit_xor b a
bit_xor_comm_fuel zero a b h =
    let e : a ≡ 0 = omega arith in let f : b ≡ 0 = omega arith in rw (e, f) refl
bit_xor_comm_fuel (suc n) zero zero h = refl
bit_xor_comm_fuel (suc n) zero (suc b) h = omega (
  arith,
  bit_xor_step 0 (suc b),
  bit_xor_step (suc b) 0,
  bit_xor_comm_fuel n 0 (suc b / 2) (omega arith),
)
bit_xor_comm_fuel (suc n) (suc a) b h = omega (
  arith,
  bit_xor_step (suc a) b,
  bit_xor_step b (suc a),
  bit_xor_comm_fuel n (suc a / 2) (b / 2) (omega arith),
)

pub bit_xor_comm : (a b : ℕ) → bit_xor a b ≡ bit_xor b a
bit_xor_comm a b = bit_xor_comm_fuel (a + b) a b (omega arith)

pub bit_xor_recover : (a b : ℕ) → bit_xor (bit_xor a b) a ≡ b
bit_xor_recover a b = ap (λ (t : ℕ). bit_xor t a) (bit_xor_comm a b) ∙ bit_xor_cancel b a

shift_one : (high w : ℕ) → high * 2 ^ suc w ≡ 2 * (high * 2 ^ w)
shift_one high w = omega (arith, ap (λ pow. high * pow) (pow-suc 2 w))

-- Two aligned fields are combined one by one: `k` low bits, and the rest.
pub bit_xor_fields :
    (k a b c d : ℕ)
    → b < 2 ^ k
    → d < 2 ^ k
    → (bit_xor (a * 2 ^ k + b) (c * 2 ^ k + d) ≡ bit_xor a c * 2 ^ k + bit_xor b d)
      × (bit_xor b d < 2 ^ k)
bit_xor_fields zero a zero c zero hb hd =
    let e : a * 2 ^ 0 + 0 ≡ a = omega arith in
    let f : c * 2 ^ 0 + 0 ≡ c = omega arith in (ap₂ bit_xor e f ∙ omega arith, omega arith)
bit_xor_fields zero a (suc b) c d hb hd = absurd (omega arith)
bit_xor_fields zero a zero c (suc d) hb hd = absurd (omega arith)
bit_xor_fields (suc k) a b c d hb hd =
    let x = a * 2 ^ suc k + b in
    let y = c * 2 ^ suc k + d in
    let ex : x / 2 ≡ a * 2 ^ k + b / 2 = omega (arith, shift_one a k) in
    let ey : y / 2 ≡ c * 2 ^ k + d / 2 = omega (arith, shift_one c k) in
    let px : x % 2 ≡ b % 2 = omega (arith, shift_one a k) in
    let py : y % 2 ≡ d % 2 = omega (arith, shift_one c k) in
    let ih =
      bit_xor_fields k a (b / 2) c (d / 2) (omega (arith, pow-suc 2 k))
        (omega (arith, pow-suc 2 k)) in
    (
      omega (
        arith,
        bit_xor_step x y,
        bit_xor_step b d,
        ap₂ bit_xor ex ey,
        ih.0,
        shift_one (bit_xor a c) k,
      ),
      omega (arith, bit_xor_step b d, ih.1, pow-suc 2 k),
    )

pub bit_xor-lt : (k b d : ℕ) → b < 2 ^ k → d < 2 ^ k → bit_xor b d < 2 ^ k
bit_xor-lt k b d hb hd = (bit_xor_fields k 0 b 0 d hb hd).1

-- Evaluation of a test at all numbers below a bound.
unfoldable pub all_below : ℕ → (ℕ → Bool) → Bool
all_below zero test = true
all_below (suc bound) test = all_below bound test && test bound

pub all_below_sound :
    (bound : ℕ) (test : ℕ → Bool) (i : ℕ) → all_below bound test ≡ true → i < bound → test i ≡ true
unfolding all_below
all_below_sound zero test i table below = absurd (omega arith)
all_below_sound (suc bound) test i table below = ground (arith, all_below_sound bound test i)

-- Halving both numbers; the lowest digit is the smaller one of the two.
halve-bit_and : (x y : ℕ) → bit_and x y ≡ min (x % 2) (y % 2) + 2 * bit_and (x / 2) (y / 2)
halve-bit_and zero y = omega (arith, bit_and-bitwise 0 y, bit_and-bitwise 0 (y / 2))
halve-bit_and (suc x) y =
    let half = suc x / 2 in
    omega (
      arith,
      digits_enough (λ d. zero) min half (y / 2) x half (omega arith) (omega arith),
      bit_and-bitwise half (y / 2),
      bit_and-bitwise (suc x) y,
    )

-- The mask of the `w` lowest bits keeps a number below 2 ^ w.
pub bit_and_low : (w x : ℕ) → x < 2 ^ w → bit_and x (2 ^ w - 1) ≡ x
bit_and_low zero x small = let e : x ≡ 0 = omega arith in rw e refl
bit_and_low (suc w) x small =
    let two = pow-suc 2 w in
    let some_mask = one-le-pow w 2 (omega arith) in
    let low : (2 ^ suc w - 1) / 2 ≡ 2 ^ w - 1 = omega (arith, some_mask, two) in
    let ih = bit_and_low w (x / 2) (omega (arith, two)) in
    omega (
      arith,
      halve-bit_and x (2 ^ suc w - 1),
      ap (λ mask. bit_and (x / 2) mask) low ∙ ih,
      two,
      some_mask,
    )
