-- ===== src/Prelude/Bytes.antt =====
-- Byte strings as lists of numbers: big- and little-endian integers (`struct`, `int.from_bytes`)
-- and the bytewise exclusive or.
use Prim.Native.Nat.{ℕ, zero, suc, ◌+◌, ◌*◌, ◌/◌, ◌%◌, ◌^◌, ◌<◌, bit_xor}
use mathlib.Core.Path.{◌≡◌, refl, sym, ap, ap₂, ◌∙◌}
use mathlib.Core.List.{List, [], ◌∷◌, ◌++◌, append_assoc, append-nil}
use mathlib.Core.Logic.{◌↔◌}
use mathlib.Core.Bool.{Bool, true, false, ◌&&◌, ◌||◌}
use native.Mathlib.Omega.{arith}
use tg_ws_proxy_rust.Prelude.Tests.{◌==◌}
use native.Mathlib.Nat.{pow-suc}
use tg_ws_proxy_rust.Prelude.Lists.{length, take, drop, All, length-append}
use tg_ws_proxy_rust.Prelude.Bits.{bit_xor_cancel, bit_xor_recover, bit_xor-lt}

abbrev pub IsByte : ℕ → Type 0
IsByte b = b < 256

abbrev pub Bytes : Type 0
Bytes = List ℕ

-- struct.pack('<…', n) in `w` bytes
abbrev pub le : ℕ → ℕ → Bytes
le zero n = []
le (suc w) n = (n % 256) ∷ le w (n / 256)

-- int.from_bytes(bs, 'little')
abbrev pub from_le : Bytes → ℕ
from_le [] = 0
from_le (b ∷ bs) = b + 256 * from_le bs

-- struct.pack('>…', n) in `w` bytes
abbrev pub be : ℕ → ℕ → Bytes
be zero n = []
be (suc w) n = be w (n / 256) ++ ((n % 256) ∷ [])

abbrev pub from_be_acc : ℕ → Bytes → ℕ
from_be_acc acc [] = acc
from_be_acc acc (b ∷ bs) = from_be_acc (acc * 256 + b) bs

-- int.from_bytes(bs, 'big')
abbrev pub from_be : Bytes → ℕ
from_be bs = from_be_acc 0 bs

-- Bytewise exclusive or, as long as the shorter one.
abbrev pub xor_bytes : Bytes → Bytes → Bytes
xor_bytes [] ks = []
xor_bytes (b ∷ bs) [] = []
xor_bytes (b ∷ bs) (k ∷ ks) = bit_xor b k ∷ xor_bytes bs ks

pub length-le : (w n : ℕ) → length (le w n) ≡ w
length-le zero n = refl
length-le (suc w) n = ap suc (length-le w (n / 256))

pub length-be : (w n : ℕ) → length (be w n) ≡ w
length-be zero n = refl
length-be (suc w) n =
    omega (arith, length-append (be w (n / 256)) ((n % 256) ∷ []), length-be w (n / 256))

pub le-IsByte : (w n : ℕ) → All IsByte (le w n)
le-IsByte zero n = tt
le-IsByte (suc w) n = (omega arith, le-IsByte w (n / 256))

mul-pow-suc : (q k : ℕ) → q < 256 ^ suc k → q / 256 < 256 ^ k
mul-pow-suc q k h = omega (arith, pow-suc 256 k)

pub from_le-le : (w n : ℕ) → n < 256 ^ w → from_le (le w n) ≡ n
from_le-le zero n h = omega arith
from_le-le (suc w) n h = omega (arith, from_le-le w (n / 256) (mul-pow-suc n w h))

from_be_acc-append :
    (acc : ℕ) (xs ys : Bytes) → from_be_acc acc (xs ++ ys) ≡ from_be_acc (from_be_acc acc xs) ys
from_be_acc-append acc [] ys = refl
from_be_acc-append acc (x ∷ xs) ys = from_be_acc-append (acc * 256 + x) xs ys

pub from_be-be : (w n : ℕ) → n < 256 ^ w → from_be (be w n) ≡ n
from_be-be zero n h = omega arith
from_be-be (suc w) n h = omega (
  arith,
  from_be_acc-append 0 (be w (n / 256)) ((n % 256) ∷ []),
  from_be-be w (n / 256) (mul-pow-suc n w h),
)

pub xor_bytes_cancel : (bs ks : Bytes) → length bs ≡ length ks → xor_bytes (xor_bytes bs ks) ks ≡ bs
xor_bytes_cancel [] ks h = refl
xor_bytes_cancel (b ∷ bs) [] h = absurd (omega arith)
xor_bytes_cancel (b ∷ bs) (k ∷ ks) h =
    ap₂ ◌∷◌ (bit_xor_cancel b k) (xor_bytes_cancel bs ks (omega arith))

pub length-xor_bytes :
    (bs ks : Bytes) → length bs ≡ length ks → length (xor_bytes bs ks) ≡ length bs
length-xor_bytes [] ks h = refl
length-xor_bytes (b ∷ bs) [] h = absurd (omega arith)
length-xor_bytes (b ∷ bs) (k ∷ ks) h = ap suc (length-xor_bytes bs ks (omega arith))

pub xor_bytes-IsByte :
    (bs ks : Bytes) → All IsByte bs → All IsByte ks → All IsByte (xor_bytes bs ks)
xor_bytes-IsByte [] ks h g = tt
xor_bytes-IsByte (b ∷ bs) [] h g = tt
xor_bytes-IsByte (b ∷ bs) (k ∷ ks) h g = (bit_xor-lt 8 b k h.0 g.0, xor_bytes-IsByte bs ks h.1 g.1)

-- a == b
abbrev pub bytes_eq : Bytes → Bytes → Bool
bytes_eq [] [] = true
bytes_eq [] (y ∷ ys) = false
bytes_eq (x ∷ xs) [] = false
bytes_eq (x ∷ xs) (y ∷ ys) = (x == y) && bytes_eq xs ys

-- x in xss
abbrev pub bytes_in : Bytes → List Bytes → Bool
bytes_in xs [] = false
bytes_in xs (ys ∷ yss) = bytes_eq xs ys || bytes_in xs yss

pub bytes_eq_iff : (xs ys : Bytes) → (bytes_eq xs ys ≡ true) ↔ (xs ≡ ys)
bytes_eq_iff [] [] = (λ h. refl, λ h. refl)
bytes_eq_iff [] (y ∷ ys) = (λ h. cc, λ h. cc)
bytes_eq_iff (x ∷ xs) [] = (λ h. cc, λ h. cc)
bytes_eq_iff (x ∷ xs) (y ∷ ys) =
    (λ h. ground (arith, bytes_eq_iff xs ys), λ h. ground (arith, bytes_eq_iff xs ys))

pub bytes_eq_refl : (xs : Bytes) → bytes_eq xs xs ≡ true
bytes_eq_refl xs = (bytes_eq_iff xs xs).1 refl

-- Reading a whole big-endian number and writing it again.
be-from_be_acc :
    (k acc : ℕ) (xs : Bytes)
    → All IsByte xs
    → be (k + length xs) (from_be_acc acc xs) ≡ be k acc ++ xs
be-from_be_acc k acc [] h =
    let e : k + 0 ≡ k = omega arith in ap (λ n. be n acc) e ∙ sym (append-nil (be k acc))
be-from_be_acc k acc (x ∷ xs) h =
    let e : k + suc (length xs) ≡ suc k + length xs = omega arith in
    let q : (acc * 256 + x) / 256 ≡ acc = omega (arith, h.0) in
    let r : (acc * 256 + x) % 256 ≡ x = omega (arith, h.0) in
    ap (λ n. be n (from_be_acc (acc * 256 + x) xs)) e
    ∙ be-from_be_acc (suc k) (acc * 256 + x) xs h.1
    ∙ append_assoc (be k ((acc * 256 + x) / 256)) _ xs
    ∙ ap₂ (λ a b. be k a ++ (b ∷ xs)) q r

pub be-from_be : (n : ℕ) (xs : Bytes) → length xs ≡ n → All IsByte xs → be n (from_be xs) ≡ xs
be-from_be n xs e h =
    let f : n ≡ 0 + length xs = omega (arith, e) in
    ap (λ k. be k (from_be xs)) f ∙ be-from_be_acc 0 0 xs h

-- x ^ (x ^ y) is y, bytewise.
pub xor_bytes_recover :
    (xs ks : Bytes) → length xs ≡ length ks → xor_bytes (xor_bytes xs ks) xs ≡ ks
xor_bytes_recover [] [] h = refl
xor_bytes_recover [] (k ∷ ks) h = absurd (omega arith)
xor_bytes_recover (x ∷ xs) [] h = absurd (omega arith)
xor_bytes_recover (x ∷ xs) (k ∷ ks) h =
    ap₂ ◌∷◌ (bit_xor_recover x k) (xor_bytes_recover xs ks (omega arith))

xor_bytes-nil : (xs : Bytes) → xor_bytes xs [] ≡ []
xor_bytes-nil [] = refl
xor_bytes-nil (x ∷ xs) = refl

pub drop-xor_bytes :
    (n : ℕ) (xs ks : Bytes) → drop n (xor_bytes xs ks) ≡ xor_bytes (drop n xs) (drop n ks)
drop-xor_bytes zero xs ks = refl
drop-xor_bytes (suc n) [] ks = refl
drop-xor_bytes (suc n) (x ∷ xs) [] = sym (xor_bytes-nil (drop n xs))
drop-xor_bytes (suc n) (x ∷ xs) (k ∷ ks) = drop-xor_bytes n xs ks

pub take-xor_bytes :
    (n : ℕ) (xs ks : Bytes) → take n (xor_bytes xs ks) ≡ xor_bytes (take n xs) (take n ks)
take-xor_bytes zero xs ks = refl
take-xor_bytes (suc n) [] ks = refl
take-xor_bytes (suc n) (x ∷ xs) [] = refl
take-xor_bytes (suc n) (x ∷ xs) (k ∷ ks) = ap (◌∷◌ (bit_xor x k)) (take-xor_bytes n xs ks)
