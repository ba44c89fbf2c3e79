-- ===== src/Prelude/Hex.antt =====
-- bytes.fromhex and bytes.hex.
use Prim.Native.Nat.{ℕ, suc, ◌+◌, ◌-◌, ◌*◌, ◌/◌, ◌%◌, ◌≤◌, ◌<◌}
use mathlib.Core.Path.{◌≡◌, refl, sym, ap}
use mathlib.Core.Bool.{Bool, false, ◌&&◌, ◌||◌}
use mathlib.Core.Option.{Option, none, some}
use mathlib.Core.Logic.{inl, inr}
use mathlib.Core.List.{List, [], ◌∷◌}
use native.Mathlib.Omega.{arith}
use tg_ws_proxy_rust.Prelude.Tests.{ltb, leb, ◌==◌, if◌then◌else◌, Bool-cases}
use tg_ws_proxy_rust.Prelude.Lists.{All, length}
use tg_ws_proxy_rust.Prelude.Bytes.{Bytes, IsByte}

abbrev pub is_blank : ℕ → Bool
is_blank c = (leb 9 c && leb c 13) || (c == 32)

-- The value of a hexadecimal digit.
abbrev pub hex_digit : ℕ → Option ℕ
hex_digit c =
    if leb 48 c && leb c 57
    then some (c - 48)
    else if leb 97 c && leb c 102
    then some (c - 87)
    else if leb 65 c && leb c 70
    then some (c - 55)
    else none

-- A byte of two digits, before the rest.
abbrev pub hex_byte : Option ℕ → Option ℕ → Option Bytes → Option Bytes
hex_byte none lo rest = none
hex_byte (some h) none rest = none
hex_byte (some h) (some l) none = none
hex_byte (some h) (some l) (some bs) = some ((16 * h + l) ∷ bs)

-- Blanks are skipped, but not between the two digits of a byte; `none` is the ValueError.
unfoldable pub from_hex : List ℕ → Option Bytes
from_hex [] = some []
from_hex (c ∷ []) = if is_blank c then some [] else none
from_hex (c ∷ d ∷ ds) =
    let skipped = from_hex (d ∷ ds) in
    let read = hex_byte (hex_digit c) (hex_digit d) (from_hex ds) in
    if is_blank c then skipped else read

abbrev pub hex_char : ℕ → ℕ
hex_char n = if ltb n 10 then 48 + n else 87 + n

unfoldable pub hex : Bytes → List ℕ
hex [] = []
hex (b ∷ bs) = hex_char (b / 16) ∷ hex_char (b % 16) ∷ hex bs

is_blank-hex_char : (n : ℕ) → n < 16 → is_blank (hex_char n) ≡ false
is_blank-hex_char n h = ground arith

hex_digit-hex_char : (n : ℕ) → n < 16 → hex_digit (hex_char n) ≡ some n
hex_digit-hex_char n h = ground arith

pub from_hex-hex : (bs : Bytes) → All IsByte bs → from_hex (hex bs) ≡ some bs
unfolding from_hex hex
from_hex-hex [] h = refl
from_hex-hex (b ∷ bs) h =
    let high : b / 16 < 16 = omega (arith, h.0) in
    let low : b % 16 < 16 = omega arith in
    let whole : 16 * (b / 16) + b % 16 ≡ b = omega arith in
    rw
      (
        is_blank-hex_char (b / 16) high,
        hex_digit-hex_char (b / 16) high,
        hex_digit-hex_char (b % 16) low,
        from_hex-hex bs h.1,
      )
      (ap (λ n. some (n ∷ bs)) whole)

pub length-hex : (bs : Bytes) → length (hex bs) ≡ 2 * length bs
unfolding hex
length-hex [] = refl
length-hex (b ∷ bs) = omega (arith, length-hex bs)

hex_byte-length :
    (x y : Option ℕ) (r : Option Bytes) (bs : Bytes)
    → hex_byte x y r ≡ some bs
    → (tail : Bytes) × (r ≡ some tail) × (length bs ≡ suc (length tail))
hex_byte-length none y r bs h = cc
hex_byte-length (some x) none r bs h = cc
hex_byte-length (some x) (some y) none bs h = cc
hex_byte-length (some x) (some y) (some tail) [] h = cc
hex_byte-length (some x) (some y) (some tail) (b ∷ bs) h =
    let e : tail ≡ bs = cc in (tail, refl, ap (λ (t : Bytes). suc (length t)) (sym e))

-- A byte takes two characters at least, and just two where there are no blanks.
pub length-from_hex : (s : List ℕ) (bs : Bytes) → from_hex s ≡ some bs → 2 * length bs ≤ length s
unfolding from_hex
length-from_hex [] [] h = omega arith
length-from_hex [] (b ∷ bs) h = cc
length-from_hex (c ∷ []) [] h = omega arith
length-from_hex (c ∷ []) (b ∷ bs) h = ground arith
length-from_hex (c ∷ d ∷ ds) bs h = elim (Bool-cases (is_blank c)) [
  | inl e ↦
      let rest : from_hex (d ∷ ds) ≡ some bs = rw e at h in
      omega (arith, length-from_hex (d ∷ ds) bs rest)
  | inr e ↦
      let byte : hex_byte (hex_digit c) (hex_digit d) (from_hex ds) ≡ some bs = rw e at h in
      let (tail, rest, one_more) = hex_byte-length _ _ _ bs byte in
      omega (arith, length-from_hex ds tail rest, one_more)
]

pub length-from_hex_plain :
    (s : List ℕ) (bs : Bytes)
    → All (λ c. is_blank c ≡ false) s
    → from_hex s ≡ some bs
    → 2 * length bs ≡ length s
unfolding from_hex
length-from_hex_plain [] [] k h = omega arith
length-from_hex_plain [] (b ∷ bs) k h = cc
length-from_hex_plain (c ∷ []) bs k h = let no : none ≡ some bs = rw k.0 at h in absurd (cc)
length-from_hex_plain (c ∷ d ∷ ds) bs k h =
    let byte : hex_byte (hex_digit c) (hex_digit d) (from_hex ds) ≡ some bs = rw k.0 at h in
    let (tail, rest, one_more) = hex_byte-length _ _ _ bs byte in
    omega (arith, length-from_hex_plain ds tail k.1.1 rest, one_more)
