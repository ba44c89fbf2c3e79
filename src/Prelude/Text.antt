-- ===== src/Prelude/Text.antt =====
-- Python's `str` as a list of code points, and the methods of it that the program calls.
use Prim.Native.Char.{code}
use Prim.Native.String.{String}
use Prim.Native.Nat.{ℕ, ◌≤◌}
use native.Mathlib.Omega.{arith}
use mathlib.Core.Path.{◌≡◌, refl, ap, ◌∙◌}
use mathlib.Core.Bool.{Bool, true, false, ◌&&◌, ◌||◌}
use mathlib.Core.Option.{Option, none, some}
use mathlib.Core.List.{List, [], ◌∷◌, ◌++◌}
use tg_ws_proxy_rust.Prelude.Tests.{leb, ◌==◌, if◌then◌else◌, Bool-cases}
use tg_ws_proxy_rust.Prelude.Lists.{All, length, reverse, is_empty}
use mathlib.Core.Logic.{inl, inr}

abbrev pub Text : Type 0
Text = List ℕ

-- The code points of a literal.
abbrev pub codes : String → Text
codes String.[] = []
codes (String.◌∷◌ c s) = code c ∷ codes s

-- The characters for which str.isspace holds.
abbrev pub is_space : ℕ → Bool
is_space c =
    (leb 9 c && leb c 13)
    || (leb 28 c && leb c 32)
    || (c == 133)
    || (c == 160)
    || (c == 5760)
    || (leb 8192 c && leb c 8202)
    || (c == 8232)
    || (c == 8233)
    || (c == 8239)
    || (c == 8287)
    || (c == 12288)

abbrev pub contains : ℕ → Text → Bool
contains c [] = false
contains c (x ∷ xs) = x == c || contains c xs

-- `c` in front of the first part
abbrev pub onto_first : ℕ → List Text → List Text
onto_first c [] = (c ∷ []) ∷ []
onto_first c (w ∷ ws) = (c ∷ w) ∷ ws

-- s.split(c), for any `c` that the test takes
abbrev pub split_where : (ℕ → Bool) → Text → List Text
split_where p [] = [] ∷ []
split_where p (c ∷ cs) =
    let parts = split_where p cs in if p c then [] ∷ parts else onto_first c parts

abbrev pub nonempty : List Text → List Text
nonempty [] = []
nonempty ([] ∷ ts) = nonempty ts
nonempty ((c ∷ t) ∷ ts) = (c ∷ t) ∷ nonempty ts

-- s.split()
abbrev pub words : (ℕ → Bool) → Text → List Text
words is_space s = nonempty (split_where is_space s)

-- s.split(c, 1), where `c` is in `s`
abbrev pub split_once : ℕ → Text → Option (Text × Text)
split_once sep [] = none
split_once sep (c ∷ cs) = if c == sep then some ([], cs) else onto_left c (split_once sep cs)
  where
    onto_left : ℕ → Option (Text × Text) → Option (Text × Text)
    onto_left x none = none
    onto_left x (some (a, b)) = some (x ∷ a, b)

abbrev pub drop_while : (ℕ → Bool) → Text → Text
drop_while p [] = []
drop_while p (c ∷ cs) = let rest = drop_while p cs in if p c then rest else c ∷ cs

abbrev pub take_while : (ℕ → Bool) → Text → Text
take_while p [] = []
take_while p (c ∷ cs) = let rest = take_while p cs in if p c then c ∷ rest else []

-- s.strip()
abbrev pub strip : (ℕ → Bool) → Text → Text
strip is_space s = reverse (drop_while is_space (reverse (drop_while is_space s)))

-- s.replace(a, b) for single characters
abbrev pub replace : ℕ → ℕ → Text → Text
replace a b [] = []
replace a b (c ∷ cs) = (if c == a then b else c) ∷ replace a b cs

drop_while-id : (p : ℕ → Bool) (s : Text) → All (λ c. p c ≡ false) s → drop_while p s ≡ s
drop_while-id p [] h = refl
drop_while-id p (c ∷ cs) h = ap (λ b. if b then drop_while p cs else c ∷ cs) h.0

All-snoc : (P : ℕ → Type 0) (xs : Text) (c : ℕ) → All P xs → P c → All P (xs ++ (c ∷ []))
All-snoc P [] c h hc = (hc, tt)
All-snoc P (x ∷ xs) c h hc = (h.0, All-snoc P xs c h.1 hc)

All-reverse : (P : ℕ → Type 0) (s : Text) → All P s → All P (reverse s)
All-reverse P [] h = tt
All-reverse P (c ∷ cs) h = All-snoc P (reverse cs) c (All-reverse P cs h.1) h.0

reverse-snoc : (xs : Text) (c : ℕ) → reverse (xs ++ (c ∷ [])) ≡ c ∷ reverse xs
reverse-snoc [] c = refl
reverse-snoc (x ∷ xs) c = ap (λ (t : Text). t ++ (x ∷ [])) (reverse-snoc xs c)

reverse-reverse : (s : Text) → reverse (reverse s) ≡ s
reverse-reverse [] = refl
reverse-reverse (c ∷ cs) = reverse-snoc (reverse cs) c ∙ ap (◌∷◌ c) (reverse-reverse cs)

-- A text without blanks is stripped.
pub strip-id : (p : ℕ → Bool) (s : Text) → All (λ c. p c ≡ false) s → strip p s ≡ s
strip-id p s h =
    ap (λ (t : Text). reverse (drop_while p (reverse t))) (drop_while-id p s h)
    ∙ ap reverse (drop_while-id p (reverse s) (All-reverse (λ c. p c ≡ false) s h))
    ∙ reverse-reverse s

-- A text without separators is one part.
pub split_where-single :
    (p : ℕ → Bool) (s : Text) → All (λ c. p c ≡ false) s → split_where p s ≡ s ∷ []
split_where-single p [] h = refl
split_where-single p (c ∷ cs) h =
    ap (λ b. if b then [] ∷ split_where p cs else onto_first c (split_where p cs)) h.0
    ∙ ap (onto_first c) (split_where-single p cs h.1)

pub words-single :
    (p : ℕ → Bool) (c : ℕ) (cs : Text)
    → All (λ x. p x ≡ false) (c ∷ cs)
    → words p (c ∷ cs) ≡ (c ∷ cs) ∷ []
words-single p c cs h = ap nonempty (split_where-single p (c ∷ cs) h)

onto_first-All :
    (Q : ℕ → Type 0) (c : ℕ) (ts : List Text) → Q c → All (All Q) ts → All (All Q) (onto_first c ts)
onto_first-All Q c [] h k = ((h, tt), tt)
onto_first-All Q c (t ∷ ts) h k = ((h, k.0), k.1)

-- The parts hold the characters of the text that are no separators.
pub split_where-All :
    (p : ℕ → Bool) (Q : ℕ → Type 0) (s : Text)
    → All (λ c. p c ≡ false → Q c) s
    → All (All Q) (split_where p s)
split_where-All p Q [] h = (tt, tt)
split_where-All p Q (c ∷ cs) h = elim (Bool-cases (p c)) [
  | inl sep ↦ rw sep (tt, split_where-All p Q cs h.1)
  | inr other ↦
      rw other (onto_first-All Q c (split_where p cs) (h.0 other) (split_where-All p Q cs h.1))
]

onto_first-All_back :
    (Q : ℕ → Type 0) (c : ℕ) (ts : List Text) → All (All Q) (onto_first c ts) → Q c × All (All Q) ts
onto_first-All_back Q c [] k = (k.0.0, tt)
onto_first-All_back Q c (t ∷ ts) k = (k.0.0, (k.0.1, k.1))

-- What holds of the characters of the parts and of the separators holds of the whole text.
pub split_where-All_back :
    (p : ℕ → Bool) (Q : ℕ → Type 0) (s : Text)
    → ((c : ℕ) → p c ≡ true → Q c)
    → All (All Q) (split_where p s)
    → All Q s
split_where-All_back p Q [] h k = tt
split_where-All_back p Q (c ∷ cs) h k = elim (Bool-cases (p c)) [
  | inl sep ↦
      let parts : All (All Q) ([] ∷ split_where p cs) = rw sep at k in
      (h c sep, split_where-All_back p Q cs h parts.1)
  | inr other ↦
      let parts : All (All Q) (onto_first c (split_where p cs)) = rw other at k in
      let (q, rest) = onto_first-All_back Q c (split_where p cs) parts in
      (q, split_where-All_back p Q cs h rest)
]

pub nonempty-All :
    (Q : ℕ → Type 0) (ts : List Text)
    → All (All Q) ts
    → All (λ t. (is_empty t ≡ false) × All Q t) (nonempty ts)
nonempty-All Q [] h = tt
nonempty-All Q ([] ∷ ts) h = nonempty-All Q ts h.1
nonempty-All Q ((c ∷ t) ∷ ts) h = ((refl, h.0), nonempty-All Q ts h.1)

drop_while-snoc :
    (p : ℕ → Bool) (xs : Text) (c : ℕ)
    → p c ≡ false
    → drop_while p (xs ++ (c ∷ [])) ≡ drop_while p xs ++ (c ∷ [])
drop_while-snoc p [] c h = rw h refl
drop_while-snoc p (x ∷ xs) c h = elim (Bool-cases (p x)) [
  | inl e ↦ rw e (drop_while-snoc p xs c h)
  | inr e ↦ rw e refl
]

drop_while_twice : (p : ℕ → Bool) (s : Text) → drop_while p (drop_while p s) ≡ drop_while p s
drop_while_twice p [] = refl
drop_while_twice p (c ∷ cs) = elim (Bool-cases (p c)) [
  | inl e ↦ rw e (drop_while_twice p cs)
  | inr e ↦ rw e (rw e refl)
]

drop_while-le : (p : ℕ → Bool) (s : Text) → length (drop_while p s) ≤ length s
drop_while-le p [] = omega arith
drop_while-le p (c ∷ cs) = elim (Bool-cases (p c)) [
  | inl e ↦ rw e (omega (arith, drop_while-le p cs))
  | inr e ↦ rw e (omega arith)
]

too_short : (t cs : Text) {c : ℕ} → length t ≤ length cs → t ≡ c ∷ cs → ⊥
too_short t cs h e = omega (arith, h, ap (λ (x : Text). length x) e)

-- A text that begins with no blank still does when the blanks at its end are gone.
drop_while-end :
    (p : ℕ → Bool) (s : Text)
    → drop_while p s ≡ s
    → drop_while p (reverse (drop_while p (reverse s))) ≡ reverse (drop_while p (reverse s))
drop_while-end p [] h = refl
drop_while-end p (c ∷ cs) h = elim (Bool-cases (p c)) [
  | inl e ↦ absurd (too_short (drop_while p cs) cs (drop_while-le p cs) (rw e at h))
  | inr e ↦
      let last = drop_while-snoc p (reverse cs) c e in
      let whole : reverse (drop_while p (reverse (c ∷ cs)))
          ≡ c ∷ reverse (drop_while p (reverse cs)) =
        ap reverse last ∙ reverse-snoc (drop_while p (reverse cs)) c in
      rw whole (rw e refl)
]

-- s.strip().strip() is s.strip()
pub strip_twice : (p : ℕ → Bool) (s : Text) → strip p (strip p s) ≡ strip p s
strip_twice p s =
    let start = drop_while p s in
    let stripped = drop_while-end p start (drop_while_twice p s) in
    ap (λ (t : Text). reverse (drop_while p (reverse t))) stripped
    ∙ ap (λ (t : Text). reverse (drop_while p t)) (reverse-reverse (drop_while p (reverse start)))
    ∙ ap reverse (drop_while_twice p (reverse start))
