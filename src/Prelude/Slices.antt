-- ===== src/Prelude/Slices.antt =====
-- `take` and `drop` at a boundary, and the slice `xs[a:b]` of the source.
use Prim.Native.Nat.{ℕ, zero, suc, ◌+◌, ◌-◌, ◌≤◌}
use mathlib.Core.Path.{◌≡◌, refl, sym, ap, ap₂, ◌∙◌}
use mathlib.Core.List.{List, [], ◌∷◌, ◌++◌}
use native.Mathlib.Omega.{arith}
use tg_ws_proxy_rust.Prelude.Lists.{length, take, drop, length-take, length-drop, take-append-drop}

module _ {ℓ} {A : Type ℓ} where
  -- xs[a:b] at bounds that are not negative
  abbrev pub slice : ℕ → ℕ → List A → List A
  slice a b xs = take (b - a) (drop a xs)

  pub take-append : (n : ℕ) (xs ys : List A) → length xs ≡ n → take n (xs ++ ys) ≡ xs
  take-append zero [] ys h = refl
  take-append zero (x ∷ xs) ys h = absurd (omega arith)
  take-append (suc n) [] ys h = absurd (omega arith)
  take-append (suc n) (x ∷ xs) ys h = ap (◌∷◌ x) (take-append n xs ys (omega arith))

  pub drop-append : (n : ℕ) (xs ys : List A) → length xs ≡ n → drop n (xs ++ ys) ≡ ys
  drop-append zero [] ys h = refl
  drop-append zero (x ∷ xs) ys h = absurd (omega arith)
  drop-append (suc n) [] ys h = absurd (omega arith)
  drop-append (suc n) (x ∷ xs) ys h = drop-append n xs ys (omega arith)

  pub take_all : (n : ℕ) (xs : List A) → length xs ≤ n → take n xs ≡ xs
  take_all zero [] h = refl
  take_all zero (x ∷ xs) h = absurd (omega arith)
  take_all (suc n) [] h = refl
  take_all (suc n) (x ∷ xs) h = ap (◌∷◌ x) (take_all n xs (omega arith))

  pub drop_all : (n : ℕ) (xs : List A) → length xs ≤ n → drop n xs ≡ []
  drop_all zero [] h = refl
  drop_all zero (x ∷ xs) h = absurd (omega arith)
  drop_all (suc n) [] h = refl
  drop_all (suc n) (x ∷ xs) h = drop_all n xs (omega arith)

  pub drop-nil : (n : ℕ) → drop {A = A} n [] ≡ []
  drop-nil zero = refl
  drop-nil (suc n) = refl

  pub drop-drop : (n m : ℕ) (xs : List A) → drop m (drop n xs) ≡ drop (n + m) xs
  drop-drop zero m xs = let e : m ≡ 0 + m = omega arith in ap (λ k. drop k xs) e
  drop-drop (suc n) m [] = drop-nil m ∙ sym (drop-nil (suc n + m))
  drop-drop (suc n) m (x ∷ xs) =
      let e : suc n + m ≡ suc (n + m) = omega arith in
      drop-drop n m xs ∙ ap (λ k. drop k (x ∷ xs)) (sym e)

  -- Both are cut short where the first list is long enough.
  pub take-append_le : (n : ℕ) (xs ys : List A) → n ≤ length xs → take n (xs ++ ys) ≡ take n xs
  take-append_le zero xs ys h = refl
  take-append_le (suc n) [] ys h = absurd (omega arith)
  take-append_le (suc n) (x ∷ xs) ys h = ap (◌∷◌ x) (take-append_le n xs ys (omega arith))

  pub drop-append_le :
      (n : ℕ) (xs ys : List A) → n ≤ length xs → drop n (xs ++ ys) ≡ drop n xs ++ ys
  drop-append_le zero xs ys h = refl
  drop-append_le (suc n) [] ys h = absurd (omega arith)
  drop-append_le (suc n) (x ∷ xs) ys h = drop-append_le n xs ys (omega arith)

  pub slice-append :
      (a b : ℕ) (xs ys : List A) → a ≤ b → b ≤ length xs → slice a b (xs ++ ys) ≡ slice a b xs
  slice-append a b xs ys hab hb =
      ap (take (b - a)) (drop-append_le a xs ys (omega arith))
      ∙ take-append_le (b - a) (drop a xs) ys (omega (arith, length-drop a xs))

  -- xs[a:b] = ys
  abbrev pub assign : ℕ → ℕ → List A → List A → List A
  assign a b xs ys = take a xs ++ (ys ++ drop b xs)

  -- A slice before the place that was assigned.
  pub slice-assign :
      (a b c d : ℕ) (xs ys : List A)
      → a ≤ b
      → b ≤ c
      → c ≤ length xs
      → slice a b (assign c d xs ys) ≡ slice a b xs
  slice-assign a b c d xs ys hab hbc hc =
      slice-append a b (take c xs) (ys ++ drop d xs) hab (omega (arith, length-take c xs))
      ∙ sym (slice-append a b (take c xs) (drop c xs) hab (omega (arith, length-take c xs)))
      ∙ ap (slice a b) (take-append-drop c xs)

  -- The slice that was assigned.
  pub assign_get :
      (a b : ℕ) (xs ys : List A)
      → a ≤ length xs
      → length ys ≡ b - a
      → slice a b (assign a b xs ys) ≡ ys
  assign_get a b xs ys ha hy =
      ap (take (b - a))
        (drop-append a (take a xs) (ys ++ drop b xs) (omega (arith, length-take a xs)))
      ∙ take-append (b - a) ys (drop b xs) hy

  -- Of two assignments to one place the second one counts.
  pub assign_twice :
      (a b : ℕ) (xs ys zs : List A)
      → a ≤ b
      → a ≤ length xs
      → length ys ≡ b - a
      → assign a b (assign a b xs ys) zs ≡ assign a b xs zs
  assign_twice a b xs ys zs hab ha hy =
      let first : take a (assign a b xs ys) ≡ take a xs =
        take-append a (take a xs) (ys ++ drop b xs) (omega (arith, length-take a xs)) in
      let e : a + (b - a) ≡ b = omega arith in
      let last : drop b (assign a b xs ys) ≡ drop b xs =
        ap (λ n. drop n (assign a b xs ys)) (sym e)
        ∙ sym (drop-drop a (b - a) (assign a b xs ys))
        ∙ ap (drop (b - a))
            (drop-append a (take a xs) (ys ++ drop b xs) (omega (arith, length-take a xs)))
        ∙ drop-append (b - a) ys (drop b xs) hy in
      ap₂ (λ (s t : List A). s ++ (zs ++ t)) first last

  -- Assigning what is there.
  pub assign_same : (a b : ℕ) (xs : List A) → a ≤ b → assign a b xs (slice a b xs) ≡ xs
  assign_same a b xs hab =
      let e : a + (b - a) ≡ b = omega arith in
      ap (λ (t : List A). take a xs ++ (slice a b xs ++ t))
        (ap (λ n. drop n xs) (sym e) ∙ sym (drop-drop a (b - a) xs))
      ∙ ap (λ (t : List A). take a xs ++ t) (take-append-drop (b - a) (drop a xs))
      ∙ take-append-drop a xs
