-- ===== src/Versions/Order.antt =====
-- "Newer" is a strict order that does not see zeros at the end.
use tg_ws_proxy_rust.Prelude.{
  ℕ, zero, suc, ◌<◌, ◌≡◌, refl, sym, subst, ◌∙◌, Bool, true, false, List, [], ◌∷◌, ltb,
  if◌then◌else◌, arith, ◌⊎◌, inl, inr, Bool-cases, ltb→lt,
}
use mathlib.Core.Logic.{◌↔◌}
use tg_ws_proxy_rust.Versions.{version_gt}

-- The element at `i`, zero beyond the end.
abbrev pub segment : List ℕ → ℕ → ℕ
segment [] i = 0
segment (x ∷ xs) zero = x
segment (x ∷ xs) (suc i) = segment xs i

-- Where the two first differ, `f` is larger.
pub record Above (f g : ℕ → ℕ) : Type 0 where
  pub place : ℕ
  pub before : (i : ℕ) → i < place → f i ≡ g i
  pub larger : g place < f place

place_cases : (j : ℕ) → (j ≡ 0) ⊎ ((k : ℕ) × (j ≡ suc k))
place_cases zero = inl refl
place_cases (suc k) = inr (k, refl)

agree_from :
    (f g : ℕ → ℕ) (k : ℕ)
    → f 0 ≡ g 0
    → ((i : ℕ) → i < k → f (suc i) ≡ g (suc i))
    → (i : ℕ) → i < suc k
    → f i ≡ g i
agree_from f g k e h zero lt = e
agree_from f g k e h (suc i) lt = h i (omega arith)

-- One round of the comparison.
Above-step :
    (f g : ℕ → ℕ) (b : Bool)
    → (b ≡ true) ↔ Above (λ i. f (suc i)) (λ i. g (suc i))
    → ((if ltb (g 0) (f 0) then true else if ltb (f 0) (g 0) then false else b) ≡ true) ↔ Above f g
Above-step f g b ih = elim (Bool-cases (ltb (g 0) (f 0))) [
  | inl gt ↦ (
    λ h. record {
      place = 0;
      before = λ i lt. absurd (omega arith);
      larger = ltb→lt (g 0) (f 0) gt;
    },
    λ h. rw gt refl,
  )
  | inr le ↦ elim (Bool-cases (ltb (f 0) (g 0))) [
    | inl lt ↦ (
      λ h. let e : false ≡ true = sym (rw (le, lt) refl) ∙ h in absurd (let no : ⊥ = cc in no),
      λ h. elim (place_cases h.place) [
        | inl e ↦ absurd (let gt = subst (λ k. g k < f k) e h.larger in ground arith)
        | inr (k, e) ↦ absurd (let q = h.before 0 (omega (arith, e)) in ground arith)
      ],
    )
    | inr ge ↦
        let same : f 0 ≡ g 0 = ground arith in
        (
          λ h.
              let n = ih.0 (sym (rw (le, ge) refl) ∙ h) in
              record {
                place = suc n.place;
                before = agree_from f g n.place same n.before;
                larger = n.larger;
              },
          λ h.
              rw (le, ge)
                (elim (place_cases h.place) [
                  | inl e ↦
                      absurd (let gt = subst (λ k. g k < f k) e h.larger in omega (arith, gt, same))
                  | inr (k, e) ↦ ih.1 (record {
                    place = k;
                    before = λ i lt. h.before (suc i) (omega (arith, lt, e));
                    larger = subst (λ j. g j < f j) e h.larger;
                  })
                ]),
        )
  ]
]

-- A version is newer than another exactly if, at the first segment where the two differ, missing
-- ones being zero, it has the larger number.
pub version_gt-Above :
    (xs ys : List ℕ) → (version_gt xs ys ≡ true) ↔ Above (segment xs) (segment ys)
unfolding version_gt
version_gt-Above [] [] = (λ h. cc, λ h. absurd (omega (arith, h.larger)))
version_gt-Above [] (y ∷ ys) =
    Above-step (segment []) (segment (y ∷ ys)) (version_gt [] ys) (version_gt-Above [] ys)
version_gt-Above (x ∷ xs) [] =
    Above-step (segment (x ∷ xs)) (segment []) (version_gt xs []) (version_gt-Above xs [])
version_gt-Above (x ∷ xs) (y ∷ ys) =
    Above-step (segment (x ∷ xs)) (segment (y ∷ ys)) (version_gt xs ys) (version_gt-Above xs ys)

Above-trans : (f g h : ℕ → ℕ) → Above f g → Above g h → Above f h
Above-trans f g h p q = elim (order p.place q.place) [
  | inl lt ↦ record {
    place = p.place;
    before = λ i l. p.before i l ∙ q.before i (omega (arith, l, lt));
    larger = omega (arith, p.larger, q.before p.place lt);
  }
  | inr (inl gt) ↦ record {
    place = q.place;
    before = λ i l. p.before i (omega (arith, l, gt)) ∙ q.before i l;
    larger = omega (arith, q.larger, p.before q.place gt);
  }
  | inr (inr e) ↦ record {
    place = p.place;
    before = λ i l. p.before i l ∙ q.before i (omega (arith, l, e));
    larger = omega (arith, p.larger, subst (λ k. h k < g k) (sym e) q.larger);
  }
]
  where
    order : (a b : ℕ) → (a < b) ⊎ ((b < a) ⊎ (a ≡ b))
    order a b = elim (Bool-cases (ltb a b)) [
      | inl lt ↦ inl (ltb→lt a b lt)
      | inr ge ↦ elim (Bool-cases (ltb b a)) [
        | inl gt ↦ inr (inl (ltb→lt b a gt))
        | inr le ↦ inr (inr (ground arith))
      ]
    ]

-- "Newer" is transitive, and a version that is newer than another is not older than it.
pub version_gt_trans :
    (xs ys zs : List ℕ)
    → version_gt xs ys ≡ true
    → version_gt ys zs ≡ true
    → (version_gt xs zs ≡ true) × (version_gt ys xs ≡ false)
version_gt_trans xs ys zs p q =
    let up = (version_gt-Above xs ys).0 p in
    (
      (version_gt-Above xs zs).1
          (Above-trans (segment xs) (segment ys) (segment zs) up ((version_gt-Above ys zs).0 q)),
      elim (Bool-cases (version_gt ys xs)) [
        | inl back ↦
            let r =
              Above-trans (segment xs) (segment ys) (segment xs) up
                ((version_gt-Above ys xs).0 back) in
            absurd (omega (arith, r.larger))
        | inr other ↦ other
      ],
    )
