-- ===== src/Config/Domains/Normalize.antt =====
-- `_normalize_domain_pool` of proxy/config.py.
use tg_ws_proxy_rust.Prelude.{
  ℕ, ◌≡◌, refl, ap, ◌∙◌, Bool, true, false, not, ◌||◌, List, [], ◌∷◌, length, is_empty, get_or, all,
  All, ltb, ◌==◌, ==_iff, if◌then◌else◌, inl, inr, Bool-cases,
}
use tg_ws_proxy_rust.Prelude.Bytes.{bytes_in}
use tg_ws_proxy_rust.Prelude.Text.{
  Text, is_space, strip, strip-id, split_where, split_where-All_back,
}
use tg_ws_proxy_rust.Config.Domains.{
  last_or, any, is_dot, is_valid_label, is_valid_domain, normalize_from, normalize_domain_pool,
}

if-false : (a b : Bool) → (if a then false else b) ≡ true → b ≡ true
if-false true b h = cc
if-false false b h = h

not-false : (a : Bool) → not a ≡ false → a ≡ true
not-false true h = refl
not-false false h = cc

all-All :
    (p : Text → Bool) (Q : Text → Type 0) (ts : List Text)
    → ((t : Text) → p t ≡ true → Q t)
    → all p ts ≡ true
    → All Q ts
all-All p Q [] f h = tt
all-All p Q (t ∷ ts) f h = elim (Bool-cases (p t)) [
  | inl e ↦ (f t e, all-All p Q ts f (rw e at h))
  | inr e ↦ let no : false ≡ true = rw e at h in absurd (cc)
]

all_chars :
    (p : ℕ → Bool) (Q : ℕ → Type 0) (t : Text)
    → ((c : ℕ) → p c ≡ true → Q c)
    → all p t ≡ true
    → All Q t
all_chars p Q [] f h = tt
all_chars p Q (c ∷ cs) f h = elim (Bool-cases (p c)) [
  | inl e ↦ (f c e, all_chars p Q cs f (rw e at h))
  | inr e ↦ let no : false ≡ true = rw e at h in absurd (cc)
]

if-not-false : (a b : Bool) → (if not a then false else b) ≡ true → a ≡ true
if-not-false true b h = refl
if-not-false false b h = cc

space_at : (c k : ℕ) → (c == k) ≡ true → is_space k ≡ false → is_space c ≡ false
space_at c k e h = ap is_space ((==_iff c k).0 e) ∙ h

module _ (is_alnum is_alpha : ℕ → Bool) (lower : Text → Text) where
  -- Valid lower-case domains, all different, and none of them in `seen`.
  abbrev pub ValidFrom : List Text → List Text → Type 0
  ValidFrom seen [] = Unit {0}
  ValidFrom seen (t ∷ ts) =
      (is_valid_domain is_alnum is_alpha t ≡ true)
      × (lower t ≡ t)
      × (bytes_in t seen ≡ false)
      × ValidFrom (t ∷ seen) ts

  is_valid_domain-labels :
      (t : Text)
      → is_valid_domain is_alnum is_alpha t ≡ true
      → all (is_valid_label is_alnum is_alpha) (split_where is_dot t) ≡ true
  unfolding is_valid_domain
  is_valid_domain-labels t h =
      let tld = last_or (split_where is_dot t) [] in
      if-not-false _ (if ltb (length tld) 2 || not (any is_alpha tld) then false else true) (
        if-false (ltb (length (split_where is_dot t)) 2) _ (
          if-false (is_dot (get_or t 0 0) || is_dot (last_or t 0)) _
            (if-false (is_empty t || ltb 253 (length t)) _ h)))

  normalize_from-ValidFrom :
      ((t : Text) → lower (lower t) ≡ lower t)
      → (seen domains : List Text)
      → ValidFrom seen (normalize_from is_alnum is_alpha lower seen domains)
  unfolding normalize_from
  normalize_from-ValidFrom again seen [] = tt
  normalize_from-ValidFrom again seen (d ∷ ds) =
      let item = lower (strip is_space d) in
      elim (Bool-cases (is_valid_domain is_alnum is_alpha item)) [
        | inr bad ↦ rw bad (normalize_from-ValidFrom again seen ds)
        | inl ok ↦ elim (Bool-cases (bytes_in item seen)) [
          | inl e ↦ rw (ok, e) (normalize_from-ValidFrom again seen ds)
          | inr e ↦
              rw (ok, e)
                (ok, again (strip is_space d), e, normalize_from-ValidFrom again (item ∷ seen) ds)
        ]
      ]

  module _ (alnum_not_space : (c : ℕ) → is_alnum c ≡ true → is_space c ≡ false) where
    label_char : (c : ℕ) → (is_alnum c || (c == b'-')) ≡ true → is_space c ≡ false
    label_char c h = elim (Bool-cases (is_alnum c)) [
      | inl e ↦ alnum_not_space c e
      | inr e ↦ space_at c b'-' (rw e at h) refl
    ]

    is_valid_label-chars :
        (t : Text) → is_valid_label is_alnum is_alpha t ≡ true → All (λ c. is_space c ≡ false) t
    unfolding is_valid_label
    is_valid_label-chars t h =
        all_chars (λ c. is_alnum c || (c == b'-')) _ t label_char (if-false _ _ (if-false _ _ h))

    strip-valid : (t : Text) → is_valid_domain is_alnum is_alpha t ≡ true → strip is_space t ≡ t
    strip-valid t h = strip-id is_space t (
        split_where-All_back is_dot (λ c. is_space c ≡ false) t (λ c e. space_at c b'.' e refl)
          (all-All (is_valid_label is_alnum is_alpha) _ _ is_valid_label-chars
            (is_valid_domain-labels t h)))

    normalize_from_self :
        (seen ts : List Text)
        → ValidFrom seen ts
        → normalize_from is_alnum is_alpha lower seen ts ≡ ts
    unfolding normalize_from
    normalize_from_self seen [] h = refl
    normalize_from_self seen (t ∷ ts) h =
        rw (strip-valid t h.0, h.1, h.0, h.2) (ap (◌∷◌ t) (normalize_from_self (t ∷ seen) ts h.3))

-- A letter or digit is no blank, and a lower-case text stays as it is when it is made lower case.
-- Then every pool of domains is made of valid lower-case domains, each once, and a pool of that kind
-- is kept as it is.
pub normalize_domain_pool-Valid :
    (is_alnum is_alpha : ℕ → Bool) (lower : Text → Text)
    → ((c : ℕ) → is_alnum c ≡ true → is_space c ≡ false)
    → ((t : Text) → lower (lower t) ≡ lower t)
    → (domains : List Text)
    → let pool = normalize_domain_pool is_alnum is_alpha lower domains in
      ValidFrom is_alnum is_alpha lower [] pool
      × (normalize_domain_pool is_alnum is_alpha lower pool ≡ pool)
unfolding normalize_domain_pool
normalize_domain_pool-Valid is_alnum is_alpha lower not_space again domains =
    let valid = normalize_from-ValidFrom is_alnum is_alpha lower again [] domains in
    (valid, normalize_from_self is_alnum is_alpha lower not_space [] _ valid)
