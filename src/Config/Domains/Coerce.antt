-- ===== src/Config/Domains/Coerce.antt =====
-- `coerce_domain_list` of proxy/config.py.
use tg_ws_proxy_rust.Prelude.{
  ℕ, ◌≡◌, refl, ap, ◌∙◌, false, List, [], ◌∷◌, ◌++◌, Option, none, some, is_empty, All, All-append,
  map, ◌==◌, inl, inr, Bool-cases,
}
use tg_ws_proxy_rust.Prelude.Bytes.{bytes_in}
use tg_ws_proxy_rust.Prelude.Text.{
  Text, is_space, replace, words, strip, strip-id, split_where-All, nonempty-All, words-single,
}
use tg_ws_proxy_rust.Config.Domains.{
  Value, items_of, items_of_entries, coerce_items, coerce_domain_list,
}

-- Neither a blank nor one of the separators.
abbrev pub IsPlain : ℕ → Type 0
IsPlain c = (is_space c ≡ false) × ((c == b',') ≡ false) × ((c == b';') ≡ false)

abbrev pub IsItem : Text → Type 0
IsItem t = (is_empty t ≡ false) × All IsPlain t

-- Items without blanks and separators, no two of them, and none of them and one of `seen`, the same
-- but for the case of their letters.
abbrev pub Clean : (Text → Text) → List Text → List Text → Type 0
Clean lower seen [] = Unit {0}
Clean lower seen (t ∷ ts) =
    IsItem t × (bytes_in (lower t) seen ≡ false) × Clean lower (lower t ∷ seen) ts

replace-All :
    (P Q : ℕ → Type 0) (a b : ℕ) (s : Text)
    → Q b
    → ((c : ℕ) → (c == a) ≡ false → P c → Q c)
    → All P s
    → All Q (replace a b s)
replace-All P Q a b [] hb h k = tt
replace-All P Q a b (c ∷ cs) hb h k = elim (Bool-cases (c == a)) [
  | inl e ↦ rw e (hb, replace-All P Q a b cs hb h k.1)
  | inr e ↦ rw e (h c e k.0, replace-All P Q a b cs hb h k.1)
]

all_units : (s : Text) → All (λ c. Unit {0}) s
all_units [] = tt
all_units (c ∷ cs) = (tt, all_units cs)

abbrev IsNoSeparator : ℕ → Type 0
IsNoSeparator c = ((c == b',') ≡ false) × ((c == b';') ≡ false)

replace-IsNoSeparator : (s : Text) → All IsNoSeparator (replace b';' b' ' (replace b',' b' ' s))
replace-IsNoSeparator s =
    replace-All (λ c. (c == b',') ≡ false) IsNoSeparator b';' b' ' _ (refl, refl)
      (λ c semi comma. (comma, semi))
      (replace-All (λ c. Unit {0}) (λ c. (c == b',') ≡ false) b',' b' ' s refl (λ c comma u. comma)
        (all_units s))

pub All-map : (P Q : ℕ → Type 0) (s : Text) → ((c : ℕ) → P c → Q c) → All P s → All Q s
All-map P Q [] h k = tt
All-map P Q (c ∷ cs) h k = (h c k.0, All-map P Q cs h k.1)

items_of-IsItem : (s : Text) → All IsItem (items_of s)
unfolding items_of
items_of-IsItem s = nonempty-All IsPlain _ (
    split_where-All is_space IsPlain _ (
      All-map IsNoSeparator (λ c. is_space c ≡ false → IsPlain c) _ (λ c k blank. (blank, k.0, k.1))
        (replace-IsNoSeparator s)))

items_of_entries-IsItem : (entries : List (Option Text)) → All IsItem (items_of_entries entries)
unfolding items_of_entries
items_of_entries-IsItem [] = tt
items_of_entries-IsItem (none ∷ entries) = items_of_entries-IsItem entries
items_of_entries-IsItem (some s ∷ entries) =
    All-append IsItem (items_of s) _ (items_of-IsItem s) (items_of_entries-IsItem entries)

-- Items that are plain stay what they are.
replace-id : (a b : ℕ) (s : Text) → All (λ c. (c == a) ≡ false) s → replace a b s ≡ s
replace-id a b [] h = refl
replace-id a b (c ∷ cs) h = rw h.0 (ap (◌∷◌ c) (replace-id a b cs h.1))

strip-IsPlain : (t : Text) → All IsPlain t → strip is_space t ≡ t
strip-IsPlain t h = strip-id is_space t (All-map IsPlain _ t (λ c k. k.0) h)

items_of_self : (t : Text) → IsItem t → items_of t ≡ t ∷ []
unfolding items_of
items_of_self [] h = cc
items_of_self (c ∷ cs) h =
    ap (λ (s : Text). words is_space (replace b';' b' ' s))
      (replace-id b',' b' ' (c ∷ cs) (All-map IsPlain _ (c ∷ cs) (λ x k. k.1) h.1))
    ∙ ap (words is_space)
        (replace-id b';' b' ' (c ∷ cs) (All-map IsPlain _ (c ∷ cs) (λ x k. k.2) h.1))
    ∙ words-single is_space c cs (All-map IsPlain _ (c ∷ cs) (λ x k. k.0) h.1)

module _ (lower : Text → Text) where
  Clean-IsItem : (seen ts : List Text) → Clean lower seen ts → All IsItem ts
  Clean-IsItem seen [] h = tt
  Clean-IsItem seen (t ∷ ts) h = (h.0, Clean-IsItem (lower t ∷ seen) ts h.2)

  coerce_items-Clean :
      (seen items : List Text) → All IsItem items → Clean lower seen (coerce_items lower seen items)
  unfolding coerce_items
  coerce_items-Clean seen [] h = tt
  coerce_items-Clean seen (t ∷ ts) h = elim (Bool-cases (bytes_in (lower t) seen)) [
    | inl e ↦ rw (strip-IsPlain t h.0.1, h.0.0, e) (coerce_items-Clean seen ts h.1)
    | inr e ↦
        rw (strip-IsPlain t h.0.1, h.0.0, e) (h.0, e, coerce_items-Clean (lower t ∷ seen) ts h.1)
  ]

  coerce_items_self : (seen ts : List Text) → Clean lower seen ts → coerce_items lower seen ts ≡ ts
  unfolding coerce_items
  coerce_items_self seen [] h = refl
  coerce_items_self seen (t ∷ ts) h =
      rw (strip-IsPlain t h.0.1, h.0.0, h.1)
        (ap (◌∷◌ t) (coerce_items_self (lower t ∷ seen) ts h.2))

items_of_entries_self : (ts : List Text) → All IsItem ts → items_of_entries (map some ts) ≡ ts
unfolding items_of_entries
items_of_entries_self [] h = refl
items_of_entries_self (t ∷ ts) h =
    ap (λ (xs : List Text). xs ++ items_of_entries (map some ts)) (items_of_self t h.0)
    ∙ ap (◌∷◌ t) (items_of_entries_self ts h.1)

-- Whatever value is handed in, the list has no empty item, no blank, comma or semicolon in an item
-- and no two items that differ only in case; and a list of that kind is kept as it is.
pub coerce_domain_list-Clean :
    (lower : Text → Text) (value : Value)
    → Clean lower [] (coerce_domain_list lower value)
      × (coerce_domain_list lower (Value.seq (map some (coerce_domain_list lower value)))
          ≡ coerce_domain_list lower value)
unfolding coerce_domain_list
coerce_domain_list-Clean lower value = (clean value, again _ (clean value))
  where
    clean : (v : Value) → Clean lower [] (coerce_domain_list lower v)
    clean (Value.str s) = coerce_items-Clean lower [] _ (items_of-IsItem s)
    clean (Value.seq entries) = coerce_items-Clean lower [] _ (items_of_entries-IsItem entries)
    clean Value.other = tt

    again :
        (ts : List Text)
        → Clean lower [] ts
        → coerce_items lower [] (items_of_entries (map some ts)) ≡ ts
    again ts h =
        ap (coerce_items lower []) (items_of_entries_self ts (Clean-IsItem lower [] ts h))
        ∙ coerce_items_self lower [] ts h
