-- ===== src/Config/Domains.antt =====
-- proxy/config.py: `coerce_domain_list`, `_is_valid_domain` and `_normalize_domain_pool`.
pub mod Coerce
pub mod Normalize
use tg_ws_proxy_rust.Prelude.{
  ℕ, zero, suc, ◌+◌, Bool, true, false, not, ◌&&◌, ◌||◌, List, [], ◌∷◌, ◌++◌, Option, none, some,
  length, reverse, is_empty, get_or, all, ltb, leb, ◌==◌, if◌then◌else◌,
}
use tg_ws_proxy_rust.Prelude.Bytes.{bytes_in}
use tg_ws_proxy_rust.Prelude.Text.{Text, is_space, replace, words, strip, split_where, contains}

-- What a caller hands in: a `str`, a list or tuple with `none` for an entry that is no `str`, or
-- anything else.
pub data Value : Type 0 where
  str : Text → Value
  seq : List (Option Text) → Value
  other : Value

-- entry.replace(',', ' ').replace(';', ' ').split()
pub items_of : Text → List Text
items_of entry = words is_space (replace b';' b' ' (replace b',' b' ' entry))

unfoldable pub items_of_entries : List (Option Text) → List Text
items_of_entries [] = []
items_of_entries (none ∷ entries) = items_of_entries entries
items_of_entries (some entry ∷ entries) = items_of entry ++ items_of_entries entries

module _ (lower : Text → Text) where
  -- The loop over the items; `seen` holds the lower-case keys.
  unfoldable pub coerce_items : List Text → List Text → List Text
  coerce_items seen [] = []
  coerce_items seen (raw ∷ items) =
      let item = strip is_space raw in
      let key = lower item in
      let without = coerce_items seen items in
      let with_item = item ∷ coerce_items (key ∷ seen) items in
      if is_empty item then without else if bytes_in key seen then without else with_item

  unfoldable pub coerce_domain_list : Value → List Text
  coerce_domain_list (str s) = coerce_items [] (items_of s)
  coerce_domain_list (seq entries) = coerce_items [] (items_of_entries entries)
  coerce_domain_list other = []

-- xs[-1], or `d` for an empty list
abbrev pub last_or {ℓ} : {A : Type ℓ} → List A → A → A
last_or xs d = get_or (reverse xs) 0 d

abbrev pub any : (ℕ → Bool) → Text → Bool
any p [] = false
any p (c ∷ cs) = p c || any p cs

abbrev pub is_dot : ℕ → Bool
is_dot c = c == b'.'

module _ (is_alnum is_alpha : ℕ → Bool) where
  -- One round of the loop over the labels.
  pub is_valid_label : Text → Bool
  is_valid_label label =
      if is_empty label || ltb 63 (length label)
      then false
      else if (get_or label 0 0 == b'-') || (last_or label 0 == b'-')
      then false
      else all (λ ch. is_alnum ch || (ch == b'-')) label

  pub is_valid_domain : Text → Bool
  is_valid_domain domain =
      let labels = split_where is_dot domain in
      let tld = last_or labels [] in
      if is_empty domain || ltb 253 (length domain)
      then false
      else if is_dot (get_or domain 0 0) || is_dot (last_or domain 0)
      then false
      else if ltb (length labels) 2
      then false
      else if not (all is_valid_label labels)
      then false
      else if ltb (length tld) 2 || not (any is_alpha tld)
      then false
      else true

  module _ (lower : Text → Text) where
    pub normalize_from : List Text → List Text → List Text
    normalize_from seen [] = []
    normalize_from seen (domain ∷ domains) =
        let item = lower (strip is_space domain) in
        let without = normalize_from seen domains in
        let with_item = item ∷ normalize_from (item ∷ seen) domains in
        if not (is_valid_domain item)
        then without
        else if bytes_in item seen
        then without
        else with_item

    pub normalize_domain_pool : List Text → List Text
    normalize_domain_pool domains = normalize_from [] domains
