-- ===== src/Balancer.antt =====
-- `_Balancer` of proxy/balancer.py. Domains are byte strings. What random.shuffle and random.choice
-- yield are arguments: a list, and an index for each data centre.
pub mod Order
pub mod Served
use tg_ws_proxy_rust.Prelude.{
  ℕ, zero, suc, ◌+◌, Bool, true, false, ◌&&◌, ◌||◌, List, [], ◌∷◌, ◌++◌, Option, none, some, get_or,
  is_empty, all, ◌==◌, if◌then◌else◌,
}
use tg_ws_proxy_rust.Prelude.Bytes.{Bytes, bytes_eq}

pub record Balancer : Type 0 where
  pub domains : List Bytes
  pub dc_to_domain : ℕ → Option Bytes

abbrev pub count : Bytes → List Bytes → ℕ
count d [] = 0
count d (x ∷ xs) = if bytes_eq d x then suc (count d xs) else count d xs

-- Counter(xs) == Counter(ys)
abbrev pub same_counts : List Bytes → List Bytes → Bool
same_counts xs ys = all (λ d. count d xs == count d ys) (xs ++ ys)

abbrev pub is_dc : ℕ → Bool
is_dc n = n == 1 || n == 2 || n == 3 || n == 4 || n == 5 || n == 203

-- `index_error` is what random.choice raises on an empty list; the domains are set before it.
pub data Outcome : Type 0 where
  unchanged updated index_error : Outcome

pub update_domains_list : (ℕ → ℕ) → List Bytes → Balancer → Outcome × Balancer
update_domains_list pick domains_list b =
    if same_counts b.domains domains_list
    then (unchanged, b)
    else if is_empty domains_list
    then (index_error, record b { domains = domains_list })
    else (
      updated,
      record {
        domains = domains_list;
        dc_to_domain = λ dc. if is_dc dc then some (get_or domains_list (pick dc) []) else none;
      },
    )

abbrev pub is_current : Bytes → Option Bytes → Bool
is_current domain none = false
is_current domain (some d) = bytes_eq d domain

pub update_domain_for_dc : ℕ → Bytes → Balancer → Bool × Balancer
update_domain_for_dc dc_id domain b =
    if is_current domain (b.dc_to_domain dc_id) then (false, b) else (
      true,
      record b { dc_to_domain = λ dc. if dc == dc_id then some domain else b.dc_to_domain dc },
    )

abbrev pub others : Bytes → List Bytes → List Bytes
others current [] = []
others current (d ∷ ds) =
    let rest = others current ds in if bytes_eq d current then rest else d ∷ rest

-- All that the generator yields.
pub get_domains_for_dc : ℕ → List Bytes → Balancer → List Bytes
get_domains_for_dc dc_id shuffled_domains b = elim (b.dc_to_domain dc_id) [
  | none ↦ shuffled_domains
  | some current ↦ current ∷ others current shuffled_domains
]
