-- ===== src/Config/Refresh.antt =====
-- proxy/config.py: `refresh_cfproxy_domains` and the task of `start_cfproxy_domain_refresh`, on the
-- balancer. A round of the task is what its wait for the stop event came to, with the response of
-- the fetch that follows a time-out. `choose` is the index that random.choice takes in a list of a
-- given length. The wait for an older task to end is left out.
use tg_ws_proxy_rust.Prelude.{
  ℕ, ◌≤◌, ◌<◌, ◌≡◌, ◌≢◌, ◌⊎◌, Bool, not, List, [], ◌∷◌, Option, length, map, is_empty, leb, leb→le,
  if◌then◌else◌, inl, inr, Bool-cases, arith,
}
use tg_ws_proxy_rust.Prelude.Text.{Text}
use tg_ws_proxy_rust.Balancer.{
  Balancer, Outcome, unchanged, updated, index_error, update_domains_list,
}
use tg_ws_proxy_rust.Balancer.Served.{Serves, update_domains_list-Serves}
use tg_ws_proxy_rust.Config.Domains.{normalize_domain_pool}
use tg_ws_proxy_rust.Config.Decode.{dd, fetch_cfproxy_domain_list}

abbrev pub cfproxy_enc : List Text
cfproxy_enc =
    (b'v' ∷ b'i' ∷ b'r' ∷ b'k' ∷ b'g' ∷ b'j' ∷ b'.' ∷ b'c' ∷ b'o' ∷ b'm' ∷ [])
    ∷ (b'v' ∷ b'm' ∷ b'm' ∷ b'z' ∷ b'o' ∷ b'v' ∷ b'y' ∷ b'.' ∷ b'c' ∷ b'o' ∷ b'm' ∷ [])
    ∷ (b'm' ∷ b'k' ∷ b'u' ∷ b'o' ∷ b's' ∷ b'c' ∷ b'k' ∷ b'v' ∷ b's' ∷ b'o' ∷ b'.' ∷ b'c' ∷ b'o'
        ∷ b'm' ∷ [])
    ∷ (b'z' ∷ b'a' ∷ b'e' ∷ b'w' ∷ b'a' ∷ b'y' ∷ b'z' ∷ b'm' ∷ b'p' ∷ b'l' ∷ b'a' ∷ b'd' ∷ b'.'
        ∷ b'c' ∷ b'o' ∷ b'm' ∷ [])
    ∷ (b't' ∷ b'w' ∷ b'd' ∷ b'm' ∷ b'b' ∷ b'z' ∷ b'c' ∷ b'm' ∷ b'.' ∷ b'c' ∷ b'o' ∷ b'm' ∷ [])
    ∷ (b'a' ∷ b'w' ∷ b'z' ∷ b'w' ∷ b's' ∷ b'l' ∷ b'd' ∷ b'i' ∷ b'.' ∷ b'c' ∷ b'o' ∷ b'm' ∷ [])
    ∷ (b'c' ∷ b'l' ∷ b'n' ∷ b'g' ∷ b'q' ∷ b'r' ∷ b'f' ∷ b'l' ∷ b'n' ∷ b'g' ∷ b'q' ∷ b'i' ∷ b'n'
        ∷ b'.' ∷ b'c' ∷ b'o' ∷ b'm' ∷ [])
    ∷ (b't' ∷ b'j' ∷ b'a' ∷ b'c' ∷ b'x' ∷ b'b' ∷ b'q' ∷ b't' ∷ b'j' ∷ b'.' ∷ b'c' ∷ b'o' ∷ b'm'
        ∷ [])
    ∷ (b'b' ∷ b'x' ∷ b'a' ∷ b'x' ∷ b't' ∷ b'x' ∷ b'm' ∷ b'r' ∷ b'w' ∷ b'.' ∷ b'c' ∷ b'o' ∷ b'm'
        ∷ [])
    ∷ (b'd' ∷ b'm' ∷ b'o' ∷ b'h' ∷ b'r' ∷ b's' ∷ b'g' ∷ b'm' ∷ b'o' ∷ b'h' ∷ b'c' ∷ b'r' ∷ b'w'
        ∷ b'b' ∷ b'.' ∷ b'c' ∷ b'o' ∷ b'm' ∷ [])
    ∷ (b'v' ∷ b'w' ∷ b'b' ∷ b'm' ∷ b't' ∷ b'm' ∷ b'o' ∷ b'i' ∷ b'.' ∷ b'c' ∷ b'o' ∷ b'm' ∷ [])
    ∷ (b'k' ∷ b'h' ∷ b'g' ∷ b'r' ∷ b'r' ∷ b'e' ∷ b'.' ∷ b'c' ∷ b'o' ∷ b'm' ∷ [])
    ∷ (b'u' ∷ b'l' ∷ b'i' ∷ b'h' ∷ b's' ∷ b's' ∷ b'f' ∷ b'.' ∷ b'c' ∷ b'o' ∷ b'm' ∷ [])
    ∷ (b't' ∷ b'm' ∷ b'h' ∷ b'q' ∷ b's' ∷ b'd' ∷ b'q' ∷ b'm' ∷ b'f' ∷ b'p' ∷ b'm' ∷ b'k' ∷ b'.'
        ∷ b'c' ∷ b'o' ∷ b'm' ∷ [])
    ∷ (b'x' ∷ b'w' ∷ b'u' ∷ b'w' ∷ b'o' ∷ b'q' ∷ b'b' ∷ b'm' ∷ b'.' ∷ b'c' ∷ b'o' ∷ b'm' ∷ [])
    ∷ []

abbrev pub cfproxy_min_valid_domains : ℕ
cfproxy_min_valid_domains = 3

pub data Round : Type 0 where
  stopped : Round
  timed_out : Option Text → Round

module _ (is_alnum is_alpha : ℕ → Bool) (lower : Text → Text) (choose : ℕ → ℕ → ℕ) where
  abbrev pub pool_of : Option Text → List Text
  pool_of response =
      normalize_domain_pool is_alnum is_alpha lower (fetch_cfproxy_domain_list is_alpha response)

  pub refresh_cfproxy_domains : List Text → Option Text → Balancer → Outcome × Balancer
  refresh_cfproxy_domains user_domains response b =
      let pool = pool_of response in
      if not (is_empty user_domains)
      then (unchanged, b)
      else if leb cfproxy_min_valid_domains (length pool)
      then update_domains_list (choose (length pool)) pool b
      else (unchanged, b)

  -- An exception ends the task.
  refresh_rounds : List Text → List Round → Outcome × Balancer → Outcome × Balancer
  refresh_rounds user_domains rounds (index_error, b) = (index_error, b)
  refresh_rounds user_domains [] (unchanged, b) = (unchanged, b)
  refresh_rounds user_domains [] (updated, b) = (updated, b)
  refresh_rounds user_domains (stopped ∷ rounds) (unchanged, b) = (unchanged, b)
  refresh_rounds user_domains (stopped ∷ rounds) (updated, b) = (updated, b)
  refresh_rounds user_domains (timed_out response ∷ rounds) (unchanged, b) =
      refresh_rounds user_domains rounds (refresh_cfproxy_domains user_domains response b)
  refresh_rounds user_domains (timed_out response ∷ rounds) (updated, b) =
      refresh_rounds user_domains rounds (refresh_cfproxy_domains user_domains response b)

  abbrev pub cfproxy_default_domains : List Text
  cfproxy_default_domains = map (dd is_alpha) cfproxy_enc

  refresh_task : List Text → Option Text → List Round → Outcome × Balancer → Outcome × Balancer
  refresh_task user_domains response rounds (index_error, b) = (index_error, b)
  refresh_task user_domains response rounds (unchanged, b) =
      refresh_rounds user_domains rounds (refresh_cfproxy_domains user_domains response b)
  refresh_task user_domains response rounds (updated, b) =
      refresh_rounds user_domains rounds (refresh_cfproxy_domains user_domains response b)

  pub start_cfproxy_domain_refresh :
      List Text → Option Text → List Round → Balancer → Outcome × Balancer
  unfolding refresh_task refresh_rounds
  start_cfproxy_domain_refresh user_domains response rounds b =
      refresh_task user_domains response rounds
        (update_domains_list (choose (length cfproxy_default_domains)) cfproxy_default_domains b)

  -- Nothing was raised, and the balancer serves.
  abbrev pub IsGood : Outcome × Balancer → Type 0
  IsGood (o, b) = (o ≢ index_error) × Serves b

  module _ (in_range : (n dc : ℕ) → 1 ≤ n → choose n dc < n) where
    pub update-IsGood :
        (ds : List Text) (b : Balancer)
        → 1 ≤ length ds
        → (b.domains ≡ []) ⊎ Serves b
        → IsGood (update_domains_list (choose (length ds)) ds b)
    update-IsGood ds b h k =
        let (fine, serves, which) =
          update_domains_list-Serves (choose (length ds)) ds b k h
            (λ dc. in_range (length ds) dc h) in
        (fine, serves)

    refresh_cfproxy_domains-IsGood :
        (user_domains : List Text) (response : Option Text) (b : Balancer)
        → Serves b
        → IsGood (refresh_cfproxy_domains user_domains response b)
    unfolding refresh_cfproxy_domains
    refresh_cfproxy_domains-IsGood user_domains response b h =
        elim (Bool-cases (not (is_empty user_domains))) [
          | inl e ↦ rw e (λ q. cc, h)
          | inr e ↦ elim (Bool-cases (leb 3 (length (pool_of response)))) [
            | inl enough ↦
                let three = leb→le 3 (length (pool_of response)) enough in
                rw (e, enough) (update-IsGood (pool_of response) b (omega arith) (inr h))
            | inr few ↦ rw (e, few) (λ q. cc, h)
          ]
        ]

    refresh_rounds-IsGood :
        (user_domains : List Text) (rounds : List Round) (r : Outcome × Balancer)
        → IsGood r
        → IsGood (refresh_rounds user_domains rounds r)
    unfolding refresh_rounds
    refresh_rounds-IsGood user_domains rounds (index_error, b) h = h
    refresh_rounds-IsGood user_domains [] (unchanged, b) h = h
    refresh_rounds-IsGood user_domains [] (updated, b) h = h
    refresh_rounds-IsGood user_domains (stopped ∷ rounds) (unchanged, b) h = h
    refresh_rounds-IsGood user_domains (stopped ∷ rounds) (updated, b) h = h
    refresh_rounds-IsGood user_domains (timed_out response ∷ rounds) (unchanged, b) h =
        refresh_rounds-IsGood user_domains rounds _
          (refresh_cfproxy_domains-IsGood user_domains response b h.1)
    refresh_rounds-IsGood user_domains (timed_out response ∷ rounds) (updated, b) h =
        refresh_rounds-IsGood user_domains rounds _
          (refresh_cfproxy_domains-IsGood user_domains response b h.1)

    refresh_task-IsGood :
        (user_domains : List Text) (response : Option Text) (rounds : List Round)
        → (r : Outcome × Balancer) → IsGood r
        → IsGood (refresh_task user_domains response rounds r)
    unfolding refresh_task
    refresh_task-IsGood user_domains response rounds (index_error, b) h = h
    refresh_task-IsGood user_domains response rounds (unchanged, b) h =
        refresh_rounds-IsGood user_domains rounds _
          (refresh_cfproxy_domains-IsGood user_domains response b h.1)
    refresh_task-IsGood user_domains response rounds (updated, b) h =
        refresh_rounds-IsGood user_domains rounds _
          (refresh_cfproxy_domains-IsGood user_domains response b h.1)

-- random.choice takes an index of its list. From a balancer without domains, or one that serves,
-- the refresh task raises no IndexError, whatever its fetches bring and however many rounds it has
-- run, and every data centre has a domain of the pool.
pub start_cfproxy_domain_refresh-IsGood :
    (is_alnum is_alpha : ℕ → Bool) (lower : Text → Text) (choose : ℕ → ℕ → ℕ)
    → ((n dc : ℕ) → 1 ≤ n → choose n dc < n)
    → (user_domains : List Text) (response : Option Text) (rounds : List Round) (b : Balancer)
    → (b.domains ≡ []) ⊎ Serves b
    → IsGood is_alnum is_alpha lower choose
        (start_cfproxy_domain_refresh is_alnum is_alpha lower choose user_domains response rounds b)
unfolding start_cfproxy_domain_refresh
start_cfproxy_domain_refresh-IsGood is_alnum is_alpha lower choose in_range user_domains response
      rounds b h =
    refresh_task-IsGood is_alnum is_alpha lower choose in_range user_domains response rounds _ (
      update-IsGood is_alnum is_alpha lower choose in_range
        (cfproxy_default_domains is_alnum is_alpha lower choose) b (omega arith) h)
