-- ===== src/Server/Start.antt =====
-- The beginning of `_run` of proxy/tg_ws_proxy.py: what it resets, and the domains of the balancer.
-- The listening socket, the links that are logged and the warm-up of the pools are left out.
use tg_ws_proxy_rust.Prelude.{
  ℕ, ◌≤◌, ◌<◌, ◌≡◌, ◌≢◌, ◌⊎◌, refl, Bool, true, false, List, [], ◌∷◌, Option, none, length, arith,
}
use tg_ws_proxy_rust.Prelude.Bytes.{bytes_eq}
use tg_ws_proxy_rust.Prelude.Text.{Text}
use tg_ws_proxy_rust.Stats.{same_kind}
use tg_ws_proxy_rust.Balancer.{Balancer, Outcome, unchanged, update_domains_list, index_error}
use tg_ws_proxy_rust.Balancer.Served.{Serves}
use tg_ws_proxy_rust.Pool.{reset}
use tg_ws_proxy_rust.Route.{Memory}
use tg_ws_proxy_rust.Config.Refresh.{
  Round, start_cfproxy_domain_refresh, IsGood, update-IsGood, start_cfproxy_domain_refresh-IsGood,
}
use tg_ws_proxy_rust.Server.World.{Proxy}

abbrev pub forgotten : Memory
forgotten = record { blacklisted = false; fail_until = none }

-- The calls of `reset` and `clear`.
pub reset_proxy : Proxy → Proxy
reset_proxy p = record p {
  ws_pool = reset same_kind p.ws_pool;
  cf_worker_pool = reset bytes_eq p.cf_worker_pool;
  memory = λ dc is_media. forgotten;
}

module _ (is_alnum is_alpha : ℕ → Bool) (lower : Text → Text) (choose : ℕ → ℕ → ℕ) where
  -- The domains of the user, or the task that fetches them.
  pub start_domains : Bool → List Text → Option Text → List Round → Balancer → Outcome × Balancer
  start_domains false user response rounds b = (unchanged, b)
  start_domains true [] response rounds b =
      start_cfproxy_domain_refresh is_alnum is_alpha lower choose [] response rounds b
  start_domains true (d ∷ user) response rounds b =
      update_domains_list (choose (length (d ∷ user))) (d ∷ user) b

  pub start : Bool → List Text → Option Text → List Round → Proxy → Outcome × Proxy
  unfolding reset_proxy start_domains
  start fallback_cfproxy user response rounds p =
      let (outcome, balancer) = start_domains fallback_cfproxy user response rounds p.balancer in
      (outcome, record (reset_proxy p) { balancer = balancer })

  module _ (in_range : (n dc : ℕ) → 1 ≤ n → choose n dc < n) where
    start_domains-IsGood :
        (user : List Text) (response : Option Text) (rounds : List Round) (b : Balancer)
        → (b.domains ≡ []) ⊎ Serves b
        → IsGood is_alnum is_alpha lower choose (start_domains true user response rounds b)
    unfolding start_domains
    start_domains-IsGood [] response rounds b h =
        start_cfproxy_domain_refresh-IsGood is_alnum is_alpha lower choose in_range [] response
          rounds b h
    start_domains-IsGood (d ∷ user) response rounds b h =
        update-IsGood is_alnum is_alpha lower choose in_range (d ∷ user) b (omega arith) h

-- random.choice takes an index of its list, and the fallback over proxied domains is on. From a
-- balancer without domains, or one that serves, a run begins without an IndexError, with a domain
-- of the pool for every data centre, with empty pools of connections, and with no data centre
-- blacklisted or cooling down.
pub start-Serves :
    (is_alnum is_alpha : ℕ → Bool) (lower : Text → Text) (choose : ℕ → ℕ → ℕ)
    → ((n dc : ℕ) → 1 ≤ n → choose n dc < n)
    → (user : List Text) (response : Option Text) (rounds : List Round) (p : Proxy)
    → (p.balancer.domains ≡ []) ⊎ Serves p.balancer
    → let (outcome, q) = start is_alnum is_alpha lower choose true user response rounds p in
      (outcome ≢ index_error)
      × Serves q.balancer
      × ((dc : ℕ) (is_media : Bool) → q.memory dc is_media ≡ forgotten)
      × (q.ws_pool.idle ≡ λ k. [])
      × (q.cf_worker_pool.idle ≡ λ k. [])
unfolding start reset
start-Serves is_alnum is_alpha lower choose in_range user response rounds p h =
    let (fine, serves) =
      start_domains-IsGood is_alnum is_alpha lower choose in_range user response rounds p.balancer
        h in
    (fine, serves, λ dc is_media. refl, refl, refl)
