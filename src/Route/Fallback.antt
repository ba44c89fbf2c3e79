-- ===== src/Route/Fallback.antt =====
-- Which fallback serves a session.
use tg_ws_proxy_rust.Prelude.{ℕ, ltb, ◌≡◌, Bool, true, false, not, ◌&&◌, ◌||◌, List, [], ◌∷◌, arith}
use tg_ws_proxy_rust.Route.{Method, cf_worker, cf, tcp, methods, try_methods, do_fallback}

-- The order: a Cloudflare worker, the Cloudflare proxy, direct TCP.
abbrev pub place : Method → ℕ
place cf_worker = 0
place cf = 1
place tcp = 2

abbrev pub has : Method → List Method → Bool
has m [] = false
has cf_worker (cf_worker ∷ ms) = true
has cf_worker (cf ∷ ms) = has cf_worker ms
has cf_worker (tcp ∷ ms) = has cf_worker ms
has cf (cf_worker ∷ ms) = has cf ms
has cf (cf ∷ ms) = true
has cf (tcp ∷ ms) = has cf ms
has tcp (cf_worker ∷ ms) = has tcp ms
has tcp (cf ∷ ms) = has tcp ms
has tcp (tcp ∷ ms) = true

abbrev pub is_ordered : List Method → Bool
is_ordered [] = true
is_ordered (m ∷ []) = true
is_ordered (m ∷ (n ∷ ms)) = ltb (place m) (place n) && is_ordered (n ∷ ms)

-- What was tried, and the result: each allowed method unless one before it served.
pub record Tried (worker cf_proxy direct : Bool) (works : Method → Bool) (r : List Method × Bool)
    : Type 0 where
  pub ordered : is_ordered r.0 ≡ true
  pub tries_worker : has cf_worker r.0 ≡ worker
  pub tries_cf : has cf r.0 ≡ cf_proxy && not (worker && works cf_worker)
  pub tries_tcp :
      has tcp r.0 ≡ direct && not (worker && works cf_worker) && not (cf_proxy && works cf)
  pub result : r.1 ≡ (worker && works cf_worker) || (cf_proxy && works cf) || (direct && works tcp)

-- `do_fallback` tries a Cloudflare worker, the Cloudflare proxy and direct TCP in this order, those
-- that the configuration and the data centre allow, each unless one before it served the session. It
-- returns true exactly if an allowed one serves: a worker needs worker domains and a default
-- address, the proxy its setting, and TCP a default address.
pub do_fallback-Tried :
    (worker_domains use_cf dst : Bool) (works : Method → Bool)
    → Tried (worker_domains && dst) use_cf dst works (do_fallback worker_domains use_cf dst works)
unfolding do_fallback methods try_methods
do_fallback-Tried worker_domains use_cf dst works = record {
  ordered = ground arith;
  tries_worker = ground arith;
  tries_cf = ground arith;
  tries_tcp = ground arith;
  result = ground arith;
}
