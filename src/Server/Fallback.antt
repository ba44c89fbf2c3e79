-- ===== src/Server/Fallback.antt =====
-- `do_fallback`, `_cfproxy_worker_fallback`, `_cfproxy_fallback` and `_tcp_fallback` of
-- proxy/bridge.py, on the state of the proxy.
pub mod Ended
pub mod Live
use tg_ws_proxy_rust.Prelude.{
  ℕ, suc, ◌+◌, Bool, true, false, not, ◌||◌, List, [], ◌∷◌, ◌++◌, Option, none, some, is_empty,
  ◌==◌, if◌then◌else◌,
}
use tg_ws_proxy_rust.Prelude.Bytes.{Bytes, bytes_eq}
use tg_ws_proxy_rust.Balancer.{get_domains_for_dc, update_domain_for_dc}
use tg_ws_proxy_rust.Pool.{Key, dc_only, Got, hit, miss, type_error, get}
use tg_ws_proxy_rust.Route.{
  Attempt, session, redirect, handshake_error, failed, cancelled, Method, cf_worker, cf, tcp,
  methods, Found, found, not_found, interrupted, first_session,
}
use tg_ws_proxy_rust.Server.World.{
  Run, done, raised, Link, worker_ws, cf_ws, tcp_link, relayed, bridged, Config, Proxy, Answers,
  count_cfproxy, count_tcp, count_bytes,
}

abbrev pub as_true : Run (Unit {0}) → Run Bool
as_true (done u) = done true
as_true raised = raised

-- The end of every way: the relay init is sent, and the bridge runs.
pub serve_after : Link → Bytes → Answers → Proxy → Run (Unit {0}) → Run Bool × Proxy
serve_after link relay_init a p raised = (raised, p)
serve_after link relay_init a p (done u) = (
  as_true (a.bridge link),
  record p {
    stats = count_bytes (a.moved link) p.stats;
    trace = p.trace ++ (relayed link relay_init ∷ bridged link ∷ []);
  },
)

pub serve : Link → Bytes → Answers → Proxy → Run Bool × Proxy
unfolding serve_after
serve link relay_init a p = serve_after link relay_init a p (a.relay link)

-- DC_DEFAULT_IPS has the key.
abbrev pub has_default_ip : ℕ → Bool
has_default_ip dc = dc == 1 || dc == 2 || dc == 3 || dc == 4 || dc == 5 || dc == 203

pub or_next : (Proxy → Run Bool × Proxy) → Run Bool × Proxy → Run Bool × Proxy
or_next next (done false, p) = next p
or_next next (done true, p) = (done true, p)
or_next next (raised, p) = (raised, p)

module _ (relay_init : Bytes) (dc : ℕ) (a : Answers) where
  -- A round of the loop over the workers: `got` is what the pool gave, `next` the rounds that follow.
  pub worker_round : (Proxy → Run Bool × Proxy) → Got → Attempt → Proxy → Run Bool × Proxy
  worker_round next (hit ws) attempt p = serve (worker_ws ws) relay_init a (count_cfproxy p)
  worker_round next miss (session ws) p = serve (worker_ws ws) relay_init a (count_cfproxy p)
  worker_round next miss redirect p = next p
  worker_round next miss handshake_error p = next p
  worker_round next miss failed p = next p
  worker_round next miss cancelled p = (raised, p)
  worker_round next type_error attempt p = (raised, p)

  pub worker_loop : List Bytes → Proxy → Run Bool × Proxy
  worker_loop [] p = (done false, p)
  worker_loop (worker_domain ∷ domains) p =
      let (got, pool) = get bytes_eq (dc_only dc) a.now a.gone p.cf_worker_pool in
      worker_round (worker_loop domains) got (a.connect_worker worker_domain)
        (record p { cf_worker_pool = pool })

  pub cf_after : Found Bytes → Proxy → Run Bool × Proxy
  cf_after not_found p = (done false, p)
  cf_after interrupted p = (raised, p)
  cf_after (found chosen_domain ws) p =
      let switched =
        if is_empty chosen_domain
        then p.balancer
        else (update_domain_for_dc dc chosen_domain p.balancer).1 in
      serve (cf_ws ws) relay_init a (count_cfproxy (record p { balancer = switched }))

  pub cfproxy_fallback : Proxy → Run Bool × Proxy
  cfproxy_fallback p =
      cf_after (first_session a.connect_cf (get_domains_for_dc dc a.shuffled_domains p.balancer)) p

  pub tcp_fallback : Bool → Proxy → Run Bool × Proxy
  tcp_fallback false p = (done false, p)
  tcp_fallback true p = serve tcp_link relay_init a (count_tcp p)

  pub run_method : Method → Proxy → Run Bool × Proxy
  run_method cf_worker p = worker_loop a.shuffled_workers p
  run_method cf p = cfproxy_fallback p
  run_method tcp p = tcp_fallback a.connect_tcp p

  pub run_methods : List Method → Proxy → Run Bool × Proxy
  run_methods [] p = (done false, p)
  run_methods (method ∷ rest) p = or_next (run_methods rest) (run_method method p)

  pub fall_back : Config → Proxy → Run Bool × Proxy
  fall_back config p =
      run_methods
        (methods (not (is_empty config.cfproxy_worker_domains)) config.fallback_cfproxy
          (has_default_ip dc))
        p
