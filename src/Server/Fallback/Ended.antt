-- ===== src/Server/Fallback/Ended.antt =====
-- What the ways to Telegram leave behind: the counters, and what was relayed and bridged.
use tg_ws_proxy_rust.Prelude.{
  ℕ, ◌+◌, ◌≤◌, ◌≡◌, refl, sym, ap, ◌∙◌, Bool, true, false, List, [], ◌∷◌, ◌++◌, append-nil,
  is_empty, if◌then◌else◌, arith,
}
use tg_ws_proxy_rust.Prelude.Bytes.{Bytes, bytes_eq}
use tg_ws_proxy_rust.Stats.{Stats}
use tg_ws_proxy_rust.Pool.{dc_only, Got, hit, miss, type_error, get}
use tg_ws_proxy_rust.Balancer.{get_domains_for_dc, update_domain_for_dc}
use tg_ws_proxy_rust.Route.{
  Attempt, session, redirect, handshake_error, failed, cancelled, Method, cf_worker, cf, tcp, Found,
  found, not_found, interrupted, first_session,
}
use tg_ws_proxy_rust.Server.World.{
  Run, done, raised, Link, worker_ws, cf_ws, tcp_link, Effect, relayed, bridged, Config, Proxy,
  Answers, count_cfproxy,
}
use tg_ws_proxy_rust.Server.Fallback.{
  as_true, serve_after, serve, worker_round, worker_loop, cf_after, cfproxy_fallback, tcp_fallback,
  run_method, or_next, run_methods, fall_back,
}

-- The sessions that came to something: refused, masked, or on one of the three ways.
abbrev pub outcomes : Stats → ℕ
outcomes s =
    s.connections_bad + s.connections_masked + s.connections_ws + s.connections_tcp_fallback
    + s.connections_cfproxy

-- From `p` to `q` no session began or ended, `n` came to something, and `es` happened.
pub record Counted (n : ℕ) (es : List Effect) (p q : Proxy) : Type 0 where
  pub total : q.stats.connections_total ≡ p.stats.connections_total
  pub active : q.stats.connections_active ≡ p.stats.connections_active
  pub came : outcomes q.stats ≡ n + outcomes p.stats
  pub trace : q.trace ≡ p.trace ++ es

-- Nothing, or one link over which a relay init of the kind `Q` went out before the bridge ran.
pub data OneLink (Q : Bytes → Type 0) : List Effect → Type 0 where
  nothing : OneLink Q []
  one :
      (link : Link) (relay_init : Bytes)
      → Q relay_init
      → OneLink Q (relayed link relay_init ∷ bridged link ∷ [])

abbrev pub Ended : (Bytes → Type 0) → Proxy → Proxy → Type 0
Ended Q p q = (n : ℕ) × (es : List Effect) × (n ≤ 1) × OneLink Q es × Counted n es p q

-- A way that did not work left all as it was.
abbrev pub EndedAs : (Bytes → Type 0) → Proxy → Run Bool × Proxy → Type 0
EndedAs Q p (done false, q) = Counted 0 [] p q
EndedAs Q p (done true, q) = Ended Q p q
EndedAs Q p (raised, q) = Ended Q p q

pub Counted-trans :
    (es : List Effect) (n : ℕ) {p q r : Proxy}
    → Counted 0 [] p q
    → Counted n es q r
    → Counted n es p r
Counted-trans es n {p} h k = record {
  total = k.total ∙ h.total;
  active = k.active ∙ h.active;
  came = omega (arith, k.came, h.came);
  trace = k.trace ∙ ap (λ (t : List Effect). t ++ es) (h.trace ∙ append-nil p.trace);
}

pub Counted_same : (p q : Proxy) → q.stats ≡ p.stats → q.trace ≡ p.trace → Counted 0 [] p q
Counted_same p q e f = record {
  total = ap (λ (s : Stats). s.connections_total) e;
  active = ap (λ (s : Stats). s.connections_active) e;
  came = ap outcomes e ∙ omega arith;
  trace = f ∙ sym (append-nil p.trace);
}

pub Counted-refl : (p : Proxy) → Counted 0 [] p p
Counted-refl p = Counted_same p p refl refl

module _ (Q : Bytes → Type 0) where
  pub EndedAs-trans :
      {p q : Proxy} (r : Run Bool × Proxy) → Counted 0 [] p q → EndedAs Q q r → EndedAs Q p r
  EndedAs-trans (done false, r) h k = Counted-trans [] 0 h k
  EndedAs-trans (done true, r) h (n, es, le, link, k) = (n, es, le, link, Counted-trans es n h k)
  EndedAs-trans (raised, r) h (n, es, le, link, k) = (n, es, le, link, Counted-trans es n h k)

  or_next-Ended :
      (next : Proxy → Run Bool × Proxy)
      → ((q : Proxy) → EndedAs Q q (next q))
      → (p : Proxy) (r : Run Bool × Proxy) → EndedAs Q p r
      → EndedAs Q p (or_next next r)
  unfolding or_next
  or_next-Ended next h p (done false, q) k = EndedAs-trans (next q) k (h q)
  or_next-Ended next h p (done true, q) k = k
  or_next-Ended next h p (raised, q) k = k

  as_true-EndedAs : {p q : Proxy} (b : Run (Unit {0})) → Ended Q p q → EndedAs Q p (as_true b, q)
  as_true-EndedAs (done u) h = h
  as_true-EndedAs raised h = h

module _ (Q : Bytes → Type 0) (relay_init : Bytes) (good : Q relay_init) (a : Answers) where
  serve_after-Ended :
      (link : Link) {p q : Proxy} (sent : Run (Unit {0}))
      → Counted 1 [] p q
      → EndedAs Q p (serve_after link relay_init a q sent)
  unfolding serve_after
  serve_after-Ended link raised h = (1, [], omega arith, OneLink.nothing, h)
  serve_after-Ended link {p} {q} (done u) h = as_true-EndedAs Q (a.bridge link) (
    1,
    relayed link relay_init ∷ bridged link ∷ [],
    omega arith,
    OneLink.one link relay_init good,
    record {
      total = h.total;
      active = h.active;
      came = h.came;
      trace =
          ap (λ (t : List Effect). t ++ (relayed link relay_init ∷ bridged link ∷ []))
            (h.trace ∙ append-nil p.trace);
    },
  )

  pub serve-Ended :
      (link : Link) {p q : Proxy} → Counted 1 [] p q → EndedAs Q p (serve link relay_init a q)
  unfolding serve
  serve-Ended link h = serve_after-Ended link (a.relay link) h

  module _ (dc : ℕ) where
    served_cf : (link : Link) (p : Proxy) → EndedAs Q p (serve link relay_init a (count_cfproxy p))
    served_cf link p = serve-Ended link (record {
      total = refl;
      active = refl;
      came = omega arith;
      trace = sym (append-nil p.trace);
    })

    worker_round-Ended :
        (next : Proxy → Run Bool × Proxy)
        → ((q : Proxy) → EndedAs Q q (next q))
        → (got : Got) (attempt : Attempt) (p : Proxy)
        → EndedAs Q p (worker_round relay_init dc a next got attempt p)
    unfolding worker_round
    worker_round-Ended next h (hit ws) attempt p = served_cf (worker_ws ws) p
    worker_round-Ended next h miss (session ws) p = served_cf (worker_ws ws) p
    worker_round-Ended next h miss redirect p = h p
    worker_round-Ended next h miss handshake_error p = h p
    worker_round-Ended next h miss failed p = h p
    worker_round-Ended next h miss cancelled p =
        (0, [], omega arith, OneLink.nothing, Counted-refl p)
    worker_round-Ended next h type_error attempt p =
        (0, [], omega arith, OneLink.nothing, Counted-refl p)

    worker_loop-Ended :
        (domains : List Bytes) (p : Proxy) → EndedAs Q p (worker_loop relay_init dc a domains p)
    unfolding worker_loop
    worker_loop-Ended [] p = Counted-refl p
    worker_loop-Ended (d ∷ ds) p =
        let (got, pool) = get bytes_eq (dc_only dc) a.now a.gone p.cf_worker_pool in
        let p' : Proxy = record p { cf_worker_pool = pool } in
        EndedAs-trans Q _ (Counted_same p p' refl refl) (
          worker_round-Ended (worker_loop relay_init dc a ds) (worker_loop-Ended ds) got
            (a.connect_worker d) p')

    cf_after-Ended :
        (chosen : Found Bytes) (p : Proxy) → EndedAs Q p (cf_after relay_init dc a chosen p)
    unfolding cf_after
    cf_after-Ended not_found p = Counted-refl p
    cf_after-Ended interrupted p = (0, [], omega arith, OneLink.nothing, Counted-refl p)
    cf_after-Ended (found d ws) p =
        let p' : Proxy = record p {
          balancer = if is_empty d then p.balancer else (update_domain_for_dc dc d p.balancer).1;
        } in
        EndedAs-trans Q _ (Counted_same p p' refl refl) (served_cf (cf_ws ws) p')

    tcp_fallback-Ended :
        (connected : Bool) (p : Proxy) → EndedAs Q p (tcp_fallback relay_init dc a connected p)
    unfolding tcp_fallback
    tcp_fallback-Ended false p = Counted-refl p
    tcp_fallback-Ended true p = serve-Ended tcp_link (record {
      total = refl;
      active = refl;
      came = omega arith;
      trace = sym (append-nil p.trace);
    })

    run_method-Ended :
        (method : Method) (p : Proxy) → EndedAs Q p (run_method relay_init dc a method p)
    unfolding run_method cfproxy_fallback
    run_method-Ended cf_worker p = worker_loop-Ended a.shuffled_workers p
    run_method-Ended cf p =
        cf_after-Ended
          (first_session a.connect_cf (get_domains_for_dc dc a.shuffled_domains p.balancer)) p
    run_method-Ended tcp p = tcp_fallback-Ended a.connect_tcp p

    run_methods-Ended :
        (ms : List Method) (p : Proxy) → EndedAs Q p (run_methods relay_init dc a ms p)
    unfolding run_methods
    run_methods-Ended [] p = Counted-refl p
    run_methods-Ended (method ∷ rest) p =
        or_next-Ended Q (run_methods relay_init dc a rest) (run_methods-Ended rest) p
          (run_method relay_init dc a method p) (run_method-Ended method p)

    pub fall_back-Ended :
        (config : Config) (p : Proxy) → EndedAs Q p (fall_back relay_init dc a config p)
    unfolding fall_back
    fall_back-Ended config p = run_methods-Ended _ p
