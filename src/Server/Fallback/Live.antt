-- ===== src/Server/Fallback/Live.antt =====
-- A way that connects serves the session.
use tg_ws_proxy_rust.Prelude.{
  ℕ, ◌≡◌, refl, sym, ap, subst, ◌∙◌, Bool, true, false, not, List, [], ◌∷◌, ◌++◌, is_empty,
  if◌then◌else◌,
}
use tg_ws_proxy_rust.Prelude.Bytes.{Bytes, bytes_eq}
use tg_ws_proxy_rust.Pool.{dc_only, miss, Pool, get}
use tg_ws_proxy_rust.Pool.Keys.{Step, Reach, IsKeyed, Reach-IsKeyed, get-dc_only-eq-miss}
use tg_ws_proxy_rust.Balancer.{update_domain_for_dc}
use tg_ws_proxy_rust.Route.{
  Attempt, session, redirect, handshake_error, failed, cancelled, Found, found, not_found,
  interrupted, Method, cf_worker, cf, tcp, methods,
}
use tg_ws_proxy_rust.Route.Over.{IsOver, IsFound, first_session-IsFound}
use tg_ws_proxy_rust.Server.World.{
  Run, done, raised, Link, worker_ws, cf_ws, tcp_link, Effect, relayed, bridged, Config, Proxy,
  Answers, count_cfproxy, count_tcp,
}
use tg_ws_proxy_rust.Server.Fallback.{
  as_true, serve_after, serve, worker_round, worker_loop, cf_after, cfproxy_fallback, tcp_fallback,
  run_method, or_next, run_methods, fall_back, has_default_ip,
}

-- A bridge ran, after the relay init.
abbrev pub Bridged : Bytes → Proxy → Proxy → Type 0
Bridged relay_init p q =
    (link : Link) × (q.trace ≡ p.trace ++ (relayed link relay_init ∷ bridged link ∷ []))

-- The calls of the session leave a pool keyed.
pub get-dc_only-IsKeyed :
    {A : Type 0} (same : A → A → Bool) (dc now : ℕ) (gone : ℕ → Bool) (p : Pool same)
    → IsKeyed same p
    → ((get same (dc_only dc) now gone p).0 ≡ miss)
      × IsKeyed same (get same (dc_only dc) now gone p).1
get-dc_only-IsKeyed same dc now gone p h = (
  get-dc_only-eq-miss same dc now gone h Reach.here,
  Reach-IsKeyed same h (Reach.next Reach.here (Step.got p (dc_only dc) now gone)),
)

abbrev pub BridgedAs : Bytes → Proxy → Run Bool × Proxy → Type 0
BridgedAs r p (done false, q) = (q.trace ≡ p.trace) × IsKeyed bytes_eq q.cf_worker_pool
BridgedAs r p (done true, q) = Bridged r p q
BridgedAs r p (raised, q) = Bridged r p q

module _ (relay_init : Bytes) (a : Answers) (sends : (link : Link) → a.relay link ≡ done tt) where
  Bridged-same :
      (p q r : Proxy) → q.trace ≡ p.trace → Bridged relay_init q r → Bridged relay_init p r
  Bridged-same p q r h (link, k) =
      (link, k ∙ ap (λ (t : List Effect). t ++ (relayed link relay_init ∷ bridged link ∷ [])) h)

  BridgedAs-trans :
      (p q : Proxy) (r : Run Bool × Proxy)
      → q.trace ≡ p.trace
      → BridgedAs relay_init q r
      → BridgedAs relay_init p r
  BridgedAs-trans p q (done false, r) h (k, keyed) = (k ∙ h, keyed)
  BridgedAs-trans p q (done true, r) h k = Bridged-same p q r h k
  BridgedAs-trans p q (raised, r) h k = Bridged-same p q r h k

  as_true-Bridged :
      (p q : Proxy) (b : Run (Unit {0}))
      → Bridged relay_init p q
      → BridgedAs relay_init p (as_true b, q)
  as_true-Bridged p q (done u) h = h
  as_true-Bridged p q raised h = h

  serve-BridgedAs : (link : Link) (p : Proxy) → BridgedAs relay_init p (serve link relay_init a p)
  unfolding serve serve_after
  serve-BridgedAs link p =
      subst (λ sent. BridgedAs relay_init p (serve_after link relay_init a p sent))
        (sym (sends link)) (as_true-Bridged p _ (a.bridge link) (link, refl))

  pub serve-Bridged : (link : Link) (p : Proxy) → Bridged relay_init p (serve link relay_init a p).1
  unfolding serve serve_after
  serve-Bridged link p =
      subst (λ sent. Bridged relay_init p (serve_after link relay_init a p sent).1)
        (sym (sends link)) (link, refl)

  module _ (dc : ℕ) where
    worker_round-BridgedAs :
        (next : Proxy → Run Bool × Proxy) (attempt : Attempt) (p : Proxy)
        → IsOver attempt
        → BridgedAs relay_init p (next p)
        → BridgedAs relay_init p (worker_round relay_init dc a next miss attempt p)
    unfolding worker_round
    worker_round-BridgedAs next (session ws) p over h =
        serve-BridgedAs (worker_ws ws) (count_cfproxy p)
    worker_round-BridgedAs next redirect p over h = h
    worker_round-BridgedAs next handshake_error p over h = h
    worker_round-BridgedAs next failed p over h = h
    worker_round-BridgedAs next cancelled p over h = absurd over

    worker_loop-BridgedAs :
        (domains : List Bytes) (p : Proxy)
        → ((d : Bytes) → IsOver (a.connect_worker d))
        → IsKeyed bytes_eq p.cf_worker_pool
        → BridgedAs relay_init p (worker_loop relay_init dc a domains p)
    unfolding worker_loop
    worker_loop-BridgedAs [] p over keyed = (refl, keyed)
    worker_loop-BridgedAs (d ∷ ds) p over keyed =
        let r = get bytes_eq (dc_only dc) a.now a.gone p.cf_worker_pool in
        let p' : Proxy = record p { cf_worker_pool = r.1 } in
        let k = get-dc_only-IsKeyed bytes_eq dc a.now a.gone p.cf_worker_pool keyed in
        let again = worker_loop relay_init dc a ds in
        BridgedAs-trans p p' _ refl (
          subst
            (λ got.
              BridgedAs relay_init p'
                (worker_round relay_init dc a again got (a.connect_worker d) p'))
            (sym k.0)
            (worker_round-BridgedAs again (a.connect_worker d) p' (over d)
              (worker_loop-BridgedAs ds p' over k.1)))

    cf_after-BridgedAs :
        (chosen : Found Bytes) (p : Proxy)
        → IsFound chosen
        → IsKeyed bytes_eq p.cf_worker_pool
        → BridgedAs relay_init p (cf_after relay_init dc a chosen p)
    unfolding cf_after
    cf_after-BridgedAs not_found p over keyed = (refl, keyed)
    cf_after-BridgedAs interrupted p over keyed = absurd over
    cf_after-BridgedAs (found d ws) p over keyed =
        let p' : Proxy = record p {
          balancer = if is_empty d then p.balancer else (update_domain_for_dc dc d p.balancer).1;
        } in
        BridgedAs-trans p p' _ refl (serve-BridgedAs (cf_ws ws) (count_cfproxy p'))

    tcp_fallback-BridgedAs :
        (connected : Bool) (p : Proxy)
        → IsKeyed bytes_eq p.cf_worker_pool
        → BridgedAs relay_init p (tcp_fallback relay_init dc a connected p)
    unfolding tcp_fallback
    tcp_fallback-BridgedAs false p keyed = (refl, keyed)
    tcp_fallback-BridgedAs true p keyed = serve-BridgedAs tcp_link (count_tcp p)

    run_method-BridgedAs :
        (method : Method) (p : Proxy)
        → ((d : Bytes) → IsOver (a.connect_worker d))
        → ((d : Bytes) → IsOver (a.connect_cf d))
        → IsKeyed bytes_eq p.cf_worker_pool
        → BridgedAs relay_init p (run_method relay_init dc a method p)
    unfolding run_method cfproxy_fallback
    run_method-BridgedAs cf_worker p w c keyed = worker_loop-BridgedAs a.shuffled_workers p w keyed
    run_method-BridgedAs cf p w c keyed =
        cf_after-BridgedAs _ p (first_session-IsFound a.connect_cf _ c) keyed
    run_method-BridgedAs tcp p w c keyed = tcp_fallback-BridgedAs a.connect_tcp p keyed

    or_next-Bridged :
        (next : Proxy → Run Bool × Proxy)
        → ((q : Proxy) → IsKeyed bytes_eq q.cf_worker_pool → Bridged relay_init q (next q).1)
        → (p : Proxy) (r : Run Bool × Proxy) → BridgedAs relay_init p r
        → Bridged relay_init p (or_next next r).1
    unfolding or_next
    or_next-Bridged next h p (done false, q) (k, keyed) = Bridged-same p q (next q).1 k (h q keyed)
    or_next-Bridged next h p (done true, q) k = k
    or_next-Bridged next h p (raised, q) k = k

    or_next-served :
        (next : Proxy → Run Bool × Proxy) (p q : Proxy) (b : Run (Unit {0}))
        → Bridged relay_init p q
        → Bridged relay_init p (or_next next (as_true b, q)).1
    unfolding or_next
    or_next-served next p q (done u) h = h
    or_next-served next p q raised h = h

    module _ (connects : a.connect_tcp ≡ true) (w : (d : Bytes) → IsOver (a.connect_worker d))
        (c : (d : Bytes) → IsOver (a.connect_cf d)) where
      run_tcp : (p : Proxy) → Bridged relay_init p (run_methods relay_init dc a (tcp ∷ []) p).1
      unfolding run_methods run_method tcp_fallback serve serve_after
      run_tcp p =
          let next = run_methods relay_init dc a [] in
          subst (λ b. Bridged relay_init p (or_next next (tcp_fallback relay_init dc a b p)).1)
            (sym connects)
            (subst
              (λ sent.
                Bridged relay_init p
                  (or_next next (serve_after tcp_link relay_init a (count_tcp p) sent)).1)
              (sym (sends tcp_link)) (or_next-served next p _ (a.bridge tcp_link) (tcp_link, refl)))

      run_methods-Bridged :
          (ms : List Method) (p : Proxy)
          → IsKeyed bytes_eq p.cf_worker_pool
          → Bridged relay_init p (run_methods relay_init dc a (ms ++ (tcp ∷ [])) p).1
      unfolding run_methods
      run_methods-Bridged [] p keyed = run_tcp p
      run_methods-Bridged (m ∷ ms) p keyed =
          or_next-Bridged (run_methods relay_init dc a (ms ++ (tcp ∷ []))) (run_methods-Bridged ms)
            p _ (run_method-BridgedAs m p w c keyed)

      run_all :
          (b u : Bool) (p : Proxy)
          → IsKeyed bytes_eq p.cf_worker_pool
          → Bridged relay_init p (run_methods relay_init dc a (methods b u true) p).1
      unfolding methods
      run_all true true p keyed = run_methods-Bridged (cf_worker ∷ cf ∷ []) p keyed
      run_all true false p keyed = run_methods-Bridged (cf_worker ∷ []) p keyed
      run_all false true p keyed = run_methods-Bridged (cf ∷ []) p keyed
      run_all false false p keyed = run_methods-Bridged [] p keyed

      pub fall_back-Bridged :
          (config : Config) (p : Proxy)
          → has_default_ip dc ≡ true
          → IsKeyed bytes_eq p.cf_worker_pool
          → Bridged relay_init p (fall_back relay_init dc a config p).1
      unfolding fall_back
      fall_back-Bridged config p known keyed =
          subst
            (λ b.
              Bridged relay_init p
                (run_methods relay_init dc a
                  (methods (not (is_empty config.cfproxy_worker_domains)) config.fallback_cfproxy b)
                  p).1)
            (sym known) (run_all _ config.fallback_cfproxy p keyed)
