-- ===== src/Server/Handler/Accounted.antt =====
-- The account of one session of `_handle_client`, on every path, exceptions included.
use tg_ws_proxy_rust.Prelude.{
  ℕ, suc, ◌+◌, ◌≤◌, ◌≡◌, refl, sym, ap, subst, ◌∙◌, Bool, true, false, not, ◌||◌, List, [], ◌∷◌,
  ◌++◌, append-nil, append_assoc, Option, none, some, if◌then◌else◌, inl, inr, Bool-cases, arith,
}
use tg_ws_proxy_rust.Prelude.Bytes.{Bytes}
use tg_ws_proxy_rust.Stats.{same_kind, record_dc}
use tg_ws_proxy_rust.Cipher.{Evp}
use tg_ws_proxy_rust.Handshake.{
  Hello, Tried, accepted, rejected, value_error, dc_idx, try_handshake, generate_relay_init,
  CryptoCtx,
}
use tg_ws_proxy_rust.Pool.{dc_only, Got, hit, miss, type_error, get}
use tg_ws_proxy_rust.Route.{Tries, no_tries, note_tries}
use tg_ws_proxy_rust.ClientInit.{
  Init, direct, over_tls, masked, redirected, disconnected, out_of_fuel,
}
use tg_ws_proxy_rust.Server.World.{
  Run, done, raised, direct_ws, Effect, client_closed, Config, Proxy, Answers, count_total,
  count_bad, count_masked, remember,
}
use tg_ws_proxy_rust.Server.Fallback.Ended.{
  outcomes, Counted, OneLink, Ended, EndedAs, Counted-refl, EndedAs-trans, serve-Ended,
  fall_back-Ended,
}
use tg_ws_proxy_rust.Server.Handler.{
  attempts, after_attempts, after_tries, after_get, with_options, close_client, try_ws, route,
  with_ctx, with_relay, refused, with_tried, with_init, handle_client,
}

-- The 64 bytes that the client began with.
abbrev pub handshake_of : Run Init → Option Bytes
handshake_of raised = none
handshake_of (done (direct handshake s)) = some handshake
handshake_of (done (over_tls handshake s)) = some handshake
handshake_of (done (masked client_hello s)) = none
handshake_of (done redirected) = none
handshake_of (done disconnected) = none
handshake_of (done out_of_fuel) = none

bad : (p : Proxy) → Counted 1 [] p (count_bad p)
bad p = record { total = refl; active = refl; came = omega arith; trace = sym (append-nil p.trace) }

EndedAs-Ended :
    (Q : Bytes → Type 0) (p : Proxy) (r : Run Bool × Proxy) → EndedAs Q p r → Ended Q p r.1
EndedAs-Ended Q p (done false, q) h = (0, [], omega arith, OneLink.nothing, h)
EndedAs-Ended Q p (done true, q) h = h
EndedAs-Ended Q p (raised, q) h = h

module _ (evp : Evp) (sha256 : Bytes → Bytes) (config : Config) (a : Answers) where
  -- The relay init is the one made for the data centre and the protocol of the client's handshake,
  -- which the secret opens.
  pub record Announced (relay_init : Bytes) : Type 0 where
    pub handshake : Bytes
    pub hello : Hello
    pub begun : handshake_of a.init ≡ some handshake
    pub opened : try_handshake evp sha256 handshake config.secret ≡ accepted hello
    pub made :
        generate_relay_init evp a.draws a.salt hello.proto_tag (dc_idx hello) ≡ some relay_init

  -- What a session leaves behind.
  pub record Accounted (p q : Proxy) : Type 0 where
    pub total : q.stats.connections_total ≡ suc p.stats.connections_total
    pub active : q.stats.connections_active ≡ p.stats.connections_active
    pub n : ℕ
    pub at_most_one : n ≤ 1
    pub came : outcomes q.stats ≡ n + outcomes p.stats
    pub es : List Effect
    pub link : OneLink Announced es
    pub trace : q.trace ≡ p.trace ++ (es ++ (client_closed ∷ []))

  module _ (hello : Hello) (relay_init : Bytes) (g : Announced relay_init) where
    after_attempts-Ended :
        (ws : Option ℕ) (p : Proxy)
        → EndedAs Announced p (after_attempts evp sha256 config a relay_init hello ws p)
    unfolding after_attempts record_dc
    after_attempts-Ended none p = fall_back-Ended Announced relay_init g a hello.dc_id config p
    after_attempts-Ended (some ws) p = serve-Ended Announced relay_init g a (direct_ws ws) (record {
      total = refl;
      active = refl;
      came = omega arith;
      trace = sym (append-nil p.trace);
    })

    EndedAs-if :
        (b : Bool) (p : Proxy) (x y : Run Bool × Proxy)
        → EndedAs Announced p x
        → EndedAs Announced p y
        → EndedAs Announced p (if b then x else y)
    EndedAs-if true p x y h k = h
    EndedAs-if false p x y h k = k

    after_tries-Ended :
        (t : Tries) (p : Proxy)
        → EndedAs Announced p (after_tries evp sha256 config a relay_init hello t p)
    unfolding after_tries
    after_tries-Ended t p =
        let counted : Proxy = record p { stats = record p.stats { ws_errors = t.ws_errors } } in
        let noted = note_tries a.now t (p.memory hello.dc_id hello.is_media) in
        let p' : Proxy = remember hello.dc_id hello.is_media noted counted in
        let same : Counted 0 [] p counted = record {
          total = refl;
          active = refl;
          came = omega arith;
          trace = sym (append-nil p.trace);
        } in
        EndedAs-if t.was_cancelled p (raised, counted) _ (0, [], omega arith, OneLink.nothing, same)
          (EndedAs-trans Announced _
            (record {
              total = refl;
              active = refl;
              came = omega arith;
              trace = sym (append-nil p.trace);
            })
            (after_attempts-Ended t.ws p'))

    after_get-Ended :
        (got : Got) (p : Proxy)
        → EndedAs Announced p (after_get evp sha256 config a relay_init hello got p)
    unfolding after_get
    after_get-Ended (hit ws) p =
        after_tries-Ended (record (no_tries p.stats.ws_errors) { ws = some ws }) p
    after_get-Ended miss p = after_tries-Ended (attempts a hello p) p
    after_get-Ended type_error p = (0, [], omega arith, OneLink.nothing, Counted-refl p)

    try_ws-Ended : (p : Proxy) → EndedAs Announced p (try_ws evp sha256 config a relay_init hello p)
    unfolding try_ws
    try_ws-Ended p =
        let (got, pool) = get same_kind (dc_only hello.dc_id) a.now a.gone p.ws_pool in
        EndedAs-trans Announced _
          (record {
            total = refl;
            active = refl;
            came = omega arith;
            trace = sym (append-nil p.trace);
          })
          (after_get-Ended got (record p { ws_pool = pool }))

    route-Ended : (p : Proxy) → EndedAs Announced p (route evp sha256 config a relay_init hello p)
    unfolding route
    route-Ended p =
        elim (Bool-cases (
          not (config.in_redirects hello.dc_id)
          || (p.memory hello.dc_id hello.is_media).blacklisted)) [
            | inl away ↦ rw away (fall_back-Ended Announced relay_init g a hello.dc_id config p)
            | inr on ↦ rw on (try_ws-Ended p)
          ]

    with_ctx-Ended :
        (ctx : Option (CryptoCtx evp sha256)) (p : Proxy)
        → EndedAs Announced p (with_ctx evp sha256 config a relay_init hello ctx p)
    unfolding with_ctx
    with_ctx-Ended none p = (0, [], omega arith, OneLink.nothing, Counted-refl p)
    with_ctx-Ended (some ctx) p = route-Ended p

  module _ (handshake : Bytes) (begun : handshake_of a.init ≡ some handshake) where
    with_relay-Ended :
        (hello : Hello) (relay_init : Option Bytes) (p : Proxy)
        → try_handshake evp sha256 handshake config.secret ≡ accepted hello
        → generate_relay_init evp a.draws a.salt hello.proto_tag (dc_idx hello) ≡ relay_init
        → EndedAs Announced p (with_relay evp sha256 config a hello relay_init p)
    unfolding with_relay
    with_relay-Ended hello none p e f = (0, [], omega arith, OneLink.nothing, Counted-refl p)
    with_relay-Ended hello (some relay_init) p e f =
        with_ctx-Ended hello relay_init
          (record { handshake = handshake; hello = hello; begun = begun; opened = e; made = f }) _ p

    refused-Ended :
        (r : Run (Unit {0})) (p : Proxy)
        → Ended Announced p (refused evp sha256 config a r (count_bad p)).1
    unfolding refused
    refused-Ended (done u) p = (1, [], omega arith, OneLink.nothing, bad p)
    refused-Ended raised p = (1, [], omega arith, OneLink.nothing, bad p)

    with_tried-Ended :
        (tried : Tried) (p : Proxy)
        → try_handshake evp sha256 handshake config.secret ≡ tried
        → Ended Announced p (with_tried evp sha256 config a tried p).1
    unfolding with_tried
    with_tried-Ended value_error p e = (0, [], omega arith, OneLink.nothing, Counted-refl p)
    with_tried-Ended rejected p e = refused-Ended a.drained p
    with_tried-Ended (accepted hello) p e = EndedAs-Ended Announced p _ (
        with_relay-Ended hello
          (generate_relay_init evp a.draws a.salt hello.proto_tag (dc_idx hello)) p e refl)

  masked-Ended : (m : Bool) (p : Proxy) → Ended Announced p (if m then count_masked p else p)
  masked-Ended true p = (
    1,
    [],
    omega arith,
    OneLink.nothing,
    record { total = refl; active = refl; came = omega arith; trace = sym (append-nil p.trace) },
  )
  masked-Ended false p = (0, [], omega arith, OneLink.nothing, Counted-refl p)

  with_init-Ended :
      (init : Run Init) (p : Proxy)
      → handshake_of a.init ≡ handshake_of init
      → Ended Announced p (with_init evp sha256 config a init p).1
  unfolding with_init
  with_init-Ended raised p e = (0, [], omega arith, OneLink.nothing, Counted-refl p)
  with_init-Ended (done (direct handshake s)) p e = with_tried-Ended handshake e _ p refl
  with_init-Ended (done (over_tls handshake s)) p e = with_tried-Ended handshake e _ p refl
  with_init-Ended (done (masked client_hello s)) p e = masked-Ended a.masked p
  with_init-Ended (done redirected) p e = (0, [], omega arith, OneLink.nothing, Counted-refl p)
  with_init-Ended (done disconnected) p e = (0, [], omega arith, OneLink.nothing, Counted-refl p)
  with_init-Ended (done out_of_fuel) p e = (0, [], omega arith, OneLink.nothing, Counted-refl p)

-- `set_sock_opts` and the lines before it raise nothing. Then whatever the client sends, and
-- whatever fails, raises or is cancelled inside the `try`, a session counts one more connection in
-- all and as many active ones as before; it counts at most once as refused, masked, or served on one
-- of the three ways; it runs at most one bridge, over a link on which it has sent the relay init of
-- the client's own handshake; and the last it does is to close the client.
pub handle_client-Accounted :
    (evp : Evp) (sha256 : Bytes → Bytes) (config : Config) (a : Answers) (p : Proxy)
    → a.options ≡ done tt
    → Accounted evp sha256 config a p (handle_client evp sha256 config a p)
unfolding handle_client with_options
handle_client-Accounted evp sha256 config a p set =
    let (n, es, le, link, k) = with_init-Ended evp sha256 config a a.init (count_total p) refl in
    let inside : Accounted evp sha256 config a p (
        close_client evp sha256 config a (with_init evp sha256 config a a.init (count_total p)).1) =
      record {
        total = k.total;
        active = omega (arith, k.active);
        n = n;
        at_most_one = le;
        came = k.came;
        es = es;
        link = link;
        trace =
            ap (λ (t : List Effect). t ++ (client_closed ∷ [])) k.trace
            ∙ append_assoc p.trace es (client_closed ∷ []);
      } in
    subst
      (λ o. Accounted evp sha256 config a p (with_options evp sha256 config a o (count_total p)))
      (sym set) inside
