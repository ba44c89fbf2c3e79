-- ===== src/Server/Handler/Live.antt =====
-- A client of the secret is served as long as one way is open.
use tg_ws_proxy_rust.Prelude.{
  ℕ, ◌≡◌, sym, ap, subst, ◌∙◌, refl, true, false, not, ◌||◌, List, [], ◌∷◌, ◌++◌, append_assoc,
  Option, none, some, if◌then◌else◌, inl, inr, Bool-cases,
}
use tg_ws_proxy_rust.Prelude.Bytes.{Bytes, bytes_eq}
use tg_ws_proxy_rust.Stats.{same_kind}
use tg_ws_proxy_rust.Cipher.{Evp}
use tg_ws_proxy_rust.Handshake.{
  Hello, accepted, dc_idx, try_handshake, generate_relay_init, CryptoCtx, build_crypto_ctx,
}
use tg_ws_proxy_rust.Pool.{dc_only, get}
use tg_ws_proxy_rust.Pool.Keys.{IsKeyed}
use tg_ws_proxy_rust.Route.{WsDomain, Tries, no_tries, note_tries, ws_domains, ws_timeout}
use tg_ws_proxy_rust.Route.Over.{IsOver, try_domains-was_cancelled}
use tg_ws_proxy_rust.ClientInit.{
  Init, direct, over_tls, masked, redirected, disconnected, out_of_fuel,
}
use tg_ws_proxy_rust.Server.World.{
  Run, done, raised, Link, direct_ws, Effect, relayed, bridged, client_closed, Config, Proxy,
  Answers, count_total, remember,
}
use tg_ws_proxy_rust.Server.Fallback.{has_default_ip, fall_back}
use tg_ws_proxy_rust.Server.Fallback.Live.{
  Bridged, get-dc_only-IsKeyed, serve-Bridged, fall_back-Bridged,
}
use tg_ws_proxy_rust.Server.Handler.{
  attempts, count_ws, after_attempts, after_tries, after_get, with_options, try_ws, route, with_ctx,
  with_relay, with_tried, with_init, handle_client,
}
use tg_ws_proxy_rust.Server.Handler.Accounted.{handshake_of}

-- No attempt of the session is cancelled.
pub record IsUncancelled (a : Answers) : Type 0 where
  pub direct : (timeout : ℕ) (d : WsDomain) → IsOver (a.connect timeout d)
  pub worker : (d : Bytes) → IsOver (a.connect_worker d)
  pub proxied : (d : Bytes) → IsOver (a.connect_cf d)

-- No connection waits in a pool under a key that is a data centre alone.
pub record ArePoolsKeyed (p : Proxy) : Type 0 where
  pub ws : IsKeyed same_kind p.ws_pool
  pub worker : IsKeyed bytes_eq p.cf_worker_pool

module _ (evp : Evp) (sha256 : Bytes → Bytes) (config : Config) (a : Answers)
    (sends : (link : Link) → a.relay link ≡ done tt) (connects : a.connect_tcp ≡ true)
    (over : IsUncancelled a) (hello : Hello) (known : has_default_ip hello.dc_id ≡ true) where
  module _ (relay_init : Bytes) where
    fall_back-served :
        (p : Proxy)
        → IsKeyed bytes_eq p.cf_worker_pool
        → Bridged relay_init p (fall_back relay_init hello.dc_id a config p).1
    fall_back-served p keyed =
        fall_back-Bridged relay_init a sends hello.dc_id connects over.worker over.proxied config p
          known keyed

    after_attempts-Bridged :
        (ws : Option ℕ) (p : Proxy)
        → IsKeyed bytes_eq p.cf_worker_pool
        → Bridged relay_init p (after_attempts evp sha256 config a relay_init hello ws p).1
    unfolding after_attempts
    after_attempts-Bridged none p keyed = fall_back-served p keyed
    after_attempts-Bridged (some ws) p keyed =
        serve-Bridged relay_init a sends (direct_ws ws) (count_ws hello.dc_id hello.is_media p)

    after_tries-Bridged :
        (t : Tries) (p : Proxy)
        → t.was_cancelled ≡ false
        → IsKeyed bytes_eq p.cf_worker_pool
        → Bridged relay_init p (after_tries evp sha256 config a relay_init hello t p).1
    unfolding after_tries
    after_tries-Bridged t p e keyed =
        let counted : Proxy = record p { stats = record p.stats { ws_errors = t.ws_errors } } in
        let noted = note_tries a.now t (p.memory hello.dc_id hello.is_media) in
        let p' : Proxy = remember hello.dc_id hello.is_media noted counted in
        subst
          (λ b.
            Bridged relay_init p
              (if b
                then (raised, counted)
                else after_attempts evp sha256 config a relay_init hello t.ws p').1)
          (sym e) (after_attempts-Bridged t.ws p' keyed)

    try_ws-Bridged :
        (p : Proxy)
        → ArePoolsKeyed p
        → Bridged relay_init p (try_ws evp sha256 config a relay_init hello p).1
    unfolding try_ws after_get attempts
    try_ws-Bridged p keyed =
        let r = get same_kind (dc_only hello.dc_id) a.now a.gone p.ws_pool in
        let p' : Proxy = record p { ws_pool = r.1 } in
        let m = p.memory hello.dc_id hello.is_media in
        subst
          (λ got. Bridged relay_init p (after_get evp sha256 config a relay_init hello got p').1)
          (sym (get-dc_only-IsKeyed same_kind hello.dc_id a.now a.gone p.ws_pool keyed.ws).0)
          (after_tries-Bridged (attempts a hello p') p'
            (try_domains-was_cancelled (a.connect (ws_timeout a.now m))
              (ws_domains hello.dc_id hello.is_media) (no_tries p.stats.ws_errors)
              (over.direct (ws_timeout a.now m)) refl)
            keyed.worker)

    route-Bridged :
        (p : Proxy)
        → ArePoolsKeyed p
        → Bridged relay_init p (route evp sha256 config a relay_init hello p).1
    unfolding route
    route-Bridged p keyed =
        elim (Bool-cases (
          not (config.in_redirects hello.dc_id)
          || (p.memory hello.dc_id hello.is_media).blacklisted)) [
            | inl away ↦ rw away (fall_back-served p keyed.worker)
            | inr on ↦ rw on (try_ws-Bridged p keyed)
          ]

  module _ (relay_init : Bytes) (ctx : CryptoCtx evp sha256)
      (made : generate_relay_init evp a.draws a.salt hello.proto_tag (dc_idx hello)
        ≡ some relay_init)
      (built : build_crypto_ctx evp sha256 hello.prekey_and_iv config.secret relay_init
        ≡ some ctx) where
    with_tried-Bridged :
        (p : Proxy)
        → ArePoolsKeyed p
        → Bridged relay_init p (with_tried evp sha256 config a (accepted hello) p).1
    unfolding with_tried with_relay with_ctx
    with_tried-Bridged p keyed =
        subst (λ o. Bridged relay_init p (with_relay evp sha256 config a hello o p).1) (sym made)
          (subst (λ o. Bridged relay_init p (with_ctx evp sha256 config a relay_init hello o p).1)
            (sym built) (route-Bridged relay_init p keyed))

    with_init-Bridged :
        (init : Run Init) (handshake : Bytes) (p : Proxy)
        → ArePoolsKeyed p
        → handshake_of init ≡ some handshake
        → try_handshake evp sha256 handshake config.secret ≡ accepted hello
        → Bridged relay_init p (with_init evp sha256 config a init p).1
    unfolding with_init
    with_init-Bridged raised h p keyed e f = cc
    with_init-Bridged (done (direct k s)) h p keyed e f =
        let same : k ≡ h = cc in
        let opened = ap (λ (t : Bytes). try_handshake evp sha256 t config.secret) same ∙ f in
        subst (λ t. Bridged relay_init p (with_tried evp sha256 config a t p).1) (sym opened)
          (with_tried-Bridged p keyed)
    with_init-Bridged (done (over_tls k s)) h p keyed e f =
        let same : k ≡ h = cc in
        let opened = ap (λ (t : Bytes). try_handshake evp sha256 t config.secret) same ∙ f in
        subst (λ t. Bridged relay_init p (with_tried evp sha256 config a t p).1) (sym opened)
          (with_tried-Bridged p keyed)
    with_init-Bridged (done (masked k s)) h p keyed e f = cc
    with_init-Bridged (done redirected) h p keyed e f = cc
    with_init-Bridged (done disconnected) h p keyed e f = cc
    with_init-Bridged (done out_of_fuel) h p keyed e f = cc

-- The client's handshake is opened by the secret, the relay init and the ciphers for it are made,
-- the data centre has a default address that can be connected to, and what is sent to Telegram goes
-- out; `set_sock_opts` raises nothing, no attempt is cancelled, and no connection waits in a pool
-- under a bare data centre. Then the session is bridged, over some link that has had the relay init,
-- and closed at the end, whatever becomes of the WebSockets and of the fallbacks before the last.
pub handle_client-Bridged :
    (evp : Evp) (sha256 : Bytes → Bytes) (config : Config) (a : Answers) (p : Proxy) (hello : Hello)
    (handshake relay_init : Bytes) (ctx : CryptoCtx evp sha256)
    → handshake_of a.init ≡ some handshake
    → try_handshake evp sha256 handshake config.secret ≡ accepted hello
    → generate_relay_init evp a.draws a.salt hello.proto_tag (dc_idx hello) ≡ some relay_init
    → build_crypto_ctx evp sha256 hello.prekey_and_iv config.secret relay_init ≡ some ctx
    → has_default_ip hello.dc_id ≡ true
    → a.connect_tcp ≡ true
    → ((link : Link) → a.relay link ≡ done tt)
    → a.options ≡ done tt
    → IsUncancelled a
    → ArePoolsKeyed p
    → (link : Link) × ((handle_client evp sha256 config a p).trace
        ≡ p.trace ++ (relayed link relay_init ∷ bridged link ∷ client_closed ∷ []))
unfolding handle_client with_options
handle_client-Bridged evp sha256 config a p hello handshake relay_init ctx begun opened made built
      known connects sends set over keyed =
    let (link, e) =
      with_init-Bridged evp sha256 config a sends connects over hello known relay_init ctx made
        built a.init handshake (count_total p) (record { ws = keyed.ws; worker = keyed.worker })
        begun opened in
    (
      link,
      ap (λ o. (with_options evp sha256 config a o (count_total p)).trace) set
          ∙ ap (λ (t : List Effect). t ++ (client_closed ∷ [])) e
          ∙ append_assoc p.trace (relayed link relay_init ∷ bridged link ∷ []) (client_closed ∷ []),
    )
