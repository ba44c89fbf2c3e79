-- ===== src/Server/Handler.antt =====
-- `_handle_client` of proxy/tg_ws_proxy.py. Every exception in its `try` ends it the same way.
pub mod Accounted
pub mod Live
pub mod Sessions
use tg_ws_proxy_rust.Prelude.{
  ℕ, suc, ◌+◌, ◌-◌, Bool, true, false, not, ◌||◌, List, [], ◌∷◌, ◌++◌, Option, none, some,
  if◌then◌else◌,
}
use tg_ws_proxy_rust.Prelude.Bytes.{Bytes}
use tg_ws_proxy_rust.Stats.{same_kind, record_dc}
use tg_ws_proxy_rust.Cipher.{Evp}
use tg_ws_proxy_rust.Handshake.{
  Hello, Tried, accepted, rejected, value_error, dc_idx, try_handshake, generate_relay_init,
  CryptoCtx, build_crypto_ctx,
}
use tg_ws_proxy_rust.Pool.{dc_only, Got, hit, miss, type_error, get}
use tg_ws_proxy_rust.Route.{ws_domains, Tries, try_domains, no_tries, note_tries, ws_timeout}
use tg_ws_proxy_rust.ClientInit.{
  Init, direct, over_tls, masked, redirected, disconnected, out_of_fuel,
}
use tg_ws_proxy_rust.Server.World.{
  Run, done, raised, direct_ws, client_closed, Config, Proxy, Answers, count_total, count_bad,
  count_masked, remember,
}
use tg_ws_proxy_rust.Server.Fallback.{serve, fall_back}

-- dc_fail_until is updated with the attempts; then the counters of a session over a WebSocket.
abbrev pub count_ws : ℕ → Bool → Proxy → Proxy
count_ws dc is_media p = record p {
  stats = record_dc dc is_media (record p.stats { connections_ws = suc p.stats.connections_ws });
}

-- The attempts on the domains.
pub attempts : Answers → Hello → Proxy → Tries
attempts a hello p =
    try_domains (a.connect (ws_timeout a.now (p.memory hello.dc_id hello.is_media)))
      (ws_domains hello.dc_id hello.is_media) (no_tries p.stats.ws_errors)

module _ (evp : Evp) (sha256 : Bytes → Bytes) (config : Config) (a : Answers) where
  pub after_attempts : Bytes → Hello → Option ℕ → Proxy → Run Bool × Proxy
  after_attempts relay_init hello none p = fall_back relay_init hello.dc_id a config p
  after_attempts relay_init hello (some ws) p =
      serve (direct_ws ws) relay_init a (count_ws hello.dc_id hello.is_media p)

  -- What follows the attempts, unless they were cancelled.
  pub after_tries : Bytes → Hello → Tries → Proxy → Run Bool × Proxy
  unfolding after_attempts
  after_tries relay_init hello t p =
      let counted : Proxy = record p { stats = record p.stats { ws_errors = t.ws_errors } } in
      let noted = note_tries a.now t (p.memory hello.dc_id hello.is_media) in
      if t.was_cancelled
      then (raised, counted)
      else after_attempts relay_init hello t.ws (remember hello.dc_id hello.is_media noted counted)

  -- The session that the pool had, or the attempts.
  pub after_get : Bytes → Hello → Got → Proxy → Run Bool × Proxy
  unfolding after_tries attempts
  after_get relay_init hello (hit ws) p =
      after_tries relay_init hello (record (no_tries p.stats.ws_errors) { ws = some ws }) p
  after_get relay_init hello miss p = after_tries relay_init hello (attempts a hello p) p
  after_get relay_init hello type_error p = (raised, p)

  pub try_ws : Bytes → Hello → Proxy → Run Bool × Proxy
  unfolding after_get
  try_ws relay_init hello p =
      let (got, pool) = get same_kind (dc_only hello.dc_id) a.now a.gone p.ws_pool in
      after_get relay_init hello got (record p { ws_pool = pool })

  pub route : Bytes → Hello → Proxy → Run Bool × Proxy
  unfolding try_ws
  route relay_init hello p =
      if not (config.in_redirects hello.dc_id) || (p.memory hello.dc_id hello.is_media).blacklisted
      then fall_back relay_init hello.dc_id a config p
      else try_ws relay_init hello p

  pub with_ctx : Bytes → Hello → Option (CryptoCtx evp sha256) → Proxy → Run Bool × Proxy
  unfolding route
  with_ctx relay_init hello none p = (raised, p)
  with_ctx relay_init hello (some ctx) p = route relay_init hello p

  pub with_relay : Hello → Option Bytes → Proxy → Run Bool × Proxy
  unfolding with_ctx
  with_relay hello none p = (raised, p)
  with_relay hello (some relay_init) p =
      with_ctx relay_init hello
        (build_crypto_ctx evp sha256 hello.prekey_and_iv config.secret relay_init) p

  pub refused : Run (Unit {0}) → Proxy → Run Bool × Proxy
  refused (done u) p = (done false, p)
  refused raised p = (raised, p)

  pub with_tried : Tried → Proxy → Run Bool × Proxy
  unfolding with_relay refused
  with_tried value_error p = (raised, p)
  with_tried rejected p = refused a.drained (count_bad p)
  with_tried (accepted hello) p =
      with_relay hello (generate_relay_init evp a.draws a.salt hello.proto_tag (dc_idx hello)) p

  -- The body of the `try`, from what `_read_client_init` came to.
  pub with_init : Run Init → Proxy → Run Bool × Proxy
  unfolding with_tried
  with_init raised p = (raised, p)
  with_init (done (direct handshake s)) p =
      with_tried (try_handshake evp sha256 handshake config.secret) p
  with_init (done (over_tls handshake s)) p =
      with_tried (try_handshake evp sha256 handshake config.secret) p
  with_init (done (masked client_hello s)) p = (done false, if a.masked then count_masked p else p)
  with_init (done redirected) p = (done false, p)
  with_init (done disconnected) p = (done false, p)
  with_init (done out_of_fuel) p = (done false, p)

  -- The `finally`.
  abbrev pub close_client : Proxy → Proxy
  close_client p = record p {
    stats = record p.stats { connections_active = p.stats.connections_active - 1 };
    trace = p.trace ++ (client_closed ∷ []);
  }

  -- The `try` with its `finally`, where the lines before it raise nothing.
  pub with_options : Run (Unit {0}) → Proxy → Proxy
  unfolding with_init
  with_options raised p = p
  with_options (done u) p = close_client (with_init a.init p).1

  pub handle_client : Proxy → Proxy
  unfolding with_options
  handle_client p = with_options a.options (count_total p)
