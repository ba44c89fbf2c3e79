-- ===== src/Route.antt =====
-- How a session finds its way: `ws_domains` of proxy/utils.py, the connection attempts and their
-- book-keeping in `_handle_client` of proxy/tg_ws_proxy.py, `do_fallback` with its three methods in
-- proxy/bridge.py, and the attempts of the
-- pool in proxy/pool.py. The attempts' outcomes are arguments; the log, the bridges that follow a
-- connection, and what they raise are left out.
pub mod Failure
pub mod Fallback
pub mod Over
use tg_ws_proxy_rust.Prelude.{
  ℕ, zero, suc, ◌+◌, Bool, true, false, not, ◌&&◌, ◌||◌, List, [], ◌∷◌, ◌++◌, Option, none, some,
  is_empty, ltb, ◌==◌, if◌then◌else◌,
}

-- kws{dc}.web.telegram.org, or kws{dc}-1.web.telegram.org.
pub data WsDomain : Type 0 where
  kws kws_1 : ℕ → WsDomain

pub ws_domains : ℕ → Bool → List WsDomain
ws_domains dc is_media =
    let dc' : ℕ = if dc == 203 then 2 else dc in
    if is_media then kws_1 dc' ∷ kws dc' ∷ [] else kws dc' ∷ kws_1 dc' ∷ []

-- RawWebSocket.connect: a session, a WsHandshakeError that is a redirect or another one, any other
-- Exception, or a CancelledError, which is none and is caught by no handler of the attempts.
pub data Attempt : Type 0 where
  session : ℕ → Attempt
  redirect handshake_error failed cancelled : Attempt

-- `was_cancelled` is whether a CancelledError ended the attempts.
pub record Tries : Type 0 where
  pub ws : Option ℕ
  pub ws_failed_redirect : Bool
  pub all_redirects : Bool
  pub ws_errors : ℕ
  pub was_cancelled : Bool

-- The loop over the domains.
pub try_domains : {D : Type 0} → (D → Attempt) → List D → Tries → Tries
try_domains connect [] t = t
try_domains connect (domain ∷ domains) t =
    let redirected =
      try_domains connect domains
        (record t { ws_errors = suc t.ws_errors; ws_failed_redirect = true }) in
    let refused =
      try_domains connect domains
        (record t { ws_errors = suc t.ws_errors; all_redirects = false }) in
    elim (connect domain) [
      | session ws ↦ record t { ws = some ws; all_redirects = false }
      | redirect ↦ redirected
      | handshake_error ↦ refused
      | failed ↦ refused
      | cancelled ↦ record t { was_cancelled = true }
    ]

abbrev pub no_tries : ℕ → Tries
no_tries ws_errors = record {
  ws = none;
  ws_failed_redirect = false;
  all_redirects = true;
  ws_errors = ws_errors;
  was_cancelled = false;
}

-- What is remembered of one data centre, media or not: whether it is in `ws_blacklist`, and the
-- entry of `dc_fail_until`.
pub record Memory : Type 0 where
  pub blacklisted : Bool
  pub fail_until : Option ℕ

abbrev pub dc_fail_cooldown : ℕ
dc_fail_cooldown = 30

-- After the attempts, without a session and with one.
pub note_tries : ℕ → Tries → Memory → Memory
note_tries now t m = elim t.ws [
  | some ws ↦ record m { fail_until = none }
  | none ↦
      if t.ws_failed_redirect && t.all_redirects
      then record m { blacklisted = true }
      else if t.ws_failed_redirect
      then record m { fail_until = some (now + dc_fail_cooldown) }
      else record m { fail_until = some (now + dc_fail_cooldown) }
]

-- The timeout of the attempts, in seconds.
pub ws_timeout : ℕ → Memory → ℕ
ws_timeout now m = elim m.fail_until [
  | none ↦ if ltb now 0 then 2 else 10
  | some until ↦ if ltb now until then 2 else 10
]

pub data Method : Type 0 where
  cf_worker cf tcp : Method

-- `dst` is whether the data centre has a default address.
unfoldable pub methods : Bool → Bool → Bool → List Method
methods worker_domains use_cf dst =
    (if worker_domains && dst then cf_worker ∷ [] else [])
    ++ (if use_cf then cf ∷ [] else [])
    ++ (if dst then tcp ∷ [] else [])

-- The loop over the methods: the ones that were tried, and whether one served the session.
pub try_methods : (Method → Bool) → List Method → List Method × Bool
try_methods works [] = ([], false)
try_methods works (method ∷ rest) =
    let (tried, ok) = try_methods works rest in
    if works method then (method ∷ [], true) else (method ∷ tried, ok)

pub do_fallback : Bool → Bool → Bool → (Method → Bool) → List Method × Bool
do_fallback worker_domains use_cf dst works = try_methods works (methods worker_domains use_cf dst)

-- What a loop over domains comes to; `interrupted` is a CancelledError.
pub data Found (D : Type 0) : Type 0 where
  found : D → ℕ → Found D
  not_found interrupted : Found D

-- A round; `others` is what the rounds that follow come to.
abbrev pub or_others : {D : Type 0} → D → Found D → Attempt → Found D
or_others domain others (session ws) = found domain ws
or_others domain others redirect = others
or_others domain others handshake_error = others
or_others domain others failed = others
or_others domain others cancelled = interrupted

-- The loop of `_cfproxy_fallback`: the first domain that connects.
unfoldable pub first_session : {D : Type 0} → (D → Attempt) → List D → Found D
first_session connect [] = not_found
first_session connect (domain ∷ domains) =
    or_others domain (first_session connect domains) (connect domain)

-- `_WsPool._connect_one` of proxy/pool.py: only a redirect leads on to the next domain.
pub connect_one : {D : Type 0} → (D → Attempt) → List D → Found D
connect_one connect [] = not_found
connect_one connect (domain ∷ domains) =
    let next = connect_one connect domains in
    elim (connect domain) [
      | session ws ↦ found domain ws
      | redirect ↦ next
      | handshake_error ↦ not_found
      | failed ↦ not_found
      | cancelled ↦ interrupted
    ]
