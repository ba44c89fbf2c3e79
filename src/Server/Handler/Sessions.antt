-- ===== src/Server/Handler/Sessions.antt =====
-- Any number of sessions, one after the other.
use tg_ws_proxy_rust.Prelude.{◌+◌, ◌≤◌, ◌≡◌, List, [], ◌∷◌, All, length, arith}
use tg_ws_proxy_rust.Prelude.Bytes.{Bytes}
use tg_ws_proxy_rust.Cipher.{Evp}
use tg_ws_proxy_rust.Server.World.{done, Config, Proxy, Answers}
use tg_ws_proxy_rust.Server.Fallback.Ended.{outcomes}
use tg_ws_proxy_rust.Server.Handler.{handle_client}
use tg_ws_proxy_rust.Server.Handler.Accounted.{handle_client-Accounted}

-- The tasks that the server's callback makes, each run to its end.
abbrev pub handle_clients : (evp : Evp) → (Bytes → Bytes) → Config → List Answers → Proxy → Proxy
handle_clients evp sha256 config [] p = p
handle_clients evp sha256 config (a ∷ rest) p =
    handle_clients evp sha256 config rest (handle_client evp sha256 config a p)

-- `set_sock_opts` raises nothing, and the counters agree at the start: no more sessions came to something than there were. Then they
-- agree after any sessions, which are all counted, and none of them is still active.
pub handle_clients-active :
    (evp : Evp) (sha256 : Bytes → Bytes) (config : Config) (sessions : List Answers) (p : Proxy)
    → All (λ a. a.options ≡ done tt) sessions
    → outcomes p.stats ≤ p.stats.connections_total
    → let q = handle_clients evp sha256 config sessions p in
      (q.stats.connections_active ≡ p.stats.connections_active)
      × (q.stats.connections_total ≡ p.stats.connections_total + length sessions)
      × (outcomes q.stats ≤ q.stats.connections_total)
handle_clients-active evp sha256 config [] p set h = omega (arith, h)
handle_clients-active evp sha256 config (a ∷ rest) p set h =
    let k = handle_client-Accounted evp sha256 config a p set.0 in
    let (active, total, within) =
      handle_clients-active evp sha256 config rest (handle_client evp sha256 config a p) set.1
        (omega (arith, k.at_most_one, k.came, k.total)) in
    omega (arith, active, total, within, k.active, k.total)
