-- ===== src/Server/World.antt =====
-- The state that the sessions of proxy/tg_ws_proxy.py share, and what one session is told from
-- outside: the clock, random draws, the outcomes of connections, writes and bridges. The dictionary
-- keys `dc_key` are pairs of a data centre and whether it is media.
use tg_ws_proxy_rust.Prelude.{ℕ, suc, ◌+◌, Bool, List, ◌==◌, ◌&&◌, if◌then◌else◌}
use tg_ws_proxy_rust.Prelude.Bytes.{Bytes, bytes_eq}
use tg_ws_proxy_rust.Stats.{Stats, same_kind}
use tg_ws_proxy_rust.Balancer.{Balancer}
use tg_ws_proxy_rust.Pool.{Pool}
use tg_ws_proxy_rust.Route.{WsDomain, Attempt, Memory}
use tg_ws_proxy_rust.ClientInit.{Init}

-- Every exception in the `try` of `_handle_client` is logged and swallowed by its handlers alike.
pub data Run (A : Type 0) : Type 0 where
  done : A → Run A
  raised : Run A

-- The way to Telegram: a WebSocket to the data centre, one to a worker or to a proxied domain, or a
-- TCP connection.
pub data Link : Type 0 where
  direct_ws worker_ws cf_ws : ℕ → Link
  tcp_link : Link

-- `relayed` is a relay init that was written and flushed.
pub data Effect : Type 0 where
  relayed : Link → Bytes → Effect
  bridged : Link → Effect
  client_closed : Effect

pub record Config : Type 0 where
  pub secret : Bytes
  pub in_redirects : ℕ → Bool
  pub fallback_cfproxy : Bool
  pub cfproxy_worker_domains : List Bytes

pub record Proxy : Type 0 where
  pub stats : Stats
  pub memory : ℕ → Bool → Memory
  pub balancer : Balancer
  pub ws_pool : Pool same_kind
  pub cf_worker_pool : Pool bytes_eq
  pub trace : List Effect

-- `options` is what `set_sock_opts` and the lines before it come to. `connect` takes the timeout. `masked` is whether the masking domain was reached, `drained` the end
-- of the reading of a client that was refused, and `moved` what a bridge carries up and down.
pub record Answers : Type 0 where
  pub options : Run (Unit {0})
  pub init : Run Init
  pub masked : Bool
  pub drained : Run (Unit {0})
  pub draws : List Bytes
  pub salt : Bytes
  pub now : ℕ
  pub gone : ℕ → Bool
  pub connect : ℕ → WsDomain → Attempt
  pub shuffled_workers : List Bytes
  pub connect_worker : Bytes → Attempt
  pub shuffled_domains : List Bytes
  pub connect_cf : Bytes → Attempt
  pub connect_tcp : Bool
  pub relay : Link → Run (Unit {0})
  pub bridge : Link → Run (Unit {0})
  pub moved : Link → ℕ × ℕ

abbrev pub count_total : Proxy → Proxy
count_total p = record p {
  stats = record p.stats {
    connections_total = suc p.stats.connections_total;
    connections_active = suc p.stats.connections_active;
  };
}

abbrev pub count_bad : Proxy → Proxy
count_bad p = record p { stats = record p.stats { connections_bad = suc p.stats.connections_bad } }

abbrev pub count_masked : Proxy → Proxy
count_masked p = record p {
  stats = record p.stats { connections_masked = suc p.stats.connections_masked };
}

abbrev pub count_cfproxy : Proxy → Proxy
count_cfproxy p = record p {
  stats = record p.stats { connections_cfproxy = suc p.stats.connections_cfproxy };
}

abbrev pub count_tcp : Proxy → Proxy
count_tcp p = record p {
  stats = record p.stats { connections_tcp_fallback = suc p.stats.connections_tcp_fallback };
}

abbrev pub count_bytes : ℕ × ℕ → Stats → Stats
count_bytes (up, down) s = record s { bytes_up = s.bytes_up + up; bytes_down = s.bytes_down + down }

-- `ws_blacklist` and `dc_fail_until` after a change at one key.
abbrev pub remember : ℕ → Bool → Memory → Proxy → Proxy
remember dc is_media m p = record p {
  memory = λ n b. if (n == dc) && same_kind b is_media then m else p.memory n b;
}
