-- ===== src/Stats.antt =====
-- `_Stats` of proxy/stats.py. Times are whole seconds. A key of `dc_connections`, the number with an
-- `m` behind it for media, is a pair here; `uptime_parts` are the numbers that `uptime_str` prints.
pub mod Counting
use tg_ws_proxy_rust.Prelude.{
  ℕ, zero, suc, ◌+◌, ◌-◌, ◌/◌, ◌%◌, Bool, true, false, ◌&&◌, Option, none, some, ◌==◌,
  if◌then◌else◌,
}

pub record Stats : Type 0 where
  pub connections_total : ℕ
  pub connections_active : ℕ
  pub connections_ws : ℕ
  pub connections_tcp_fallback : ℕ
  pub connections_cfproxy : ℕ
  pub connections_bad : ℕ
  pub connections_masked : ℕ
  pub ws_errors : ℕ
  pub bytes_up : ℕ
  pub bytes_down : ℕ
  pub pool_hits : ℕ
  pub pool_misses : ℕ
  pub cf_pool_hits : ℕ
  pub cf_pool_misses : ℕ
  pub start_time : ℕ
  pub dc_connections : ℕ → Bool → ℕ

unfoldable pub new : ℕ → Stats
new now = record {
  connections_total = 0;
  connections_active = 0;
  connections_ws = 0;
  connections_tcp_fallback = 0;
  connections_cfproxy = 0;
  connections_bad = 0;
  connections_masked = 0;
  ws_errors = 0;
  bytes_up = 0;
  bytes_down = 0;
  pool_hits = 0;
  pool_misses = 0;
  cf_pool_hits = 0;
  cf_pool_misses = 0;
  start_time = now;
  dc_connections = λ dc is_media. 0;
}

pub reset_counters : ℕ → Stats → Stats
reset_counters now s = record (new now) { connections_active = s.connections_active }

abbrev pub same_kind : Bool → Bool → Bool
same_kind true b = b
same_kind false true = false
same_kind false false = true

unfoldable pub record_dc : ℕ → Bool → Stats → Stats
record_dc dc is_media s = record s {
  dc_connections = λ n b.
      if (n == dc) && same_kind b is_media then s.dc_connections n b + 1 else s.dc_connections n b;
}

pub uptime_seconds : ℕ → Stats → ℕ
uptime_seconds now s = now - s.start_time

-- Hours if there are any, minutes if there are hours or minutes, and seconds.
pub uptime_parts : ℕ → Stats → Option ℕ × Option ℕ × ℕ
unfolding uptime_seconds
uptime_parts now s =
    let total = uptime_seconds now s in
    let h = total / 3600 in
    let rem = total % 3600 in
    let m = rem / 60 in
    let sec = rem % 60 in
    if h == 0
    then (if m == 0 then (none, none, sec) else (none, some m, sec))
    else (some h, some m, sec)
