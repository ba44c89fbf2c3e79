-- ===== src/Stats/Counting.antt =====
-- What the counters and the uptime add up to.
use tg_ws_proxy_rust.Prelude.{
  ℕ, suc, ◌+◌, ◌-◌, ◌*◌, ◌/◌, ◌%◌, ◌<◌, ◌≡◌, refl, Bool, true, false, Option, none, some, ◌==◌,
  ==_iff, arith, inl, inr, Bool-cases,
}
use tg_ws_proxy_rust.Stats.{
  Stats, new, reset_counters, record_dc, uptime_seconds, uptime_parts, same_kind,
}

-- A part that is not printed is zero.
abbrev pub part : Option ℕ → ℕ
part none = 0
part (some n) = n

parts_lem :
    (t : ℕ)
    → let h = t / 3600 in
      let m = t % 3600 / 60 in
      let s = t % 3600 % 60 in (t ≡ h * 3600 + m * 60 + s) × (m < 60) × (s < 60)
parts_lem t = (omega arith, omega arith, omega arith)

-- The hours, minutes and seconds that are printed are the time since the start, and there are less
-- than sixty minutes and seconds.
pub uptime_parts-uptime_seconds :
    (now : ℕ) (s : Stats)
    → let (h, m, sec) = uptime_parts now s in
      (uptime_seconds now s ≡ part h * 3600 + part m * 60 + sec) × (part m < 60) × (sec < 60)
unfolding uptime_parts uptime_seconds
uptime_parts-uptime_seconds now s =
    let t = now - s.start_time in
    let p = parts_lem t in
    elim (Bool-cases (t / 3600 == 0)) [
      | inl no_hours ↦
          let h0 : t / 3600 ≡ 0 = (==_iff (t / 3600) 0).0 no_hours in
          elim (Bool-cases (t % 3600 / 60 == 0)) [
            | inl no_minutes ↦
                let m0 : t % 3600 / 60 ≡ 0 = (==_iff (t % 3600 / 60) 0).0 no_minutes in
                rw (no_hours, no_minutes) (omega (arith, p.0, h0, m0), omega arith, p.2)
            | inr minutes ↦ rw (no_hours, minutes) (omega (arith, p.0, h0), p.1, p.2)
          ]
      | inr hours ↦ rw hours p
    ]

same_kind_refl : (b : Bool) → same_kind b b ≡ true
same_kind_refl true = refl
same_kind_refl false = refl

-- `record_dc` counts one connection for its data centre and kind. `reset_counters` after it sets that
-- count and the total to zero and keeps the number of connections that are active.
pub record_dc-reset_counters :
    (now dc : ℕ) (is_media : Bool) (s : Stats)
    → let s' = record_dc dc is_media s in
      (s'.dc_connections dc is_media ≡ suc (s.dc_connections dc is_media))
      × ((reset_counters now s').dc_connections dc is_media ≡ 0)
      × ((reset_counters now s').connections_total ≡ 0)
      × ((reset_counters now s').connections_active ≡ s.connections_active)
unfolding record_dc reset_counters new
record_dc-reset_counters now dc is_media s =
    (rw ((==_iff dc dc).1 refl, same_kind_refl is_media) (omega arith), refl, refl, refl)
