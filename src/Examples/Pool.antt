-- ===== src/Examples/Pool.antt =====
-- Runs of the pool.
use tg_ws_proxy_rust.Prelude.{◌≡◌, refl, Bool, true, false, [], ◌∷◌, some}
use tg_ws_proxy_rust.Pool.{dc_only, pair, miss, Pool, get, refill, schedule_refill}
use tg_ws_proxy_rust.Pool.Serves.{Served, get-Served}
use tg_ws_proxy_rust.Pool.Keys.{here, next, warm, refilled, get-dc_only-eq-miss}

abbrev same : Bool → Bool → Bool
same true b = b
same false true = false
same false false = true

abbrev empty : Pool same
empty = record { idle = λ k. []; refilling = []; closing = []; spawned = []; hits = 0; misses = 0 }

-- Two connections wait for media of data centre 2; the first one is too old.
abbrev warmed : Pool same
warmed = record empty {
  idle = λ k. record { ws = 1; created = 0 } ∷ record { ws = 2; created = 100 } ∷ [];
}

get-Served_example :
    Served same
      (pair 2 true)
      130
      (λ ws. false)
      warmed
      (get same (pair 2 true) 130 (λ ws. false) warmed)
get-Served_example = get-Served same (pair 2 true) 130 (λ ws. false) warmed

get-dc_only-eq-miss_example :
    (get same
      (dc_only 2)
      1
      (λ ws. false)
      (refill same 4
        (some (record { ws = 1; created = 0 }) ∷ [])
        (pair 2 true)
        (schedule_refill same (pair 2 true) empty))).0
    ≡ miss
get-dc_only-eq-miss_example =
    get-dc_only-eq-miss same {p = empty} 2 1 (λ ws. false) (λ n. refl)
      (next (next here (warm empty (pair 2 true))) (
        refilled (schedule_refill same (pair 2 true) empty) 4
          (some (record { ws = 1; created = 0 }) ∷ []) (pair 2 true)))
