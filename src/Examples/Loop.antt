-- ===== src/Examples/Loop.antt =====
-- Runs of the server, of its start and of the pools.
use tg_ws_proxy_rust.Prelude.{ℕ, ◌≡◌, ◌≢◌, refl, Bool, true, false, [], ◌∷◌, none, inl}
use tg_ws_proxy_rust.Stats.{same_kind}
use tg_ws_proxy_rust.Balancer.{index_error}
use tg_ws_proxy_rust.Balancer.Served.{Serves}
use tg_ws_proxy_rust.Pool.{Key, pair}
use tg_ws_proxy_rust.Pool.Bound
use tg_ws_proxy_rust.Pool.Bound.{Buckets, Refill, waiting, no_task}
use tg_ws_proxy_rust.Config.Decode.{is_letter}
use tg_ws_proxy_rust.Server.Start.{start, forgotten, start-Serves}
use tg_ws_proxy_rust.Server.Shutdown.{Loop, ended, Step, Reach, started, Reach-ended}
use tg_ws_proxy_rust.Examples.Server.{started_proxy}

start-Serves_example :
    let (outcome, q) =
      start is_letter is_letter (λ t. t) (λ n dc. 0) true ((1 ∷ []) ∷ []) none [] started_proxy in
    (outcome ≢ index_error)
    × Serves q.balancer
    × ((dc : ℕ) (is_media : Bool) → q.memory dc is_media ≡ forgotten)
    × (q.ws_pool.idle ≡ λ k. [])
    × (q.cf_worker_pool.idle ≡ λ k. [])
start-Serves_example =
    start-Serves is_letter is_letter (λ t. t) (λ n dc. 0) (λ n dc h. h) ((1 ∷ []) ∷ []) none []
      started_proxy (inl refl)

-- Two clients; one ends before the timeout, the other when it is cancelled.
abbrev over : Loop
over = record { phase = ended; client_tasks = []; cancelled = 2 ∷ [] }

two_clients : Reach started over
two_clients =
    Reach.next
      (Reach.next
        (Reach.next
          (Reach.next
            (Reach.next
              (Reach.next (Reach.next Reach.here (Step.accept started 1 refl))
                (Step.accept _ 2 refl))
              (Step.stop _ refl))
            (Step.finish _ 1))
          (Step.timed_out _ (2 ∷ 1 ∷ []) refl))
        (Step.finish _ 2))
      (Step.forced _ (2 ∷ []) refl refl)

Reach-ended_example : over.client_tasks ≡ []
Reach-ended_example = Reach-ended over two_clients refl

abbrev key : Key Bool
key = pair 2 false

abbrev empty : Buckets same_kind
empty = record { idle = λ k. []; refills = λ k. no_task }

abbrev scheduled : Buckets same_kind
scheduled = Bound.set_refill same_kind key Refill.scheduled empty

abbrev begun : Buckets same_kind
begun = Bound.set_refill same_kind key (waiting 4) scheduled
