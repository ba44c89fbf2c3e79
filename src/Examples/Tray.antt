-- ===== src/Examples/Tray.antt =====
-- utils/tray_common.py: a run of the lock over a stale file and one with no number for a name, the
-- threads of the proxy, and the settings.
use tg_ws_proxy_rust.Prelude.{
  ℕ, ◌≡◌, refl, true, false, Option, none, some, List, [], ◌∷◌, ◌==◌, if◌then◌else◌, ◌⊎◌, replicate,
}
use tg_ws_proxy_rust.Tray.{
  LockFile, Process, same_process, is_running, written, touched, acquire_lock, release_lock,
}
use tg_ws_proxy_rust.Prelude.Text.{codes}
use tg_ws_proxy_rust.Prelude.Hex.{from_hex}
use tg_ws_proxy_rust.Config.Options.{configure, secret_of, check_length, check_hex}
use tg_ws_proxy_rust.Tray.Lifecycle
use tg_ws_proxy_rust.Tray.Lifecycle.{Tray, Reach, Step, fresh_tray, Reach-reaches}
use tg_ws_proxy_rust.Tray.Settings.{
  load_config, no_options, apply_proxy_config, settings_of, apply_proxy_config-configure,
}
use tg_ws_proxy_rust.Examples.Config.{one_digit, same, lower, options}
use tg_ws_proxy_rust.Tray.Exclusion.{acquire_lock-excludes}

abbrev process : ℕ → Option Process
process pid =
    if pid == 7
    then some (record { create_time = 5000; is_app = true })
    else if pid == 8
    then some (record { create_time = 9000; is_app = true })
    else none

abbrev stale : List LockFile
stale = record { pid = none; create_time = 0 } ∷ record { pid = some 8; create_time = 100 } ∷ []

acquire_lock-excludes_example :
    let acquire = acquire_lock true process (λ f. true) in
    let (got, held) = acquire 7 (written 5000) stale in
    (got ≡ true)
    × (acquire 8 touched held ≡ (false, held))
    × ((acquire 8 touched (release_lock 7 held)).0 ≡ true)
unfolding is_running same_process
acquire_lock-excludes_example =
    acquire_lock-excludes process 7 8 5000 touched (record { create_time = 5000; is_app = true })
      stale refl refl refl refl

-- One thread has begun.
abbrev begun : Tray
begun = record {
  proxy_thread = some 0;
  async_stop = some 0;
  alive = Lifecycle.set 0 true (λ t. false);
  fresh = Lifecycle.set 0 false (Lifecycle.set 0 true (λ t. false));
  stopping = λ t. false;
  threads = 1;
}

begun_reached : Reach false fresh_tray begun
begun_reached =
    Reach.next (Reach.next Reach.here (Step.start fresh_tray refl)) (Step.begin _ 0 refl refl)

Reach-reaches_example :
    (◌≡◌ {A = ℕ} 0 0)
    × (begun.proxy_thread ≡ some 0)
    × ((begun.async_stop ≡ some 0) ⊎ (begun.fresh 0 ≡ true))
Reach-reaches_example = Reach-reaches begun 0 0 begun_reached refl refl

-- The wait for thread 0 times out, thread 1 is started and has begun, and then thread 0 ends:
-- thread 1 is alive, and no stop reaches it.
lost :
    (s : Tray) × Reach true fresh_tray s
    × (s.alive 1 ≡ true)
    × (s.async_stop ≡ none)
    × (s.fresh 1 ≡ false)
lost =
    let two =
      Reach.next
        (Reach.next
          (Reach.next
            (Reach.next
              (Reach.next
                (Reach.next (Reach.next Reach.here (Step.start fresh_tray refl))
                  (Step.begin _ 0 refl refl))
                (Step.ask _ 0 refl))
              (Step.leave _ refl))
            (Step.start _ refl))
          (Step.begin _ 1 refl refl))
        (Step.end _ 0 refl refl) in
    (_, two, refl, refl, refl)

apply_proxy_config-configure_example :
    let apply = apply_proxy_config one_digit same (λ ip. true) lower (replicate 16 1) in
    let main = configure one_digit same (λ ip. true) lower (replicate 16 1) in
    let secret_hex = codes "00112233445566778899aabbccddeeff" in
    (apply (load_config (replicate 16 1) (some (settings_of options secret_hex))) ≡ main options)
    × (apply (load_config (replicate 16 1) none) ≡ main no_options)
unfolding secret_of check_length check_hex from_hex
apply_proxy_config-configure_example =
    apply_proxy_config-configure one_digit same (λ ip. true) lower (replicate 16 1) options
      (codes "00112233445566778899aabbccddeeff") refl refl
