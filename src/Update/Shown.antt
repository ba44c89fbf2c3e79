-- ===== src/Update/Shown.antt =====
-- What a check shows, and that it shows the same from the cache.
use tg_ws_proxy_rust.Prelude.{ℕ, ◌≡◌, Bool, true, false, ◌&&◌, List, Option, none}
use tg_ws_proxy_rust.Prelude.Text.{Text}
use tg_ws_proxy_rust.Update.{
  Asset, Status, Fetched, replayed, Machine, apply_release_tag, run_check,
}

module _ (is_digit : ℕ → Bool) (int_of : Text → Option ℕ) where
  -- No status says both that there is a newer release and that this one is newer.
  abbrev pub IsConsistent : Status → Type 0
  IsConsistent st = (st.has_update && st.ahead_of_release) ≡ false

  module _ (current_version : Text) where
    -- The status after a release, and from the cache after that.
    shown : Text → Text → List Asset → Status → Status
    shown tag url assets st =
        record (apply_release_tag is_digit int_of tag url current_version st) { assets = assets }

    abbrev started : Status → Status
    started st = record st { checked = true; error = none }

    -- What a check within the hour does with the cache of a release.
    abbrev Replays : ℕ → Fetched → Machine → Type 0
    Replays later fetched m' =
        IsConsistent m'.status
        × ((run_check is_digit int_of true current_version later fetched m').0 ≡ replayed)
        × ((run_check is_digit int_of true current_version later fetched m').1.status ≡ m'.status)
