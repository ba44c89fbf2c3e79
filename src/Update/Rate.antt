-- ===== src/Update/Rate.antt =====
-- How often `run_check` asks GitHub.
use tg_ws_proxy_rust.Prelude.{
  ℕ, suc, ◌+◌, ◌≤◌, ◌<◌, ◌≡◌, refl, ap, Bool, true, false, not, List, [], ◌∷◌, Option, All,
  is_empty, if◌then◌else◌, inl, inr, Bool-cases, arith,
}
use tg_ws_proxy_rust.Prelude.Text.{Text, is_space, strip}
use tg_ws_proxy_rust.Update.{
  Fetched, not_modified, release, forbidden, failed, escapes, bad_assets, Checked, replayed, asked,
  escaped, checked_by, Machine, Cache, min_fetch_interval, is_recent, begun, from_cache,
  after_fetch, run_check,
}

pub is_recent_within :
    (t now : ℕ) (c : Cache)
    → 1 ≤ t
    → t ≤ c.last_attempt_at
    → now < t + min_fetch_interval
    → is_recent now c ≡ true
is_recent_within t now c pos le h = ground arith

-- No exception is passed on.
abbrev pub IsCaught : Fetched → Type 0
IsCaught (not_modified new_etag) = Unit
IsCaught (release tag_name html_url assets new_etag) = Unit
IsCaught forbidden = Unit
IsCaught (failed message) = Unit
IsCaught escapes = ⊥
IsCaught (bad_assets tag_name html_url) = ⊥

abbrev pub InHour : ℕ → ℕ × Fetched → Type 0
InHour t (now, fetched) = (t ≤ now) × (now < t + min_fetch_interval) × IsCaught fetched

abbrev pub asks : Checked → Bool
asks replayed = false
asks asked = true
asks escaped = true

module _ (is_digit : ℕ → Bool) (int_of : Text → Option ℕ) (current_version : Text) where
  -- Several checks, and how many of them asked.
  abbrev pub run_checks : Bool → List (ℕ × Fetched) → Machine → ℕ × Machine
  run_checks writable [] m = (0, m)
  run_checks writable ((now, fetched) ∷ rest) m =
      let (ended, m') = run_check is_digit int_of writable current_version now fetched m in
      let (n, m'') = run_checks writable rest m' in ((if asks ended then suc n else n), m'')

  from_cache-cache : (m : Machine) → (from_cache is_digit int_of current_version m).cache ≡ m.cache
  unfolding from_cache
  from_cache-cache m = elim (Bool-cases (not (is_empty (strip is_space m.cache.tag_name)))) [
    | inl e ↦ rw e refl
    | inr e ↦ rw e refl
  ]

  after_fetch-last_attempt_at :
      (now : ℕ) (fetched : Fetched) (m : Machine)
      → IsCaught fetched
      → (after_fetch is_digit int_of true current_version now fetched m).cache.last_attempt_at ≡ now
  unfolding after_fetch
  after_fetch-last_attempt_at now (not_modified new_etag) m h = refl
  after_fetch-last_attempt_at now (release tag_name html_url assets new_etag) m h = refl
  after_fetch-last_attempt_at now forbidden m h = refl
  after_fetch-last_attempt_at now (failed message) m h = refl
  after_fetch-last_attempt_at now escapes m h = absurd h
  after_fetch-last_attempt_at now (bad_assets tag_name html_url) m h = absurd h

  quiet :
      (t : ℕ) (runs : List (ℕ × Fetched)) (m : Machine)
      → 1 ≤ t
      → t ≤ m.cache.last_attempt_at
      → All (InHour t) runs
      → (run_checks true runs m).0 ≡ 0
  unfolding run_check
  quiet t [] m pos le h = refl
  quiet t ((now, fetched) ∷ rest) m pos le h =
      let recent = is_recent_within t now m.cache pos le h.0.1 in
      rw recent (
        quiet t rest (from_cache is_digit int_of current_version (begun m)) pos
          (omega (arith, le, ap (λ (c : Cache). c.last_attempt_at) (from_cache-cache (begun m))))
          h.1)

  one_or_none : (b : Bool) → (if b then suc 0 else 0) ≤ 1
  one_or_none true = omega arith
  one_or_none false = omega arith

  at_most_one :
      (t : ℕ) (runs : List (ℕ × Fetched)) (m : Machine)
      → 1 ≤ t
      → All (InHour t) runs
      → (run_checks true runs m).0 ≤ 1
  unfolding run_check
  at_most_one t [] m pos h = omega arith
  at_most_one t ((now, fetched) ∷ rest) m pos h = elim (Bool-cases (is_recent now m.cache)) [
    | inl e ↦
        rw e (at_most_one t rest (from_cache is_digit int_of current_version (begun m)) pos h.1)
    | inr e ↦
        let m' = after_fetch is_digit int_of true current_version now fetched (begun m) in
        let none_more : (run_checks true rest m').0 ≡ 0 =
          quiet t rest m' pos
            (omega (arith, h.0.0, after_fetch-last_attempt_at now fetched (begun m) h.0.2)) h.1 in
        rw (e, none_more) (one_or_none (asks (checked_by fetched)))
  ]

-- The clock is past its first second, and the cache can be written. Then of any checks within an
-- hour, whatever the cache says before, at most one asks GitHub: whatever the answers, but for those
-- that raise an exception which `run_check` does not handle.
pub run_checks-le :
    (is_digit : ℕ → Bool) (int_of : Text → Option ℕ) (current_version : Text) (t : ℕ)
    (runs : List (ℕ × Fetched)) (m : Machine)
    → 1 ≤ t
    → All (InHour t) runs
    → (run_checks is_digit int_of current_version true runs m).0 ≤ 1
run_checks-le is_digit int_of current_version t runs m pos h =
    at_most_one is_digit int_of current_version t runs m pos h
