-- ===== src/Update.antt =====
-- utils/update_check.py: the versions, `_apply_release_tag`, `run_check` with its cache, and
-- `get_update_asset`. Times are whole seconds. An entry of the cache that is missing is empty. What
-- GitHub answers is an argument, and so are `is_digit` and `lower` (`str.isdigit`, `str.lower`) and
-- `int_of`, Python's `int` of a text of digits.
pub mod Rate
pub mod Shown
use tg_ws_proxy_rust.Prelude.{
  ℕ, zero, suc, ◌+◌, ◌-◌, Bool, true, false, not, ◌&&◌, ◌||◌, List, [], ◌∷◌, ◌++◌, Option, none,
  some, map, is_empty, take, drop, ltb, ◌==◌, if◌then◌else◌,
}
use tg_ws_proxy_rust.Prelude.Bytes.{bytes_eq}
use tg_ws_proxy_rust.Prelude.Text.{
  Text, codes, is_space, strip, drop_while, take_while, split_where,
}
use tg_ws_proxy_rust.Versions.{version_gt}

pub record Asset : Type 0 where
  pub name : Text
  pub url : Text
  pub digest : Text

-- `_state`
pub record Status : Type 0 where
  pub checked : Bool
  pub has_update : Bool
  pub ahead_of_release : Bool
  pub latest : Option Text
  pub html_url : Text
  pub error : Option Text
  pub assets : List Asset

pub record Cache : Type 0 where
  pub last_attempt_at : ℕ
  pub tag_name : Text
  pub html_url : Text
  pub assets : List Asset
  pub etag : Text
  pub last_error : Text

-- `fetch_latest_release`, and the answer as it is read: a 304, a release, or an exception that the
-- handler takes, with its message, where `forbidden` is the code 403. Other exceptions reach the
-- caller: `escapes` before the state is set (an HTTPException, an answer that is no object),
-- `bad_assets` after it, with the tag and the address of the release (an asset that is no object).
pub data Fetched : Type 0 where
  not_modified : Text → Fetched
  release : Text → Text → List Asset → Text → Fetched
  forbidden : Fetched
  failed : Text → Fetched
  escapes : Fetched
  bad_assets : Text → Text → Fetched

abbrev pub releases_page_url : Text
releases_page_url = codes "https://github.com/Flowseal/tg-ws-proxy/releases/latest"

abbrev pub min_fetch_interval : ℕ
min_fetch_interval = 3600

abbrev pub deferred : Text
deferred = codes "Проверка обновлений отложена (интервал между запросами)."

abbrev pub forbidden_message : Text
forbidden_message = codes "GitHub API вернул 403 (лимит или доступ). Повторите позже."

-- s.lstrip("vV")
abbrev pub strip_v : Text → Text
strip_v s = drop_while (λ c. c == b'v' || c == b'V') s

-- a or b
abbrev pub or_else : Text → Text → Text
or_else [] b = b
or_else (c ∷ cs) b = c ∷ cs

abbrev pub is_recent : ℕ → Cache → Bool
is_recent now cache =
    not (cache.last_attempt_at == 0) && ltb (now - cache.last_attempt_at) min_fetch_interval

-- How a check ends: from the cache, by asking, or by an exception that it passes on.
pub data Checked : Type 0 where
  replayed asked escaped : Checked

abbrev pub checked_by : Fetched → Checked
checked_by (not_modified new_etag) = asked
checked_by (release tag_name html_url assets new_etag) = asked
checked_by forbidden = asked
checked_by (failed message) = asked
checked_by escapes = escaped
checked_by (bad_assets tag_name html_url) = escaped

-- What is set when there is nothing to show.
abbrev pub no_release : Text → Status → Status
no_release message st = record st {
  error = some message;
  has_update = false;
  ahead_of_release = false;
  latest = none;
  html_url = releases_page_url;
}

-- The state of the module and the file of the cache.
pub record Machine : Type 0 where
  pub status : Status
  pub cache : Cache

abbrev pub save_cache : Bool → Cache → Machine → Machine
save_cache writable cache m = if writable then record m { cache = cache } else m

-- The assets that have a name and an address.
abbrev pub usable : List Asset → List Asset
usable [] = []
usable (a ∷ rest) =
    let others = usable rest in
    if not (is_empty a.name) && not (is_empty a.url) then a ∷ others else others

abbrev pub failed_check : Bool → ℕ → Text → Machine → Machine
failed_check writable now message m =
    save_cache writable (record m.cache { last_attempt_at = now; last_error = message })
      (record m { status = no_release message m.status })

abbrev pub begun : Machine → Machine
begun m = record m { status = record m.status { checked = true; error = none } }

module _ (is_digit : ℕ → Bool) (int_of : Text → Option ℕ) where
  pub segment_number : Text → ℕ
  segment_number seg =
      let digits = take_while is_digit seg in
      if is_empty digits then 0 else elim (int_of digits) [ none ↦ 0 | some n ↦ n ]

  pub parse_version_tuple : Text → List ℕ
  parse_version_tuple s =
      let t = strip_v (strip is_space s) in
      if is_empty t then 0 ∷ [] else map segment_number (split_where (λ c. c == b'.') t)

  pub newer : Text → Text → Bool
  newer a b = version_gt (parse_version_tuple a) (parse_version_tuple b)

  pub apply_release_tag : Text → Text → Text → Status → Status
  apply_release_tag tag html_url current_version st =
      let latest_clean = strip_v tag in
      let cur = strip_v (strip is_space current_version) in
      let page = or_else (strip is_space html_url) releases_page_url in
      if is_empty tag
      then record st {
        has_update = false;
        ahead_of_release = false;
        latest = none;
        html_url = page;
      }
      else record st {
        has_update = newer latest_clean cur;
        ahead_of_release = not (is_empty latest_clean) && newer cur latest_clean;
        latest = some latest_clean;
        html_url = page;
      }

  pub from_cache : Text → Machine → Machine
  from_cache current_version m =
      let tag = strip is_space m.cache.tag_name in
      if not (is_empty tag)
      then record m {
        status = record (apply_release_tag tag m.cache.html_url current_version m.status) {
          assets = m.cache.assets;
        };
      }
      else record m { status = no_release (or_else m.cache.last_error deferred) m.status }

  pub after_fetch : Bool → Text → ℕ → Fetched → Machine → Machine
  after_fetch writable current_version now (not_modified new_etag) m =
      let tag = strip is_space m.cache.tag_name in
      let url = or_else (strip is_space m.cache.html_url) releases_page_url in
      save_cache writable
        (record m.cache { last_attempt_at = now; etag = or_else new_etag m.cache.etag })
        (record m {
          status = record (apply_release_tag tag url current_version m.status) {
            assets = m.cache.assets;
          };
        })
  after_fetch writable current_version now (release tag_name html_url assets new_etag) m =
      let tag = strip is_space tag_name in
      let url = or_else (strip is_space html_url) releases_page_url in
      save_cache writable
        (record {
          last_attempt_at = now;
          tag_name = tag;
          html_url = url;
          assets = usable assets;
          etag = or_else new_etag m.cache.etag;
          last_error = [];
        })
        (record m {
          status = record (apply_release_tag tag url current_version m.status) {
            assets = usable assets;
          };
        })
  after_fetch writable current_version now forbidden m =
      failed_check writable now forbidden_message m
  after_fetch writable current_version now (failed message) m = failed_check writable now message m
  after_fetch writable current_version now escapes m = m
  after_fetch writable current_version now (bad_assets tag_name html_url) m = record m {
    status =
        apply_release_tag (strip is_space tag_name)
          (or_else (strip is_space html_url) releases_page_url) current_version m.status;
  }

  pub run_check : Bool → Text → ℕ → Fetched → Machine → Checked × Machine
  unfolding from_cache after_fetch
  run_check writable current_version now fetched m =
      if is_recent now m.cache
      then (replayed, from_cache current_version (begun m))
      else (checked_by fetched, after_fetch writable current_version now fetched (begun m))

-- get_update_asset: `exe_sha` is the digest of the program, if it could be read.
module _ (lower : Text → Text) where
  abbrev pub has_digest : Text → Asset → Bool
  has_digest exe_sha a =
      let d = lower a.digest in bytes_eq (take 7 d) (codes "sha256:") && bytes_eq (drop 7 d) exe_sha

  pub find_asset : (Asset → Bool) → List Asset → Option (Text × Text)
  find_asset test [] = none
  find_asset test (a ∷ rest) =
      let later = find_asset test rest in if test a then some (a.url, a.name) else later

  abbrev pub by_digest : Option Text → List Asset → Option (Text × Text)
  by_digest none assets = none
  by_digest (some exe_sha) assets = find_asset (has_digest exe_sha) assets

  pub asset_name : Bool → Bool → Text
  asset_name is_modern is_64 =
      if is_modern
      then codes "TgWsProxy_windows.exe"
      else if is_64
      then codes "TgWsProxy_windows_7_64bit.exe"
      else codes "TgWsProxy_windows_7_32bit.exe"

  pub get_update_asset : Option Text → Bool → Bool → List Asset → Option (Text × Text)
  unfolding find_asset asset_name
  get_update_asset exe_sha is_modern is_64 assets = elim (by_digest exe_sha assets) [
    | some found ↦ some found
    | none ↦ find_asset (λ a. bytes_eq a.name (asset_name is_modern is_64)) assets
  ]
