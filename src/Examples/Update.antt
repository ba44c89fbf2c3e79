-- ===== src/Examples/Update.antt =====
-- Runs of the check for a new version.
use tg_ws_proxy_rust.Prelude.{
  ℕ, ◌-◌, ◌≤◌, Bool, true, false, ◌&&◌, Option, none, some, [], ◌∷◌, leb, arith,
}
use tg_ws_proxy_rust.Prelude.Text.{Text, codes}
use tg_ws_proxy_rust.Update.{Machine, release, failed}
use tg_ws_proxy_rust.Update.Rate.{run_checks, run_checks-le}

abbrev is_digit : ℕ → Bool
is_digit c = leb 48 c && leb c 57

abbrev one_digit : Text → Option ℕ
one_digit [] = none
one_digit (c ∷ []) = some (c - 48)
one_digit (c ∷ d ∷ cs) = none

abbrev fresh : Machine
fresh = record {
  status = record {
    checked = false;
    has_update = false;
    ahead_of_release = false;
    latest = none;
    html_url = [];
    error = none;
    assets = [];
  };
  cache = record {
    last_attempt_at = 0;
    tag_name = [];
    html_url = [];
    assets = [];
    etag = [];
    last_error = [];
  };
}

run_checks-le_example :
    (run_checks is_digit one_digit
      (codes "1.2")
      true
      ((1000, failed (codes "timeout"))
        ∷ (1500, release (codes "v1.3") [] [] [])
        ∷ (4000, failed (codes "timeout"))
        ∷ [])
      fresh).0
    ≤ 1
run_checks-le_example =
    run_checks-le is_digit one_digit (codes "1.2") 1000
      ((1000, failed (codes "timeout"))
        ∷ (1500, release (codes "v1.3") [] [] [])
        ∷ (4000, failed (codes "timeout"))
        ∷ [])
      fresh (omega arith)
      (
        (omega arith, omega arith, tt),
        ((omega arith, omega arith, tt), ((omega arith, omega arith, tt), tt)),
      )
