-- ===== src/Versions.antt =====
-- `_version_gt` of utils/update_check.py, on the tuples that `_parse_version_tuple` yields.
pub mod Order
use tg_ws_proxy_rust.Prelude.{ℕ, Bool, true, false, List, [], ◌∷◌, ltb, if◌then◌else◌}

-- zip_longest(ta, tb, fillvalue=0), compared from the left.
unfoldable pub version_gt : List ℕ → List ℕ → Bool
version_gt [] [] = false
version_gt [] (y ∷ ys) =
    let rest = version_gt [] ys in if ltb y 0 then true else if ltb 0 y then false else rest
version_gt (x ∷ xs) [] =
    let rest = version_gt xs [] in if ltb 0 x then true else if ltb x 0 then false else rest
version_gt (x ∷ xs) (y ∷ ys) =
    let rest = version_gt xs ys in if ltb y x then true else if ltb x y then false else rest
