-- ===== src/Examples/Route.antt =====
-- Runs of the ways to Telegram, and of the comparison of versions.
use tg_ws_proxy_rust.Prelude.{◌≡◌, refl, Bool, true, false, [], ◌∷◌, none}
use mathlib.Core.Logic.{◌↔◌}
use tg_ws_proxy_rust.Route.{
  WsDomain, kws, kws_1, Attempt, redirect, failed, try_domains, no_tries, Memory, note_tries,
  Method, cf_worker, cf, tcp, do_fallback,
}
use tg_ws_proxy_rust.Route.Failure.{note_tries-redirects}
use tg_ws_proxy_rust.Route.Fallback.{Tried, do_fallback-Tried}
use tg_ws_proxy_rust.Versions.{version_gt}
use tg_ws_proxy_rust.Versions.Order.{Above, segment, version_gt-Above}

abbrev unknown : Memory
unknown = record { blacklisted = false; fail_until = none }

abbrev half : WsDomain → Attempt
half (kws n) = redirect
half (kws_1 n) = failed

note_tries-redirects_example :
    ((try_domains (λ d. redirect) (kws 2 ∷ kws_1 2 ∷ []) (no_tries 0)).ws ≡ none)
    × ((try_domains (λ d. redirect) (kws 2 ∷ kws_1 2 ∷ []) (no_tries 0)).ws_errors ≡ 2)
    × (note_tries 5 (try_domains (λ d. redirect) (kws 2 ∷ kws_1 2 ∷ []) (no_tries 0)) unknown
        ≡ record unknown { blacklisted = true })
note_tries-redirects_example =
    note_tries-redirects (λ d. redirect) (kws 2) (kws_1 2 ∷ []) 5 0 unknown (tt, (tt, tt)) refl

abbrev only_tcp : Method → Bool
only_tcp cf_worker = false
only_tcp cf = false
only_tcp tcp = true

do_fallback-Tried_example : Tried true true true only_tcp (do_fallback true true true only_tcp)
do_fallback-Tried_example = do_fallback-Tried true true true only_tcp

version_gt-Above_example :
    (version_gt (1 ∷ 2 ∷ []) (1 ∷ []) ≡ true) ↔ Above (segment (1 ∷ 2 ∷ [])) (segment (1 ∷ []))
version_gt-Above_example = version_gt-Above (1 ∷ 2 ∷ []) (1 ∷ [])
