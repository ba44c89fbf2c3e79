-- ===== src/Examples/Balancer.antt =====
-- Runs of the balancer.
use tg_ws_proxy_rust.Prelude.{◌≡◌, refl, [], ◌∷◌, some}
use tg_ws_proxy_rust.Prelude.Bytes.{Bytes}
use tg_ws_proxy_rust.Balancer.{Balancer, count, get_domains_for_dc}
use tg_ws_proxy_rust.Balancer.Order.{get_domains_for_dc-count}

abbrev first : Bytes
first = 1 ∷ []

abbrev second : Bytes
second = 2 ∷ []

abbrev two : Balancer
two = record { domains = first ∷ second ∷ []; dc_to_domain = λ dc. some second }

get_domains_for_dc-count_example :
    (count first (get_domains_for_dc 2 (first ∷ second ∷ []) two) ≡ 1)
    × (get_domains_for_dc 2 (first ∷ second ∷ []) two ≡ second ∷ first ∷ [])
get_domains_for_dc-count_example =
    get_domains_for_dc-count two 2 (first ∷ second ∷ []) second first (λ x. refl) refl refl
