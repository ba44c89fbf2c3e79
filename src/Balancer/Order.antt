-- ===== src/Balancer/Order.antt =====
-- The order in which the domains are tried.
use tg_ws_proxy_rust.Prelude.{
  ℕ, suc, ◌≡◌, refl, sym, ap, ◌∙◌, true, false, List, [], ◌∷◌, Option, none, some, ◌==◌, ==_iff,
  if◌then◌else◌, inl, inr, Bool-cases,
}
use tg_ws_proxy_rust.Prelude.Bytes.{Bytes, bytes_eq, bytes_eq_iff, bytes_eq_refl}
use tg_ws_proxy_rust.Balancer.{Balancer, count, others, update_domain_for_dc, get_domains_for_dc}

count_self : (current : Bytes) (ds : List Bytes) → count current (others current ds) ≡ 0
count_self current [] = refl
count_self current (d ∷ ds) = elim (Bool-cases (bytes_eq d current)) [
  | inl e ↦ rw e (count_self current ds)
  | inr e ↦
      let e' : bytes_eq current d ≡ false = elim (Bool-cases (bytes_eq current d)) [
        | inl same ↦
            let q : bytes_eq d current ≡ true =
              ap (λ (t : Bytes). bytes_eq d t) ((bytes_eq_iff current d).0 same)
              ∙ bytes_eq_refl d in
            absurd (let no : true ≡ false = sym q ∙ e in let f : ⊥ = cc in f)
        | inr apart ↦ apart
      ] in
      rw (e, e') (count_self current ds)
]

count_other :
    (d current : Bytes) (ds : List Bytes)
    → bytes_eq d current ≡ false
    → count d (others current ds) ≡ count d ds
count_other d current [] h = refl
count_other d current (x ∷ ds) h = elim (Bool-cases (bytes_eq x current)) [
  | inl e ↦
      let same : x ≡ current = (bytes_eq_iff x current).0 e in
      let apart : bytes_eq d x ≡ false = ap (λ (t : Bytes). bytes_eq d t) same ∙ h in
      rw (e, apart) (count_other d current ds h)
  | inr e ↦ rw e (ap (λ n. if bytes_eq d x then suc n else n) (count_other d current ds h))
]

-- The shuffled domains have each domain as often as the pool, which has the current one of the data
-- centre once. Then the generator yields the current domain first, and every domain
-- exactly as often as the pool has it.
pub get_domains_for_dc-count :
    (b : Balancer) (dc_id : ℕ) (shuffled_domains : List Bytes) (current d : Bytes)
    → ((x : Bytes) → count x shuffled_domains ≡ count x b.domains)
    → b.dc_to_domain dc_id ≡ some current
    → count current b.domains ≡ 1
    → (count d (get_domains_for_dc dc_id shuffled_domains b) ≡ count d b.domains)
      × (get_domains_for_dc dc_id shuffled_domains b ≡ current ∷ others current shuffled_domains)
unfolding get_domains_for_dc
get_domains_for_dc-count b dc_id shuffled_domains current d h e once = (
  rw (e, get_domains_for_dc)
      (elim (Bool-cases (bytes_eq d current)) [
        | inl same ↦
            let q : d ≡ current = (bytes_eq_iff d current).0 same in
            ap
              (λ t.
                if t
                then suc (count d (others current shuffled_domains))
                else count d (others current shuffled_domains))
              same
            ∙ ap (λ (t : Bytes). suc (count t (others current shuffled_domains))) q
            ∙ ap suc (count_self current shuffled_domains)
            ∙ sym (ap (λ (t : Bytes). count t b.domains) q ∙ once)
        | inr apart ↦
            ap
              (λ t.
                if t
                then suc (count d (others current shuffled_domains))
                else count d (others current shuffled_domains))
              apart
            ∙ count_other d current shuffled_domains apart
            ∙ h d
      ]),
  rw (e, get_domains_for_dc) refl,
)

-- After `update_domain_for_dc` the domain is the data centre's current one, tried first, whatever
-- it was before; the other data centres and the pool stay as they were.
pub update_domain_for_dc-get_domains_for_dc :
    (b : Balancer) (dc_id other : ℕ) (domain : Bytes) (shuffled_domains : List Bytes)
    → (other == dc_id) ≡ false
    → let b' = (update_domain_for_dc dc_id domain b).1 in
      (get_domains_for_dc dc_id shuffled_domains b' ≡ domain ∷ others domain shuffled_domains)
      × (get_domains_for_dc other shuffled_domains b' ≡ get_domains_for_dc other shuffled_domains b)
      × (b'.domains ≡ b.domains)
unfolding update_domain_for_dc get_domains_for_dc
update_domain_for_dc-get_domains_for_dc b dc_id other domain shuffled_domains h =
    by_current (b.dc_to_domain dc_id) refl
  where
    by_current :
        (o : Option Bytes)
        → b.dc_to_domain dc_id ≡ o
        → let b' = (update_domain_for_dc dc_id domain b).1 in
          (get_domains_for_dc dc_id shuffled_domains b' ≡ domain ∷ others domain shuffled_domains)
          × (get_domains_for_dc other shuffled_domains b'
              ≡ get_domains_for_dc other shuffled_domains b)
          × (b'.domains ≡ b.domains)
    by_current none e =
        rw (e, update_domain_for_dc)
          (
            rw ((==_iff dc_id dc_id).1 refl, get_domains_for_dc) refl,
            rw (h, get_domains_for_dc) refl,
            refl,
          )
    by_current (some d) e = elim (Bool-cases (bytes_eq d domain)) [
      | inl same ↦
          let q : d ≡ domain = (bytes_eq_iff d domain).0 same in
          rw (e, same, update_domain_for_dc)
            (
              rw (e, get_domains_for_dc) (ap (λ (t : Bytes). t ∷ others t shuffled_domains) q),
              refl,
              refl,
            )
      | inr apart ↦
          rw (e, apart, update_domain_for_dc)
            (
              rw ((==_iff dc_id dc_id).1 refl, get_domains_for_dc) refl,
              rw (h, get_domains_for_dc) refl,
              refl,
            )
    ]
