-- ===== src/Balancer/Served.antt =====
-- A balancer that serves: every data centre has a domain of the pool.
use tg_ws_proxy_rust.Prelude.{
  ℕ, zero, suc, ◌≤◌, ◌<◌, ◌≡◌, ◌≢◌, ◌⊎◌, refl, sym, ap, ◌∙◌, true, false, List, [], ◌∷◌, some,
  length, get_or, ◌==◌, inl, inr, Bool-cases, arith,
}
use tg_ws_proxy_rust.Prelude.Bytes.{Bytes, bytes_eq, bytes_eq_refl, bytes_in}
use tg_ws_proxy_rust.Balancer.{
  Balancer, count, same_counts, is_dc, index_error, update_domains_list,
}

abbrev pub Serves : Balancer → Type 0
Serves b =
    (dc : ℕ)
    → is_dc dc ≡ true
    → (d : Bytes) × (b.dc_to_domain dc ≡ some d) × (bytes_in d b.domains ≡ true)

pub get_or-bytes_in :
    (ds : List Bytes) (i : ℕ) → i < length ds → bytes_in (get_or ds i []) ds ≡ true
get_or-bytes_in [] i h = absurd (omega arith)
get_or-bytes_in (d ∷ ds) zero h = rw (bytes_eq_refl d) refl
get_or-bytes_in (d ∷ ds) (suc i) h = elim (Bool-cases (bytes_eq (get_or ds i []) d)) [
  | inl e ↦ rw e refl
  | inr e ↦ rw e (get_or-bytes_in ds i (omega arith))
]

zero-eq-suc : (n : ℕ) → (0 == suc n) ≡ false
zero-eq-suc n = ground arith

same_counts-nil : (d : Bytes) (ds : List Bytes) → same_counts [] (d ∷ ds) ≡ false
same_counts-nil d ds = rw (bytes_eq_refl d, zero-eq-suc (count d ds)) refl

stuck_nil : (xs ds : List Bytes) → xs ≡ [] → 1 ≤ length ds → same_counts xs ds ≡ false
stuck_nil xs [] e h = absurd (omega arith)
stuck_nil xs (d ∷ ds) e h =
    ap (λ (ys : List Bytes). same_counts ys (d ∷ ds)) e ∙ same_counts-nil d ds

-- A new pool is not empty, and the indices that random.choice yields lie in it. Then the update
-- raises nothing, and from a pool that was empty or a balancer that served, the balancer serves;
-- its domains are the new ones or, as often each, the old ones.
pub update_domains_list-Serves :
    (pick : ℕ → ℕ) (ds : List Bytes) (b : Balancer)
    → (b.domains ≡ []) ⊎ Serves b
    → 1 ≤ length ds
    → ((dc : ℕ) → pick dc < length ds)
    → ((update_domains_list pick ds b).0 ≢ index_error)
      × Serves (update_domains_list pick ds b).1
      × (same_counts b.domains ds ≡ true ⊎ ((update_domains_list pick ds b).1.domains ≡ ds))
unfolding update_domains_list
update_domains_list-Serves pick [] b h some_domain k = absurd (omega arith)
update_domains_list-Serves pick (x ∷ xs) b h some_domain k =
    elim (Bool-cases (same_counts b.domains (x ∷ xs))) [
      | inl same ↦
          let served : Serves b = elim h [
            | inl e ↦
                let f : false ≡ true = sym (stuck_nil b.domains (x ∷ xs) e some_domain) ∙ same in
                absurd (cc)
            | inr s ↦ s
          ] in
          rw same (λ e. cc, served, inl refl)
      | inr other ↦ rw other (
        λ e. cc,
        λ dc is.
            (get_or (x ∷ xs) (pick dc) [], rw is refl, get_or-bytes_in (x ∷ xs) (pick dc) (k dc)),
        inr refl,
      )
    ]
