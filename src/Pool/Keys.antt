-- ===== src/Pool/Keys.antt =====
-- `_handle_client` and `_cfproxy_worker_fallback` call `get` with the data centre alone as the key,
-- while the refill tasks that warm the pool up use pairs.
use tg_ws_proxy_rust.Prelude.{
  ℕ, ◌-◌, ◌≡◌, refl, ap, ◌∙◌, Bool, List, [], Option, none, some, length, ◌==◌, inl, inr,
  Bool-cases,
}
use tg_ws_proxy_rust.Pool.{
  Key, dc_only, pair, Entry, miss, Pool, get, scan, served, schedule_refill, put, key_in, refill,
  reset,
}

module _ {A : Type 0} (same : A → A → Bool) where
  -- All that happens to a pool; the keys, the times and the outcomes are arbitrary.
  pub data Step : Pool same → Pool same → Type 0 where
    warm : (p : Pool same) (key : Key A) → Step p (schedule_refill same key p)
    refilled :
        (p : Pool same) (pool_size : ℕ) (outcomes : List (Option Entry)) (key : Key A)
        → Step p (refill same pool_size outcomes key p)
    got :
        (p : Pool same) (key : Key A) (now : ℕ) (gone : ℕ → Bool)
        → Step p (get same key now gone p).1
    cleared : (p : Pool same) → Step p (reset same p)

  pub data Reach (p : Pool same) : Pool same → Type 0 where
    here : Reach p p
    next : {q r : Pool same} → Reach p q → Step q r → Reach p r

  -- No connection waits under a key that is a data centre alone.
  abbrev pub IsKeyed : Pool same → Type 0
  IsKeyed p = (n : ℕ) → p.idle (dc_only n) ≡ []

  schedule-idle : (key : Key A) (p : Pool same) → (schedule_refill same key p).idle ≡ p.idle
  unfolding schedule_refill
  schedule-idle key p = elim (Bool-cases (key_in same key p.refilling)) [
    | inl there ↦ rw there refl
    | inr new ↦ rw new refl
  ]

  put_other :
      (idle : Key A → List Entry) (m : ℕ) (a : A) (bucket : List Entry) (n : ℕ)
      → put same (pair m a) bucket idle (dc_only n) ≡ idle (dc_only n)
  put_other idle m a bucket n = refl

  refill-IsKeyed :
      (pool_size : ℕ) (outcomes : List (Option Entry)) (key : Key A) (p : Pool same)
      → IsKeyed p
      → IsKeyed (refill same pool_size outcomes key p)
  unfolding refill
  refill-IsKeyed pool_size outcomes (dc_only m) p h n =
      elim (Bool-cases (pool_size - length (p.idle (dc_only m)) == 0)) [
        | inl full ↦ rw full (h n)
        | inr room ↦ rw room (h n)
      ]
  refill-IsKeyed pool_size outcomes (pair m a) p h n =
      elim (Bool-cases (pool_size - length (p.idle (pair m a)) == 0)) [
        | inl full ↦ rw full (h n)
        | inr room ↦ rw room (h n)
      ]

  served_idle :
      (key : Key A) (p : Pool same) (t : List ℕ × Option ℕ × List Entry)
      → (served same key p t).1.idle ≡ put same key t.2 p.idle
  unfolding served
  served_idle key p (closed, none, rest) = schedule-idle key _
  served_idle (pair n a) p (closed, some ws, rest) = schedule-idle (pair n a) _
  served_idle (dc_only n) p (closed, some ws, rest) = refl

  get-IsKeyed :
      (key : Key A) (now : ℕ) (gone : ℕ → Bool) (p : Pool same)
      → IsKeyed p
      → IsKeyed (get same key now gone p).1
  unfolding get scan
  get-IsKeyed (pair m a) now gone p h n =
      ap (λ (f : Key A → List Entry). f (dc_only n))
        (served_idle (pair m a) p (scan same now gone (p.idle (pair m a))))
      ∙ h n
  get-IsKeyed (dc_only m) now gone p h n =
      ap (λ (f : Key A → List Entry). f (dc_only n))
        (served_idle (dc_only m) p (scan same now gone (p.idle (dc_only m))))
      ∙ elim (Bool-cases (m == n)) [
        | inl e ↦ rw e (ap (λ (b : List Entry). (scan same now gone b).2) (h m))
        | inr e ↦ rw e (h n)
      ]

  pub Reach-IsKeyed : {p q : Pool same} → IsKeyed p → Reach p q → IsKeyed q
  unfolding reset
  Reach-IsKeyed h here = h
  Reach-IsKeyed h (next r (warm p key)) = λ n.
      ap (λ (f : Key A → List Entry). f (dc_only n)) (schedule-idle key p) ∙ Reach-IsKeyed h r n
  Reach-IsKeyed h (next r (refilled p pool_size outcomes key)) =
      refill-IsKeyed pool_size outcomes key p (Reach-IsKeyed h r)
  Reach-IsKeyed h (next r (got p key now gone)) = get-IsKeyed key now gone p (Reach-IsKeyed h r)
  Reach-IsKeyed h (next r (cleared p)) = λ n. refl

  served_miss : (key : Key A) (p : Pool same) → ((served same key p ([], none, [])).0 ≡ miss)
  unfolding served
  served_miss key p = refl

  -- From a pool with no connection under a data centre alone, an empty one at first, whatever
  -- warm-ups, refills, calls of `get` and resets follow: a call of `get` with the data centre alone
  -- as the key, as `_handle_client` and `_cfproxy_worker_fallback` make it, serves no connection.
  pub get-dc_only-eq-miss :
      {p q : Pool same} (dc now : ℕ) (gone : ℕ → Bool)
      → IsKeyed p
      → Reach p q
      → (get same (dc_only dc) now gone q).0 ≡ miss
  unfolding get scan
  get-dc_only-eq-miss {q = q} dc now gone h r =
      ap (λ (b : List Entry). (served same (dc_only dc) q (scan same now gone b)).0)
        (Reach-IsKeyed h r dc)
      ∙ served_miss (dc_only dc) q
