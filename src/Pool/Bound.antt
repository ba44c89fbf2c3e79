-- ===== src/Pool/Bound.antt =====
-- `get` and the tasks of `_refill` of proxy/pool.py, interleaved: a refill counts what is needed when
-- it begins, and each of its connections arrives or fails at a time of its own.
use tg_ws_proxy_rust.Prelude.{
  ℕ, suc, ◌+◌, ◌-◌, ◌≤◌, ◌≡◌, Bool, List, [], ◌∷◌, ◌++◌, length, if◌then◌else◌,
}
use tg_ws_proxy_rust.Pool.{Key, Entry, key_eq, put, scan}

-- The key is not in `_refilling`; its task has not run yet; or it waits for so many connections.
pub data Refill : Type 0 where
  no_task scheduled : Refill
  waiting : ℕ → Refill

abbrev pub missing : Refill → ℕ
missing no_task = 0
missing scheduled = 0
missing (waiting n) = n

module _ {A : Type 0} (same : A → A → Bool) where
  pub record Buckets : Type 0 where
    pub idle : Key A → List Entry
    pub refills : Key A → Refill

  abbrev pub set_refill : Key A → Refill → Buckets → Buckets
  set_refill key r b = record b { refills = λ k. if key_eq same key k then r else b.refills k }

  -- `_schedule_refill`; the first turn of `_refill`; a connection that arrives, or fails; a refill
  -- that needs none or raises; the end of `_refill`; and `get`.
  pub data Step (pool_size : ℕ) : Buckets → Buckets → Type 0 where
    schedule :
        (b : Buckets) (key : Key A)
        → b.refills key ≡ no_task
        → Step pool_size b (set_refill key scheduled b)
    begin :
        (b : Buckets) (key : Key A)
        → b.refills key ≡ scheduled
        → Step pool_size b (set_refill key (waiting (pool_size - length (b.idle key))) b)
    arrive :
        (b : Buckets) (key : Key A) (n : ℕ) (e : Entry)
        → b.refills key ≡ waiting (suc n)
        → Step pool_size b (
            set_refill key
              (waiting n)
              (record b { idle = put same key (b.idle key ++ (e ∷ [])) b.idle }))
    fail :
        (b : Buckets) (key : Key A) (n : ℕ)
        → b.refills key ≡ waiting (suc n)
        → Step pool_size b (set_refill key (waiting n) b)
    abandon :
        (b : Buckets) (key : Key A)
        → b.refills key ≡ scheduled
        → Step pool_size b (set_refill key no_task b)
    end :
        (b : Buckets) (key : Key A)
        → b.refills key ≡ waiting 0
        → Step pool_size b (set_refill key no_task b)
    take :
        (b : Buckets) (key : Key A) (now : ℕ) (gone : ℕ → Bool)
        → Step pool_size b
            (record b { idle = put same key (scan same now gone (b.idle key)).2 b.idle })

  pub data Reach (pool_size : ℕ) (b : Buckets) : Buckets → Type 0 where
    here : Reach pool_size b b
    next : {c d : Buckets} → Reach pool_size b c → Step pool_size c d → Reach pool_size b d

  -- What is there and what is still to come fit.
  abbrev pub Fits : ℕ → Buckets → Type 0
  Fits pool_size b = (key : Key A) → length (b.idle key) + missing (b.refills key) ≤ pool_size
