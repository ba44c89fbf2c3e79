-- ===== src/Pool.antt =====
-- `_BasePool` of proxy/pool.py, with what `_WsPool` and `_CfWorkerPool` tell it. `gone` says which
-- sockets are closed or closing at a call; the outcomes of the connection attempts are an argument
-- of `refill`, which is one step here. A bucket that is missing is an empty one.
pub mod Serves
pub mod Keys
pub mod Bound
use tg_ws_proxy_rust.Prelude.{
  ℕ, zero, suc, ◌+◌, ◌-◌, Bool, true, false, not, ◌&&◌, ◌||◌, List, [], ◌∷◌, ◌++◌, Option, none,
  some, length, take, ltb, leb, ◌==◌, if◌then◌else◌,
}

-- A key is a pair of a data centre and what the pool tells apart, or, from callers that leave that
-- out, the data centre alone.
pub data Key (A : Type 0) : Type 0 where
  dc_only : ℕ → Key A
  pair : ℕ → A → Key A

pub record Entry : Type 0 where
  pub ws : ℕ
  pub created : ℕ

-- What `get` comes to. The line that logs a hit unpacks the key: a key that is no pair is a
-- TypeError there.
pub data Got : Type 0 where
  hit : ℕ → Got
  miss type_error : Got

abbrev pub ws_pool_max_age : ℕ
ws_pool_max_age = 120

module _ {A : Type 0} (same : A → A → Bool) where
  abbrev pub key_eq : Key A → Key A → Bool
  key_eq (dc_only m) (dc_only n) = m == n
  key_eq (dc_only m) (pair n b) = false
  key_eq (pair m a) (dc_only n) = false
  key_eq (pair m a) (pair n b) = (m == n) && same a b

  abbrev pub key_in : Key A → List (Key A) → Bool
  key_in k [] = false
  key_in k (x ∷ xs) = key_eq k x || key_in k xs

  abbrev pub discard : Key A → List (Key A) → List (Key A)
  discard k [] = []
  discard k (x ∷ xs) = let rest = discard k xs in if key_eq k x then rest else x ∷ rest

  -- `closing` are the sockets handed to `_quiet_close`, `spawned` the keys of the refill tasks.
  pub record Pool : Type 0 where
    pub idle : Key A → List Entry
    pub refilling : List (Key A)
    pub closing : List ℕ
    pub spawned : List (Key A)
    pub hits : ℕ
    pub misses : ℕ

  -- self._idle[key] = bucket
  abbrev pub put : Key A → List Entry → (Key A → List Entry) → Key A → List Entry
  put key bucket idle k = if key_eq key k then bucket else idle k

  pub schedule_refill : Key A → Pool → Pool
  schedule_refill key p =
      if key_in key p.refilling
      then p
      else record p { refilling = key ∷ p.refilling; spawned = key ∷ p.spawned }

  abbrev pub is_stale : ℕ → (ℕ → Bool) → Entry → Bool
  is_stale now gone e = ltb ws_pool_max_age (now - e.created) || gone e.ws

  -- The `while bucket` loop: the sockets to close, the one to serve, and the bucket after it.
  pub scan : ℕ → (ℕ → Bool) → List Entry → List ℕ × Option ℕ × List Entry
  scan now gone [] = ([], none, [])
  scan now gone (e ∷ bucket) =
      let (closed, found, rest) = scan now gone bucket in
      if is_stale now gone e then (e.ws ∷ closed, found, rest) else ([], some e.ws, bucket)

  served : Key A → Pool → List ℕ × Option ℕ × List Entry → Got × Pool
  served key p (closed, none, rest) = (
    miss,
    schedule_refill key (record p {
      idle = put key rest p.idle;
      closing = p.closing ++ closed;
      misses = suc p.misses;
    }),
  )
  served (pair n a) p (closed, some ws, rest) = (
    hit ws,
    schedule_refill (pair n a) (record p {
      idle = put (pair n a) rest p.idle;
      closing = p.closing ++ closed;
      hits = suc p.hits;
    }),
  )
  served (dc_only n) p (closed, some ws, rest) = (
    type_error,
    record p {
      idle = put (dc_only n) rest p.idle;
      closing = p.closing ++ closed;
      hits = suc p.hits;
    },
  )

  pub get : Key A → ℕ → (ℕ → Bool) → Pool → Got × Pool
  unfolding served
  get key now gone p = served key p (scan now gone (p.idle key))

  abbrev pub connected : List (Option Entry) → List Entry
  connected [] = []
  connected (none ∷ rs) = connected rs
  connected (some e ∷ rs) = e ∷ connected rs

  -- `readable` is whether `_refill_args` unpacks the key; a TypeError ends the task.
  abbrev pub readable : Key A → Bool
  readable (dc_only n) = false
  readable (pair n a) = true

  pub refill : ℕ → List (Option Entry) → Key A → Pool → Pool
  refill pool_size outcomes key p =
      let bucket = p.idle key in
      let needed = pool_size - length bucket in
      let idle =
        if (needed == 0) || not (readable key)
        then p.idle
        else put key (bucket ++ connected (take needed outcomes)) p.idle in
      record p { idle = idle; refilling = discard key p.refilling }

  unfoldable pub reset : Pool → Pool
  reset p = record p { idle = λ k. []; refilling = [] }
