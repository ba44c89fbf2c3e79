-- ===== src/Pool/Serves.antt =====
-- What `get` serves, and what it does with the rest of the bucket.
use tg_ws_proxy_rust.Prelude.{
  ℕ, suc, ◌+◌, ◌≡◌, refl, sym, subst, Bool, true, false, List, [], ◌∷◌, ◌++◌, Option, none, some,
  All, if◌then◌else◌, arith, inl, inr, Bool-cases,
}
use tg_ws_proxy_rust.Pool.{
  Key, dc_only, pair, key_in, Entry, Got, hit, miss, type_error, Pool, get, scan, is_stale, served,
  schedule_refill, put,
}

module _ {A : Type 0} (same : A → A → Bool) where
  abbrev pub sockets : List Entry → List ℕ
  sockets [] = []
  sockets (e ∷ es) = e.ws ∷ sockets es

  -- The bucket is `stale ++ (e ∷ rest)` with nothing usable before `e`, or all of it is stale.
  pub data Scanned (now : ℕ) (gone : ℕ → Bool)
      : List Entry → List ℕ × Option ℕ × List Entry → Type 0 where
    found :
        (stale : List Entry) (e : Entry) (rest : List Entry)
        → All (λ x. is_stale same now gone x ≡ true) stale
        → is_stale same now gone e ≡ false
        → Scanned now gone (stale ++ (e ∷ rest)) (sockets stale, some e.ws, rest)
    nothing :
        (stale : List Entry)
        → All (λ x. is_stale same now gone x ≡ true) stale
        → Scanned now gone stale (sockets stale, none, [])

  Scanned-cons :
      (now : ℕ) (gone : ℕ → Bool) (e : Entry) (bucket : List Entry)
      (t : List ℕ × Option ℕ × List Entry)
      → is_stale same now gone e ≡ true
      → Scanned now gone bucket t
      → Scanned now gone (e ∷ bucket) (e.ws ∷ t.0, t.1, t.2)
  Scanned-cons now gone e bucket t h (found stale x rest hs hx) =
      found (e ∷ stale) x rest (h, hs) hx
  Scanned-cons now gone e bucket t h (nothing stale hs) = nothing (e ∷ stale) (h, hs)

  scan-Scanned :
      (now : ℕ) (gone : ℕ → Bool) (bucket : List Entry)
      → Scanned now gone bucket (scan same now gone bucket)
  unfolding scan
  scan-Scanned now gone [] = nothing [] tt
  scan-Scanned now gone (e ∷ bucket) = elim (Bool-cases (is_stale same now gone e)) [
    | inl old ↦
        subst
          (λ b. Scanned now gone (e ∷ bucket) (
            let (closed, r, rest) = scan same now gone bucket in
            if b then (e.ws ∷ closed, r, rest) else ([], some e.ws, bucket)))
          (sym old)
          (Scanned-cons now gone e bucket (scan same now gone bucket) old
            (scan-Scanned now gone bucket))
    | inr usable ↦
        subst
          (λ b. Scanned now gone (e ∷ bucket) (
            let (closed, r, rest) = scan same now gone bucket in
            if b then (e.ws ∷ closed, r, rest) else ([], some e.ws, bucket)))
          (sym usable) (found [] e bucket tt usable)
  ]

  -- What a call comes to that finds a connection or none: the log of a hit needs a pair.
  abbrev pub outcome : Key A → Option ℕ → Got
  outcome key none = miss
  outcome (pair n a) (some ws) = hit ws
  outcome (dc_only n) (some ws) = type_error

  abbrev pub found_count : Option ℕ → ℕ
  found_count none = 0
  found_count (some ws) = 1

  -- The refill tasks that are new: none after a TypeError or while one is under way.
  abbrev pub new_tasks : Key A → List (Key A) → Got → List (Key A)
  new_tasks key refilling type_error = []
  new_tasks key refilling miss = if key_in same key refilling then [] else key ∷ []
  new_tasks key refilling (hit ws) = if key_in same key refilling then [] else key ∷ []

  -- A pool after `get`.
  pub record Served (key : Key A) (now : ℕ) (gone : ℕ → Bool) (p : Pool same) (r : Got × Pool same)
      : Type 0 where
    pub closed : List ℕ
    pub first : Option ℕ
    pub rest : List Entry
    pub scanned : Scanned now gone (p.idle key) (closed, first, rest)
    pub result : r.0 ≡ outcome key first
    pub bucket : r.1.idle ≡ put same key rest p.idle
    pub closing : r.1.closing ≡ p.closing ++ closed
    pub hits : r.1.hits ≡ found_count first + p.hits
    pub counted : r.1.hits + r.1.misses ≡ suc (p.hits + p.misses)
    pub refilling : r.1.refilling ≡ new_tasks key p.refilling r.0 ++ p.refilling
    pub spawned : r.1.spawned ≡ new_tasks key p.refilling r.0 ++ p.spawned

  -- Scheduling a refill keeps the buckets and the counters, and starts a task where none is.
  schedule_lem :
      (key : Key A) (p : Pool same)
      → let r = schedule_refill same key p in
        let tasks = if key_in same key p.refilling then [] else key ∷ [] in
        (r.idle ≡ p.idle)
        × (r.closing ≡ p.closing)
        × (r.hits ≡ p.hits)
        × (r.misses ≡ p.misses)
        × (r.refilling ≡ tasks ++ p.refilling)
        × (r.spawned ≡ tasks ++ p.spawned)
  unfolding schedule_refill
  schedule_lem key p = elim (Bool-cases (key_in same key p.refilling)) [
    | inl there ↦ rw there (refl, refl, refl, refl, refl, refl)
    | inr new ↦ rw new (refl, refl, refl, refl, refl, refl)
  ]

  served_lem :
      (key : Key A) (now : ℕ) (gone : ℕ → Bool) (p : Pool same) (t : List ℕ × Option ℕ × List Entry)
      → Scanned now gone (p.idle key) t
      → Served key now gone p (served same key p t)
  unfolding served
  served_lem key now gone p (closed, none, rest) s =
      let q = record p {
        idle = put same key rest p.idle;
        closing = p.closing ++ closed;
        misses = suc p.misses;
      } in
      let (e, c, h, m, k, w) = schedule_lem key q in
      record {
        closed = closed;
        first = none;
        rest = rest;
        scanned = s;
        result = refl;
        bucket = e;
        closing = c;
        hits = omega (arith, h);
        counted = omega (arith, h, m);
        refilling = k;
        spawned = w;
      }
  served_lem (pair n a) now gone p (closed, some ws, rest) s =
      let q = record p {
        idle = put same (pair n a) rest p.idle;
        closing = p.closing ++ closed;
        hits = suc p.hits;
      } in
      let (e, c, h, m, k, w) = schedule_lem (pair n a) q in
      record {
        closed = closed;
        first = some ws;
        rest = rest;
        scanned = s;
        result = refl;
        bucket = e;
        closing = c;
        hits = omega (arith, h);
        counted = omega (arith, h, m);
        refilling = k;
        spawned = w;
      }
  served_lem (dc_only n) now gone p (closed, some ws, rest) s = record {
    closed = closed;
    first = some ws;
    rest = rest;
    scanned = s;
    result = refl;
    bucket = refl;
    closing = refl;
    hits = omega arith;
    counted = omega arith;
    refilling = refl;
    spawned = refl;
  }

  -- `get` finds the first connection of the bucket of its key that is neither gone nor older than
  -- 120 seconds, or none where there is no such one. It takes this one and those before it off the
  -- bucket, hands exactly those before it, in order, to be closed, and leaves the other buckets. With
  -- one it counts a hit and serves it, or raises a TypeError where the key is no pair; with none it
  -- counts a miss. Unless it raises, it starts one refill of the key if none is under way.
  pub get-Served :
      (key : Key A) (now : ℕ) (gone : ℕ → Bool) (p : Pool same)
      → Served key now gone p (get same key now gone p)
  unfolding get
  get-Served key now gone p =
      served_lem key now gone p (scan same now gone (p.idle key))
        (scan-Scanned now gone (p.idle key))
