-- ===== src/Tray/Lifecycle.antt =====
-- utils/tray_common.py: `start_proxy`, `stop_proxy` and `_run_proxy_thread`, turn by turn. Threads
-- are numbers. `_async_stop` is the thread that has set it. A stop asks that thread to end, waits
-- for the thread of `_proxy_thread`, five seconds at most, and forgets it; when no thread has set
-- `_async_stop`, it forgets the thread at once.
use tg_ws_proxy_rust.Prelude.{
  ℕ, suc, ◌≡◌, refl, sym, ap, ◌∙◌, ◌⊎◌, Bool, true, false, Option, none, some, ◌==◌, ==_iff,
  if◌then◌else◌, inl, inr, Bool-cases,
}

pub record Tray : Type 0 where
  pub proxy_thread : Option ℕ
  pub async_stop : Option ℕ
  pub alive : ℕ → Bool
  pub fresh : ℕ → Bool
  pub stopping : ℕ → Bool
  pub threads : ℕ

abbrev pub set : ℕ → Bool → (ℕ → Bool) → ℕ → Bool
set t b f u = if u == t then b else f u

-- _proxy_thread and _proxy_thread.is_alive()
abbrev pub is_alive : Tray → Option ℕ → Bool
is_alive s none = false
is_alive s (some t) = s.alive t

-- A new thread; its first lines; its end; the request of a stop; the end of a stop, when the thread
-- has ended and, if `may_leave`, when it has not: the wait has timed out, or there was none, as the
-- thread had not begun.
pub data Step (may_leave : Bool) : Tray → Tray → Type 0 where
  start :
      (s : Tray)
      → is_alive s s.proxy_thread ≡ false
      → Step may_leave s (record s {
        proxy_thread = some s.threads;
        alive = set s.threads true s.alive;
        fresh = set s.threads true s.fresh;
        threads = suc s.threads;
      })
  begin :
      (s : Tray) (t : ℕ)
      → s.alive t ≡ true
      → s.fresh t ≡ true
      → Step may_leave s (record s { async_stop = some t; fresh = set t false s.fresh })
  end :
      (s : Tray) (t : ℕ)
      → s.alive t ≡ true
      → s.fresh t ≡ false
      → Step may_leave s (record s { async_stop = none; alive = set t false s.alive })
  ask :
      (s : Tray) (t : ℕ)
      → s.async_stop ≡ some t
      → Step may_leave s (record s { stopping = set t true s.stopping })
  join :
      (s : Tray)
      → is_alive s s.proxy_thread ≡ false
      → Step may_leave s (record s { proxy_thread = none })
  leave : (s : Tray) → may_leave ≡ true → Step may_leave s (record s { proxy_thread = none })

pub data Reach (may_leave : Bool) (s : Tray) : Tray → Type 0 where
  here : Reach may_leave s s
  next : {t u : Tray} → Reach may_leave s t → Step may_leave t u → Reach may_leave s u

-- A thread that is alive is the one of `_proxy_thread`, and a stop reaches it if it has begun.
abbrev pub IsHeld : Tray → Type 0
IsHeld s =
    (t : ℕ)
    → s.alive t ≡ true
    → (s.proxy_thread ≡ some t) × ((s.async_stop ≡ some t) ⊎ (s.fresh t ≡ true))

only_one : (s : Tray) (t u : ℕ) → IsHeld s → s.alive t ≡ true → s.alive u ≡ true → u ≡ t
only_one s t u h a b = let e = (h t a).0 in let f = (h u b).0 in cc

none_alive :
    (s : Tray) (t : ℕ) → IsHeld s → is_alive s s.proxy_thread ≡ false → s.alive t ≡ true → ⊥
none_alive s t h idle a =
    let e : is_alive s s.proxy_thread ≡ true = ap (is_alive s) (h t a).0 ∙ a in
    let no : false ≡ true = sym idle ∙ e in cc

start-IsHeld :
    (s : Tray)
    → IsHeld s
    → is_alive s s.proxy_thread ≡ false
    → IsHeld (record s {
      proxy_thread = some s.threads;
      alive = set s.threads true s.alive;
      fresh = set s.threads true s.fresh;
      threads = suc s.threads;
    })
start-IsHeld s h idle t a = elim (Bool-cases (t == s.threads)) [
  | inl e ↦ (ap some (sym ((==_iff t s.threads).0 e)), inr (rw e refl))
  | inr e ↦ let old : s.alive t ≡ true = rw e at a in absurd (none_alive s t h idle old)
]

begin-IsHeld :
    (s : Tray) (t : ℕ)
    → IsHeld s
    → s.alive t ≡ true
    → IsHeld (record s { async_stop = some t; fresh = set t false s.fresh })
begin-IsHeld s t h running u a = ((h u a).0, inl (ap some (sym (only_one s t u h running a))))

end-IsHeld :
    (s : Tray) (t : ℕ)
    → IsHeld s
    → s.alive t ≡ true
    → IsHeld (record s { async_stop = none; alive = set t false s.alive })
end-IsHeld s t h running u a = elim (Bool-cases (u == t)) [
  | inl e ↦ let no : false ≡ true = rw e at a in absurd (cc)
  | inr e ↦
      let old : s.alive u ≡ true = rw e at a in
      let same : (u == t) ≡ true = (==_iff u t).1 (only_one s t u h running old) in
      let no : true ≡ false = sym same ∙ e in absurd (cc)
]

Step-IsHeld : {s t : Tray} → Step false s t → IsHeld s → IsHeld t
Step-IsHeld (Step.start s idle) h = start-IsHeld s h idle
Step-IsHeld (Step.begin s t a f) h = begin-IsHeld s t h a
Step-IsHeld (Step.end s t a f) h = end-IsHeld s t h a
Step-IsHeld (Step.ask s t e) h = h
Step-IsHeld (Step.join s idle) h = λ t a. absurd (none_alive s t h idle a)
Step-IsHeld (Step.leave s e) h = absurd (cc)

Reach-IsHeld : {s t : Tray} → Reach false s t → IsHeld s → IsHeld t
Reach-IsHeld Reach.here h = h
Reach-IsHeld (Reach.next reached step) h = Step-IsHeld step (Reach-IsHeld reached h)

abbrev pub fresh_tray : Tray
fresh_tray = record {
  proxy_thread = none;
  async_stop = none;
  alive = λ t. false;
  fresh = λ t. false;
  stopping = λ t. false;
  threads = 0;
}

-- No stop leaves a thread alive: each comes when the thread has begun, and its wait never times out.
-- Then in whatever order the proxy is started and stopped and its threads begin and end, at most one
-- thread is alive, it is the one that the program holds, and once it has begun a stop reaches it.
pub Reach-reaches :
    (s : Tray) (t u : ℕ)
    → Reach false fresh_tray s
    → s.alive t ≡ true
    → s.alive u ≡ true
    → (u ≡ t) × (s.proxy_thread ≡ some t) × ((s.async_stop ≡ some t) ⊎ (s.fresh t ≡ true))
Reach-reaches s t u reached a b =
    let h : IsHeld s = Reach-IsHeld reached (λ v e. absurd (cc)) in
    (only_one s t u h a b, (h t a).0, (h t a).1)
