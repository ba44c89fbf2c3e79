-- ===== src/Server/Shutdown.antt =====
-- `_run` of proxy/tg_ws_proxy.py with a stop event: the client tasks, and how they are drained. The
-- tasks are numbers. That a task that was cancelled ends is a step like any other end of a task.
use tg_ws_proxy_rust.Prelude.{
  ℕ, ◌≡◌, refl, sym, ap, subst, ◌∙◌, Bool, true, false, ◌||◌, List, [], ◌∷◌, ◌==◌, ==_iff,
  if◌then◌else◌, inl, inr, Bool-cases,
}

abbrev pub task_in : ℕ → List ℕ → Bool
task_in t [] = false
task_in t (x ∷ xs) = t == x || task_in t xs

abbrev pub discard : ℕ → List ℕ → List ℕ
discard t [] = []
discard t (x ∷ xs) = let rest = discard t xs in if t == x then rest else x ∷ rest

-- Those of `waited` that have not ended.
abbrev pub pending : List ℕ → List ℕ → List ℕ
pending [] tasks = []
pending (t ∷ waited) tasks =
    let rest = pending waited tasks in if task_in t tasks then t ∷ rest else rest

-- The server accepts; it waits for the tasks it had when it closed, for the shutdown timeout; it has
-- cancelled those that were left, and waits for them; it has ended.
pub data Phase : Type 0 where
  serving : Phase
  draining forcing : List ℕ → Phase
  ended : Phase

pub record Loop : Type 0 where
  pub phase : Phase
  pub client_tasks : List ℕ
  pub cancelled : List ℕ

-- `client_cb`; the done callback of a task; the stop event without and with tasks; the two ends of
-- the wait for the tasks; and the end of the wait for those that were cancelled.
pub data Step : Loop → Loop → Type 0 where
  accept :
      (s : Loop) (t : ℕ)
      → s.phase ≡ serving
      → Step s (record s { client_tasks = t ∷ s.client_tasks })
  finish : (s : Loop) (t : ℕ) → Step s (record s { client_tasks = discard t s.client_tasks })
  stop_idle :
      (s : Loop) → s.phase ≡ serving → s.client_tasks ≡ [] → Step s (record s { phase = ended })
  stop : (s : Loop) → s.phase ≡ serving → Step s (record s { phase = draining s.client_tasks })
  drained :
      (s : Loop) (waited : List ℕ)
      → s.phase ≡ draining waited
      → pending waited s.client_tasks ≡ []
      → Step s (record s { phase = ended })
  timed_out :
      (s : Loop) (waited : List ℕ)
      → s.phase ≡ draining waited
      → Step s (record s {
        phase = forcing (pending waited s.client_tasks);
        cancelled = pending waited s.client_tasks;
      })
  forced :
      (s : Loop) (waited : List ℕ)
      → s.phase ≡ forcing waited
      → pending waited s.client_tasks ≡ []
      → Step s (record s { phase = ended })

pub data Reach (s : Loop) : Loop → Type 0 where
  here : Reach s s
  next : {t u : Loop} → Reach s t → Step t u → Reach s u

-- Every task that runs is waited for.
abbrev pub Covers : List ℕ → List ℕ → Type 0
Covers waited tasks = (t : ℕ) → task_in t tasks ≡ true → task_in t waited ≡ true

abbrev pub WaitsFor : Phase → List ℕ → Type 0
WaitsFor serving tasks = Unit {0}
WaitsFor (draining waited) tasks = Covers waited tasks
WaitsFor (forcing waited) tasks = Covers waited tasks
WaitsFor ended tasks = tasks ≡ []

discard-task_in : (t u : ℕ) (xs : List ℕ) → task_in u (discard t xs) ≡ true → task_in u xs ≡ true
discard-task_in t u [] h = h
discard-task_in t u (x ∷ xs) h = elim (Bool-cases (u == x)) [
  | inl e ↦ rw e refl
  | inr e ↦ elim (Bool-cases (t == x)) [
    | inl f ↦ let k : task_in u (discard t xs) ≡ true = rw f at h in rw e (discard-task_in t u xs k)
    | inr f ↦
        let k : (u == x || task_in u (discard t xs)) ≡ true = rw f at h in
        let l : task_in u (discard t xs) ≡ true = rw e at k in rw e (discard-task_in t u xs l)
  ]
]

pending-task_in :
    (t : ℕ) (waited tasks : List ℕ)
    → task_in t waited ≡ true
    → task_in t tasks ≡ true
    → task_in t (pending waited tasks) ≡ true
pending-task_in t [] tasks h k = h
pending-task_in t (w ∷ ws) tasks h k = elim (Bool-cases (t == w)) [
  | inl e ↦
      let running : task_in w tasks ≡ true =
        ap (λ n. task_in n tasks) (sym ((==_iff t w).0 e)) ∙ k in
      rw running (rw e refl)
  | inr e ↦
      let rest : task_in t ws ≡ true = rw e at h in
      let deeper = pending-task_in t ws tasks rest k in
      elim (Bool-cases (task_in w tasks)) [ inl f ↦ rw f (rw e deeper) | inr f ↦ rw f deeper ]
]

no_tasks : (waited tasks : List ℕ) → Covers waited tasks → pending waited tasks ≡ [] → tasks ≡ []
no_tasks waited [] h e = refl
no_tasks waited (t ∷ ts) h e =
    let self : task_in t (t ∷ ts) ≡ true = rw ((==_iff t t).1 refl) refl in
    let there = pending-task_in t waited (t ∷ ts) (h t self) self in
    let no : false ≡ true = ap (task_in t) (sym e) ∙ there in absurd (cc)

WaitsFor-discard :
    (p : Phase) (t : ℕ) (tasks : List ℕ) → WaitsFor p tasks → WaitsFor p (discard t tasks)
WaitsFor-discard serving t tasks h = tt
WaitsFor-discard (draining waited) t tasks h = λ u k. h u (discard-task_in t u tasks k)
WaitsFor-discard (forcing waited) t tasks h = λ u k. h u (discard-task_in t u tasks k)
WaitsFor-discard ended t tasks h = ap (discard t) h

at_phase : {p q : Phase} (tasks : List ℕ) → p ≡ q → WaitsFor p tasks → WaitsFor q tasks
at_phase tasks e h = subst (λ x. WaitsFor x tasks) e h

Step-WaitsFor :
    {s t : Loop} → Step s t → WaitsFor s.phase s.client_tasks → WaitsFor t.phase t.client_tasks
Step-WaitsFor (Step.accept s t e) h = at_phase (t ∷ s.client_tasks) (sym e) tt
Step-WaitsFor (Step.finish s t) h = WaitsFor-discard s.phase t s.client_tasks h
Step-WaitsFor (Step.stop_idle s e f) h = f
Step-WaitsFor (Step.stop s e) h = λ t k. k
Step-WaitsFor (Step.drained s waited e f) h =
    no_tasks waited s.client_tasks (at_phase s.client_tasks e h) f
Step-WaitsFor (Step.timed_out s waited e) h =
    λ t k. pending-task_in t waited s.client_tasks (at_phase s.client_tasks e h t k) k
Step-WaitsFor (Step.forced s waited e f) h =
    no_tasks waited s.client_tasks (at_phase s.client_tasks e h) f

Reach-WaitsFor :
    {s t : Loop} → Reach s t → WaitsFor s.phase s.client_tasks → WaitsFor t.phase t.client_tasks
Reach-WaitsFor Reach.here h = h
Reach-WaitsFor (Reach.next reached step) h = Step-WaitsFor step (Reach-WaitsFor reached h)

abbrev pub started : Loop
started = record { phase = serving; client_tasks = []; cancelled = [] }

-- When the server has ended, no client task runs any more, in whatever order connections came and
-- ended and whenever the stop event and the shutdown timeout fell.
pub Reach-ended : (s : Loop) → Reach started s → s.phase ≡ ended → s.client_tasks ≡ []
Reach-ended s reached e = at_phase s.client_tasks e (Reach-WaitsFor reached tt)
