-- ===== src/Route/Over.antt =====
-- Attempts that are not cancelled.
use tg_ws_proxy_rust.Prelude.{◌≡◌, refl, true, false, List, [], ◌∷◌, suc}
use tg_ws_proxy_rust.Route.{
  Attempt, session, redirect, handshake_error, failed, cancelled, Tries, try_domains, Found, found,
  not_found, interrupted, or_others, first_session,
}

-- An attempt that is not cancelled, and the end of a loop of such attempts.
abbrev pub IsOver : Attempt → Type 0
IsOver (session ws) = Unit
IsOver redirect = Unit
IsOver handshake_error = Unit
IsOver failed = Unit
IsOver cancelled = ⊥

abbrev pub IsFound : {D : Type 0} → Found D → Type 0
IsFound (found d ws) = Unit
IsFound not_found = Unit
IsFound interrupted = ⊥

or_others-IsFound :
    {D : Type 0} (d : D) (o : Attempt) (others : Found D)
    → IsOver o
    → IsFound others
    → IsFound (or_others d others o)
or_others-IsFound d (session ws) others h k = tt
or_others-IsFound d redirect others h k = k
or_others-IsFound d handshake_error others h k = k
or_others-IsFound d failed others h k = k
or_others-IsFound d cancelled others h k = absurd h

pub first_session-IsFound :
    {D : Type 0} (connect : D → Attempt) (ds : List D)
    → ((d : D) → IsOver (connect d))
    → IsFound (first_session connect ds)
unfolding first_session
first_session-IsFound connect [] h = tt
first_session-IsFound connect (d ∷ ds) h =
    or_others-IsFound d (connect d) (first_session connect ds) (h d)
      (first_session-IsFound connect ds h)

pub try_domains-was_cancelled :
    {D : Type 0} (connect : D → Attempt) (ds : List D) (t : Tries)
    → ((d : D) → IsOver (connect d))
    → t.was_cancelled ≡ false
    → (try_domains connect ds t).was_cancelled ≡ false
unfolding try_domains
try_domains-was_cancelled connect [] t h e = e
try_domains-was_cancelled connect (d ∷ ds) t h e =
    by_outcome (λ s f. try_domains-was_cancelled connect ds s h f) (connect d) refl (h d)
  where
    by_outcome :
        ((s : Tries) → s.was_cancelled ≡ false → (try_domains connect ds s).was_cancelled ≡ false)
        → (o : Attempt) → connect d ≡ o
        → IsOver o
        → (try_domains connect (d ∷ ds) t).was_cancelled ≡ false
    by_outcome again (session ws) f over = rw (f, try_domains) e
    by_outcome again redirect f over =
        rw (f, try_domains)
          (again (record t { ws_errors = suc t.ws_errors; ws_failed_redirect = true }) e)
    by_outcome again handshake_error f over =
        rw (f, try_domains)
          (again (record t { ws_errors = suc t.ws_errors; all_redirects = false }) e)
    by_outcome again failed f over =
        rw (f, try_domains)
          (again (record t { ws_errors = suc t.ws_errors; all_redirects = false }) e)
    by_outcome again cancelled f over = absurd over
