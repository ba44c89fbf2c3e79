-- ===== src/Route/Failure.antt =====
-- What is remembered of attempts that fail.
use tg_ws_proxy_rust.Prelude.{
  ℕ, suc, ◌+◌, ◌≡◌, refl, sym, ap, ◌∙◌, Bool, true, false, ◌&&◌, List, [], ◌∷◌, none, some, All,
  length, arith, inl, inr, lt→ltb, ◌<◌, Bool-cases, if◌then◌else◌,
}
use tg_ws_proxy_rust.Route.{
  Attempt, session, redirect, handshake_error, failed, cancelled, Tries, try_domains, no_tries,
  Memory, note_tries, dc_fail_cooldown, ws_timeout,
}

-- The outcomes without a session, but for a cancellation, and those that are a redirect.
abbrev pub IsFailure : Attempt → Type 0
IsFailure (session ws) = ⊥
IsFailure redirect = Unit
IsFailure handshake_error = Unit
IsFailure failed = Unit
IsFailure cancelled = ⊥

abbrev pub is_redirect : Attempt → Bool
is_redirect (session ws) = false
is_redirect redirect = true
is_redirect handshake_error = false
is_redirect failed = false
is_redirect cancelled = false

module _ {D : Type 0} (connect : D → Attempt) where
  abbrev pub all_redirect : List D → Bool
  all_redirect [] = true
  all_redirect (d ∷ ds) = is_redirect (connect d) && all_redirect ds

  abbrev pub some_redirect : List D → Bool
  some_redirect [] = false
  some_redirect (d ∷ ds) = if is_redirect (connect d) then true else some_redirect ds

  -- What the loop leaves where no domain gives a session.
  record Failed (ds : List D) (t r : Tries) : Type 0 where
    no_session : r.ws ≡ none
    errors : r.ws_errors ≡ t.ws_errors + length ds
    redirects : r.all_redirects ≡ t.all_redirects && all_redirect ds
    redirected : r.ws_failed_redirect ≡ (if t.ws_failed_redirect then true else some_redirect ds)

  try_domains-Failed :
      (ds : List D) (t : Tries)
      → t.ws ≡ none
      → All (λ d. IsFailure (connect d)) ds
      → Failed ds t (try_domains connect ds t)
  unfolding try_domains
  try_domains-Failed [] t n h = record {
    no_session = n;
    errors = omega arith;
    redirects = ground arith;
    redirected = ground arith;
  }
  try_domains-Failed (d ∷ ds) t n h =
      by_outcome (λ s n'. try_domains-Failed ds s n' h.1) (connect d) refl h.0
    where
      by_outcome :
          ((s : Tries) → s.ws ≡ none → Failed ds s (try_domains connect ds s))
          → (a : Attempt) → connect d ≡ a
          → IsFailure a
          → Failed (d ∷ ds) t (try_domains connect (d ∷ ds) t)
      by_outcome again (session ws) e f = absurd f
      by_outcome again cancelled e f = absurd f
      by_outcome again redirect e f =
          let s = record t { ws_errors = suc t.ws_errors; ws_failed_redirect = true } in
          let ih = again s n in
          rw (e, try_domains)
            (record {
              no_session = ih.no_session;
              errors = omega (arith, ih.errors);
              redirects =
                  ih.redirects
                  ∙ sym (ap (λ a. t.all_redirects && (is_redirect a && all_redirect ds)) e);
              redirected =
                  ih.redirected
                  ∙ (let z : true ≡ (if t.ws_failed_redirect then true else true) = ground arith in
                      z)
                  ∙ sym (
                      ap
                        (λ a.
                          if t.ws_failed_redirect
                          then true
                          else (if is_redirect a then true else some_redirect ds))
                        e);
            })
      by_outcome again handshake_error e f =
          let s = record t { ws_errors = suc t.ws_errors; all_redirects = false } in
          let ih = again s n in
          rw (e, try_domains)
            (record {
              no_session = ih.no_session;
              errors = omega (arith, ih.errors);
              redirects =
                  ih.redirects
                  ∙ (let z : false ≡ t.all_redirects && false = ground arith in z)
                  ∙ sym (ap (λ a. t.all_redirects && (is_redirect a && all_redirect ds)) e);
              redirected =
                  ih.redirected
                  ∙ sym (
                      ap
                        (λ a.
                          if t.ws_failed_redirect
                          then true
                          else (if is_redirect a then true else some_redirect ds))
                        e);
            })
      by_outcome again failed e f =
          let s = record t { ws_errors = suc t.ws_errors; all_redirects = false } in
          let ih = again s n in
          rw (e, try_domains)
            (record {
              no_session = ih.no_session;
              errors = omega (arith, ih.errors);
              redirects =
                  ih.redirects
                  ∙ (let z : false ≡ t.all_redirects && false = ground arith in z)
                  ∙ sym (ap (λ a. t.all_redirects && (is_redirect a && all_redirect ds)) e);
              redirected =
                  ih.redirected
                  ∙ sym (
                      ap
                        (λ a.
                          if t.ws_failed_redirect
                          then true
                          else (if is_redirect a then true else some_redirect ds))
                        e);
            })

  some_of_all : (d : D) (ds : List D) → all_redirect (d ∷ ds) ≡ true → some_redirect (d ∷ ds) ≡ true
  some_of_all d ds h = ground arith

  -- At least one domain was tried, and all answered with a redirect: the data centre is blacklisted,
  -- its cooldown stays as it was, and each domain counts one error.
  pub note_tries-redirects :
      (d : D) (ds : List D) (now errors : ℕ) (m : Memory)
      → All (λ x. IsFailure (connect x)) (d ∷ ds)
      → all_redirect (d ∷ ds) ≡ true
      → let t = try_domains connect (d ∷ ds) (no_tries errors) in
        (t.ws ≡ none)
        × (t.ws_errors ≡ errors + length (d ∷ ds))
        × (note_tries now t m ≡ record m { blacklisted = true })
  unfolding note_tries
  note_tries-redirects d ds now errors m h all =
      let f = try_domains-Failed (d ∷ ds) (no_tries errors) refl h in
      (
        f.no_session,
        f.errors,
        rw (f.no_session, f.redirects ∙ all, f.redirected ∙ some_of_all d ds all, note_tries) refl,
      )

  -- No domain gave a session, and not all answered with a redirect: the cooldown of the data centre
  -- ends in 30 seconds, until when attempts have a timeout of 2 seconds, the blacklist stays as it
  -- was, and each domain counts one error.
  pub note_tries-cooldown :
      (ds : List D) (now errors later : ℕ) (m : Memory)
      → All (λ x. IsFailure (connect x)) ds
      → all_redirect ds ≡ false
      → later < now + dc_fail_cooldown
      → let t = try_domains connect ds (no_tries errors) in
        (t.ws ≡ none)
        × (t.ws_errors ≡ errors + length ds)
        × (note_tries now t m ≡ record m { fail_until = some (now + dc_fail_cooldown) })
        × (ws_timeout later (note_tries now t m) ≡ 2)
  unfolding note_tries ws_timeout
  note_tries-cooldown ds now errors later m h mixed lt =
      let t = try_domains connect ds (no_tries errors) in
      let f = try_domains-Failed ds (no_tries errors) refl h in
      let slow : note_tries now t m ≡ record m { fail_until = some (now + dc_fail_cooldown) } =
        elim (Bool-cases t.ws_failed_redirect) [
          | inl r ↦ rw (f.no_session, f.redirects ∙ mixed, r, note_tries) refl
          | inr r ↦ rw (f.no_session, f.redirects ∙ mixed, r, note_tries) refl
        ] in
      (
        f.no_session,
        f.errors,
        slow,
        ap (ws_timeout later) slow
            ∙ ap (λ (b : Bool). if b then 2 else 10) (lt→ltb later (now + dc_fail_cooldown) lt),
      )
