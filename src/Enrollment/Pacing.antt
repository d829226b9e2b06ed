-- ===== src/Enrollment/Pacing.antt =====
-- How long enrollmentLoop waits (notifications/internal/agent/enrollment.go).
use nova_codex_bootstrap.Prelude.{
  ◌≤◌, ◌≡◌, ◌⊎◌, refl, Bool, true, false, List, [], ◌∷◌, arith, str_eq, inl, inr, Bool-cases,
  Option-cases, if_both,
}
use nova_codex_bootstrap.Config.Endpoint.{NetLib}
use nova_codex_bootstrap.Config.Settings.{
  registration_pending, registration_active, registration_needs_setup_token,
  registration_identity_conflict,
}
use nova_codex_bootstrap.Enrollment.Machine.{
  EnrollmentResult, waiting, succeeded, retry, Daemon, Inputs, Timing, Loop, refresh_config,
  doubled, after_attempt, attempt, refresh_or_settle, dispatch, refreshed, iterate, enroll, settled,
  discard_for_state,
}

-- The delay of the next retry is between the least and the most, and what the loop waits is nothing,
-- the poll interval, or such a delay.
pub record IsPaced (t : Timing) (l : Loop) : Type 0 where
  pub least_retry : t.least ≤ l.retry_delay
  pub most_retry : l.retry_delay ≤ t.most
  pub waits : (l.delay ≡ 0) ⊎ ((l.delay ≡ t.poll) ⊎ ((t.least ≤ l.delay) × (l.delay ≤ t.most)))

after_attempt-IsPaced :
    (t : Timing) (active : Bool) (l : Loop) (r : EnrollmentResult)
    → t.least ≤ t.most
    → IsPaced t l
    → IsPaced t (after_attempt t active l r)
unfolding after_attempt doubled
after_attempt-IsPaced t true l r h p = elim r as (λ r. IsPaced t (after_attempt t true l r)) [
  | waiting ↦ record { least_retry = omega arith; most_retry = h; waits = inr (inl refl) }
  | succeeded ↦ record { least_retry = omega arith; most_retry = h; waits = inr (inl refl) }
  | retry ↦ ground arith
]
after_attempt-IsPaced t false l r h p = elim r as (λ r. IsPaced t (after_attempt t false l r)) [
  | waiting ↦ record { least_retry = omega arith; most_retry = h; waits = inr (inl refl) }
  | succeeded ↦ record { least_retry = omega arith; most_retry = h; waits = inr (inl refl) }
  | retry ↦ ground arith
]

settled-IsPaced : (t : Timing) (l : Loop) → t.least ≤ t.most → IsPaced t (settled t l)
settled-IsPaced t l h = record { least_retry = omega arith; most_retry = h; waits = inr (inl refl) }

module _ (net : NetLib) (timing : Timing) {Body : Type 0}
    (ordered : timing.least ≤ timing.most) where
  attempt-IsPaced :
      (active : Bool) (d : Daemon Body) (l : Loop) (i : Inputs)
      → IsPaced timing l
      → IsPaced timing (attempt net timing active d l i).1
  unfolding attempt
  attempt-IsPaced active d l i p = after_attempt-IsPaced timing active l _ ordered p

  refresh_or_settle-IsPaced :
      (d : Daemon Body) (l : Loop) (i : Inputs)
      → IsPaced timing l
      → IsPaced timing (refresh_or_settle net timing d l i).1
  unfolding refresh_or_settle
  refresh_or_settle-IsPaced d l i p =
      if_both (λ r. IsPaced timing r.1) l.refresh_active (attempt net timing true d l i) _
        (attempt-IsPaced true d l i p) (settled-IsPaced timing l ordered)

  dispatch-IsPaced :
      (d : Daemon Body) (l : Loop) (i : Inputs)
      → IsPaced timing l
      → IsPaced timing (dispatch net timing d l i).1
  unfolding dispatch
  dispatch-IsPaced d l i p =
      let state = d.config.registration_state in
      elim (Bool-cases (str_eq state registration_active)) [
        | inl a ↦
            rw (a, dispatch)
              (refresh_or_settle-IsPaced (discard_for_state net d registration_active i) l i p)
        | inr a ↦ elim (Bool-cases (str_eq state registration_identity_conflict)) [
          | inl c ↦ rw (a, c, dispatch) (settled-IsPaced timing l ordered)
          | inr c ↦ elim (Bool-cases (str_eq state registration_needs_setup_token)) [
            | inl n ↦
                rw (a, c, n, dispatch)
                  (record { least_retry = omega arith; most_retry = ordered; waits = inl refl })
            | inr n ↦ elim (Bool-cases (str_eq state registration_pending)) [
              | inl w ↦ rw (a, c, n, w, dispatch) (attempt-IsPaced false d l i p)
              | inr w ↦
                  rw (a, c, n, w, dispatch)
                    (record {
                      least_retry = p.least_retry;
                      most_retry = p.most_retry;
                      waits = inr (inl refl);
                    })
            ]
          ]
        ]
      ]

  iterate-IsPaced :
      (d : Daemon Body) (l : Loop) (i : Inputs)
      → IsPaced timing l
      → IsPaced timing (iterate net timing d l i).1
  unfolding iterate refreshed
  iterate-IsPaced d l i p = elim (Option-cases (refresh_config net d i.loaded)) [
    | inl e ↦
        rw (e, iterate, refreshed)
          (record {
            least_retry = p.least_retry;
            most_retry = p.most_retry;
            waits = inr (inl refl);
          })
    | inr (f, e) ↦ rw (e, iterate, refreshed) (dispatch-IsPaced f l i p)
  ]

  -- Through any run of the enrollment loop the retry delay stays between the least and the most
  -- delay, and each wait is none, the poll interval, or between the least and the most, if the
  -- least is no more than the most.
  pub enroll-IsPaced :
      (d : Daemon Body) (is : List Inputs) (l : Loop)
      → IsPaced timing l
      → IsPaced timing (enroll net timing d l is).1
  unfolding enroll
  enroll-IsPaced d [] l p = p
  enroll-IsPaced d (i ∷ is) l p =
      let (e, m) = iterate net timing d l i in enroll-IsPaced e is m (iterate-IsPaced d l i p)
