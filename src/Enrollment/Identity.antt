-- ===== src/Enrollment/Identity.antt =====
-- What enrollment keeps, and when the registration becomes active
-- (notifications/internal/agent/enrollment.go).
use nova_codex_bootstrap.Prelude.{
  ℕ, ◌+◌, ◌≡◌, refl, ap, ◌∙◌, String, Bool, true, false, List, [], ◌∷◌, arith, Option, none, some,
  if◌then◌else◌, ◌==◌, str_eq, is_empty, eq_iff, inl, inr, Bool-cases, Option-cases, if_both,
}
use nova_codex_bootstrap.Queue.Rows.{Queue}
use nova_codex_bootstrap.Config.Endpoint.{NetLib, parse_notification_endpoint}
use nova_codex_bootstrap.Config.Settings.{
  Config, registration_pending, registration_active, registration_needs_setup_token,
  registration_identity_conflict,
}
use nova_codex_bootstrap.Enrollment.Machine.{
  succeeded, retry, Registration, registered, rejected, unreachable, Daemon, Inputs, Timing, Loop,
  configure, with_queue, refresh_loaded, refresh_config, save_registration_state,
  discard_legacy_setup_token, discard_if, discard_for_state, after_success, after_conflict,
  register_host, request_token, attempt_refreshed, attempt_enrollment, attempt, refresh_or_settle,
  migrate, dispatch, refreshed, iterate, enroll,
}

module _ (net : NetLib) {Body : Type 0} where
  with_queue-host :
      (d : Daemon Body) (c : Config) (o : Option (Queue Body)) (e : Daemon Body)
      → with_queue net d c o ≡ some e
      → e.config ≡ c
  unfolding with_queue
  with_queue-host d c none e h = cc
  with_queue-host d c (some q) e h = ground arith

  pub refresh-host :
      (d : Daemon Body) (o : Option Config) (e : Daemon Body)
      → is_empty d.config.host_id ≡ false
      → refresh_config net d o ≡ some e
      → e.config.host_id ≡ d.config.host_id
  unfolding refresh_config refresh_loaded
  refresh-host d none e known h = ground arith
  refresh-host d (some c) e known h = ground (
    arith,
    with_queue-host d c (configure net d.queue (parse_notification_endpoint net c.endpoint)) e,
    eq_iff c.host_id d.config.host_id,
  )

  pub save-host :
      (d : Daemon Body) (state : String) (written : Bool) (e : Daemon Body)
      → save_registration_state net d state written ≡ some e
      → (e.config.host_id ≡ d.config.host_id) × (e.config.registration_state ≡ state)
  unfolding save_registration_state
  save-host d state written e h = ground arith

  discard-host : (d : Daemon Body) → (discard_legacy_setup_token d).config ≡ d.config
  discard-host d = ground arith

  discard_for_state-host :
      (d : Daemon Body) (state : String) (i : Inputs)
      → is_empty d.config.host_id ≡ false
      → (discard_for_state net d state i).config.host_id ≡ d.config.host_id
  unfolding discard_for_state discard_if
  discard_for_state-host d state i known =
      elim (Option-cases (refresh_config net d i.discard_loaded)) [
        | inl e ↦ rw e (ground arith)
        | inr (f, e) ↦ rw e (ground (arith, refresh-host d i.discard_loaded f known e))
      ]

  register-host :
      (d : Daemon Body) (saved : Bool) (r : Registration)
      → (register_host net d saved r).1.config.host_id ≡ d.config.host_id
  unfolding register_host after_success after_conflict
  register-host d saved registered =
      elim (Option-cases (save_registration_state net d registration_active saved)) [
        | inl e ↦ rw e
        | inr (f, e) ↦ rw e (ground (arith, save-host d registration_active saved f e))
      ]
  register-host d saved (rejected status) =
      elim (Option-cases (save_registration_state net d registration_identity_conflict saved)) [
        | inl e ↦ rw e (ground arith)
        | inr (f, e) ↦ rw e (ground (arith, save-host d registration_identity_conflict saved f e))
      ]
  register-host d saved unreachable = refl

  request-host :
      (d : Daemon Body) (i : Inputs) (token : Option String)
      → (request_token net d i token).1.config.host_id ≡ d.config.host_id
  unfolding request_token
  request-host d i none = refl
  request-host d i (some token) =
      register-host (record d { requests = d.requests + 1 }) i.saved i.registration

  attempt_enrollment-host :
      (d : Daemon Body) (i : Inputs)
      → is_empty d.config.host_id ≡ false
      → (attempt_enrollment net d i).1.config.host_id ≡ d.config.host_id
  unfolding attempt_enrollment attempt_refreshed
  attempt_enrollment-host d i known = elim (Option-cases (refresh_config net d i.attempt_loaded)) [
    | inl e ↦ rw e (ground arith)
    | inr (f, e) ↦
        rw e (ground (arith, refresh-host d i.attempt_loaded f known e, request-host f i i.token))
  ]

  success-outcome :
      (d : Daemon Body) (i : Inputs) (o : Option (Daemon Body))
      → ((e : Daemon Body) → o ≡ some e → e.config.registration_state ≡ registration_active)
      → (after_success net d o).0 ≡ succeeded
      → (after_success net d o).1.config.registration_state ≡ registration_active
  unfolding after_success
  success-outcome d i none state h = cc
  success-outcome d i (some e) state h = ground (arith, state e refl)

  register-outcome :
      (d : Daemon Body) (i : Inputs) (r : Registration)
      → (register_host net d i.saved r).0 ≡ succeeded
      → (r ≡ registered)
        × ((register_host net d i.saved r).1.config.registration_state ≡ registration_active)
  unfolding register_host
  register-outcome d i registered h = (
    refl,
    success-outcome d i (save_registration_state net d registration_active i.saved)
        (λ e s. (save-host d registration_active i.saved e s).1) h,
  )
  register-outcome d i (rejected status) h = absurd (
      conflict-fails status (save_registration_state net d registration_identity_conflict i.saved)
        h)
    where
      conflict-fails :
          (s : ℕ) (o : Option (Daemon Body))
          → (if s == 409 then after_conflict net d o else (retry, d)).0 ≡ succeeded
          → ⊥
      conflict-fails s none e = unfold after_conflict in ground arith
      conflict-fails s (some f) e = unfold after_conflict in ground arith
  register-outcome d i unreachable h = cc

  request-outcome :
      (d : Daemon Body) (i : Inputs) (t : Option String)
      → (request_token net d i t).0 ≡ succeeded
      → (i.registration ≡ registered)
        × ((request_token net d i t).1.config.registration_state ≡ registration_active)
        × (token : String) × (t ≡ some token)
  unfolding request_token
  request-outcome d i none h = cc
  request-outcome d i (some token) h =
      let found = register-outcome (record d { requests = d.requests + 1 }) i i.registration h in
      (found.0, found.1, token, refl)

  -- An enrollment attempt that succeeds held the lock, obtained a token and a registration, and
  -- leaves the registration state active.
  pub attempt_enrollment-succeeds :
      (d : Daemon Body) (i : Inputs)
      → (attempt_enrollment net d i).0 ≡ succeeded
      → (i.attempt_lock ≡ true)
        × (i.registration ≡ registered)
        × ((attempt_enrollment net d i).1.config.registration_state ≡ registration_active)
        × (token : String) × (i.token ≡ some token)
  unfolding attempt_enrollment attempt_refreshed
  attempt_enrollment-succeeds d i h = elim (Bool-cases i.attempt_lock) [
    | inr e ↦ absurd (ground arith)
    | inl e ↦ elim (Option-cases (refresh_config net d i.attempt_loaded)) [
      | inl n ↦ absurd (ground arith)
      | inr (f, s) ↦
          let found = request-outcome f i i.token (ground arith) in
          (e, found.0, ground (arith, found.1), found.2, found.3)
    ]
  ]

module _ (net : NetLib) (timing : Timing) {Body : Type 0} where
  abbrev HasHost : String → Daemon Body → Type 0
  HasHost host d = d.config.host_id ≡ host

  attempt-host :
      (host : String) (active : Bool) (d : Daemon Body) (l : Loop) (i : Inputs)
      → is_empty host ≡ false
      → HasHost host d
      → HasHost host (attempt net timing active d l i).0
  unfolding attempt
  attempt-host host active d l i known h = attempt_enrollment-host net d i (rw h known) ∙ h

  refresh_or_settle-host :
      (host : String) (d : Daemon Body) (l : Loop) (i : Inputs)
      → is_empty host ≡ false
      → HasHost host d
      → HasHost host (refresh_or_settle net timing d l i).0
  unfolding refresh_or_settle
  refresh_or_settle-host host d l i known h =
      if_both (λ r. HasHost host r.0) l.refresh_active (attempt net timing true d l i) _
        (attempt-host host true d l i known h) h

  migrate-host :
      (host : String) (d : Daemon Body) (o : Option (Daemon Body))
      → HasHost host d
      → ((e : Daemon Body) → o ≡ some e → e.config.host_id ≡ d.config.host_id)
      → HasHost host (migrate net timing d o)
  unfolding migrate
  migrate-host host d none h same = h
  migrate-host host d (some e) h same =
      ap (λ (c : Config). c.host_id) (discard-host net e) ∙ (same e refl ∙ h)

  dispatch-host :
      (host : String) (d : Daemon Body) (l : Loop) (i : Inputs)
      → is_empty host ≡ false
      → HasHost host d
      → HasHost host (dispatch net timing d l i).0
  unfolding dispatch
  dispatch-host host d l i known h =
      let P : Daemon Body × Loop → Type 0 = λ r. HasHost host r.0 in
      let state = d.config.registration_state in
      let known' : is_empty d.config.host_id ≡ false = rw h known in
      if_both P (str_eq state registration_active) _ _
        (refresh_or_settle-host host _ l i known
          (discard_for_state-host net d registration_active i known' ∙ h))
        (if_both P (str_eq state registration_identity_conflict) _ _
          (discard_for_state-host net d registration_identity_conflict i known' ∙ h)
          (if_both P (str_eq state registration_needs_setup_token) _ _
            (migrate-host host d _ h
              (λ e s. (save-host net d registration_pending i.migrated e s).0))
            (if_both P (str_eq state registration_pending) _ _
              (attempt-host host false d l i known h) h)))

  iterate-host :
      (host : String) (d : Daemon Body) (l : Loop) (i : Inputs)
      → is_empty host ≡ false
      → HasHost host d
      → HasHost host (iterate net timing d l i).0
  unfolding iterate refreshed
  iterate-host host d l i known h = elim (Option-cases (refresh_config net d i.loaded)) [
    | inl e ↦ rw (e, iterate, refreshed) h
    | inr (f, e) ↦
        rw (e, iterate, refreshed)
          (dispatch-host host f l i known (refresh-host net d i.loaded f (rw h known) e ∙ h))
  ]

  -- No run of the enrollment loop changes a host identity that is not empty, whatever the
  -- configuration file says meanwhile.
  pub enroll-host :
      (host : String) (is : List Inputs) (d : Daemon Body) (l : Loop)
      → is_empty host ≡ false
      → d.config.host_id ≡ host
      → (enroll net timing d l is).0.config.host_id ≡ host
  unfolding enroll
  enroll-host host [] d l known h = h
  enroll-host host (i ∷ is) d l known h =
      let (e, m) = iterate net timing d l i in
      enroll-host host is e m known (iterate-host host d l i known h)
