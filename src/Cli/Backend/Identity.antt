-- ===== src/Cli/Backend/Identity.antt =====
-- What init and switch-backend leave of the host's identity and of its queued events
-- (notifications/cmd/novascale-agent/main.go).
use nova_codex_bootstrap.Prelude.{
  ◌≡◌, refl, String, Bool, false, not, ◌&&◌, List, Option, none, some, arith, str_eq, is_empty,
  if◌then◌else◌, inl, inr, Option-cases, if_both,
}
use nova_codex_bootstrap.Config.Endpoint.{NetLib, Url, trim_slashes, parse_notification_endpoint}
use nova_codex_bootstrap.Config.Settings.{Config, validate_config, registration_active}
use nova_codex_bootstrap.Config.Files.{
  Stored, no_file, unreadable, file, Loaded, missing, broken, loaded, load_config, save_config,
  KeyFile, KeyLib, load_private_key,
}
use nova_codex_bootstrap.Queue.Rows.{Queue, configure_backend}
use nova_codex_bootstrap.Enrollment.Machine.{configure}
use nova_codex_bootstrap.Cli.Backend.{
  Host, Outcome, failed, kept, staged, Conditions, same_notification_endpoint, choose_endpoint,
  stage, migrated, init_existing, init_loaded, run_init, save_after, bind_old, switched, switch_to,
  switch_loaded, switch_chosen, run_switch_backend,
}

load_config-file :
    (net : NetLib) (s : Stored) (c : Config) → load_config net s ≡ loaded c → s ≡ file c
unfolding load_config
load_config-file net no_file c h = cc
load_config-file net unreadable c h = cc
load_config-file net (file d) c h = ground arith

save_config-file :
    (net : NetLib) (c : Config) (written : Bool) (s : Stored)
    → save_config net c written ≡ some s
    → s ≡ file c
unfolding save_config
save_config-file net c written s h = ground arith

-- The identity on disk: a key file, and a configuration of the host for an endpoint.
pub record Identifies {Body : Type 0} (h : Host Body) (key : Option KeyFile) (id endpoint : String)
    : Type 0 where
  pub config : Config
  pub stored : h.config_file ≡ file config
  pub of_host : config.host_id ≡ id
  pub for_endpoint : config.endpoint ≡ endpoint
  pub same_key : h.key ≡ key

module _ (net : NetLib) {Key : Type 0} (keys : KeyLib Key) {Body : Type 0} where
  unchanged-Identifies :
      (h : Host Body) (d : Config)
      → h.config_file ≡ file d
      → Identifies h h.key d.host_id d.endpoint
  unchanged-Identifies h d at = record {
    config = d;
    stored = at;
    of_host = refl;
    for_endpoint = refl;
    same_key = refl;
  }

  stage-Identifies :
      (h : Host Body) (d c : Config) (written : Bool)
      → h.config_file ≡ file d
      → c.host_id ≡ d.host_id
      → c.endpoint ≡ d.endpoint
      → Identifies (stage net keys h c (save_config net c written)).1 h.key d.host_id d.endpoint
  unfolding stage
  stage-Identifies h d c written at host endpoint =
      elim (Option-cases (save_config net c written)) [
        | inl e ↦ rw (e, stage) (unchanged-Identifies h d at)
        | inr (s, e) ↦
            rw (e, stage)
              (record {
                config = c;
                stored = save_config-file net c written s e;
                of_host = host;
                for_endpoint = endpoint;
                same_key = refl;
              })
      ]

  init_existing-Identifies :
      (endpoint : String) (c : Conditions Key) (h : Host Body) (d : Config) (key : Option Key)
      → h.config_file ≡ file d
      → Identifies (init_existing net keys endpoint c h d key).1 h.key d.host_id d.endpoint
  unfolding init_existing
  init_existing-Identifies endpoint c h d none at = unchanged-Identifies h d at
  init_existing-Identifies endpoint c h d (some key) at =
      let P = λ (r : Outcome × Host Body). Identifies r.1 h.key d.host_id d.endpoint in
      let same = unchanged-Identifies h d at in
      let quiet : Host Body = record h { token_file = false } in
      let staged_host = stage net keys h (migrated d) (save_config net (migrated d) c.written) in
      if_both P (not (is_empty endpoint) && not (same_notification_endpoint d.endpoint endpoint))
        (failed, h)
        (if str_eq d.registration_state registration_active
          then (kept d.host_id, quiet)
          else staged_host)
        same
        (if_both P (str_eq d.registration_state registration_active) (kept d.host_id, quiet)
          staged_host (unchanged-Identifies quiet d at)
          (stage-Identifies h d (migrated d) c.written at (ground arith) (ground arith)))

  -- Whatever happens, init leaves a host that has a valid configuration its identifier, its
  -- endpoint and its key.
  pub run_init-Identifies :
      (endpoint : String) (c : Conditions Key) (h : Host Body) (d : Config)
      → load_config net h.config_file ≡ loaded d
      → Identifies (run_init net keys endpoint c h).1 h.key d.host_id d.endpoint
  unfolding run_init
  run_init-Identifies endpoint c h d e =
      let at = load_config-file net h.config_file d e in
      if_both (λ (r : Outcome × Host Body). Identifies r.1 h.key d.host_id d.endpoint) c.locked
        (init_loaded net keys endpoint c h (load_config net h.config_file)) (failed, h)
        (rw (e, init_loaded)
          (init_existing-Identifies endpoint c h d (load_private_key keys h.key) at))
        (unchanged-Identifies h d at)

  -- What becomes of the database: there is none, or its events without a backend are bound to the
  -- endpoint of the configuration.
  pub data Rebinds (h : Host Body) (d : Config) : Option (Queue Body) → Type 0 where
    absent : h.database ≡ none → Rebinds h d h.database
    rebound :
        (q : Queue Body) (url : Url)
        → h.database ≡ some q
        → parse_notification_endpoint net d.endpoint ≡ some url
        → Rebinds h d (some (configure_backend q (trim_slashes (net.to_string url))))

  -- The ways in which a switch to an endpoint ends.
  pub data Switches (h : Host Body) (target : Option String) : Outcome × Host Body → Type 0 where
    fails_early : Switches h target (failed, h)
    fails_late :
        (d : Config) (db : Option (Queue Body))
        → load_config net h.config_file ≡ loaded d
        → Rebinds h d db
        → Switches h target (failed, record h { database = db })
    keeps : (id : String) → Switches h target (kept id, h)
    switches :
        (d : Config) (endpoint : String) (db : Option (Queue Body))
        → load_config net h.config_file ≡ loaded d
        → target ≡ some endpoint
        → Rebinds h d db
        → Switches h target (
          staged d.host_id,
          record h { config_file = file (switched endpoint d); token_file = false; database = db },
        )

  stage-Switches :
      (h : Host Body) (d : Config) (endpoint : String) (written : Bool) (db : Option (Queue Body))
      → load_config net h.config_file ≡ loaded d
      → Rebinds h d db
      → Switches h (some endpoint) (
          stage net keys
            (record h { database = db })
            (switched endpoint d)
            (save_config net (switched endpoint d) written))
  unfolding stage
  stage-Switches h d endpoint written db e r =
      elim (Option-cases (save_config net (switched endpoint d) written)) [
        | inl n ↦ rw (n, stage) (fails_late d db e r)
        | inr (s, f) ↦
            rw (f, stage, save_config-file net (switched endpoint d) written s f)
              (switches d endpoint db e refl r)
      ]

  save_after-Switches :
      (c : Conditions Key) (h : Host Body) (d : Config) (endpoint : String) (q : Queue Body)
      (o : Option Url)
      → h.database ≡ some q
      → load_config net h.config_file ≡ loaded d
      → parse_notification_endpoint net d.endpoint ≡ o
      → Switches h
          (some endpoint)
          (save_after net keys c h (switched endpoint d) (configure net q o))
  unfolding save_after
  save_after-Switches c h d endpoint q none at e p = fails_early
  save_after-Switches c h d endpoint q (some url) at e p =
      let r = configure_backend q (trim_slashes (net.to_string url)) in
      let h' : Host Body = record h { database = some r } in
      if_both (Switches h (some endpoint)) c.closed
        (stage net keys h' (switched endpoint d) (save_config net (switched endpoint d) c.written))
        (failed, h') (stage-Switches h d endpoint c.written (some r) e (rebound q url at p))
        (fails_late d (some r) e (rebound q url at p))

  bind_old-Switches :
      (c : Conditions Key) (h : Host Body) (d : Config) (endpoint : String)
      (o : Option (Queue Body))
      → h.database ≡ o
      → load_config net h.config_file ≡ loaded d
      → Switches h (some endpoint) (bind_old net keys c h d (switched endpoint d) o)
  unfolding bind_old
  bind_old-Switches c h d endpoint none at e =
      stage-Switches h d endpoint c.written h.database e (absent at)
  bind_old-Switches c h d endpoint (some q) at e =
      if_both (Switches h (some endpoint)) c.opened
        (save_after net keys c h (switched endpoint d)
          (configure net q (parse_notification_endpoint net d.endpoint)))
        (failed, h)
        (save_after-Switches c h d endpoint q (parse_notification_endpoint net d.endpoint) at e
          refl)
        fails_early

  switch_to-Switches :
      (endpoint : String) (force : Bool) (c : Conditions Key) (h : Host Body) (d : Config)
      (key : Option Key)
      → load_config net h.config_file ≡ loaded d
      → Switches h (some endpoint) (switch_to net keys endpoint force c h d key)
  unfolding switch_to
  switch_to-Switches endpoint force c h d none e = fails_early
  switch_to-Switches endpoint force c h d (some key) e =
      let P = Switches h (some endpoint) in
      let rest = bind_old net keys c h d (switched endpoint d) h.database in
      let stat_or_rest = if c.stat_fails then (failed, h) else rest in
      let same =
        not force
        && str_eq d.registration_state registration_active
        && same_notification_endpoint d.endpoint endpoint in
      if_both P (not (validate_config net (switched endpoint d))) (failed, h)
        (if same then (kept d.host_id, h) else stat_or_rest) fails_early
        (if_both P same (kept d.host_id, h) stat_or_rest (keeps d.host_id)
          (if_both P c.stat_fails (failed, h) rest fails_early
            (bind_old-Switches c h d endpoint h.database refl e)))

  switch_loaded-Switches :
      (endpoint : String) (force : Bool) (c : Conditions Key) (h : Host Body) (l : Loaded)
      → load_config net h.config_file ≡ l
      → Switches h (some endpoint) (switch_loaded net keys endpoint force c h l)
  unfolding switch_loaded
  switch_loaded-Switches endpoint force c h missing e = fails_early
  switch_loaded-Switches endpoint force c h broken e = fails_early
  switch_loaded-Switches endpoint force c h (loaded d) e =
      switch_to-Switches endpoint force c h d (load_private_key keys h.key) e

  switch_chosen-Switches :
      (force : Bool) (c : Conditions Key) (h : Host Body) (target : Option String)
      → Switches h target (switch_chosen net keys force c h target)
  unfolding switch_chosen
  switch_chosen-Switches force c h none = fails_early
  switch_chosen-Switches force c h (some endpoint) =
      if_both (Switches h (some endpoint)) c.locked
        (switch_loaded net keys endpoint force c h (load_config net h.config_file)) (failed, h)
        (switch_loaded-Switches endpoint force c h (load_config net h.config_file) refl) fails_early

  -- Every run of switch-backend ends in one of these ways.
  pub run_switch_backend-Switches :
      (names : List String) (endpoint : String) (force : Bool) (c : Conditions Key) (h : Host Body)
      → Switches h
          (choose_endpoint names endpoint)
          (run_switch_backend net keys names endpoint force c h)
  unfolding run_switch_backend
  run_switch_backend-Switches names endpoint force c h =
      switch_chosen-Switches force c h (choose_endpoint names endpoint)
