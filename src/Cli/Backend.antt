-- ===== src/Cli/Backend.antt =====
-- runInit and runSwitchBackend of notifications/cmd/novascale-agent/main.go.
pub mod Identity
pub mod Switching
use nova_codex_bootstrap.Prelude.{
  String, Bool, true, false, not, ◌&&◌, ◌||◌, List, [], ◌∷◌, Option, none, some, str_eq, is_empty,
  if◌then◌else◌,
}
use nova_codex_bootstrap.Config.Endpoint.{NetLib, trim_slashes, parse_notification_endpoint}
use nova_codex_bootstrap.Config.Settings.{
  Config, validate_config, registration_pending, registration_active,
  registration_needs_setup_token,
}
use nova_codex_bootstrap.Config.Files.{
  Stored, file, Loaded, missing, broken, loaded, load_config, save_config, KeyFile, KeyLib,
  load_private_key, key_file,
}
use nova_codex_bootstrap.Queue.Rows.{Queue}
use nova_codex_bootstrap.Enrollment.Machine.{configure}

-- The files that the commands read and write; `none` is a file that is not there.
pub record Host (Body : Type 0) : Type 0 where
  pub config_file : Stored
  pub key : Option KeyFile
  pub token_file : Bool
  pub database : Option (Queue Body)

-- How a command ends: with an error, with nothing to do, or with the enrollment staged.
pub data Outcome : Type 0 where
  failed : Outcome
  kept : String → Outcome
  staged : String → Outcome

-- What the commands meet: the enrollment lock, NewUUID, the new key, whether the database can be
-- looked at, opened and closed, and whether the configuration can be written.
pub record Conditions (Key : Type 0) : Type 0 where
  pub locked : Bool
  pub fresh : Option String
  pub generated : Option Key
  pub stat_fails : Bool
  pub opened : Bool
  pub closed : Bool
  pub written : Bool

-- sameNotificationEndpoint
unfoldable pub same_notification_endpoint : String → String → Bool
same_notification_endpoint left right = str_eq (trim_slashes left) (trim_slashes right)

-- the endpoint that switch-backend is told; `none` is an error
unfoldable pub choose_endpoint : List String → String → Option String
choose_endpoint [] endpoint = if is_empty endpoint then none else some endpoint
choose_endpoint (name ∷ []) endpoint =
    if not (is_empty endpoint)
    then none
    else if str_eq name "production"
    then some "https://nova-push.galaxnet.dev"
    else if str_eq name "staging"
    then some "https://notify-staging.galaxnet.dev"
    else none
choose_endpoint (name ∷ other ∷ names) endpoint = none

abbrev pub new_config : String → String → Config
new_config id endpoint = record {
  version = 1;
  host_id = id;
  endpoint = endpoint;
  registration_state = registration_pending;
}

-- a state that older agents stopped in is migrated
abbrev pub migrated : Config → Config
migrated config =
    if str_eq config.registration_state registration_needs_setup_token
    then record config { registration_state = registration_pending }
    else config

abbrev pub switched : String → Config → Config
switched endpoint config = record config {
  endpoint = endpoint;
  registration_state = registration_pending;
}

module _ (net : NetLib) {Key : Type 0} (keys : KeyLib Key) {Body : Type 0} where
  -- SaveConfig, and then the legacy token is removed
  unfoldable pub stage : Host Body → Config → Option Stored → Outcome × Host Body
  stage h config none = (failed, h)
  stage h config (some stored) =
      (staged config.host_id, record h { config_file = stored; token_file = false })

  unfoldable pub init_new :
      String → Conditions Key → Host Body → Option String → Option Key → Outcome × Host Body
  unfolding stage
  init_new endpoint c h none key = (failed, h)
  init_new endpoint c h (some id) none = (failed, h)
  init_new endpoint c h (some id) (some key) =
      let config = new_config id endpoint in
      stage (record h { key = some (key_file keys key) }) config (save_config net config c.written)

  unfoldable pub init_existing :
      String → Conditions Key → Host Body → Config → Option Key → Outcome × Host Body
  unfolding stage
  init_existing endpoint c h config none = (failed, h)
  init_existing endpoint c h config (some key) =
      if not (is_empty endpoint) && not (same_notification_endpoint config.endpoint endpoint)
      then (failed, h)
      else if str_eq config.registration_state registration_active
      then (kept config.host_id, record h { token_file = false })
      else stage h (migrated config) (save_config net (migrated config) c.written)

  unfoldable pub init_loaded : String → Conditions Key → Host Body → Loaded → Outcome × Host Body
  unfolding init_new init_existing
  init_loaded endpoint c h missing =
      if is_empty endpoint then (failed, h) else init_new endpoint c h c.fresh c.generated
  init_loaded endpoint c h broken = (failed, h)
  init_loaded endpoint c h (loaded config) =
      init_existing endpoint c h config (load_private_key keys h.key)

  -- runInit, after its flags were parsed
  unfoldable pub run_init : String → Conditions Key → Host Body → Outcome × Host Body
  unfolding init_loaded
  run_init endpoint c h =
      if c.locked then init_loaded endpoint c h (load_config net h.config_file) else (failed, h)

  -- what follows ConfigureBackend and Close on the database
  unfoldable pub save_after :
      Conditions Key → Host Body → Config → Option (Queue Body) → Outcome × Host Body
  unfolding stage
  save_after c h next none = (failed, h)
  save_after c h next (some q) =
      let h' : Host Body = record h { database = some q } in
      if c.closed then stage h' next (save_config net next c.written) else (failed, h')

  unfoldable pub bind_old :
      Conditions Key → Host Body → Config → Config → Option (Queue Body) → Outcome × Host Body
  unfolding save_after stage
  bind_old c h config next none = stage h next (save_config net next c.written)
  bind_old c h config next (some q) =
      if c.opened
      then save_after c h next (configure net q (parse_notification_endpoint net config.endpoint))
      else (failed, h)

  unfoldable pub switch_to :
      String → Bool → Conditions Key → Host Body → Config → Option Key → Outcome × Host Body
  unfolding bind_old
  switch_to endpoint force c h config none = (failed, h)
  switch_to endpoint force c h config (some key) =
      let next = switched endpoint config in
      if not (validate_config net next)
      then (failed, h)
      else if not force
          && str_eq config.registration_state registration_active
          && same_notification_endpoint config.endpoint next.endpoint
      then (kept config.host_id, h)
      else if c.stat_fails
      then (failed, h)
      else bind_old c h config next h.database

  unfoldable pub switch_loaded :
      String → Bool → Conditions Key → Host Body → Loaded → Outcome × Host Body
  unfolding switch_to
  switch_loaded endpoint force c h missing = (failed, h)
  switch_loaded endpoint force c h broken = (failed, h)
  switch_loaded endpoint force c h (loaded config) =
      switch_to endpoint force c h config (load_private_key keys h.key)

  unfoldable pub switch_chosen :
      Bool → Conditions Key → Host Body → Option String → Outcome × Host Body
  unfolding switch_loaded
  switch_chosen force c h none = (failed, h)
  switch_chosen force c h (some endpoint) =
      if c.locked
      then switch_loaded endpoint force c h (load_config net h.config_file)
      else (failed, h)

  -- runSwitchBackend, after its flags were parsed
  unfoldable pub run_switch_backend :
      List String → String → Bool → Conditions Key → Host Body → Outcome × Host Body
  unfolding switch_chosen
  run_switch_backend names endpoint force c h =
      switch_chosen force c h (choose_endpoint names endpoint)
