-- ===== src/Config/Paths.antt =====
-- DefaultPaths of notifications/internal/agent/config.go.
use nova_codex_bootstrap.Prelude.{String, [], ◌∷◌, Option, none, some, is_empty, if◌then◌else◌}
use nova_codex_bootstrap.Herdr.Socket.{FileLib}

pub record Paths : Type 0 where
  pub config_dir : String
  pub state_dir : String
  pub config_file : String
  pub key_file : String
  pub legacy_setup_token_file : String
  pub enrollment_lock : String
  pub database : String
  pub socket : String

-- XDG_CONFIG_HOME and XDG_STATE_HOME
pub record Environ : Type 0 where
  pub xdg_config_home : String
  pub xdg_state_home : String

module _ (lib : FileLib) where
  abbrev pub paths_in : String → String → Paths
  paths_in config_dir state_dir = record {
    config_dir = config_dir;
    state_dir = state_dir;
    config_file = lib.join (config_dir ∷ "config.json" ∷ []);
    key_file = lib.join (config_dir ∷ "host-key" ∷ []);
    legacy_setup_token_file = lib.join (config_dir ∷ "pending-setup-token" ∷ []);
    enrollment_lock = lib.join (config_dir ∷ "enrollment.lock" ∷ []);
    database = lib.join (state_dir ∷ "agent.db" ∷ []);
    socket = lib.join (state_dir ∷ "agent.sock" ∷ []);
  }

  -- The home directory is `none` if os.UserHomeDir fails, and so is the result.
  unfoldable pub default_paths : Environ → Option String → Option Paths
  default_paths env none = none
  default_paths env (some home) =
      let config_base =
        if is_empty env.xdg_config_home
        then lib.join (home ∷ ".config" ∷ [])
        else env.xdg_config_home in
      let state_base =
        if is_empty env.xdg_state_home
        then lib.join (home ∷ ".local" ∷ "state" ∷ [])
        else env.xdg_state_home in
      some (
        paths_in (lib.join (config_base ∷ "novascale-agent" ∷ []))
          (lib.join (state_base ∷ "novascale-agent" ∷ [])))
