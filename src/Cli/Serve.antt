-- ===== src/Cli/Serve.antt =====
-- runServe of notifications/cmd/novascale-agent/main.go: from the files to the running daemon.
use nova_codex_bootstrap.Prelude.{
  List, ◌≡◌, refl, String, Bool, false, Option, none, some, arith, is_empty, if◌then◌else◌,
}
use nova_codex_bootstrap.Config.Endpoint.{parse_notification_endpoint}
use nova_codex_bootstrap.Config.Settings.{Config, validate_config}
use nova_codex_bootstrap.Config.Files.{
  Stored, no_file, unreadable, file, Loaded, missing, broken, loaded, load_config, KeyFile, KeyLib,
  load_private_key,
}
use nova_codex_bootstrap.Queue.Rows.{Queue}
use nova_codex_bootstrap.Queue.Opening.{Tables, open_queue}
use nova_codex_bootstrap.Upload.Request.{Environment}
use nova_codex_bootstrap.Ingress.Connection.{Messages}
use nova_codex_bootstrap.Enrollment.Machine.{configure}
use nova_codex_bootstrap.Herdr.Socket.{FileLib}
use nova_codex_bootstrap.Herdr.Reconcile.{Setting}
use nova_codex_bootstrap.Herdr.Histories.{IsConsistent}
use nova_codex_bootstrap.Daemon.{State, Reachable, launch}
use nova_codex_bootstrap.Daemon.Parts.{IsRunning}
use nova_codex_bootstrap.Daemon.Safety.{passed_states, daemon-IsRunning, configured}

-- What a start meets: the configuration and the key as they are stored, whether the directory of the
-- database is made, the database's tables, and the paths and the legacy token.
pub record Startup (Body : Type 0) : Type 0 where
  pub stored : Stored
  pub key : Option KeyFile
  pub has_directory : Bool
  pub tables : Tables Body
  pub config_path : String
  pub legacy_path : String
  pub token_file : Bool

module _ {Raw Body Key : Type 0} (setting : Setting Body) (files : FileLib) (up : Environment Body)
    (messages : Messages Raw) (keys : KeyLib Key) (version : String) where
  abbrev serve_configured : Startup Body → Config → Option (Queue Body) → Option (State Body)
  serve_configured s config none = none
  serve_configured s config (some q) =
      launch setting files up messages version config s.config_path s.legacy_path s.token_file q

  abbrev serve_keyed : Startup Body → Config → Option Key → Option (State Body)
  serve_keyed s config none = none
  serve_keyed s config (some key) =
      if s.has_directory
      then serve_configured s config (
          configure up.net (open_queue s.tables)
            (parse_notification_endpoint up.net config.endpoint))
      else none

  abbrev serve_loaded : Startup Body → Loaded → Option (State Body)
  serve_loaded s missing = none
  serve_loaded s broken = none
  serve_loaded s (loaded config) = serve_keyed s config (load_private_key keys s.key)

  -- runServe, up to the daemon's loops; `none` is an error
  unfoldable pub serve : Startup Body → Option (State Body)
  serve s = serve_loaded s (load_config up.net s.stored)

  abbrev past_of : (s t : State Body) → Reachable setting files up messages s t → List (State Body)
  past_of s t run = passed_states setting files up messages s t run

  loaded-valid :
      (stored : Stored) (config : Config)
      → load_config up.net stored ≡ loaded config
      → is_empty config.host_id ≡ false
  unfolding load_config validate_config
  loaded-valid no_file config h = absurd (ground arith)
  loaded-valid unreadable config h = absurd (ground arith)
  loaded-valid (file c) config h = ground arith

  configured_runs :
      (s : Startup Body) (config : Config) (o : Option (Queue Body)) (t u : State Body)
      → is_empty config.host_id ≡ false
      → serve_configured s config o ≡ some t
      → ((q : Queue Body) → o ≡ some q → IsConsistent q)
      → (run : Reachable setting files up messages t u)
      → IsRunning setting files up messages config.host_id (past_of t u run) u
  configured_runs s config none t u known e consistent reached = absurd (ground arith)
  configured_runs s config (some q) t u known e consistent reached =
      daemon-IsRunning setting files up messages config.host_id version config s.config_path
        s.legacy_path s.token_file q t u e refl known (consistent q refl) reached

  keyed_runs :
      (s : Startup Body) (config : Config) (o : Option Key) (t u : State Body)
      → is_empty config.host_id ≡ false
      → serve_keyed s config o ≡ some t
      → IsConsistent (open_queue s.tables)
      → (run : Reachable setting files up messages t u)
      → IsRunning setting files up messages config.host_id (past_of t u run) u
  keyed_runs s config none t u known e consistent reached = absurd (ground arith)
  keyed_runs s config (some key) t u known e consistent reached =
      let url = parse_notification_endpoint up.net config.endpoint in
      configured_runs s config (configure up.net (open_queue s.tables) url) t u known (ground arith)
        (configured setting files up messages config.host_id (open_queue s.tables) url consistent)
        reached

  serving_runs :
      (s : Startup Body) (o : Loaded) (t u : State Body)
      → load_config up.net s.stored ≡ o
      → serve_loaded s o ≡ some t
      → IsConsistent (open_queue s.tables)
      → (run : Reachable setting files up messages t u)
      → (config : Config) × (load_config up.net s.stored ≡ loaded config)
        × IsRunning setting files up messages config.host_id (past_of t u run) u
  serving_runs s missing t u l e consistent reached = absurd (ground arith)
  serving_runs s broken t u l e consistent reached = absurd (ground arith)
  serving_runs s (loaded config) t u l e consistent reached = (
    config,
    l,
    keyed_runs s config (load_private_key keys s.key) t u (loaded-valid s.stored config l) e
        consistent reached,
  )

  -- A daemon that serve has started, on a database whose tables are within their limits, keeps the
  -- identifier of the configuration file that it started from, the limits of its tables, and at
  -- most 128 signals waiting and 128 taken, whatever connections, Herdr signals, uploads,
  -- enrollment attempts, changes of the file and transactions of other processes follow in
  -- whatever order; and every request that its uploads have sent is built for an event that was in
  -- its queue in a state of this run, or for it without its metadata, under a configuration that
  -- it had in a state of this run, an active registration with that identifier and an accepted
  -- endpoint, whose text, if it is more than slashes, is the backend of the event; it bears the
  -- event's id, that identifier, a reading of the clock, the event's body and the signature of
  -- these, and goes to that endpoint, to the v2 path if the body decodes to a Herdr event and else
  -- to the v1 path.
  pub serve-IsRunning :
      (s : Startup Body) (t u : State Body)
      → serve s ≡ some t
      → IsConsistent (open_queue s.tables)
      → (run : Reachable setting files up messages t u)
      → (config : Config) × (load_config up.net s.stored ≡ loaded config)
        × IsRunning setting files up messages config.host_id (past_of t u run) u
  unfolding serve
  serve-IsRunning s t u e consistent reached =
      serving_runs s (load_config up.net s.stored) t u refl e consistent reached
