-- ===== src/Tests/DaemonRuns.antt =====
-- The theorem on the daemon at a run: an event of the hook arrives, and the uploader sends it.
use Prim.Native.String.{◌++◌}
use mathlib.Core.Path.{subst}
use nova_codex_bootstrap.Prelude.{
  String, sym, ◌≡◌, ◌+◌, refl, true, false, [], ◌∷◌, none, some, arith,
}
use nova_codex_bootstrap.Protocol.Event.{HostEvent, is_valid, event_source}
use nova_codex_bootstrap.Queue.Rows.{
  Row, week, next, complete, configure_backend, enqueue, enforce_limits,
}
use nova_codex_bootstrap.Ingress.Connection.{
  to_host_event, receive_hook, validate_hook_event, event_id, handle_connection,
}
use nova_codex_bootstrap.Sql.{delete_beyond, order_by}
use nova_codex_bootstrap.Config.Endpoint.{trim_slashes, parse_notification_endpoint}
use nova_codex_bootstrap.Upload.Request.{
  Request, Environment, answer, build_request, upload_to_backend,
}
use nova_codex_bootstrap.Herdr.Histories.{IsConsistent}
use nova_codex_bootstrap.Daemon.{
  State, resting, chosen, look, sending, answered, settle_queue, Step, launch, Reachable, start,
  after, connects, uploads, looks, takes, sends, settles,
}
use nova_codex_bootstrap.Daemon.Safety.{passed_states}
use nova_codex_bootstrap.Daemon.Parts.{IsRunning}
use nova_codex_bootstrap.Config.Settings.{Config, validate_config}
use nova_codex_bootstrap.Config.Files.{
  file, KeyLib, load_config, loaded, load_private_key, trim_key,
}
use nova_codex_bootstrap.Queue.Opening.{
  open_queue, tables_of, migrate_tables, queue_on, add_columns, open_queue-tables_of,
}
use nova_codex_bootstrap.Cli.Serve.{Startup, serve, serve-IsRunning}
use nova_codex_bootstrap.Tests.Data.{net, config, empty_queue, files, server}
use nova_codex_bootstrap.Tests.HerdrRuns.{setting}
use nova_codex_bootstrap.Tests.IngressRuns.{messages, stop_event, connection}

-- A server that accepts each request, with URLs that are their hosts.
abbrev up : Environment HostEvent
up = record (server (some 202)) { net = record net { to_string = λ url. url.host ++ url.path } }

abbrev launched_state : State HostEvent
launched_state = record {
  service = record {
    version = "1.0";
    config = config;
    queue = empty_queue;
    dirty = [];
    wake = false;
  };
  watching = [];
  config_path = "config.json";
  legacy_path = "";
  token_file = false;
  attempt = none;
  uploader = resting;
  trace = record { sent = []; readings = 0 };
}

-- The event that arrives, as a row.
abbrev row : Row HostEvent
row = record {
  event_id = "c2";
  body = to_host_event 1 stop_event;
  attempts = 0;
  next_attempt_at = 1000;
  created_at = 1000;
  expires_at = 1000 + week;
  source = "codex";
  session_id = "";
  pane_id = "";
  backend = "host";
}

-- The event has arrived, its upload is due, it is taken, and it has been sent and removed.
abbrev arrived : State HostEvent
arrived = record launched_state {
  service = record launched_state.service {
    queue = record empty_queue { pending = row ∷ [] };
    wake = true;
  };
}

abbrev looked : State HostEvent
looked = record arrived { uploader = chosen config }

abbrev taken : State HostEvent
taken = record looked {
  service = record looked.service {
    queue = record empty_queue { pending = row ∷ []; last_source = "codex" };
  };
  uploader = sending row config;
  trace = record { sent = []; readings = 1 };
}

abbrev request : Request HostEvent
request = record {
  url = "host/v1/host-events";
  host_id = "host-1";
  timestamp = 1001;
  event_id = "c2";
  signature = "c2";
  body = row.body;
}

abbrev sent : State HostEvent
sent = record taken {
  uploader = answered row true;
  trace = record { sent = request ∷ []; readings = 2 };
}

abbrev removed : State HostEvent
removed = record sent {
  service = record taken.service { queue = record empty_queue { last_source = "codex" } };
  uploader = resting;
}

arrives : Step setting files up messages launched_state arrived
unfolding handle_connection receive_hook validate_hook_event is_valid event_id enqueue
    enforce_limits delete_beyond
arrives = connects connection

taking : Step setting files up messages looked taken
unfolding next order_by trim_slashes
taking = uploads taken (takes config refl)

uploading : Step setting files up messages taken sent
unfolding upload_to_backend parse_notification_endpoint answer build_request event_source
uploading =
    uploads sent (sends row config true (record { sent = request ∷ []; readings = 2 }) refl refl)

reached : Reachable setting files up messages launched_state removed
unfolding look settle_queue complete
reached =
    after sent removed
      (after taken sent
        (after looked taken
          (after arrived looked (after launched_state arrived start arrives)
            (uploads looked (looks refl)))
          taking)
        uploading)
      (uploads removed (settles row true refl))

empty-IsConsistent : IsConsistent empty_queue
empty-IsConsistent = record {
  sound = record {
    unique = λ key. omega arith;
    in_all = omega arith;
    of_herdr = omega arith;
    of_session = λ s. omega arith;
  };
  few = omega arith;
  off = λ c. absurd (ground arith);
}

-- Keys are texts of their own.
abbrev keys : KeyLib String
keys = record { encode = λ k. k; decode = some; size = λ k. 64 }

abbrev startup : Startup HostEvent
startup = record {
  stored = file config;
  key = some (record { is_private = true; text = "key" });
  has_directory = true;
  tables = tables_of empty_queue;
  config_path = "config.json";
  legacy_path = "";
  token_file = false;
}

serves : serve setting files up messages keys "1.0" startup ≡ some launched_state
unfolding serve launch load_config validate_config load_private_key configure_backend open_queue
    trim_slashes queue_on migrate_tables add_columns tables_of parse_notification_endpoint trim_key
serves = refl

opened-IsConsistent : IsConsistent (open_queue startup.tables)
opened-IsConsistent = subst IsConsistent (sym (open_queue-tables_of empty_queue)) empty-IsConsistent

serve-IsRunning_example :
    (c : Config) × (load_config up.net startup.stored ≡ loaded c)
    × IsRunning setting files up messages c.host_id
        (passed_states setting files up messages launched_state removed reached)
        removed
serve-IsRunning_example =
    serve-IsRunning setting files up messages keys "1.0" startup launched_state removed serves
      opened-IsConsistent reached
