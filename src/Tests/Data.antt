-- ===== src/Tests/Data.antt =====
-- Concrete data: stand-ins for Go's libraries, events, rows and queues.
use Prim.Native.String.{◌++◌}
use nova_codex_bootstrap.Prelude.{
  ℕ, ◌+◌, true, false, [], ◌∷◌, Option, none, some, str_eq, is_empty, if◌then◌else◌,
}
use nova_codex_bootstrap.Protocol.Metadata.{Encoding}
use nova_codex_bootstrap.Protocol.Event.{HostEvent, turn_stopped, attention_required, source_herdr}
use nova_codex_bootstrap.Config.Endpoint.{NetLib}
use nova_codex_bootstrap.Config.Settings.{Config, registration_active}
use nova_codex_bootstrap.Queue.Rows.{Row, Queue}
use nova_codex_bootstrap.Herdr.Socket.{FileLib}
use nova_codex_bootstrap.Upload.Request.{Codec, Environment, Trace}

-- The metadata's texts one after another.
abbrev pub go : Encoding
go = record {
  is_format = λ c. false;
  marshal_metadata =
      λ m. m.session_name ++ (m.agent_status ++ (m.agent ++ (m.display_agent ++ m.title)));
  marshal_text = λ s. "'" ++ (s ++ "'");
}

-- Every name but "" is the host of an https address.
abbrev pub net : NetLib
net = record {
  parse = λ s.
      if is_empty s
      then none
      else some (record {
        scheme = "https";
        host = s;
        hostname = s;
        path = "";
        fragment = "";
        has_user = false;
      });
  to_string = λ url. url.scheme ++ ("://" ++ (url.host ++ url.path));
  is_loopback = str_eq "127.0.0.1";
  to_lower = λ s. s;
  equal_fold = str_eq;
}

-- Bodies are events themselves.
abbrev pub codec : Codec HostEvent
codec = record { unmarshal = some; residue = λ e. e; marshal = λ e. e }

-- A server that gives each request the status.
abbrev pub server : Option ℕ → Environment HostEvent
server status = record {
  net = net;
  codec = codec;
  clock = λ n. 1000 + n;
  respond = λ n request. status;
  sign = λ now id body. id;
}

abbrev pub codex_event : HostEvent
codex_event = record {
  schema_version = 1;
  event_type = turn_stopped;
  thread_id = "thread";
  turn_id = "turn";
  request_id = "";
  occurred_at = 900;
  source = "";
  target = none;
  herdr_metadata = none;
}

abbrev pub herdr_event : HostEvent
herdr_event = record {
  schema_version = 2;
  event_type = attention_required;
  thread_id = "";
  turn_id = "";
  request_id = "";
  occurred_at = 900;
  source = source_herdr;
  target = some (record {
    session_id = "session";
    pane_id = "pane";
    codex_thread_id = "";
    test_installation_id = "";
  });
  herdr_metadata = none;
}

abbrev pub codex_row : Row HostEvent
codex_row = record {
  event_id = "c1";
  body = codex_event;
  attempts = 0;
  next_attempt_at = 900;
  created_at = 900;
  expires_at = 600000;
  source = "codex";
  session_id = "";
  pane_id = "";
  backend = "host";
}

abbrev pub herdr_row : Row HostEvent
herdr_row = record {
  event_id = "h1";
  body = herdr_event;
  attempts = 0;
  next_attempt_at = 950;
  created_at = 950;
  expires_at = 2700;
  source = "herdr";
  session_id = "session";
  pane_id = "pane";
  backend = "";
}

abbrev pub empty_queue : Queue HostEvent
empty_queue = record {
  pending = [];
  endpoint = some "host";
  bindings = [];
  panes = [];
  capture = true;
  last_source = "";
}

-- A Codex event, then a Herdr event; the last one handed out was Codex's.
abbrev pub two_events : Queue HostEvent
two_events = record empty_queue { pending = codex_row ∷ herdr_row ∷ []; last_source = "codex" }

abbrev pub config : Config
config = record {
  version = 1;
  host_id = "host-1";
  endpoint = "host";
  registration_state = registration_active;
}

abbrev pub no_requests : Trace HostEvent
no_requests = record { sent = []; readings = 0 }

-- Paths that are clean and absolute already.
abbrev pub files : FileLib
files = record {
  clean = λ path. path;
  is_abs = λ path. true;
  dir = λ path. path;
  join = λ parts. "";
  rel = λ base path. none;
  sha256_hex = λ text. text;
}
