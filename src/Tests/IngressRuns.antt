-- ===== src/Tests/IngressRuns.antt =====
-- The theorems on the hook's input, the connections and the hooks file at concrete inputs.
use nova_codex_bootstrap.Prelude.{ℕ, List, len, arith, ◌≡◌, refl, true, false, [], ◌∷◌, none, some}
use nova_codex_bootstrap.Protocol.Event.{version, HookEvent, HostEvent, valid_id, turn_stopped}
use nova_codex_bootstrap.Herdr.Socket.{FileLib}
use nova_codex_bootstrap.Ingress.Hook.{CodexHookInput, Reading, normalize_hook}
use nova_codex_bootstrap.Ingress.Connection.{
  Messages, Service, Connection, accepted, to_host_event, event_id, validate_hook_event,
  handle_connection,
}
use nova_codex_bootstrap.Ingress.Ipc.{HookRun, run_hook, verify_peer, hook-delivered}
use nova_codex_bootstrap.Queue.Rows.{enqueue}
use nova_codex_bootstrap.Herdr.Agent.{uuid_chars}
use nova_codex_bootstrap.Config.Uuid.{new_uuid, format_uuid, stamped, hex_byte, new_uuid-IsUuid}
use nova_codex_bootstrap.Ingress.Safety.{
  Answers, handle_connection-Answers, normalize_hook-validate,
}
use nova_codex_bootstrap.HookConfig.Document.{
  Fields, panicked, document, saved, unchanged, install, uninstall, uninstall_events,
  handler_command, hooks_object, installed, install_events, add_group, field, put, new_group,
}
use nova_codex_bootstrap.HookConfig.Removal.{Uninstalled, uninstall-Uninstalled}
use nova_codex_bootstrap.HookConfig.File.{
  Files, Copying, copies, refuses, breaks_off, Change, change, change_all, install_file, apply,
  save, copy, load, IsKept, change_all-IsKept,
}
use nova_codex_bootstrap.HookConfig.Installation.{install-installed}
use nova_codex_bootstrap.Tests.Trees.{Tree, json, object-of_object, objects-of_objects}
use nova_codex_bootstrap.Tests.Data.{go, codec, config, two_events}

abbrev stop_input : CodexHookInput
stop_input = record {
  session_id = "thread";
  turn_id = "turn";
  hook_event_name = "Stop";
  request_id = "";
  tool_use_id = "";
}

abbrev reading : Reading
reading = record { source = some stop_input; at_end = true; bytes = 100 }

abbrev pub stop_event : HookEvent
stop_event = record {
  protocol_version = 1;
  event_type = turn_stopped;
  thread_id = "thread";
  turn_id = "turn";
  request_id = "";
  occurred_at = 900;
}

normalizes : normalize_hook reading 900 ≡ some stop_event
unfolding normalize_hook
normalizes = refl

valid_thread : valid_id "thread" ≡ true
unfolding valid_id
valid_thread = refl

valid_turn : valid_id "turn" ≡ true
unfolding valid_id
valid_turn = refl

normalize_hook-validate_example : validate_hook_event go stop_event ≡ true
normalize_hook-validate_example =
    normalize_hook-validate go reading 900 stop_event normalizes refl valid_thread valid_turn refl

abbrev files : FileLib
files = record {
  clean = λ path. path;
  is_abs = λ path. true;
  dir = λ path. path;
  join = λ parts. "";
  rel = λ base path. none;
  sha256_hex = λ text. text;
}

-- Every message is an event of the hook.
abbrev pub messages : Messages HookEvent
messages = record { as_info = λ e. none; as_dirty = λ e. none; as_hook = some }

abbrev service : Service HostEvent
service = record { version = "1.0"; config = config; queue = two_events; dirty = []; wake = false }

abbrev pub connection : Connection HookEvent
connection = record { is_peer = true; message = some stop_event; now = 1000; fresh = some "c2" }

handle_connection-Answers_example :
    Answers go files codec messages service
      (handle_connection go files codec messages service connection)
handle_connection-Answers_example =
    handle_connection-Answers go files codec messages service connection

abbrev hooks : Fields Tree
hooks =
    ("PermissionRequest", json.of_objects (new_group json "notify" ∷ []))
    ∷ ("Stop", json.of_objects (new_group json "notify" ∷ []))
    ∷ []

abbrev installed_document : Fields Tree
installed_document = ("hooks", json.of_object hooks) ∷ []

installs : install json "notify" (document (some [])) ≡ saved installed_document
unfolding install install_events add_group field put
installs = refl

install-installed_example :
    (installed json "notify" (document (some installed_document)) ≡ some true)
    × (install json "notify" (document (some installed_document)) ≡ unchanged)
install-installed_example =
    install-installed json object-of_object objects-of_objects (λ text. refl) "notify" (some [])
      installed_document installs

-- A hooks file that holds null: the document is a nil map.
null_panics : install json "notify" (document none) ≡ panicked
unfolding install install_events add_group field put
null_panics = refl

abbrev emptied_document : Fields Tree
emptied_document = ("hooks", json.of_object []) ∷ []

uninstalls : uninstall json "notify" (document (some installed_document)) ≡ saved emptied_document
unfolding uninstall uninstall_events field new_group handler_command put
uninstalls = refl

uninstall-Uninstalled_example :
    (before : Fields Tree) × (after : Fields Tree) × (hooks_object json installed_document
      ≡ some before)
    × (hooks_object json emptied_document ≡ some after)
    × Uninstalled json object-of_object objects-of_objects "notify" before after
    × (uninstall json "notify" (document (some emptied_document)) ≡ unchanged)
uninstall-Uninstalled_example =
    uninstall-Uninstalled json object-of_object objects-of_objects "notify"
      (some installed_document) emptied_document uninstalls

-- Files that hold documents as they are.
abbrev document_files : Files Tree (Fields Tree)
document_files = record { parse = λ d. some (some d); print = λ d. d; size = λ d. 100 }

-- An installation of the command, with the write of the backup as is given.
abbrev installs_with : Copying (Fields Tree) → Change json document_files
installs_with copying = record {
  installs = true;
  command = "notify";
  faults = record {
    is_readable = true;
    has_directory = true;
    copying = copying;
    is_written = true;
  };
}

abbrev own_document : Fields Tree
own_document = ("model", json.of_text "a model") ∷ []

change_all-IsKept_example : IsKept json document_files own_document (
    change_all json document_files
      (record { file = some own_document; backup = none })
      (installs_with refuses ∷ installs_with copies ∷ []))
change_all-IsKept_example =
    change_all-IsKept json document_files own_document
      (installs_with refuses ∷ installs_with copies ∷ []) refl refl

-- A backup that broke off is taken for a whole one: the next installation replaces the file.
lost_document :
    (change_all json document_files
      (record { file = some own_document; backup = none })
      (installs_with (breaks_off []) ∷ installs_with copies ∷ [])).backup
    ≡ some []
unfolding change_all change install_file apply install load field install_events add_group put save
    copy
lost_document = refl

abbrev hook_run : HookRun
hook_run = record { has_paths = true; valid_flags = true; reading = reading; now = 900 }

runs_hook : (run_hook hook_run).1 ≡ some stop_event
unfolding run_hook normalize_hook
runs_hook = refl

names_event : event_id go files codec messages config stop_event (some "c2") ≡ some "c2"
unfolding event_id
names_event = refl

hook-delivered_example :
    handle_connection go files codec messages service (record {
      is_peer = verify_peer (some 1000) 1000;
      message = some stop_event;
      now = 1000;
      fresh = some "c2";
    })
    ≡ (
      accepted,
      record service {
        queue = enqueue go codec.unmarshal two_events "c2" (to_host_event version stop_event) 1000;
        wake = true;
      },
    )
hook-delivered_example =
    hook-delivered go files codec messages (λ e. e) hook_run stop_event service 1000 1000
      (some "c2") "c2" runs_hook refl valid_thread valid_turn refl refl
      (λ d h. absurd (ground arith)) refl names_event

abbrev random_bytes : List ℕ
random_bytes = 255 ∷ 1 ∷ 2 ∷ 3 ∷ 4 ∷ 5 ∷ 255 ∷ 7 ∷ 255 ∷ 9 ∷ 10 ∷ 11 ∷ 12 ∷ 13 ∷ 14 ∷ 160 ∷ []

makes_uuid : new_uuid (some random_bytes) ≡ some "ff010203-0405-4f07-bf09-0a0b0c0d0ea0"
unfolding new_uuid format_uuid stamped hex_byte
makes_uuid = refl

new_uuid-IsUuid_example :
    (len "ff010203-0405-4f07-bf09-0a0b0c0d0ea0" ≡ 36)
    × (uuid_chars 0 "ff010203-0405-4f07-bf09-0a0b0c0d0ea0" ≡ true)
    × (valid_id "ff010203-0405-4f07-bf09-0a0b0c0d0ea0" ≡ true)
new_uuid-IsUuid_example =
    new_uuid-IsUuid random_bytes "ff010203-0405-4f07-bf09-0a0b0c0d0ea0" makes_uuid (omega arith)
