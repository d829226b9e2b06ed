-- ===== src/Tests/SetupRuns.antt =====
-- The theorems on the installation of the Herdr plugin and on the removal of the agent at concrete inputs.
use nova_codex_bootstrap.Prelude.{◌≡◌, refl, true, false, [], ◌∷◌, none, some}
use nova_codex_bootstrap.Protocol.Text.{trim_space, is_space}
use nova_codex_bootstrap.Protocol.Event.{HostEvent}
use nova_codex_bootstrap.Config.Endpoint.{parse_notification_endpoint}
use nova_codex_bootstrap.Config.Files.{loaded}
use nova_codex_bootstrap.Herdr.Plugin.{herdr_backend_supported, herdr_manifest, is_capable}
use nova_codex_bootstrap.Herdr.Setup.{Meeting, Plant, inspect_herdr}
use nova_codex_bootstrap.Herdr.Setup.Install.{
  Site, uninstall_herdr, install_herdr, install_linked, baseline_all,
}
use nova_codex_bootstrap.Herdr.Setup.Outcome.{Installs, install_herdr-Installs}
use nova_codex_bootstrap.Herdr.Reconcile.{Setting}
use nova_codex_bootstrap.HookConfig.Document.{document, uninstall, uninstall_events, field}
use nova_codex_bootstrap.Cli.Shell.{shell_command, is_plain, all_plain, shell_quote, replace_quotes}
use nova_codex_bootstrap.Cli.Uninstall.{
  Machine, Options, Circumstances, plain, uninstall_agent, cleanup, check_directories, stop_service,
  remove_hooks, remove_plugin, clear_queue, remove_plugin_dir, remove_socket, purge_state,
  purge_config, remove_binary, run_actions,
}
use nova_codex_bootstrap.Cli.Uninstall.Order.{Uninstalls, uninstall_agent-Uninstalls}
use nova_codex_bootstrap.Tests.Data.{go, net, codec, config, two_events, files}
use nova_codex_bootstrap.Tests.Trees.{Tree, json}

abbrev setting : Setting HostEvent
setting = record { go = go; codec = codec; session_name = λ path. "default"; uuid = λ n. some "h9" }

-- A daemon with both capabilities, and no socket to look at.
abbrev meeting : Meeting
meeting = record {
  config = loaded config;
  daemon = some (record {
    version = "1.1.0";
    capabilities = "herdr-v2" ∷ "herdr-host-capture-v1" ∷ [];
    registration_state = "active";
  });
  opened = true;
  registry =
      some (record { id = "novascale.notifications"; enabled = true; has_warnings = false } ∷ []);
  listed = none;
  visit = record { read = λ path. none; now = 1000; fresh = some "s1"; uuid = λ n. some "h9" };
}

abbrev site : Site
site = record {
  get = λ url. some (record { status = 200; body = some (true, true) });
  placed = true;
  links = true;
  sockets = [];
  meeting = meeting;
}

abbrev plant : Plant HostEvent
plant = record { manifest = none; linked = false; database = none }

installs :
    (install_herdr setting files net (λ s. s) site "" "/bin/agent" "1.1.0" plant).1.linked ≡ true
unfolding install_herdr install_linked baseline_all herdr_backend_supported
    parse_notification_endpoint herdr_manifest is_capable inspect_herdr
installs = refl

install_herdr-Installs_example :
    Installs net site plant
      (install_herdr setting files net (λ s. s) site "" "/bin/agent" "1.1.0" plant)
install_herdr-Installs_example =
    install_herdr-Installs setting files net (λ s. s) site "" "/bin/agent" "1.1.0" plant

abbrev machine : Machine Tree HostEvent
machine = record {
  service_file = true;
  hooks = document (some []);
  plant = record plant { manifest = some "manifest"; linked = true; database = some two_events };
  plugin_dir = true;
  socket = true;
  state_dir = plain;
  config_dir = plain;
  binary = true;
}

abbrev options : Options
options = record {
  paths = record {
    config_dir = "/config/novascale-agent";
    state_dir = "/state/novascale-agent";
    config_file = "";
    key_file = "";
    legacy_setup_token_file = "";
    enrollment_lock = "";
    database = "";
    socket = "";
  };
  platform = "linux";
  binary = "/bin/agent";
  purge = false;
}

-- Everything succeeds, and the daemon stops.
abbrev circumstances : Circumstances
circumstances = record {
  base = λ path. "novascale-agent";
  is_abs = λ path. true;
  printed = false;
  booted_out = false;
  load_state = some "loaded";
  disabled = true;
  answers_before = true;
  answers_after = false;
  removes_service = true;
  hooks_written = true;
  manifest_known = true;
  herdr_opens = true;
  herdr_removes = true;
  database_known = true;
  opened = true;
  cleared = true;
  closed = true;
  removes_plugin = true;
  removes_socket = true;
  removes_state = true;
  removes_config = true;
  removes_binary = true;
}

uninstalls : (uninstall_agent json circumstances options machine).0 ≡ true
unfolding uninstall_agent cleanup check_directories stop_service remove_hooks remove_plugin
    clear_queue remove_plugin_dir remove_socket purge_state purge_config remove_binary run_actions
    trim_space is_space uninstall uninstall_events uninstall_herdr shell_command is_plain all_plain
    shell_quote replace_quotes field
uninstalls = refl

uninstall_agent-Uninstalls_example :
    Uninstalls HostEvent json circumstances options machine
      (uninstall_agent json circumstances options machine)
uninstall_agent-Uninstalls_example =
    uninstall_agent-Uninstalls HostEvent json circumstances options machine
