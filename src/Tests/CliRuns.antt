-- ===== src/Tests/CliRuns.antt =====
-- The theorems on the commands, the signatures and the registration at concrete inputs.
use Prim.Native.String.{◌++◌}
use nova_codex_bootstrap.Prelude.{
  ℕ, ◌≡◌, ◌≢◌, refl, ap, ◌∙◌, String, true, false, [], ◌∷◌, Option, none, some, is_empty, eq_iff,
}
use nova_codex_bootstrap.Protocol.Event.{HostEvent}
use nova_codex_bootstrap.Config.Endpoint.{NetLib, Url, trim_slashes, parse_notification_endpoint}
use nova_codex_bootstrap.Config.Settings.{validate_config}
use nova_codex_bootstrap.Config.Files.{
  file, loaded, load_config, save_config, KeyLib, load_private_key, trim_key,
}
use nova_codex_bootstrap.Config.Registration.{
  Registrar, answered, request_host_enrollment_token, registration_body, valid_enrollment_token,
}
use nova_codex_bootstrap.Config.Registration.Tokens.{IsToken, request_host_enrollment_token-IsToken}
use nova_codex_bootstrap.Signing.{SignLib, is_one_line, canonical-injective}
use nova_codex_bootstrap.Queue.Rows.{Queue, backend_or}
use nova_codex_bootstrap.Cli.Shell.{hook_command}
use nova_codex_bootstrap.Cli.Shell.Words.{read_word, before, read_word-hook_command}
use nova_codex_bootstrap.Cli.Backend.{
  Host, failed, staged, Conditions, run_init, run_switch_backend, choose_endpoint,
  same_notification_endpoint,
}
use nova_codex_bootstrap.Cli.Backend.Identity.{Identifies, run_init-Identifies}
use nova_codex_bootstrap.Cli.Backend.Switching.{
  IsSwitched, AllAssigned, run_switch_backend-failed, run_switch_backend-staged,
}
use nova_codex_bootstrap.Tests.Data.{net, config, two_events}

read_word-hook_command_example :
    read_word before (hook_command "/home/o'neil/my agent") ≡ some ("/home/o'neil/my agent", "hook")
read_word-hook_command_example = read_word-hook_command "/home/o'neil/my agent" refl

-- Every URL is written as the same text.
abbrev one_net : NetLib
one_net = record net { to_string = λ url. "https://host/" }

-- Keys are texts, and every one has the right size.
abbrev keys : KeyLib String
keys = record { encode = λ k. k; decode = some; size = λ k. 64 }

abbrev host : Host HostEvent
host = record {
  config_file = file config;
  key = some (record { is_private = true; text = "key" });
  token_file = true;
  database = some two_events;
}

abbrev conditions : Conditions String
conditions = record {
  locked = true;
  fresh = some "host-2";
  generated = some "other";
  stat_fails = false;
  opened = true;
  closed = true;
  written = true;
}

loads : load_config one_net host.config_file ≡ loaded config
unfolding load_config validate_config parse_notification_endpoint
loads = refl

run_init-Identifies_example :
    Identifies (run_init one_net keys "" conditions host).1 host.key config.host_id config.endpoint
run_init-Identifies_example = run_init-Identifies one_net keys "" conditions host config loads

-- The database does not close.
abbrev stuck : Conditions String
stuck = record conditions { closed = false }

fails : (run_switch_backend one_net keys ("staging" ∷ []) "" false stuck host).0 ≡ failed
unfolding run_switch_backend choose_endpoint load_config validate_config parse_notification_endpoint
    load_private_key trim_key same_notification_endpoint trim_slashes
fails = refl

run_switch_backend-failed_example :
    let r = run_switch_backend one_net keys ("staging" ∷ []) "" false stuck host in
    (r.1.config_file ≡ host.config_file) × (r.1.key ≡ host.key) × (r.1.token_file ≡ host.token_file)
run_switch_backend-failed_example =
    run_switch_backend-failed one_net keys ("staging" ∷ []) "" false stuck host fails

stages :
    (run_switch_backend one_net keys ("staging" ∷ []) "" false conditions host).0 ≡ staged "host-1"
unfolding run_switch_backend choose_endpoint load_config validate_config parse_notification_endpoint
    load_private_key trim_key save_config same_notification_endpoint trim_slashes
stages = refl

written_url : (url : Url) → is_empty url.host ≡ false → trim_slashes (one_net.to_string url) ≢ ""
unfolding trim_slashes
written_url url h e = let equal = (eq_iff (trim_slashes "https://host/") "").1 e in cc equal

abbrev endpoint_of : Option (Queue HostEvent) → Option String
endpoint_of none = none
endpoint_of (some q) = q.endpoint

named : (q : Queue HostEvent) → host.database ≡ some q → q.endpoint ≢ some ""
named q at e =
    let chain : some "host" ≡ some "" = ap endpoint_of at ∙ e in
    let same : "host" ≡ "" = ap (λ (o : Option String). backend_or o "") chain in
    let equal = (eq_iff "host" "").1 same in cc equal

run_switch_backend-staged_example :
    let r = (run_switch_backend one_net keys ("staging" ∷ []) "" false conditions host).1 in
    IsSwitched one_net keys host r (choose_endpoint ("staging" ∷ []) "") "host-1"
    × AllAssigned one_net keys r.database
run_switch_backend-staged_example =
    run_switch_backend-staged one_net keys ("staging" ∷ []) "" false conditions host "host-1"
      written_url named stages

abbrev signing : SignLib String String
signing = record { sign_text = λ key text. key ++ text; digest = λ body. body }

one_line : is_one_line "event-1" ≡ true
unfolding is_one_line
one_line = refl

canonical-injective_example :
    (◌≡◌ {A = ℕ} 1000 1000)
    × (◌≡◌ {A = String} "event-1" "event-1")
    × (signing.digest "{}" ≡ signing.digest "{}")
canonical-injective_example =
    canonical-injective signing 1000 1000 "event-1" "event-1" "{}" "{}" one_line one_line refl

abbrev registrar : Registrar String String
registrar = record {
  net = net;
  keys = keys;
  signing = signing;
  public = λ k. k;
  marshal = λ host key version. host ++ (key ++ version);
  decoded_size = λ token. some 32;
  respond = λ post. some (record { status = 201; size = some 80; decoded = some ("token", 2000) });
}

answers :
    (request_host_enrollment_token registrar "host" "host-1" "key" "1.1.0" 1000).0
    ≡ answered "token"
unfolding request_host_enrollment_token registration_body parse_notification_endpoint
    valid_enrollment_token
answers = refl

request_host_enrollment_token-IsToken_example :
    IsToken registrar "host-1" "key" "1.1.0" 1000 "token"
      (request_host_enrollment_token registrar "host" "host-1" "key" "1.1.0" 1000).1
request_host_enrollment_token-IsToken_example =
    request_host_enrollment_token-IsToken registrar "host" "host-1" "key" "1.1.0" 1000 "token"
      answers
