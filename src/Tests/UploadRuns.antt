-- ===== src/Tests/UploadRuns.antt =====
-- The theorems on texts, endpoints and uploads at concrete inputs.
use nova_codex_bootstrap.Prelude.{
  ◌≤◌, ◌≡◌, ◌≢◌, ◌↔◌, Bool, true, refl, len, false, [], ◌∷◌, some, arith, eq_iff,
}
use nova_codex_bootstrap.Protocol.Metadata.{HerdrMetadata, trimmed, shrink_until_fits, normalized}
use nova_codex_bootstrap.Protocol.Metadata.Budget.{normalized_fits}
use nova_codex_bootstrap.Protocol.Event.{HostEvent, event_source, source_codex, test_notification}
use nova_codex_bootstrap.Config.Endpoint.{Url, parse_notification_endpoint}
use nova_codex_bootstrap.Upload.Request.{decoded, build_request, upload_to_backend}
use nova_codex_bootstrap.Upload.Request.Outcome.{Ends, upload_to_backend-Ends}
use nova_codex_bootstrap.Upload.Loop.{World, stuck, upload_due}
use nova_codex_bootstrap.Upload.Loop.Progress.{IsTaken, upload_due_ends, upload_codex}
use nova_codex_bootstrap.Tests.Json.{json, json-IsJson}
use nova_codex_bootstrap.Tests.Data.{
  net, server, codex_row, herdr_row, two_events, config, no_requests,
}

abbrev metadata : HerdrMetadata
metadata = record {
  session_name = "default";
  workspace_id = "workspace";
  agent_status = "blocked";
  agent = "codex";
  title =
      "<<<<<<<<<<<<<<<<<<<<<<<<<<<<<<<<<<<<<<<<<<<<<<<<<<<<<<<<<<<<<<<<<<<<<<<<<<<<<<<<<<<<<<<<<<<<<<<<<<<<<<<<<<<<<<<<<<<<<<<<<<<<<<<<<<<<<<<<<<<<<<<<<<<<<<<<<<<<<<<<<<<<<<<<<<<<<<<<<<<<<<<<<<<<<<<<<<<<<<<<<<<<<<<<<<<<<<<<<<<<<<<<<<<<<<<<<<<<<<<<<<<<<<<<<<";
  display_agent = "Codex";
  state_labels = ("blocked", "needs you") ∷ [];
}

normalized_fits_example :
    (shrink_until_fits json 10 (trimmed json metadata) ≡ some (normalized json metadata))
    × (len (json.marshal_metadata (normalized json metadata)) ≤ 1200)
normalized_fits_example = normalized_fits json json-IsJson metadata

abbrev pub host_url : Url
host_url = record {
  scheme = "https";
  host = "host";
  hostname = "host";
  path = "";
  fragment = "";
  has_user = false;
}

parses : parse_notification_endpoint net "host" ≡ some host_url
unfolding parse_notification_endpoint
parses = refl

upload_to_backend-Ends_example :
    Ends 2 herdr_row.event_id no_requests
      (upload_to_backend (server (some 400)) 2 herdr_row config no_requests)
upload_to_backend-Ends_example =
    upload_to_backend-Ends (server (some 400)) (λ e. refl) herdr_row config no_requests

abbrev world : World HostEvent
world = record { queue = two_events; trace = no_requests }

upload_due_ends_example :
    (upload_due (server (some 202)) (λ n. false) (λ n. config) 3 0 world).0 ≢ stuck
upload_due_ends_example =
    upload_due_ends (server (some 202)) (λ e. refl) (λ n. false) (λ n. config) 3 0 world
      (omega arith)

codex_source : event_source (decoded (server (some 503)) codex_row.body) ≡ source_codex
unfolding event_source
codex_source = refl

no_test : codex_row.body.event_type ≢ test_notification
no_test e = let equal = (eq_iff codex_row.body.event_type test_notification).1 e in cc equal

upload_codex_example :
    let env = server (some 503) in
    let request = build_request env codex_row config host_url (env.clock 0) in
    (accept : Bool) × (upload_to_backend env 2 codex_row config no_requests
      ≡ some (accept, record { sent = request ∷ []; readings = 1 }))
    × ((accept ≡ true) ↔ IsTaken (env.respond 0 request))
upload_codex_example =
    upload_codex (server (some 503)) 1 codex_row config no_requests host_url codex_source refl
      no_test parses
