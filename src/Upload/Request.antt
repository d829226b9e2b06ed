-- ===== src/Upload/Request.antt =====
-- uploadToBackend of notifications/internal/agent/daemon.go: one event to the backend, with the retry
-- that leaves the presentation metadata out.
pub mod Outcome
use Prim.Native.String.{◌++◌}
use nova_codex_bootstrap.Prelude.{
  ℕ, zero, suc, ◌+◌, ◌-◌, ◌≡◌, String, Bool, true, false, not, ◌&&◌, ◌||◌, List, [], ◌∷◌, length,
  Option, none, some, ltb, leb, ◌==◌, str_eq, is_empty, if◌then◌else◌,
}
use nova_codex_bootstrap.Protocol.Metadata.{HerdrMetadata}
use nova_codex_bootstrap.Protocol.Event.{
  Time, HostEvent, event_source, source_herdr, test_notification,
}
use nova_codex_bootstrap.Config.Endpoint.{NetLib, Url, parse_notification_endpoint, trim_slashes}
use nova_codex_bootstrap.Config.Settings.{Config}
use nova_codex_bootstrap.Queue.Rows.{Row}

-- encoding/json on events: what Unmarshal gives, what it leaves in the event where it fails, and
-- Marshal, which does not fail on an event.
pub record Codec (Body : Type 0) : Type 0 where
  pub unmarshal : Body → Option HostEvent
  pub residue : Body → HostEvent
  pub marshal : HostEvent → Body

-- The POST request; its timestamp header is the clock's reading.
pub record Request (Body : Type 0) : Type 0 where
  pub url : String
  pub host_id : String
  pub timestamp : Time
  pub event_id : String
  pub signature : String
  pub body : Body

-- What the uploader meets: the clock by the number of its readings, the server by the number of
-- requests so far (`none` if no response comes, else the status), and the signature of a request.
pub record Environment (Body : Type 0) : Type 0 where
  pub net : NetLib
  pub codec : Codec Body
  pub clock : ℕ → Time
  pub respond : ℕ → Request Body → Option ℕ
  pub sign : Time → String → Body → String

-- The requests sent, the last first, and how often the clock was read.
pub record Trace (Body : Type 0) : Type 0 where
  pub sent : List (Request Body)
  pub readings : ℕ

abbrev pub or_residue : {Body : Type 0} → Codec Body → Body → Option HostEvent → HostEvent
or_residue codec b none = codec.residue b
or_residue codec b (some e) = e

abbrev pub decodes_to_herdr : Option HostEvent → Bool
decodes_to_herdr none = false
decodes_to_herdr (some e) = str_eq (event_source e) source_herdr

abbrev pub has_metadata : Option HerdrMetadata → Bool
has_metadata none = false
has_metadata (some m) = true

abbrev pub accepted : ℕ → Bool
accepted status = (leb 200 status && ltb status 300) || status == 409

-- The answers to a status other than success, once no second try is due.
unfoldable pub is_settled : HostEvent → ℕ → Bool
is_settled event status =
    (str_eq (event_source event) source_herdr && (status == 400 || status == 422 || status == 404))
    || (str_eq event.event_type test_notification && status == 429)

-- What follows a request: the outcome, or the second try.
unfoldable pub answer :
    {Body : Type 0}
    → Option ℕ
    → HostEvent
    → Trace Body
    → Option (Bool × Trace Body)
    → Option (Bool × Trace Body)
answer none event t again = some (false, t)
answer (some status) event t again =
    if accepted status
    then some (true, t)
    else if status == 400 && has_metadata event.herdr_metadata
    then again
    else some (is_settled event status, t)

module _ {Body : Type 0} (env : Environment Body) where
  -- what is read of the body
  abbrev pub decoded : Body → HostEvent
  decoded b = or_residue env.codec b (env.codec.unmarshal b)

  -- the path for the event's source, behind the endpoint's own path
  abbrev events_path : String → Option HostEvent → String
  events_path base event =
      trim_slashes base ++ (if decodes_to_herdr event then "/v2/host-events" else "/v1/host-events")

  unfoldable pub build_request : Row Body → Config → Url → Time → Request Body
  unfolding trim_slashes
  build_request row config endpoint now = record {
    url =
        env.net.to_string
          (record endpoint { path = events_path endpoint.path (env.codec.unmarshal row.body) });
    host_id = config.host_id;
    timestamp = now;
    event_id = row.event_id;
    signature = env.sign now row.event_id row.body;
    body = row.body;
  }

  -- The event's body without the presentation metadata.
  abbrev pub without_metadata : Row Body → Row Body
  without_metadata row =
      let event = decoded row.body in
      record row { body = env.codec.marshal (record event { herdr_metadata = none }) }

  -- true is a nil error; `none` if the tries run out
  unfoldable pub upload_to_backend : ℕ → Row Body → Config → Trace Body → Option (Bool × Trace Body)
  upload_to_backend zero row config t = none
  upload_to_backend (suc tries) row config t =
      elim (parse_notification_endpoint env.net config.endpoint) [
        | none ↦ some (false, t)
        | some endpoint ↦
            let request = build_request row config endpoint (env.clock t.readings) in
            let t' : Trace Body = record { sent = request ∷ t.sent; readings = t.readings + 1 } in
            answer (env.respond (length t.sent) request) (decoded row.body) t'
              (upload_to_backend tries (without_metadata row) config t')
      ]
