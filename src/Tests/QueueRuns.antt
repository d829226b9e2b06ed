-- ===== src/Tests/QueueRuns.antt =====
-- The theorems on the queue of notifications/internal/agent/queue.go at concrete queues.
use nova_codex_bootstrap.Prelude.{
  List, any, ◌≡◌, ◌≢◌, refl, String, false, [], ◌∷◌, select, none, some, arith, eq_iff, inl, inr,
  leb,
}
use nova_codex_bootstrap.Sql.{delete, order_by}
use nova_codex_bootstrap.Protocol.Event.{HostEvent}
use nova_codex_bootstrap.Queue.Rows.{
  Row, Queue, is_codex, insert_or_ignore, new_row, enqueue, next, configure_backend,
}
use nova_codex_bootstrap.Queue.Bounds.{IsBounded, enqueue-IsBounded}
use nova_codex_bootstrap.Queue.Invariant.{enqueues, run}
use nova_codex_bootstrap.Queue.Eviction.{enqueue-keeps_codex}
use nova_codex_bootstrap.Queue.Delivery.{IsChosen, next-IsChosen, next_alternates}
use nova_codex_bootstrap.Queue.Backend.{
  Refiled, configure_all, last_of, configure_backend-assigns, switch_and_back,
}
use nova_codex_bootstrap.Queue.Stranded.{FilesUnder, next-stranded}
use nova_codex_bootstrap.Queue.Opening.{
  Events, Tables, created, add_columns, open_queue, migrate_tables, queue_on, events_of,
  open_queue-assigns,
}
use nova_codex_bootstrap.Herdr.Setup.{new_queue}
use nova_codex_bootstrap.Config.Endpoint.{parse_notification_endpoint, trim_slashes}
use nova_codex_bootstrap.Tests.UploadRuns.{host_url}
use nova_codex_bootstrap.Tests.Data.{
  go, codex_event, herdr_event, codex_row, herdr_row, empty_queue, two_events, net, codec,
}

enqueue-keeps_codex_example :
    select is_codex (enqueue go some empty_queue "c1" codex_event 900).pending
    ≡ select is_codex (
        delete
          (λ r. leb r.expires_at 900)
          (insert_or_ignore (new_row go some empty_queue "c1" codex_event 900) empty_queue.pending))
enqueue-keeps_codex_example =
    enqueue-keeps_codex go some empty_queue "c1" codex_event 900 (λ key. omega arith) (ground arith)

enqueue-IsBounded_example :
    IsBounded
      (new_row go some two_events "h2" herdr_event 960).session_id
      (enqueue go some two_events "h2" herdr_event 960).pending
enqueue-IsBounded_example = enqueue-IsBounded go some two_events "h2" herdr_event 960

chosen_first : (next two_events 1000 "").0 ≡ some herdr_row
unfolding next order_by
chosen_first = refl

next-IsChosen_example :
    IsChosen two_events 1000 "" herdr_row
    × ((next two_events 1000 "").1 ≡ record two_events {
      pending = delete (λ s. leb s.expires_at 1000) two_events.pending;
      last_source = herdr_row.source;
    })
next-IsChosen_example = next-IsChosen two_events 1000 "" herdr_row chosen_first

none_early : (next two_events 800 "").0 ≡ none
unfolding next order_by
none_early = refl

-- A second Herdr event, which is newer.
abbrev later_row : Row HostEvent
later_row = record herdr_row { event_id = "h2"; created_at = 960 }

abbrev three_events : Queue HostEvent
three_events = record two_events { pending = codex_row ∷ herdr_row ∷ later_row ∷ [] }

chosen_of_three : (next three_events 1000 "").0 ≡ some herdr_row
unfolding next order_by
chosen_of_three = refl

later_ne : ¬ (later_row.source ≡ three_events.last_source)
later_ne e = let equal = (eq_iff later_row.source three_events.last_source).1 e in cc equal

next_alternates_example : herdr_row.source ≢ three_events.last_source
next_alternates_example =
    next_alternates three_events 1000 "" herdr_row later_row chosen_of_three (inr (inr (inl refl)))
      later_ne

abbrev host : String
host = "host"

host_ne : host ≢ ""
host_ne e = let equal = (eq_iff host "").1 e in cc equal

-- An event that an earlier version of the agent queued.
abbrev legacy_row : Row HostEvent
legacy_row = record codex_row { event_id = "c0"; backend = "" }

abbrev legacy_queue : Queue HostEvent
legacy_queue = record two_events {
  pending = legacy_row ∷ two_events.pending;
  endpoint = some "host";
}

configure_backend-assigns_example :
    (rows : List (Row HostEvent)) × Refiled "host" legacy_queue.pending rows
    × (configure_all legacy_queue ("other" ∷ "third" ∷ [])
        ≡ record legacy_queue { pending = rows; endpoint = some (last_of "other" ("third" ∷ [])) })
configure_backend-assigns_example =
    configure_backend-assigns legacy_queue "other" "host" ("third" ∷ []) (inl refl) host_ne

abbrev one_event : Queue HostEvent
one_event = record empty_queue { pending = codex_row ∷ [] }

switch_and_back_example : configure_backend (configure_backend one_event "other") "host" ≡ one_event
switch_and_back_example = switch_and_back one_event "host" "other" refl refl

-- The text "host" is the URL "https://host".
next-stranded_example :
    (next
      (run go codec.unmarshal
        (configure_backend empty_queue "https://host")
        (enqueues "c1" codex_event 900 ∷ []))
      1000
      (trim_slashes "host")).0
    ≡ none
unfolding parse_notification_endpoint trim_slashes
next-stranded_example =
    next-stranded go codec.unmarshal net "host" host_url empty_queue
      (configure_backend empty_queue "https://host") (enqueues "c1" codex_event 900 ∷ []) 1000 refl
      (λ e. let equal = (eq_iff "host" "").1 e in cc equal)
      (λ e. let equal = (eq_iff "host" "https://host").1 e in cc equal) refl refl refl

-- A database of an agent that knew neither backends nor Herdr.
abbrev legacy_events : Events HostEvent
legacy_events = record {
  columns = record { backend = false; source = false; session_id = false; pane_id = false };
  rows = codex_row ∷ [];
}

abbrev legacy_tables : Tables HostEvent
legacy_tables = record {
  pending = some legacy_events;
  backend = none;
  bindings = none;
  panes = none;
  adapter = none;
}

open_queue-assigns_example :
    FilesUnder "host" (configure_backend (open_queue legacy_tables) "host")
    × (events_of (configure_backend (open_queue legacy_tables) "host").pending
        ≡ events_of legacy_events.rows)
    × ((configure_backend (open_queue legacy_tables) "host").capture
        ≡ any (λ b. b.enabled) (created [] legacy_tables.bindings))
open_queue-assigns_example =
    open_queue-assigns legacy_tables legacy_events "host" refl refl refl refl

-- A new database.
opens_empty :
    open_queue
      (record { pending = none; backend = none; bindings = none; panes = none; adapter = none })
    ≡ new_queue {Body = HostEvent}
unfolding open_queue migrate_tables queue_on add_columns
opens_empty = refl
