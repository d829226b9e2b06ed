-- ===== src/Queue/Opening.antt =====
-- OpenQueue of notifications/internal/agent/queue.go: the tables that an earlier agent left are brought
-- up to date. Indexes and pragmas hold no rows.
use nova_codex_bootstrap.Prelude.{
  ◌≡◌, refl, ap, ◌∙◌, String, Bool, true, false, List, [], ◌∷◌, map, any, count, arith, Option,
  none, some, is_empty, eq_iff, if◌then◌else◌, inl, inr, Bool-cases,
}
use nova_codex_bootstrap.Sql.{update}
use nova_codex_bootstrap.Protocol.Event.{source_codex}
use nova_codex_bootstrap.Queue.Rows.{Row, Queue, Binding, Pane, configure_backend}
use nova_codex_bootstrap.Queue.Stranded.{is_elsewhere, FilesUnder}

-- Which of the columns that came later pending_events has.
pub record Columns : Type 0 where
  pub backend : Bool
  pub source : Bool
  pub session_id : Bool
  pub pane_id : Bool

abbrev pub all_columns : Columns
all_columns = record { backend = true; source = true; session_id = true; pane_id = true }

-- A table pending_events; in a column that it has not, its rows hold nothing of meaning.
pub record Events (Body : Type 0) : Type 0 where
  pub columns : Columns
  pub rows : List (Row Body)

-- The tables of a database file, `none` for one that is not there: pending_events, queue_backend with
-- at most one row, herdr_bindings, herdr_panes, and herdr_adapter with at most one row.
pub record Tables (Body : Type 0) : Type 0 where
  pub pending : Option (Events Body)
  pub backend : Option (Option String)
  pub bindings : Option (List Binding)
  pub panes : Option (List Pane)
  pub adapter : Option (Option Bool)

-- CREATE TABLE IF NOT EXISTS, and the rows there are
abbrev pub created : {A : Type 0} → A → Option A → A
created empty none = empty
created empty (some t) = t

-- INSERT OR IGNORE INTO herdr_adapter
abbrev pub adopted : Bool → Option Bool → Bool
adopted default none = default
adopted default (some enabled) = enabled

module _ {Body : Type 0} where
  -- ALTER TABLE ... ADD COLUMN where there is no such column
  abbrev pub add_column : Bool → (Row Body → Row Body) → List (Row Body) → List (Row Body)
  add_column there default rows = if there then rows else map default rows

  unfoldable pub add_columns : Events Body → Events Body
  add_columns t =
      let a = add_column t.columns.backend (λ r. record r { backend = "" }) t.rows in
      let b = add_column t.columns.source (λ r. record r { source = source_codex }) a in
      let c = add_column t.columns.session_id (λ r. record r { session_id = "" }) b in
      let d = add_column t.columns.pane_id (λ r. record r { pane_id = "" }) c in
      record { columns = all_columns; rows = d }

  abbrev pub no_events : Events Body
  no_events = record { columns = all_columns; rows = [] }

  -- the statements of OpenQueue
  unfoldable pub migrate_tables : Tables Body → Tables Body
  migrate_tables t =
      let bindings = created [] t.bindings in
      record {
        pending = some (add_columns (created no_events t.pending));
        backend = some (created none t.backend);
        bindings = some bindings;
        panes = some (created [] t.panes);
        adapter =
            some
              (some (adopted (any (λ (b : Binding). b.enabled) bindings) (created none t.adapter)));
      }

  -- the queue on migrated tables
  unfoldable pub queue_on : Tables Body → Queue Body
  queue_on t = record {
    pending = (created no_events t.pending).rows;
    endpoint = created none t.backend;
    bindings = created [] t.bindings;
    panes = created [] t.panes;
    capture = adopted false (created none t.adapter);
    last_source = "";
  }

  -- OpenQueue
  unfoldable pub open_queue : Tables Body → Queue Body
  open_queue t = queue_on (migrate_tables t)

  -- The tables that a queue leaves when it is closed.
  unfoldable pub tables_of : Queue Body → Tables Body
  tables_of q = record {
    pending = some (record { columns = all_columns; rows = q.pending });
    backend = some q.endpoint;
    bindings = some q.bindings;
    panes = some q.panes;
    adapter = some (some q.capture);
  }

  add_columns_again : (t : Events Body) → add_columns (add_columns t) ≡ add_columns t
  unfolding add_columns
  add_columns_again t = refl

  -- Again
  pub migrate_tables_again :
      (t : Tables Body) → migrate_tables (migrate_tables t) ≡ migrate_tables t
  unfolding migrate_tables
  migrate_tables_again t = rw (add_columns_again (created no_events t.pending))

  -- A queue
  pub open_queue-tables_of :
      (q : Queue Body) → open_queue (tables_of q) ≡ record q { last_source = "" }
  unfolding open_queue tables_of queue_on migrate_tables add_columns
  open_queue-tables_of q = refl

  -- the ids and the bodies
  abbrev pub events_of : List (Row Body) → List (String × Body)
  events_of rows = map (λ (r : Row Body). (r.event_id, r.body)) rows

  -- A column is added that is none of these.
  add_column-same :
      (there : Bool) (f : Row Body → Row Body) (rows : List (Row Body))
      → ((r : Row Body) → ((f r).event_id ≡ r.event_id) × ((f r).body ≡ r.body))
      → events_of (add_column there f rows) ≡ events_of rows
  add_column-same true f rows same = refl
  add_column-same false f [] same = refl
  add_column-same false f (r ∷ rows) same =
      rw ((same r).0, (same r).1)
        (ap (λ l. (r.event_id, r.body) ∷ l) (add_column-same false f rows same))

  add_columns-same : (t : Events Body) → events_of (add_columns t).rows ≡ events_of t.rows
  unfolding add_columns
  add_columns-same t =
      let a = add_column t.columns.backend (λ (r : Row Body). record r { backend = "" }) t.rows in
      let b =
        add_column t.columns.source (λ (r : Row Body). record r { source = source_codex }) a in
      let c = add_column t.columns.session_id (λ (r : Row Body). record r { session_id = "" }) b in
      add_column-same t.columns.pane_id _ c (λ r. (refl, refl))
      ∙ (add_column-same t.columns.session_id _ b (λ r. (refl, refl))
          ∙ (add_column-same t.columns.source _ a (λ r. (refl, refl))
              ∙ add_column-same t.columns.backend _ t.rows (λ r. (refl, refl))))

  -- Rows that are to be assigned stay so.
  add_column-unassigned :
      (there : Bool) (f : Row Body → Row Body) (rows : List (Row Body))
      → ((r : Row Body) → (f r).backend ≡ r.backend)
      → count (is_elsewhere "") rows ≡ 0
      → count (is_elsewhere "") (add_column there f rows) ≡ 0
  add_column-unassigned true f rows same h = h
  add_column-unassigned false f [] same h = refl
  add_column-unassigned false f (r ∷ rows) same h =
      ground (arith, add_column-unassigned false f rows same, same r)

  count-unassigned :
      (rows : List (Row Body))
      → count (is_elsewhere "") (map (λ (r : Row Body). record r { backend = "" }) rows) ≡ 0
  count-unassigned [] = refl
  count-unassigned (r ∷ rows) = ground (arith, count-unassigned rows)

  add_columns-unassigned :
      (t : Events Body)
      → t.columns.backend ≡ false
      → count (is_elsewhere "") (add_columns t).rows ≡ 0
  unfolding add_columns
  add_columns-unassigned t h =
      add_column-unassigned t.columns.pane_id _ _ (λ r. refl)
        (add_column-unassigned t.columns.session_id _ _ (λ r. refl)
          (add_column-unassigned t.columns.source _ _ (λ r. refl) (rw h (count-unassigned t.rows))))

  update-same :
      (p : Row Body → Bool) (f : Row Body → Row Body) (rows : List (Row Body))
      → ((r : Row Body) → ((f r).event_id ≡ r.event_id) × ((f r).body ≡ r.body))
      → events_of (update p f rows) ≡ events_of rows
  update-same p f [] same = refl
  update-same p f (r ∷ rows) same = elim (Bool-cases (p r)) [
    | inl e ↦
        rw (e, (same r).0, (same r).1)
          (ap (λ l. (r.event_id, r.body) ∷ l) (update-same p f rows same))
    | inr e ↦ rw e (ap (λ l. (r.event_id, r.body) ∷ l) (update-same p f rows same))
  ]

  count-all_assigned :
      (endpoint : String) (rows : List (Row Body))
      → count (is_elsewhere "") rows ≡ 0
      → count (is_elsewhere endpoint) (
          update (λ (r : Row Body). is_empty r.backend) (λ r. record r { backend = endpoint }) rows)
        ≡ 0
  count-all_assigned endpoint [] h = refl
  count-all_assigned endpoint (r ∷ rows) h =
      ground
        (arith, count-all_assigned endpoint rows, eq_iff r.backend "", eq_iff endpoint endpoint)

  -- A database of an agent that knew neither backends nor the Herdr switch, once opened and
  -- configured with an endpoint, has every event filed under that endpoint, the same events with
  -- the same bodies in the same order, and capture on exactly if a binding was enabled.
  pub open_queue-assigns :
      (t : Tables Body) (events : Events Body) (endpoint : String)
      → t.pending ≡ some events
      → events.columns.backend ≡ false
      → t.backend ≡ none
      → t.adapter ≡ none
      → FilesUnder endpoint (configure_backend (open_queue t) endpoint)
        × (events_of (configure_backend (open_queue t) endpoint).pending ≡ events_of events.rows)
        × ((configure_backend (open_queue t) endpoint).capture
            ≡ any (λ b. b.enabled) (created [] t.bindings))
  unfolding open_queue queue_on migrate_tables configure_backend
  open_queue-assigns t events endpoint h column backend adapter =
      let rows = (add_columns events).rows in
      (
        record {
          current = refl;
          none_elsewhere =
              rw (h, backend)
                (count-all_assigned endpoint rows (add_columns-unassigned events column));
        },
        rw (h, backend)
            (update-same _ (λ (r : Row Body). record r { backend = endpoint }) rows
                (λ r. (refl, refl))
              ∙ add_columns-same events),
        rw adapter refl,
      )
