-- ===== src/Queue/Stranded.antt =====
-- Events that are filed under the endpoint's URL and looked for under its text: ConfigureBackend and
-- NextForBackend of notifications/internal/agent/queue.go.
use mathlib.Core.Path.{subst}
use nova_codex_bootstrap.Prelude.{
  ◌≤◌, ◌≡◌, ◌≢◌, ◌⊎◌, refl, String, Bool, true, false, not, List, [], ◌∷◌, any, select, count,
  count-append, count-select-le, arith, Option, none, some, some-inj, leb, str_eq, is_empty, eq_iff,
  inl, inr, Option-cases,
}
use nova_codex_bootstrap.Sql.{delete, update, delete_beyond}
use nova_codex_bootstrap.Sql.Order.{count-delete_beyond_le}
use nova_codex_bootstrap.Sql.First.{In, In-count}
use nova_codex_bootstrap.Protocol.Metadata.{Encoding}
use nova_codex_bootstrap.Protocol.Event.{Time, HostEvent}
use nova_codex_bootstrap.Config.Endpoint.{NetLib, Url, parse_notification_endpoint, trim_slashes}
use nova_codex_bootstrap.Queue.Rows.{
  Row, Queue, is_herdr, in_session, has_id, newest_first, codex_first, new_row, insert_or_ignore,
  enforce_limits, enqueue, next, complete, retry, configure_backend, set_herdr_capture_enabled,
  clear_notification_capture,
}
use nova_codex_bootstrap.Enrollment.Machine.{configure}
use nova_codex_bootstrap.Queue.Identity.{row_id}
use nova_codex_bootstrap.Queue.Delivery.{next-IsChosen, next-none}
use nova_codex_bootstrap.Queue.Invariant.{
  Call, enqueues, takes, completes, retries, configures, captures, clears, step, run,
}

module _ {Body : Type 0} where
  -- A row of another backend.
  abbrev pub is_elsewhere : String → Row Body → Bool
  is_elsewhere backend r = not (str_eq r.backend backend)

  -- A call that configures another endpoint.
  abbrev pub configures_other : String → Call Body → Bool
  configures_other backend (enqueues id body now) = false
  configures_other backend (takes now of) = false
  configures_other backend (completes id) = false
  configures_other backend (retries id attempts at) = false
  configures_other backend (configures endpoint) = not (str_eq endpoint backend)
  configures_other backend (captures enabled) = false
  configures_other backend clears = false

  -- A queue that files events under the backend, and holds no others.
  pub record FilesUnder (backend : String) (q : Queue Body) : Type 0 where
    pub current : q.endpoint ≡ some backend
    pub none_elsewhere : count (is_elsewhere backend) q.pending ≡ 0

  count-enforce_limits_le :
      (c : Row Body → Bool) (session : String) (now : Time) (rows : List (Row Body))
      → count c (enforce_limits session now rows) ≤ count c rows
  unfolding enforce_limits
  count-enforce_limits_le c session now rows =
      let live = delete (λ (r : Row Body). leb r.expires_at now) rows in
      let a = delete_beyond row_id (in_session session) newest_first 50 live in
      let b = delete_beyond row_id is_herdr newest_first 200 a in
      omega (
        arith,
        count-select-le c (λ (r : Row Body). not (leb r.expires_at now)) rows,
        count-delete_beyond_le row_id c (in_session session) newest_first 50 live,
        count-delete_beyond_le row_id c is_herdr newest_first 200 a,
        count-delete_beyond_le row_id c (λ _. true) codex_first 500 b,
      )

  count-insert :
      (c : Row Body → Bool) (r : Row Body) (rows : List (Row Body))
      → c r ≡ false
      → count c (insert_or_ignore r rows) ≡ count c rows
  count-insert c r rows h = ground (arith, count-append c rows (r ∷ []))

  count-update_elsewhere :
      (backend : String) (p : Row Body → Bool) (f : Row Body → Row Body) (rows : List (Row Body))
      → ((r : Row Body) → is_elsewhere backend (f r) ≡ true → is_elsewhere backend r ≡ true)
      → count (is_elsewhere backend) rows ≡ 0
      → count (is_elsewhere backend) (update p f rows) ≡ 0
  count-update_elsewhere backend p f [] same h = refl
  count-update_elsewhere backend p f (r ∷ rows) same h =
      ground (arith, count-update_elsewhere backend p f rows same, same r)

  next-FilesUnder :
      (backend : String) (q : Queue Body) (now : Time) (asked : String)
      → FilesUnder backend q
      → FilesUnder backend (next q now asked).1
  next-FilesUnder backend q now asked h =
      let live = λ (s : Row Body). not (leb s.expires_at now) in
      let fewer = count-select-le (is_elsewhere backend) live q.pending in
      let zero : count (is_elsewhere backend) (select live q.pending) ≡ 0 =
        omega (arith, fewer, h.none_elsewhere) in
      elim (Option-cases (next q now asked).0) [
        | inl e ↦
            rw ((next-none q now asked e).1) (record { current = h.current; none_elsewhere = zero })
        | inr (r, e) ↦
            rw ((next-IsChosen q now asked r e).1)
              (record { current = h.current; none_elsewhere = zero })
      ]

  configured-FilesUnder :
      (backend : String) (q start : Queue Body)
      → q.pending ≡ []
      → configure_backend q backend ≡ start
      → FilesUnder backend start
  unfolding configure_backend
  configured-FilesUnder backend q start empty made =
      subst (FilesUnder backend) made (record { current = refl; none_elsewhere = rw empty refl })

  -- A row of the queue that is addressed as was asked.
  elsewhere :
      (backend asked : String) (r : Row Body) (rows : List (Row Body))
      → In r rows
      → count (is_elsewhere backend) rows ≡ 0
      → asked ≢ ""
      → asked ≢ backend
      → (asked ≡ "") ⊎ (r.backend ≡ asked)
      → ⊥
  elsewhere backend asked r rows m none_there some_text other (inl e) = some_text e
  elsewhere backend asked r rows m none_there some_text other (inr e) = omega (
    arith,
    none_there,
    In-count (is_elsewhere backend) r rows m (ground (arith, eq_iff r.backend backend, other)),
  )

module _ (go : Encoding) {Body : Type 0} (unmarshal : Body → Option HostEvent) where
  enqueue-FilesUnder :
      (backend : String) (q : Queue Body) (id : String) (body : Body) (now : Time)
      → FilesUnder backend q
      → FilesUnder backend (enqueue go unmarshal q id body now)
  unfolding enqueue new_row
  enqueue-FilesUnder backend q id body now h =
      let r = new_row go unmarshal q id body now in
      let here : is_elsewhere backend r ≡ false =
        rw h.current (ground (arith, eq_iff backend backend)) in
      record {
        current = h.current;
        none_elsewhere = omega (
          arith,
          count-enforce_limits_le (is_elsewhere backend) r.session_id now
              (insert_or_ignore r q.pending),
          count-insert (is_elsewhere backend) r q.pending here,
          h.none_elsewhere,
        );
      }

  step-FilesUnder :
      (backend : String) (q : Queue Body) (c : Call Body)
      → configures_other backend c ≡ false
      → FilesUnder backend q
      → FilesUnder backend (step go unmarshal q c)
  unfolding step complete retry configure_backend set_herdr_capture_enabled
      clear_notification_capture
  step-FilesUnder backend q (enqueues id body now) same h =
      enqueue-FilesUnder backend q id body now h
  step-FilesUnder backend q (takes now asked) same h = next-FilesUnder backend q now asked h
  step-FilesUnder backend q (completes id) same h = record {
    current = h.current;
    none_elsewhere = omega (
      arith,
      count-select-le (is_elsewhere backend) (λ (r : Row Body). not (has_id id r)) q.pending,
      h.none_elsewhere,
    );
  }
  step-FilesUnder backend q (retries id attempts at) same h = record {
    current = h.current;
    none_elsewhere =
        count-update_elsewhere backend (has_id id) _ q.pending (λ r t. t) h.none_elsewhere;
  }
  step-FilesUnder backend q (configures endpoint) same h = record {
    current = ground (arith, eq_iff endpoint backend);
    none_elsewhere =
        count-update_elsewhere backend (λ r. is_empty r.backend) _ q.pending
          (λ r t. ground (arith, h.current, eq_iff backend backend)) h.none_elsewhere;
  }
  step-FilesUnder backend q (captures true) same h = record {
    current = h.current;
    none_elsewhere = h.none_elsewhere;
  }
  step-FilesUnder backend q (captures false) same h = record {
    current = h.current;
    none_elsewhere = omega (
      arith,
      count-select-le (is_elsewhere backend) (λ (r : Row Body). not (is_herdr r)) q.pending,
      h.none_elsewhere,
    );
  }
  step-FilesUnder backend q clears same h = record { current = h.current; none_elsewhere = refl }

  run-FilesUnder :
      (backend : String) (q : Queue Body) (cs : List (Call Body))
      → any (configures_other backend) cs ≡ false
      → FilesUnder backend q
      → FilesUnder backend (run go unmarshal q cs)
  unfolding run
  run-FilesUnder backend q [] same h = h
  run-FilesUnder backend q (c ∷ cs) same h =
      run-FilesUnder backend (step go unmarshal q c) cs (ground arith)
        (step-FilesUnder backend q c (ground arith) h)

  -- An accepted endpoint whose text is not what its URL is printed as, slashes at the end apart,
  -- gets no event: after it is configured on a queue with no events, whatever calls follow that
  -- configure no other endpoint, no event is found for its text, which is not empty but for
  -- slashes.
  pub next-stranded :
      (net : NetLib) (endpoint : String) (url : Url) (q start : Queue Body) (cs : List (Call Body))
      (now : Time)
      → parse_notification_endpoint net endpoint ≡ some url
      → trim_slashes endpoint ≢ ""
      → trim_slashes endpoint ≢ trim_slashes (net.to_string url)
      → q.pending ≡ []
      → configure net q (parse_notification_endpoint net endpoint) ≡ some start
      → any (configures_other (trim_slashes (net.to_string url))) cs ≡ false
      → (next (run go unmarshal start cs) now (trim_slashes endpoint)).0 ≡ none
  next-stranded net endpoint url q start cs now parsed some_text other empty made same =
      let backend = trim_slashes (net.to_string url) in
      let last = run go unmarshal start cs in
      let files =
        run-FilesUnder backend start cs same
          (configured-FilesUnder backend q start empty (some-inj (rw parsed at made))) in
      elim (Option-cases (next last now (trim_slashes endpoint)).0) [
        | inl e ↦ e
        | inr (r, e) ↦
            let found = (next-IsChosen last now (trim_slashes endpoint) r e).0 in
            absurd (
              elsewhere backend (trim_slashes endpoint) r last.pending found.queued
                files.none_elsewhere some_text other found.addressed)
      ]
