-- ===== src/Upload/Loop/Progress.antt =====
-- The upload loop ends, and when Codex events leave the queue (uploadDue and uploadToBackend of
-- notifications/internal/agent/daemon.go).
use nova_codex_bootstrap.Prelude.{
  ℕ, zero, suc, ◌+◌, ◌≤◌, ◌<◌, ◌≡◌, ◌≢◌, ◌⊎◌, ◌↔◌, some-inj, refl, sym, ◌∙◌, String, Bool, true,
  false, List, Option, none, some, not, leb, length, select, count, arith, str_eq, eq_iff, inl, inr,
  Bool-cases, Option-cases, length-select, count-le-length, [], ◌∷◌,
}
use nova_codex_bootstrap.Sql.First.{In, In-count}
use nova_codex_bootstrap.Protocol.Event.{
  Time, HostEvent, event_source, source_codex, source_herdr, test_notification,
}
use nova_codex_bootstrap.Config.Endpoint.{Url, parse_notification_endpoint, trim_slashes}
use nova_codex_bootstrap.Config.Settings.{Config, registration_active}
use nova_codex_bootstrap.Queue.Rows.{Row, Queue, has_id, next, complete}
use nova_codex_bootstrap.Queue.Delivery.{next-IsChosen, next-none}
use nova_codex_bootstrap.Queue.Eviction.{herdr_ne_codex}
use nova_codex_bootstrap.Upload.Request.{
  Environment, Trace, decoded, has_metadata, accepted, is_settled, answer, build_request,
  upload_to_backend,
}
use nova_codex_bootstrap.Upload.Request.Outcome.{Ends, upload_to_backend-Ends}
use nova_codex_bootstrap.Upload.Loop.{World, Ended, stuck, settle, round, upload_due}

module _ {Body : Type 0} where
  count-complement :
      (p : Row Body → Bool) (rows : List (Row Body))
      → count (λ r. not (p r)) rows + count p rows ≡ length rows
  count-complement p [] = refl
  count-complement p (r ∷ rows) = ground (arith, count-complement p rows)

  -- Completing a queued event makes the queue shorter.
  complete-lt :
      (q : Queue Body) (r : Row Body)
      → In r q.pending
      → length (complete q r.event_id).pending < length q.pending
  unfolding complete
  complete-lt q r m = omega (
    arith,
    length-select (λ (s : Row Body). not (has_id r.event_id s)) q.pending,
    count-complement (has_id r.event_id) q.pending,
    In-count (has_id r.event_id) r q.pending m ((eq_iff r.event_id r.event_id).1 refl),
  )

  next-le :
      (q : Queue Body) (now : Time) (backend : String)
      → length (next q now backend).1.pending ≤ length q.pending
  next-le q now backend =
      let live = λ (s : Row Body). not (leb s.expires_at now) in
      let shorter : length (select live q.pending) ≤ length q.pending =
        omega (arith, length-select live q.pending, count-le-length live q.pending) in
      elim (Option-cases (next q now backend).0) [
        | inl e ↦ rw ((next-none q now backend e).1) shorter
        | inr (r, e) ↦ rw ((next-IsChosen q now backend r e).1) shorter
      ]

  next-In :
      (q : Queue Body) (now : Time) (backend : String) (r : Row Body)
      → (next q now backend).0 ≡ some r
      → In r (next q now backend).1.pending
  next-In q now backend r e = let v = next-IsChosen q now backend r e in rw (v.1) v.0.kept

module _ {Body : Type 0} (env : Environment Body)
    (unmarshal-marshal : (e : HostEvent) → env.codec.unmarshal (env.codec.marshal e) ≡ some e) where
  settle-Ends :
      (row : Row Body) (q : Queue Body) (o : Option (Bool × Trace Body))
      (continue : World Body → Ended × World Body) (w : World Body) (t : Trace Body)
      → Ends 2 row.event_id t o
      → ((v : World Body) → length v.queue.pending < length q.pending → (continue v).0 ≢ stuck)
      → In row q.pending
      → (settle env row q o continue w).0 ≢ stuck
  unfolding settle
  settle-Ends row q none continue w t e h m = absurd e
  settle-Ends row q (some (true, u)) continue w t e h m = h _ (complete-lt q row m)
  settle-Ends row q (some (false, u)) continue w t e h m = λ s. cc

  round_ends :
      (config : Config) (found : Option (Row Body) × Queue Body) (t : Trace Body)
      (continue : World Body → Ended × World Body)
      → ((v : World Body)
          → length v.queue.pending < length found.1.pending
          → (continue v).0 ≢ stuck)
      → ((r : Row Body) → found.0 ≡ some r → In r found.1.pending)
      → (round env config found t continue).0 ≢ stuck
  unfolding round
  round_ends config (none, q) t continue h m = λ s. cc
  round_ends config (some row, q) t continue h m =
      settle-Ends row q (upload_to_backend env 2 row config t) continue _ t
        (upload_to_backend-Ends env unmarshal-marshal row config t) h (m row refl)

  module _ (is_cancelled : ℕ → Bool) (snapshot : ℕ → Config) where
    -- The upload loop ends by itself: more rounds than there are queued events are never used up,
    -- whatever the server answers, provided that an encoded event decodes to itself.
    pub upload_due_ends :
        (rounds made : ℕ) (w : World Body)
        → length w.queue.pending < rounds
        → (upload_due env is_cancelled snapshot rounds made w).0 ≢ stuck
    unfolding upload_due
    upload_due_ends zero made w h = absurd (omega arith)
    upload_due_ends (suc rounds) made w h = elim (Bool-cases (is_cancelled made)) [
      | inl e ↦ rw e (λ s. cc)
      | inr e ↦ elim (Bool-cases (str_eq (snapshot made).registration_state registration_active)) [
        | inr n ↦ rw (e, n) (λ s. cc)
        | inl a ↦
            let now = env.clock w.trace.readings in
            let backend = trim_slashes (snapshot made).endpoint in
            rw (e, a)
              (round_ends (snapshot made) (next w.queue now backend) _ _
                (λ v lt.
                  upload_due_ends rounds (suc made) v (omega (arith, next-le w.queue now backend)))
                (next-In w.queue now backend))
      ]
    ]

-- Whether an answer alone makes the event leave the queue.
abbrev pub is_success : Option ℕ → Bool
is_success none = false
is_success (some status) = accepted status

module _ {Body : Type 0} where
  answer_codex :
      (response : Option ℕ) (event : HostEvent) (t : Trace Body)
      (again : Option (Bool × Trace Body))
      → event_source event ≡ source_codex
      → has_metadata event.herdr_metadata ≡ false
      → event.event_type ≢ test_notification
      → answer response event t again ≡ some (is_success response, t)
  unfolding answer is_settled
  answer_codex none event t again codex bare regular = refl
  answer_codex (some status) event t again codex bare regular =
      let unsettled = settled_codex event status codex regular in ground (arith, bare, unsettled)
    where
      not_equal : (a b : String) → (a ≡ b → ⊥) → str_eq a b ≡ false
      not_equal a b ne = elim (Bool-cases (str_eq a b)) [
        | inl e ↦ absurd (ne ((eq_iff a b).0 e))
        | inr e ↦ e
      ]

      settled_codex :
          (e : HostEvent) (s : ℕ)
          → event_source e ≡ source_codex
          → e.event_type ≢ test_notification
          → is_settled e s ≡ false
      settled_codex e s c r = ground (
        arith,
        not_equal (event_source e) source_herdr (λ h. herdr_ne_codex (sym h ∙ c)),
        not_equal e.event_type test_notification r,
      )

-- A response that counts: one of the 2xx statuses, or 409 for an event that the backend has already.
abbrev pub IsTaken : Option ℕ → Type 0
IsTaken response =
    (status : ℕ) × (response ≡ some status) × (((200 ≤ status) × (status < 300)) ⊎ (status ≡ 409))

success-IsTaken : (response : Option ℕ) → (is_success response ≡ true) ↔ IsTaken response
success-IsTaken none = (λ h. absurd (ground arith), λ h. absurd (ground (arith, h.1)))
success-IsTaken (some s) = (to, from)
  where
    to : is_success (some s) ≡ true → IsTaken (some s)
    to h = (s, refl, ground arith)

    from : IsTaken (some s) → is_success (some s) ≡ true
    from h = let same : s ≡ h.0 = some-inj h.1 in ground (arith, h.2)

module _ {Body : Type 0} (env : Environment Body) where
  -- A Codex event without presentation metadata that is no test, sent to an accepted endpoint,
  -- makes one request, and the upload counts as accepted exactly if the server answers it with a
  -- status from 200 to 299 or with 409.
  pub upload_codex :
      (tries : ℕ) (row : Row Body) (config : Config) (t : Trace Body) (url : Url)
      → event_source (decoded env row.body) ≡ source_codex
      → has_metadata (decoded env row.body).herdr_metadata ≡ false
      → (decoded env row.body).event_type ≢ test_notification
      → parse_notification_endpoint env.net config.endpoint ≡ some url
      → let request = build_request env row config url (env.clock t.readings) in
        (accept : Bool) × (upload_to_backend env (suc tries) row config t
          ≡ some (accept, record { sent = request ∷ t.sent; readings = t.readings + 1 }))
        × ((accept ≡ true) ↔ IsTaken (env.respond (length t.sent) request))
  unfolding upload_to_backend
  upload_codex tries row config t url codex bare regular e = (
    _,
    rw (e, upload_to_backend) (answer_codex _ (decoded env row.body) _ _ codex bare regular),
    success-IsTaken _,
  )
