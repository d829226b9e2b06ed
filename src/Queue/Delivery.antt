-- ===== src/Queue/Delivery.antt =====
-- Which event `next` hands to the uploader (notifications/internal/agent/queue.go).
use nova_codex_bootstrap.Prelude.{
  ◌≤◌, ◌<◌, ◌≡◌, ◌≢◌, ◌⊎◌, refl, ◌∙◌, String, true, false, not, List, [], ◌∷◌, select, count, head?,
  arith, none, some, leb, eq_iff,
}
use nova_codex_bootstrap.Sql.{delete, order_by}
use nova_codex_bootstrap.Sql.First.{
  In, In-select, In-order_by, In-head, In-count, head-order_by, order_by-none,
}
use nova_codex_bootstrap.Protocol.Event.{Time}
use nova_codex_bootstrap.Queue.Rows.{Row, Queue, is_due, other_source_first, note_source, next}

module _ {Body : Type 0} where
  order_total :
      (last : String) (a b : Row Body)
      → other_source_first last a b ≡ false
      → other_source_first last b a ≡ true
  order_total last a b h = ground arith

  order_trans :
      (last : String) (a b c : Row Body)
      → other_source_first last a b ≡ true
      → other_source_first last b c ≡ true
      → other_source_first last a c ≡ true
  order_trans last a b c h k = ground arith

  -- The rows that `next` chooses from.
  abbrev pub candidates : Queue Body → Time → String → List (Row Body)
  candidates q now backend =
      select (is_due now backend) (delete (λ r. leb r.expires_at now) q.pending)

  -- What is known of the row that is handed out.
  pub record IsChosen (q : Queue Body) (now : Time) (backend : String) (r : Row Body) : Type 0 where
    pub queued : In r q.pending
    pub kept : In r (delete (λ s. leb s.expires_at now) q.pending)
    pub due : r.next_attempt_at ≤ now
    pub fresh : now < r.expires_at
    pub addressed : (backend ≡ "") ⊎ (r.backend ≡ backend)
    pub first :
        count (λ s. not (other_source_first q.last_source r s)) (candidates q now backend) ≡ 0

  due_parts :
      (now : Time) (backend : String) (r : Row Body)
      → is_due now backend r ≡ true
      → (r.next_attempt_at ≤ now) × (now < r.expires_at) × ((backend ≡ "") ⊎ (r.backend ≡ backend))
  due_parts now backend r h = ground (arith, eq_iff backend "", eq_iff r.backend backend)

  chosen :
      (q : Queue Body) (now : Time) (backend : String) (r : Row Body)
      → head? (order_by (other_source_first q.last_source) (candidates q now backend)) ≡ some r
      → IsChosen q now backend r
  chosen q now backend r h =
      let before = other_source_first q.last_source in
      let all = candidates q now backend in
      let live = delete (λ (s : Row Body). leb s.expires_at now) q.pending in
      let found =
        In-select (is_due now backend) r live
          (In-order_by before r all (In-head r (order_by before all) h)) in
      let parts = due_parts now backend r found.1 in
      record {
        queued = (In-select (λ (s : Row Body). not (leb s.expires_at now)) r q.pending found.0).0;
        kept = found.0;
        due = parts.0;
        fresh = parts.1;
        addressed = parts.2;
        first =
            head-order_by before (order_total q.last_source) (order_trans q.last_source) all r h;
      }

  due-live :
      (now : Time) (backend : String) (rows : List (Row Body))
      → count (is_due now backend) rows
        ≡ count
            (λ (_ : Row Body). true)
            (select (is_due now backend) (delete (λ s. leb s.expires_at now) rows))
  due-live now backend [] = refl
  due-live now backend (r ∷ rows) = ground (arith, due-live now backend rows)

  -- An event that `next` returns is queued, due, unexpired and addressed to the backend asked for;
  -- no candidate comes before it in the order of other source than the last one first, then oldest
  -- first; its source becomes the last one; and of the queue only expired events are gone.
  pub next-IsChosen :
      (q : Queue Body) (now : Time) (backend : String) (r : Row Body)
      → (next q now backend).0 ≡ some r
      → IsChosen q now backend r
        × ((next q now backend).1 ≡ record q {
          pending = delete (λ s. leb s.expires_at now) q.pending;
          last_source = r.source;
        })
  unfolding next
  next-IsChosen q now backend r h = (chosen q now backend r h, rw (h, note_source))

  -- With nothing to hand out `next` returns no row, no queued event is due for the backend, and of
  -- the queue only expired events are gone.
  pub next-none :
      (q : Queue Body) (now : Time) (backend : String)
      → (next q now backend).0 ≡ none
      → (count (is_due now backend) q.pending ≡ 0)
        × ((next q now backend).1
            ≡ record q { pending = delete (λ s. leb s.expires_at now) q.pending })
  unfolding next
  next-none q now backend h = (
    due-live now backend q.pending
        ∙ order_by-none (other_source_first q.last_source) (λ _. true) (candidates q now backend) h,
    rw (h, note_source),
  )

  -- While a candidate of another source than the last one is queued, `next` hands out an event of
  -- another source.
  pub next_alternates :
      (q : Queue Body) (now : Time) (backend : String) (r s : Row Body)
      → (next q now backend).0 ≡ some r
      → In s (candidates q now backend)
      → s.source ≢ q.last_source
      → r.source ≢ q.last_source
  next_alternates q now backend r s h m other same =
      let v = (next-IsChosen q now backend r h).0 in
      absurd (
        omega (
          arith,
          v.first,
          In-count (λ (t : Row Body). not (other_source_first q.last_source r t)) s
              (candidates q now backend) m
              (ground (arith, eq_iff r.source q.last_source, eq_iff s.source q.last_source)),
        ))
