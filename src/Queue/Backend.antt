-- ===== src/Queue/Backend.antt =====
-- Which backend a queued event belongs to, for ConfigureBackend in
-- notifications/internal/agent/queue.go.
use mathlib.Core.Path.{subst}
use nova_codex_bootstrap.Prelude.{
  ◌≡◌, ◌≢◌, ◌⊎◌, ◌∙◌, inl, inr, Bool-cases, none, refl, sym, ap, String, Bool, List, [], ◌∷◌, map,
  count, arith, Option, some, if◌then◌else◌, is_empty, eq_iff,
}
use nova_codex_bootstrap.Sql.{update}
use nova_codex_bootstrap.Queue.Rows.{Row, Queue, backend_or, configure_backend}

abbrev pub last_of : String → List String → String
last_of endpoint [] = endpoint
last_of endpoint (later ∷ endpoints) = last_of later endpoints

home-or :
    (old : Option String) (first home : String)
    → (old ≡ some home) ⊎ ((old ≡ none) × (home ≡ first))
    → backend_or old first ≡ home
home-or old first home (inl e) = rw e refl
home-or old first home (inr e) = rw (e.0, e.1) refl

module _ {Body : Type 0} where
  abbrev pub unassigned : Row Body → Bool
  unassigned r = is_empty r.backend

  -- The row as it is after the endpoint was configured.
  abbrev pub assigned : Option String → String → Row Body → Row Body
  assigned old endpoint r = record r {
    backend = if is_empty r.backend then backend_or old endpoint else r.backend;
  }

  update-assigned :
      (old : Option String) (endpoint : String) (rows : List (Row Body))
      → update unassigned (λ r. record r { backend = backend_or old endpoint }) rows
        ≡ map (assigned old endpoint) rows
  update-assigned old endpoint [] = refl
  update-assigned old endpoint (r ∷ rows) = ground (arith, update-assigned old endpoint rows)

  count-assigned :
      (old : Option String) (endpoint : String) (rows : List (Row Body))
      → backend_or old endpoint ≢ ""
      → count unassigned (map (assigned old endpoint) rows) ≡ 0
  count-assigned old endpoint [] h = refl
  count-assigned old endpoint (r ∷ rows) h = ground (
    arith,
    count-assigned old endpoint rows h,
    eq_iff (backend_or old endpoint) "",
    eq_iff r.backend "",
  )

  stable :
      (f : Row Body → Row Body) (rows : List (Row Body))
      → count unassigned rows ≡ 0
      → update unassigned f rows ≡ rows
  stable f [] h = refl
  stable f (r ∷ rows) h = ground (arith, stable f rows)

  -- No event is left without a backend.
  pub configure_backend-unassigned :
      (q : Queue Body) (endpoint : String)
      → backend_or q.endpoint endpoint ≢ ""
      → count unassigned (configure_backend q endpoint).pending ≡ 0
  unfolding configure_backend
  configure_backend-unassigned q endpoint h =
      rw (update-assigned q.endpoint endpoint q.pending)
        (count-assigned q.endpoint endpoint q.pending h)

  -- One endpoint after another.
  abbrev pub configure_all : Queue Body → List String → Queue Body
  configure_all q [] = q
  configure_all q (endpoint ∷ endpoints) = configure_all (configure_backend q endpoint) endpoints

  -- The rows with `home` for each backend that was missing, and no other change.
  pub data Refiled (home : String) : List (Row Body) → List (Row Body) → Type 0 where
    done : Refiled home [] []
    keeps :
        (r : Row Body) (rows moved : List (Row Body))
        → r.backend ≢ ""
        → Refiled home rows moved
        → Refiled home (r ∷ rows) (r ∷ moved)
    gives :
        (r : Row Body) (rows moved : List (Row Body))
        → r.backend ≡ ""
        → Refiled home rows moved
        → Refiled home (r ∷ rows) (record r { backend = home } ∷ moved)

  map-Refiled :
      (old : Option String) (endpoint : String) (rows : List (Row Body))
      → Refiled (backend_or old endpoint) rows (map (assigned old endpoint) rows)
  map-Refiled old endpoint [] = done
  map-Refiled old endpoint (r ∷ rows) = elim (Bool-cases (is_empty r.backend)) [
    | inl e ↦ rw e (gives r rows _ ((eq_iff r.backend "").0 e) (map-Refiled old endpoint rows))
    | inr e ↦ rw e (
        keeps r rows _ (λ same. ground (arith, (eq_iff r.backend "").1 same, e))
          (map-Refiled old endpoint rows))
  ]

  -- With no event that lacks a backend, only the current endpoint changes.
  configure_all-stable :
      (q : Queue Body) (first : String) (later : List String)
      → count unassigned q.pending ≡ 0
      → configure_all (configure_backend q first) later
        ≡ record q { endpoint = some (last_of first later) }
  unfolding configure_backend
  configure_all-stable q first [] z =
      rw (stable (λ r. record r { backend = backend_or q.endpoint first }) q.pending z) refl
  configure_all-stable q first (e ∷ es) z =
      rw (stable (λ r. record r { backend = backend_or q.endpoint first }) q.pending z)
        (configure_all-stable (record q { endpoint = some first }) e es z)

  configure_all-assigned :
      (q : Queue Body) (first : String) (later : List String)
      → backend_or q.endpoint first ≢ ""
      → configure_all (configure_backend q first) later ≡ record q {
        pending = map (assigned q.endpoint first) q.pending;
        endpoint = some (last_of first later);
      }
  unfolding configure_backend
  configure_all-assigned q first [] h = rw (update-assigned q.endpoint first q.pending) refl
  configure_all-assigned q first (e ∷ es) h = rw (update-assigned q.endpoint first q.pending) (
      configure_all-stable
        (record q { pending = map (assigned q.endpoint first) q.pending; endpoint = some first }) e
        es (count-assigned q.endpoint first q.pending h))

  -- However many endpoints are configured one after another, no event that has a backend moves,
  -- each event that has none gets the endpoint configured before them, or the first of them if
  -- there was none, the last of them becomes current, and nothing else of the queue changes, if
  -- the endpoint that the events get is not empty.
  pub configure_backend-assigns :
      (q : Queue Body) (first home : String) (later : List String)
      → (q.endpoint ≡ some home) ⊎ ((q.endpoint ≡ none) × (home ≡ first))
      → home ≢ ""
      → (rows : List (Row Body)) × Refiled home q.pending rows
        × (configure_all q (first ∷ later)
            ≡ record q { pending = rows; endpoint = some (last_of first later) })
  configure_backend-assigns q first home later old h =
      let same = home-or q.endpoint first home old in
      (
        map (assigned q.endpoint first) q.pending,
        subst (λ b. Refiled b q.pending (map (assigned q.endpoint first) q.pending)) same
            (map-Refiled q.endpoint first q.pending),
        configure_all-assigned q first later (λ e. h (sym same ∙ e)),
      )

  -- Once every event has a backend, switching to another endpoint and back changes nothing.
  pub switch_and_back :
      (q : Queue Body) (first second : String)
      → q.endpoint ≡ some first
      → count unassigned q.pending ≡ 0
      → configure_backend (configure_backend q second) first ≡ q
  unfolding configure_backend
  switch_and_back q first second h z =
      rw
        (
          stable (λ r. record r { backend = backend_or q.endpoint second }) q.pending z,
          stable (λ r. record r { backend = second }) q.pending z,
        )
        (ap (λ e. let r : Queue Body = record q { endpoint = e } in r) (sym h))
