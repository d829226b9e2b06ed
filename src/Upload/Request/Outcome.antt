-- ===== src/Upload/Request/Outcome.antt =====
-- How an upload ends, for uploadToBackend of notifications/internal/agent/daemon.go.
use nova_codex_bootstrap.Prelude.{
  ℕ, suc, ◌+◌, ◌≤◌, ◌≡◌, refl, String, Bool, true, false, ◌&&◌, ◌∷◌, length, arith, Option, none,
  some, ◌==◌, inl, inr, Bool-cases, Option-cases,
}
use nova_codex_bootstrap.Protocol.Event.{HostEvent}
use nova_codex_bootstrap.Config.Endpoint.{parse_notification_endpoint}
use nova_codex_bootstrap.Config.Settings.{Config}
use nova_codex_bootstrap.Queue.Rows.{Row}
use nova_codex_bootstrap.Upload.Request.{
  Request, Environment, Trace, decoded, has_metadata, accepted, without_metadata, upload_to_backend,
  build_request, answer,
}

module _ {Body : Type 0} where
  -- Requests that were added in front of a trace, all for one event.
  pub data Extends (id : String) (t : Trace Body) : ℕ → Trace Body → Type 0 where
    same : Extends id t 0 t
    more :
        {n : ℕ} {u : Trace Body} (r : Request Body)
        → r.event_id ≡ id
        → Extends id t n u
        → Extends id t (suc n) (record { sent = r ∷ u.sent; readings = u.readings + 1 })

  -- An upload that ended after at most `n` requests.
  abbrev pub Ends : ℕ → String → Trace Body → Option (Bool × Trace Body) → Type 0
  Ends n id t none = ⊥
  Ends n id t (some (accept, u)) = (k : ℕ) × (k ≤ n) × Extends id t k u

  Extends-after :
      {id : String} {t t' u : Trace Body} {k : ℕ}
      → Extends id t 1 t'
      → Extends id t' k u
      → Extends id t (suc k) u
  Extends-after one same = one
  Extends-after one (more r e x) = more r e (Extends-after one x)

  Ends-after :
      (n : ℕ) (id : String) (t t' : Trace Body) (o : Option (Bool × Trace Body))
      → Extends id t 1 t'
      → Ends n id t' o
      → Ends (suc n) id t o
  Ends-after n id t t' none one h = h
  Ends-after n id t t' (some (accept, u)) one (k, le, x) = (suc k, omega arith, Extends-after one x)

  answer-Ends :
      (n : ℕ) (id : String) (t t' : Trace Body) (response : Option ℕ) (event : HostEvent)
      (again : Option (Bool × Trace Body))
      → Extends id t 1 t'
      → (has_metadata event.herdr_metadata ≡ true → Ends (suc n) id t again)
      → Ends (suc n) id t (answer response event t' again)
  unfolding answer
  answer-Ends n id t t' none event again one h = (1, omega arith, one)
  answer-Ends n id t t' (some status) event again one h = elim (Bool-cases (accepted status)) [
    | inl e ↦ rw e (1, omega arith, one)
    | inr e ↦ elim (Bool-cases (status == 400 && has_metadata event.herdr_metadata)) [
      | inl second ↦ rw (e, second) (h (ground arith))
      | inr final ↦ rw (e, final) (1, omega arith, one)
    ]
  ]

module _ {Body : Type 0} (env : Environment Body) where
  upload-Ends :
      (n tries : ℕ) (row : Row Body) (config : Config) (t : Trace Body)
      → ((t' : Trace Body)
          → has_metadata (decoded env row.body).herdr_metadata ≡ true
          → Ends n row.event_id t'
              (upload_to_backend env tries (without_metadata env row) config t'))
      → Ends (suc n) row.event_id t (upload_to_backend env (suc tries) row config t)
  unfolding upload_to_backend
  upload-Ends n tries row config t second =
      elim (Option-cases (parse_notification_endpoint env.net config.endpoint)) [
        | inl e ↦ rw (e, upload_to_backend) (0, omega arith, same)
        | inr (url, e) ↦
            let request = build_request env row config url (env.clock t.readings) in
            let t' : Trace Body = record { sent = request ∷ t.sent; readings = t.readings + 1 } in
            let one : Extends row.event_id t 1 t' =
              more request (unfold build_request in refl) same in
            rw (e, upload_to_backend)
              (answer-Ends n row.event_id t t' (env.respond (length t.sent) request)
                (decoded env row.body)
                (upload_to_backend env tries (without_metadata env row) config t') one
                (λ m. Ends-after n row.event_id t t' _ one (second t' m)))
      ]

  module _
      (unmarshal-marshal : (e : HostEvent)
        → env.codec.unmarshal (env.codec.marshal e) ≡ some e) where
    stripped :
        (row : Row Body)
        → has_metadata (decoded env (without_metadata env row).body).herdr_metadata ≡ false
    stripped row = rw (unmarshal-marshal (record (decoded env row.body) { herdr_metadata = none }))

    -- An upload ends after at most two requests, all of them for the event's own id, provided that
    -- an encoded event decodes to itself.
    pub upload_to_backend-Ends :
        (row : Row Body) (config : Config) (t : Trace Body)
        → Ends 2 row.event_id t (upload_to_backend env 2 row config t)
    upload_to_backend-Ends row config t = upload-Ends 1 1 row config t (λ t' _.
        upload-Ends 0 0 (without_metadata env row) config t'
          (λ u m. absurd (ground (arith, stripped row))))
