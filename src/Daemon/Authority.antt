-- ===== src/Daemon/Authority.antt =====
-- What the daemon's uploads send (uploadDue and uploadToBackend of
-- notifications/internal/agent/daemon.go).
use Prim.Native.String.{◌++◌}
use nova_codex_bootstrap.Prelude.{
  false, ℕ, suc, zero, ◌+◌, ◌≡◌, ◌⊎◌, refl, String, Bool, true, ◌&&◌, List, [], ◌∷◌, length, Option,
  none, some, ◌==◌, inl, inr, Bool-cases, Option-cases,
}
use nova_codex_bootstrap.Protocol.Event.{HostEvent}
use nova_codex_bootstrap.Config.Endpoint.{Url, parse_notification_endpoint, trim_slashes}
use nova_codex_bootstrap.Config.Settings.{Config, registration_active}
use nova_codex_bootstrap.Sql.First.{In}
use nova_codex_bootstrap.Queue.Rows.{Row}
use nova_codex_bootstrap.Daemon.{State}
use nova_codex_bootstrap.Upload.Request.{
  Request, Environment, Trace, decoded, decodes_to_herdr, has_metadata, accepted, without_metadata,
  upload_to_backend, build_request, answer,
}

module _ {Body : Type 0} where
  -- One of the states has this configuration, and it is an active registration of the host.
  pub record IsRegistered (host : String) (past : List (State Body)) (config : Config)
      : Type 0 where
    pub looked : State Body
    pub passed : In looked past
    pub configured : looked.service.config ≡ config
    pub of_host : config.host_id ≡ host
    pub active : config.registration_state ≡ registration_active

  -- One of the states has this event in its queue, and the event goes to the backend of the
  -- configuration.
  pub record IsQueued (past : List (State Body)) (row : Row Body) (config : Config) : Type 0 where
    pub taken : State Body
    pub passed : In taken past
    pub queued : In row taken.service.queue.pending
    pub addressed :
        (trim_slashes config.endpoint ≡ "") ⊎ (row.backend ≡ trim_slashes config.endpoint)

  -- What the states allow to be sent.
  pub record Permits (host : String) (past : List (State Body)) (row : Row Body) (config : Config)
      : Type 0 where
    pub registered : IsRegistered host past config
    pub queued : IsQueued past row config

module _ {Body : Type 0} (up : Environment Body) where
  -- An event as it is sent: as it was queued, or after that without its metadata.
  pub data IsVersion (row : Row Body) : Row Body → Type 0 where
    whole : IsVersion row row
    bare : (r : Row Body) → IsVersion row r → IsVersion row (without_metadata up r)

module _ {Body : Type 0} (up : Environment Body) (host : String) (past : List (State Body)) where
  -- A request for an event that was in the queue of one of the states, under a configuration that one
  -- of them had and that is allowed to send it: under the event's id and the host's, with the clock's
  -- time and the signature of these and the body, and to the path for the event's source behind the
  -- path of the accepted endpoint.
  pub record IsAuthorized (r : Request Body) : Type 0 where
    pub row : Row Body
    pub config : Config
    pub url : Url
    pub reading : ℕ
    pub permits : Permits host past row config
    pub safe : parse_notification_endpoint up.net config.endpoint ≡ some url
    pub of_row : (version : Row Body) × IsVersion up row version × (r.body ≡ version.body)
    pub identified : r.event_id ≡ row.event_id
    pub of_host : r.host_id ≡ host
    pub timed : r.timestamp ≡ up.clock reading
    pub signed : r.signature ≡ up.sign r.timestamp r.event_id r.body
    pub located :
        ((decodes_to_herdr (up.codec.unmarshal r.body) ≡ true)
          × (r.url
              ≡ up.net.to_string
                  (record url { path = trim_slashes url.path ++ "/v2/host-events" })))
        ⊎ ((decodes_to_herdr (up.codec.unmarshal r.body) ≡ false)
            × (r.url
                ≡ up.net.to_string
                    (record url { path = trim_slashes url.path ++ "/v1/host-events" })))

  pub data AllAuthorized : List (Request Body) → Type 0 where
    nothing : AllAuthorized []
    another :
        (r : Request Body) (rs : List (Request Body))
        → IsAuthorized r
        → AllAuthorized rs
        → AllAuthorized (r ∷ rs)

  -- An upload that ends, with requests that are all authorized.
  abbrev pub Authorizes : Option (Bool × Trace Body) → Type 0
  Authorizes none = ◌≡◌ {A = Bool} true true
  Authorizes (some (accept, t)) = AllAuthorized t.sent

  answer-Authorizes :
      (response : Option ℕ) (event : HostEvent) (t : Trace Body)
      (again : Option (Bool × Trace Body))
      → AllAuthorized t.sent
      → Authorizes again
      → Authorizes (answer response event t again)
  unfolding answer
  answer-Authorizes none event t again h ha = h
  answer-Authorizes (some status) event t again h ha = elim (Bool-cases (accepted status)) [
    | inl e ↦ rw e h
    | inr e ↦ elim (Bool-cases (status == 400 && has_metadata event.herdr_metadata)) [
      | inl second ↦ rw (e, second) ha
      | inr final ↦ rw (e, final) h
    ]
  ]

  version-event_id :
      (row version : Row Body) → IsVersion up row version → version.event_id ≡ row.event_id
  version-event_id row version whole = refl
  version-event_id row version (bare r v) = version-event_id row r v

  built-IsAuthorized :
      (row version : Row Body) (config : Config) (url : Url) (reading : ℕ)
      → Permits host past row config
      → IsVersion up row version
      → parse_notification_endpoint up.net config.endpoint ≡ some url
      → IsAuthorized (build_request up version config url (up.clock reading))
  unfolding build_request
  built-IsAuthorized row version config url reading permits v safe = record {
    row = row;
    config = config;
    url = url;
    reading = reading;
    permits = permits;
    safe = safe;
    of_row = (version, v, refl);
    identified = version-event_id row version v;
    of_host = permits.registered.of_host;
    timed = refl;
    signed = refl;
    located = elim (Bool-cases (decodes_to_herdr (up.codec.unmarshal version.body))) [
      | inl e ↦ inl (e, rw e refl)
      | inr e ↦ inr (e, rw e refl)
    ];
  }

  pub upload_to_backend-Authorizes :
      (tries : ℕ) (row version : Row Body) (config : Config) (t : Trace Body)
      → Permits host past row config
      → IsVersion up row version
      → AllAuthorized t.sent
      → Authorizes (upload_to_backend up tries version config t)
  unfolding upload_to_backend
  upload_to_backend-Authorizes zero row version config t permits v h = refl
  upload_to_backend-Authorizes (suc tries) row version config t permits v h =
      elim (Option-cases (parse_notification_endpoint up.net config.endpoint)) [
        | inl e ↦ rw (e, upload_to_backend) h
        | inr (url, e) ↦
            let request = build_request up version config url (up.clock t.readings) in
            let t' : Trace Body = record { sent = request ∷ t.sent; readings = t.readings + 1 } in
            let sent : AllAuthorized t'.sent =
              another request t.sent
                (built-IsAuthorized row version config url t.readings permits v e) h in
            rw (e, upload_to_backend)
              (answer-Authorizes (up.respond (length t.sent) request) (decoded up version.body) t'
                (upload_to_backend up tries (without_metadata up version) config t') sent
                (upload_to_backend-Authorizes tries row (without_metadata up version) config t'
                  permits (bare version v) sent))
      ]

-- What was allowed stays so, whatever states follow.
module _ {Body : Type 0} (up : Environment Body) (host : String) (past : List (State Body))
    (s : State Body) where
  pub IsRegistered-grows :
      (config : Config) → IsRegistered host past config → IsRegistered host (s ∷ past) config
  IsRegistered-grows config h = record {
    looked = h.looked;
    passed = inr h.passed;
    configured = h.configured;
    of_host = h.of_host;
    active = h.active;
  }

  pub Permits-grows :
      (row : Row Body) (config : Config)
      → Permits host past row config
      → Permits host (s ∷ past) row config
  Permits-grows row config h = record {
    registered = IsRegistered-grows config h.registered;
    queued = record {
      taken = h.queued.taken;
      passed = inr h.queued.passed;
      queued = h.queued.queued;
      addressed = h.queued.addressed;
    };
  }

  pub AllAuthorized-grows :
      (rs : List (Request Body))
      → AllAuthorized up host past rs
      → AllAuthorized up host (s ∷ past) rs
  AllAuthorized-grows [] nothing = nothing
  AllAuthorized-grows (q ∷ qs) (another r rs one h) =
      another r rs
        (record {
          row = one.row;
          config = one.config;
          url = one.url;
          reading = one.reading;
          permits = Permits-grows one.row one.config one.permits;
          safe = one.safe;
          of_row = one.of_row;
          identified = one.identified;
          of_host = one.of_host;
          timed = one.timed;
          signed = one.signed;
          located = one.located;
        })
        (AllAuthorized-grows rs h)
