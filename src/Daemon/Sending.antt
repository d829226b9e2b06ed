-- ===== src/Daemon/Sending.antt =====
-- What the uploader keeps (uploadLoop and uploadDue of notifications/internal/agent/daemon.go).
use mathlib.Core.Path.{subst}
use nova_codex_bootstrap.Prelude.{
  ◌≡◌, refl, String, Bool, true, false, List, Option, none, some, arith, str_eq, eq_iff,
  if◌then◌else◌,
}
use nova_codex_bootstrap.Protocol.Event.{Time}
use nova_codex_bootstrap.Config.Endpoint.{trim_slashes}
use nova_codex_bootstrap.Config.Settings.{Config, registration_active}
use nova_codex_bootstrap.Sql.First.{In}
use nova_codex_bootstrap.Queue.Rows.{Row, next}
use nova_codex_bootstrap.Queue.Delivery.{next-IsChosen}
use nova_codex_bootstrap.Ingress.Connection.{Messages}
use nova_codex_bootstrap.Upload.Request.{Environment, Trace, upload_to_backend}
use nova_codex_bootstrap.Herdr.Socket.{FileLib}
use nova_codex_bootstrap.Herdr.Reconcile.{Setting}
use nova_codex_bootstrap.Daemon.{
  Uploader, resting, chosen, State, Uploads, look, found_by, woken, looks, takes, sends, settles,
}
use nova_codex_bootstrap.Daemon.Authority.{
  IsRegistered, AllAuthorized, Authorizes, whole, upload_to_backend-Authorizes,
}
use nova_codex_bootstrap.Daemon.Parts.{
  Holds, IsRunning, next-IsConsistent, settle-IsConsistent, serves,
}

module _ {Body : Type 0} (host : String) (past : List (State Body)) where
  picked-Holds :
      (b : Bool) (c : Config) (u : Uploader Body)
      → (if b then chosen c else resting) ≡ u
      → (b ≡ true → IsRegistered host past c)
      → Holds host past u
  picked-Holds true c u made h = subst (Holds host past) made (h refl)
  picked-Holds false c u made h = subst (Holds host past) made refl

  -- A state that is one of them, and looks for an event under its configuration.
  look-Holds :
      (s : State Body)
      → In s past
      → s.service.config.host_id ≡ host
      → Holds host past (look s.service.config)
  unfolding look
  look-Holds s member h =
      let state = s.service.config.registration_state in
      picked-Holds (str_eq state registration_active) s.service.config _ refl (λ active. record {
        looked = s;
        passed = member;
        configured = refl;
        of_host = h;
        active = (eq_iff state registration_active).0 active;
      })

  -- One that takes an event.
  found_by-Holds :
      (s : State Body) (config : Config) (now : Time) (o : Option (Row Body))
      → In s past
      → (next s.service.queue now (trim_slashes config.endpoint)).0 ≡ o
      → IsRegistered host past config
      → Holds host past (found_by config o)
  found_by-Holds s config now none member e h = refl
  found_by-Holds s config now (some row) member e h =
      let fact = (next-IsChosen s.service.queue now (trim_slashes config.endpoint) row e).0 in
      record {
        registered = h;
        queued = record {
          taken = s;
          passed = member;
          queued = fact.queued;
          addressed = fact.addressed;
        };
      }

module _ {Raw Body : Type 0} (setting : Setting Body) (files : FileLib) (up : Environment Body)
    (messages : Messages Raw) (host : String) (past : List (State Body)) where
  abbrev Runs : State Body → Type 0
  Runs s = IsRunning setting files up messages host past s

  sent-Authorized :
      (o : Option (Bool × Trace Body)) (accept : Bool) (t : Trace Body)
      → o ≡ some (accept, t)
      → Authorizes up host past o
      → AllAuthorized up host past t.sent
  sent-Authorized none accept t e h = absurd (ground arith)
  sent-Authorized (some (a, u)) accept t e h =
      let same : u.sent ≡ t.sent = ground arith in subst (AllAuthorized up host past) same h

  pub Uploads-Runs :
      (s t : State Body) → In s past → Uploads setting files up messages s t → Runs s → Runs t
  Uploads-Runs s t member (woken r w) h =
      serves setting files up messages host past s _
        (record {
          queue = h.serving.queue;
          signals = h.serving.signals;
          of_host = h.serving.of_host;
        })
        h
  Uploads-Runs s t member (looks r) h = record {
    serving = h.serving;
    watching = h.watching;
    holds = look-Holds host past s member h.serving.of_host;
    sent = h.sent;
  }
  Uploads-Runs s t member (takes config u) h =
      let now = up.clock s.trace.readings in
      let backend = trim_slashes config.endpoint in
      record {
        serving = record {
          queue =
              next-IsConsistent setting files up messages host s.service.queue now backend
                h.serving.queue;
          signals = h.serving.signals;
          of_host = h.serving.of_host;
        };
        watching = h.watching;
        holds =
            found_by-Holds host past s config now (next s.service.queue now backend).0 member refl
              (subst (Holds host past) u h.holds);
        sent = h.sent;
      }
  Uploads-Runs s t member (sends row config accept trace u e) h = record {
    serving = h.serving;
    watching = h.watching;
    holds = refl;
    sent = sent-Authorized (upload_to_backend up 2 row config s.trace) accept trace e (
        upload_to_backend-Authorizes up host past 2 row row config s.trace
          (subst (Holds host past) u h.holds) whole h.sent);
  }
  Uploads-Runs s t member (settles row accept u) h = record {
    serving = record {
      queue =
          settle-IsConsistent setting files up messages host s.service.queue row accept
            (up.clock s.trace.readings) h.serving.queue;
      signals = h.serving.signals;
      of_host = h.serving.of_host;
    };
    watching = h.watching;
    holds = refl;
    sent = h.sent;
  }
