-- ===== src/Daemon/Safety.antt =====
-- What holds of the daemon in every state that its parts, the commands and the backend can bring it
-- to (notifications/internal/agent/daemon.go, enrollment.go, herdr_state.go and queue.go).
use mathlib.Core.Path.{subst}
use nova_codex_bootstrap.Prelude.{
  ◌≡◌, refl, ap, String, Bool, false, List, [], ◌∷◌, inl, length, length-append, Option, none, some,
  some-inj, arith, is_empty,
}
use nova_codex_bootstrap.Config.Endpoint.{Url, parse_notification_endpoint, trim_slashes}
use nova_codex_bootstrap.Config.Settings.{Config}
use nova_codex_bootstrap.Sql.First.{In}
use nova_codex_bootstrap.Queue.Rows.{Queue}
use nova_codex_bootstrap.Ingress.Connection.{Messages}
use nova_codex_bootstrap.Ingress.Safety.{handle_connection-Answers}
use nova_codex_bootstrap.Upload.Request.{Environment}
use nova_codex_bootstrap.Enrollment.Machine.{configure}
use nova_codex_bootstrap.Herdr.Socket.{FileLib}
use nova_codex_bootstrap.Herdr.Reconcile.{Setting}
use nova_codex_bootstrap.Herdr.Histories.{IsConsistent}
use nova_codex_bootstrap.Herdr.Watch.{start_signal}
use nova_codex_bootstrap.Herdr.Watch.Transactions.{reconcile_dirty-Reachable, discover-Reachable}
use nova_codex_bootstrap.Herdr.Watch.Signals.{reconcile_dirty-SameSignals, discover-SameSignals}
use nova_codex_bootstrap.Daemon.{
  State, Watches, Step, watches, uploads, enrolls, Reachable, start, after, launch, launched,
  connects, baselines, receives, handles, discovers, transacts, store_queue,
}
use nova_codex_bootstrap.Daemon.Authority.{nothing}
use nova_codex_bootstrap.Daemon.Sending.{Uploads-Runs}
use nova_codex_bootstrap.Daemon.Enrolling.{Enrolls-Runs}
use nova_codex_bootstrap.Daemon.Parts.{
  IsRunning, IsRunning-grows, take_signal-le, consistent, configure-IsConsistent, reply-IsServing,
  loop-IsServing, serves,
}

module _ {Raw Body : Type 0} (setting : Setting Body) (files : FileLib) (up : Environment Body)
    (messages : Messages Raw) (host : String) (past : List (State Body)) where
  abbrev Runs : State Body → Type 0
  Runs s = IsRunning setting files up messages host past s

  -- A state with the queue changed.
  queued-Runs : (s : State Body) (q : Queue Body) → IsConsistent q → Runs s → Runs (store_queue s q)
  queued-Runs s q c h =
      serves setting files up messages host past s _
        (record { queue = c; signals = h.serving.signals; of_host = h.serving.of_host }) h

  Watches-Runs : (s t : State Body) → Watches setting files up messages s t → Runs s → Runs t
  Watches-Runs s t (baselines b v) h =
      let e = start_signal setting files b.binding_key in
      serves setting files up messages host past s _
        (loop-IsServing setting files up messages host s.service _
          (reconcile_dirty-Reachable setting files v e s.service)
          (reconcile_dirty-SameSignals setting files v e s.service) h.serving)
        h
  Watches-Runs s t (receives e rest d) h = record {
    serving = record {
      queue = h.serving.queue;
      signals = omega (arith, h.serving.signals, ap length d);
      of_host = h.serving.of_host;
    };
    watching = take_signal-le e s.watching h.watching;
    holds = h.holds;
    sent = h.sent;
  }
  Watches-Runs s t (handles before e others v w) h = record {
    serving =
        loop-IsServing setting files up messages host s.service _
          (reconcile_dirty-Reachable setting files v e s.service)
          (reconcile_dirty-SameSignals setting files v e s.service) h.serving;
    watching = omega (
      arith,
      h.watching,
      ap length w,
      length-append before (e ∷ others),
      length-append before others,
    );
    holds = h.holds;
    sent = h.sent;
  }
  Watches-Runs s t (discovers sockets) h =
      serves setting files up messages host past s _
        (loop-IsServing setting files up messages host s.service _
          (discover-Reachable setting files sockets s.service)
          (discover-SameSignals setting files sockets s.service) h.serving)
        h

  Step-Runs :
      (s t : State Body)
      → is_empty host ≡ false
      → In s past
      → Step setting files up messages s t
      → Runs s
      → Runs t
  Step-Runs s t known member (connects c) h =
      serves setting files up messages host past s _
        (reply-IsServing setting files up messages host s.service _
          (handle_connection-Answers setting.go files setting.codec messages s.service c) h.serving)
        h
  Step-Runs s t known member (watches u w) h = Watches-Runs s u w h
  Step-Runs s t known member (uploads u w) h =
      Uploads-Runs setting files up messages host past s u member w h
  Step-Runs s t known member (enrolls u w) h =
      Enrolls-Runs setting files up messages host past s u known w h
  Step-Runs s t known member (transacts q one) h =
      queued-Runs s q
        (consistent setting files up messages host s.service.queue q one h.serving.queue) h

module _ {Raw Body : Type 0} (setting : Setting Body) (files : FileLib) (up : Environment Body)
    (messages : Messages Raw) where
  -- The states that a run has been in before its last one, the latest first.
  abbrev pub passed_states :
      (s t : State Body) → Reachable setting files up messages s t → List (State Body)
  passed_states s t start = []
  passed_states s t (after r u before one) = r ∷ passed_states s r before

module _ {Raw Body : Type 0} (setting : Setting Body) (files : FileLib) (up : Environment Body)
    (messages : Messages Raw) (host : String) where
  abbrev past_of : (s t : State Body) → Reachable setting files up messages s t → List (State Body)
  past_of s t run = passed_states setting files up messages s t run

  Reachable-Runs :
      (s t : State Body)
      → is_empty host ≡ false
      → (run : Reachable setting files up messages s t)
      → IsRunning setting files up messages host [] s
      → IsRunning setting files up messages host (past_of s t run) t
  Reachable-Runs s t known start h = h
  Reachable-Runs s t known (after r u before one) h =
      let past = past_of s r before in
      Step-Runs setting files up messages host (r ∷ past) r u known (inl refl) one (
        IsRunning-grows setting files up messages host past r r (Reachable-Runs s r known before h))

  pub configured :
      (q : Queue Body) (url : Option Url)
      → IsConsistent q
      → (r : Queue Body) → configure up.net q url ≡ some r
      → IsConsistent r
  configured q none h r e = absurd (ground arith)
  configured q (some url) h r e = subst IsConsistent (some-inj e) (
      configure-IsConsistent setting files up messages host q (trim_slashes (up.net.to_string url))
        h)

  launched-Runs :
      (version : String) (config : Config) (config_path legacy_path : String) (token_file : Bool)
      (o : Option (Queue Body)) (s : State Body)
      → launched setting files up messages version config config_path legacy_path token_file o
        ≡ some s
      → config.host_id ≡ host
      → ((q : Queue Body) → o ≡ some q → IsConsistent q)
      → IsRunning setting files up messages host [] s
  launched-Runs version config config_path legacy_path token_file none s e h consistent = cc
  launched-Runs version config config_path legacy_path token_file (some q) s e h consistent =
      subst (IsRunning setting files up messages host []) (some-inj e) (record {
        serving = record { queue = consistent q refl; signals = omega arith; of_host = h };
        watching = omega arith;
        holds = refl;
        sent = nothing;
      })

  -- From its launch, whatever connections, Herdr signals, uploads, enrollment attempts and
  -- transactions of other processes follow in whatever order, the daemon of a host with an
  -- identifier keeps its tables within their limits, at most 128 signals waiting and 128 taken,
  -- and its identifier; and every request that its uploads have sent is built for an event that was
  -- in the daemon's queue in a state of this run, under a configuration that the daemon had in a
  -- state of this run and that is an active registration of the host with an accepted endpoint to
  -- which the event is addressed, if the tables were within their limits before.
  pub daemon-IsRunning :
      (version : String) (config : Config) (config_path legacy_path : String) (token_file : Bool)
      (q : Queue Body) (s t : State Body)
      → launch setting files up messages version config config_path legacy_path token_file q
        ≡ some s
      → config.host_id ≡ host
      → is_empty host ≡ false
      → IsConsistent q
      → (run : Reachable setting files up messages s t)
      → IsRunning setting files up messages host (past_of s t run) t
  unfolding launch
  daemon-IsRunning version config config_path legacy_path token_file q s t e same known h reached =
      Reachable-Runs s t known reached (
        launched-Runs version config config_path legacy_path token_file
          (configure up.net q (parse_notification_endpoint up.net config.endpoint)) s e same
          (configured q (parse_notification_endpoint up.net config.endpoint) h))
