-- ===== src/Daemon/Parts.antt =====
-- What the parts of the daemon keep: connections and the Herdr loop (notifications/internal/agent/daemon.go
-- and herdr_state.go), enrollment (enrollment.go) and the queue (queue.go).
use nova_codex_bootstrap.Prelude.{
  suc, ◌+◌, ◌≤◌, ◌≡◌, refl, String, Bool, true, false, List, [], ◌∷◌, ◌||◌, length, length-append,
  arith,
}
use nova_codex_bootstrap.Protocol.Event.{version, Time, HerdrDirtyEvent}
use nova_codex_bootstrap.Queue.Rows.{Row, Queue, configure_backend, next, enqueue}
use nova_codex_bootstrap.Queue.Invariant.{Call, step, enqueues, completes, retries, configures}
use nova_codex_bootstrap.Ingress.Connection.{to_host_event, Reply, Messages, Service}
use nova_codex_bootstrap.Ingress.Safety.{Answers, unchanged, signalled, queued}
use nova_codex_bootstrap.Upload.Request.{Environment}
use nova_codex_bootstrap.Upload.Loop.{backoff}
use nova_codex_bootstrap.Herdr.Socket.{FileLib}
use nova_codex_bootstrap.Herdr.Reconcile.{Setting}
use nova_codex_bootstrap.Herdr.Histories.{IsConsistent, called}
use nova_codex_bootstrap.Herdr.Histories
use nova_codex_bootstrap.Herdr.Histories.Consistency.{Reachable-IsConsistent}
use nova_codex_bootstrap.Herdr.Watch.{put_signal, take_signal, find_signal, wants_baseline}
use nova_codex_bootstrap.Herdr.Watch.Signals.{SameSignals}
use nova_codex_bootstrap.Daemon.{Uploader, resting, chosen, sending, answered, State, settle_queue}
use nova_codex_bootstrap.Daemon.Authority.{
  IsRegistered, Permits, AllAuthorized, IsRegistered-grows, Permits-grows, AllAuthorized-grows,
}

put_signal-le :
    (e : HerdrDirtyEvent) (es : List HerdrDirtyEvent) → length (put_signal e es) ≤ suc (length es)
unfolding put_signal
put_signal-le e [] = omega arith
put_signal-le e (o ∷ es) = ground (arith, put_signal-le e es)

pub take_signal-le :
    (e : HerdrDirtyEvent) (es : List HerdrDirtyEvent)
    → length es ≤ 128
    → length (take_signal e es) ≤ 128
unfolding take_signal
take_signal-le e es h = ground (
  arith,
  put_signal-le
      (record e { baseline = e.baseline || wants_baseline (find_signal e.binding_key es) }) es,
)

module _ {Body : Type 0} where
  -- What the uploader holds has been allowed.
  abbrev pub Holds : String → List (State Body) → Uploader Body → Type 0
  Holds host past resting = ◌≡◌ {A = Bool} true true
  Holds host past (chosen config) = IsRegistered host past config
  Holds host past (sending row config) = Permits host past row config
  Holds host past (answered row accept) = ◌≡◌ {A = Bool} true true

  Holds-grows :
      (up : Environment Body) (host : String) (past : List (State Body)) (s : State Body)
      (u : Uploader Body)
      → Holds host past u
      → Holds host (s ∷ past) u
  Holds-grows up host past s resting h = refl
  Holds-grows up host past s (chosen config) h = IsRegistered-grows up host past s config h
  Holds-grows up host past s (sending row config) h = Permits-grows up host past s row config h
  Holds-grows up host past s (answered row accept) h = refl

module _ {Raw Body : Type 0} (setting : Setting Body) (files : FileLib) (up : Environment Body)
    (messages : Messages Raw) (host : String) where
  -- What holds of the part that connections reach.
  pub record IsServing (s : Service Body) : Type 0 where
    pub queue : IsConsistent s.queue
    pub signals : length s.dirty ≤ 128
    pub of_host : s.config.host_id ≡ host

  -- The daemon of a host: its tables within their limits, at most 128 signals waiting and at most
  -- 128 taken, the host's identity unchanged, and every request it has sent authorized by
  -- what the past states had.
  pub record IsRunning (past : List (State Body)) (s : State Body) : Type 0 where
    pub serving : IsServing s.service
    pub watching : length s.watching ≤ 128
    pub holds : Holds host past s.uploader
    pub sent : AllAuthorized up host past s.trace.sent

  pub IsRunning-grows :
      (past : List (State Body)) (p s : State Body) → IsRunning past s → IsRunning (p ∷ past) s
  IsRunning-grows past p s h = record {
    serving = h.serving;
    watching = h.watching;
    holds = Holds-grows up host past p s.uploader h.holds;
    sent = AllAuthorized-grows up host past p s.trace.sent h.sent;
  }

  pub consistent : (q r : Queue Body) → Histories.Step setting q r → IsConsistent q → IsConsistent r
  consistent q r one h =
      Reachable-IsConsistent setting q r (Histories.after q r Histories.start one) h

  enqueue-IsConsistent :
      (q : Queue Body) (id : String) (body : Body) (now : Time)
      → IsConsistent q
      → IsConsistent (enqueue setting.go setting.codec.unmarshal q id body now)
  unfolding step
  enqueue-IsConsistent q id body now h = consistent q _ (called (enqueues id body now)) h

  pub configure-IsConsistent :
      (q : Queue Body) (endpoint : String)
      → IsConsistent q
      → IsConsistent (configure_backend q endpoint)
  unfolding step
  configure-IsConsistent q endpoint h = consistent q _ (called (configures endpoint)) h

  pub next-IsConsistent :
      (q : Queue Body) (now : Time) (backend : String)
      → IsConsistent q
      → IsConsistent (next q now backend).1
  unfolding step
  next-IsConsistent q now backend h = consistent q _ (called (Call.takes now backend)) h

  pub settle-IsConsistent :
      (q : Queue Body) (row : Row Body) (accept : Bool) (now : Time)
      → IsConsistent q
      → IsConsistent (settle_queue row accept now q)
  unfolding step settle_queue
  settle-IsConsistent q row true now h = consistent q _ (called (completes row.event_id)) h
  settle-IsConsistent q row false now h =
      let attempts = row.attempts + 1 in
      consistent q _ (called (retries row.event_id attempts (now + backoff attempts))) h

  pub reply-IsServing :
      (s : Service Body) (r : Reply × Service Body)
      → Answers setting.go files setting.codec messages s r
      → IsServing s
      → IsServing r.1
  reply-IsServing s r (unchanged reply) h = h
  reply-IsServing s r (signalled e valid room) h = record {
    queue = h.queue;
    signals = omega (arith, length-append s.dirty (e ∷ []));
    of_host = h.of_host;
  }
  reply-IsServing s r (queued e id now valid) h = record {
    queue =
        enqueue-IsConsistent s.queue id (setting.codec.marshal (to_host_event version e)) now
          h.queue;
    signals = h.signals;
    of_host = h.of_host;
  }

  pub loop-IsServing :
      (s t : Service Body)
      → Histories.Reachable setting s.queue t.queue
      → SameSignals s t
      → IsServing s
      → IsServing t
  loop-IsServing s t reached same h = record {
    queue = Reachable-IsConsistent setting s.queue t.queue reached h.queue;
    signals = rw same.dirty h.signals;
    of_host = rw same.config h.of_host;
  }

  -- A state whose service alone has changed.
  pub serves :
      (past : List (State Body)) (s : State Body) (t : Service Body)
      → IsServing t
      → IsRunning past s
      → IsRunning past (record s { service = t })
  serves past s t serving h = record {
    serving = serving;
    watching = h.watching;
    holds = h.holds;
    sent = h.sent;
  }
