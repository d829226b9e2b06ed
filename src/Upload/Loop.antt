-- ===== src/Upload/Loop.antt =====
-- uploadDue of notifications/internal/agent/daemon.go: due events are uploaded one after another until
-- none is left, one fails, or the registration is not active. What the loop reads from outside by the
-- number of rounds: whether the context is cancelled, and the configuration. No other call reaches the
-- queue during a run, and the database does not fail.
pub mod Progress
use nova_codex_bootstrap.Prelude.{
  ℕ, zero, suc, ◌+◌, ◌^◌, min, String, Bool, true, false, Option, none, some, str_eq, if◌then◌else◌,
}
use nova_codex_bootstrap.Protocol.Event.{Time}
use nova_codex_bootstrap.Config.Endpoint.{trim_slashes}
use nova_codex_bootstrap.Config.Settings.{Config, registration_active}
use nova_codex_bootstrap.Queue.Rows.{Row, Queue, next, complete, retry}
use nova_codex_bootstrap.Upload.Request.{Environment, Trace, upload_to_backend}

pub record World (Body : Type 0) : Type 0 where
  pub queue : Queue Body
  pub trace : Trace Body

-- How a run ended; `stuck` if the rounds ran out.
pub data Ended : Type 0 where
  cancelled inactive idle failed stuck : Ended

-- min(2^attempts, 3600) seconds
unfoldable pub backoff : ℕ → ℕ
backoff attempts = min (2 ^ attempts) 3600

module _ {Body : Type 0} (env : Environment Body) where
  -- A reading of the clock.
  abbrev pub read_clock : Trace Body → Time × Trace Body
  read_clock t = (env.clock t.readings, record t { readings = t.readings + 1 })

  -- What follows an upload of a row: Complete and the next round, or Retry and the end.
  unfoldable pub settle :
      Row Body
      → Queue Body
      → Option (Bool × Trace Body)
      → (World Body → Ended × World Body)
      → World Body
      → Ended × World Body
  settle row q none continue w = (stuck, w)
  settle row q (some (true, t)) continue w =
      continue (record { queue = complete q row.event_id; trace = t })
  settle row q (some (false, t)) continue w =
      let attempts = row.attempts + 1 in
      let (now, t') = read_clock t in
      (
        failed,
        record { queue = retry q row.event_id attempts (now + backoff attempts); trace = t' },
      )

  unfoldable pub round :
      Config
      → Option (Row Body) × Queue Body
      → Trace Body
      → (World Body → Ended × World Body)
      → Ended × World Body
  round config (none, q) t continue = (idle, record { queue = q; trace = t })
  round config (some row, q) t continue =
      settle row q (upload_to_backend env 2 row config t) continue (record { queue = q; trace = t })

  module _ (is_cancelled : ℕ → Bool) (snapshot : ℕ → Config) where
    -- The first argument is the number of rounds left, the second that of the rounds made.
    unfoldable pub upload_due : ℕ → ℕ → World Body → Ended × World Body
    upload_due zero made w = (stuck, w)
    upload_due (suc rounds) made w =
        let config = snapshot made in
        let (now, t) = read_clock w.trace in
        let found = next w.queue now (trim_slashes config.endpoint) in
        let rest = round config found t (upload_due rounds (suc made)) in
        if is_cancelled made
        then (cancelled, w)
        else if str_eq config.registration_state registration_active
        then rest
        else (inactive, w)
