-- ===== src/Daemon/Enrolling.antt =====
-- What enrollment keeps of the daemon (notifications/internal/agent/enrollment.go).
use mathlib.Core.Path.{subst}
use nova_codex_bootstrap.Prelude.{
  ◌≡◌, ◌∙◌, String, Bool, false, List, Option, none, some, arith, is_empty, if_both, inl, inr,
  Bool-cases,
}
use nova_codex_bootstrap.Config.Endpoint.{Url, parse_notification_endpoint, trim_slashes}
use nova_codex_bootstrap.Config.Settings.{Config}
use nova_codex_bootstrap.Queue.Rows.{configure_backend}
use nova_codex_bootstrap.Ingress.Connection.{Messages}
use nova_codex_bootstrap.Upload.Request.{Environment}
use nova_codex_bootstrap.Enrollment.Machine.{
  Daemon, configure, with_queue, refresh_config, refresh_loaded, save_registration_state,
  discard_legacy_setup_token,
}
use nova_codex_bootstrap.Herdr.Socket.{FileLib}
use nova_codex_bootstrap.Herdr.Reconcile.{Setting}
use nova_codex_bootstrap.Herdr.Histories.{IsConsistent}
use nova_codex_bootstrap.Enrollment.Identity.{refresh-host, save-host}
use nova_codex_bootstrap.Daemon.{
  State, refreshes, migrates, discards, attempts, gives_up, registers, conflicts, enrollment_of,
  with_enrollment, Enrolls,
}
use nova_codex_bootstrap.Daemon.Parts.{IsRunning, configure-IsConsistent}

module _ {Raw Body : Type 0} (setting : Setting Body) (files : FileLib) (up : Environment Body)
    (messages : Messages Raw) (host : String) where
  -- What enrollment has made of a daemon.
  record IsEnrolling (d : Daemon Body) : Type 0 where
    pub queue : IsConsistent d.queue
    pub of_host : d.config.host_id ≡ host

  configured-IsConsistent :
      (d e : Daemon Body) (config : Config) (o : Option Url)
      → with_queue up.net d config (configure up.net d.queue o) ≡ some e
      → IsConsistent d.queue
      → IsConsistent e.queue
  unfolding with_queue
  configured-IsConsistent d e config none r h = absurd (ground arith)
  configured-IsConsistent d e config (some url) r h =
      let endpoint = trim_slashes (up.net.to_string url) in
      let made : configure_backend d.queue endpoint ≡ e.queue = ground arith in
      subst IsConsistent made
        (configure-IsConsistent setting files up messages host d.queue endpoint h)

  refresh-IsConsistent :
      (d e : Daemon Body) (on_disk : Option Config)
      → refresh_config up.net d on_disk ≡ some e
      → IsConsistent d.queue
      → IsConsistent e.queue
  unfolding refresh_config refresh_loaded
  refresh-IsConsistent d e none r h =
      let same : d.queue ≡ e.queue = ground arith in subst IsConsistent same h
  refresh-IsConsistent d e (some config) r h = elim (Bool-cases (is_empty d.config_path)) [
    | inl p ↦ let same : d.queue ≡ e.queue = ground arith in subst IsConsistent same h
    | inr p ↦
        configured-IsConsistent d e config (parse_notification_endpoint up.net config.endpoint)
          (ground arith) h
  ]

  refresh-IsEnrolling :
      (d e : Daemon Body) (on_disk : Option Config)
      → is_empty host ≡ false
      → refresh_config up.net d on_disk ≡ some e
      → IsEnrolling d
      → IsEnrolling e
  refresh-IsEnrolling d e on_disk known r h = record {
    queue = refresh-IsConsistent d e on_disk r h.queue;
    of_host = refresh-host up.net d on_disk e (rw h.of_host known) r ∙ h.of_host;
  }

  discard-IsEnrolling :
      (d : Daemon Body) → IsEnrolling d → IsEnrolling (discard_legacy_setup_token d)
  discard-IsEnrolling d h =
      if_both IsEnrolling (is_empty d.legacy_path) d (record d { token_file = false }) h
        (record { queue = h.queue; of_host = h.of_host })

  save-queue :
      (d e : Daemon Body) (state : String) (written : Bool)
      → save_registration_state up.net d state written ≡ some e
      → d.queue ≡ e.queue
  unfolding save_registration_state
  save-queue d e state written r = ground arith

  save-IsEnrolling :
      (d e : Daemon Body) (state : String) (written : Bool)
      → save_registration_state up.net d state written ≡ some e
      → IsEnrolling d
      → IsEnrolling (discard_legacy_setup_token e)
  save-IsEnrolling d e state written r h = discard-IsEnrolling e (record {
    queue = subst IsConsistent (save-queue d e state written r) h.queue;
    of_host = (save-host up.net d state written e r).0 ∙ h.of_host;
  })

module _ {Raw Body : Type 0} (setting : Setting Body) (files : FileLib) (up : Environment Body)
    (messages : Messages Raw) (host : String) (past : List (State Body)) where
  abbrev Enrolling : Daemon Body → Type 0
  Enrolling d = IsEnrolling setting files up messages host d

  abbrev Runs : State Body → Type 0
  Runs s = IsRunning setting files up messages host past s

  -- A state after enrollment.
  enrolled-Runs :
      (s : State Body) (d : Daemon Body) → Enrolling d → Runs s → Runs (with_enrollment s d)
  enrolled-Runs s d e h = record {
    serving = record { queue = e.queue; signals = h.serving.signals; of_host = e.of_host };
    watching = h.watching;
    holds = h.holds;
    sent = h.sent;
  }

  enrolling : (s : State Body) → Runs s → Enrolling (enrollment_of s)
  enrolling s h = record { queue = h.serving.queue; of_host = h.serving.of_host }

  pub Enrolls-Runs :
      (s t : State Body)
      → is_empty host ≡ false
      → Enrolls setting files up messages s t
      → Runs s
      → Runs t
  Enrolls-Runs s t known (refreshes on_disk d a r) h =
      enrolled-Runs s d
        (refresh-IsEnrolling setting files up messages host (enrollment_of s) d on_disk known r
          (enrolling s h))
        h
  Enrolls-Runs s t known (migrates written d a n r) h =
      enrolled-Runs s _
        (save-IsEnrolling setting files up messages host (enrollment_of s) d _ written r
          (enrolling s h))
        h
  Enrolls-Runs s t known discards h =
      enrolled-Runs s _
        (discard-IsEnrolling setting files up messages host (enrollment_of s) (enrolling s h)) h
  Enrolls-Runs s t known (attempts on_disk d a r) h =
      let e =
        enrolled-Runs s d
          (refresh-IsEnrolling setting files up messages host (enrollment_of s) d on_disk known r
            (enrolling s h))
          h in
      record { serving = e.serving; watching = e.watching; holds = e.holds; sent = e.sent }
  Enrolls-Runs s t known gives_up h = record {
    serving = h.serving;
    watching = h.watching;
    holds = h.holds;
    sent = h.sent;
  }
  Enrolls-Runs s t known (registers config written d a r) h =
      let e =
        enrolled-Runs s _
          (save-IsEnrolling setting files up messages host (enrollment_of s) d _ written r
            (enrolling s h))
          h in
      record {
        serving = record {
          queue = e.serving.queue;
          signals = e.serving.signals;
          of_host = e.serving.of_host;
        };
        watching = e.watching;
        holds = e.holds;
        sent = e.sent;
      }
  Enrolls-Runs s t known (conflicts config written d a r) h =
      let e =
        enrolled-Runs s _
          (save-IsEnrolling setting files up messages host (enrollment_of s) d _ written r
            (enrolling s h))
          h in
      record { serving = e.serving; watching = e.watching; holds = e.holds; sent = e.sent }
