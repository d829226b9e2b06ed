-- ===== src/Cli/Backend/Switching.antt =====
-- A switch of the backend, seen from the files (runSwitchBackend of
-- notifications/cmd/novascale-agent/main.go).
use nova_codex_bootstrap.Prelude.{
  ℕ, ◌≡◌, ◌≢◌, refl, ap, String, Bool, false, is_empty, List, count, Option, none, some, arith,
}
use nova_codex_bootstrap.Config.Endpoint.{
  NetLib, Url, trim_slashes, parse_notification_endpoint-IsSafe,
}
use nova_codex_bootstrap.Config.Settings.{Config}
use nova_codex_bootstrap.Config.Files.{file, loaded, load_config, KeyLib}
use nova_codex_bootstrap.Queue.Rows.{Queue, backend_or}
use nova_codex_bootstrap.Queue.Backend.{unassigned, configure_backend-unassigned}
use nova_codex_bootstrap.Cli.Backend.{
  Host, Outcome, failed, staged, Conditions, choose_endpoint, switched, run_switch_backend,
}
use nova_codex_bootstrap.Cli.Backend.Identity.{
  Rebinds, absent, rebound, Switches, fails_early, fails_late, keeps, switches,
  run_switch_backend-Switches,
}

bound_or-ne : (o : Option String) (e : String) → o ≢ some "" → e ≢ "" → backend_or o e ≢ ""
bound_or-ne none e h k = k
bound_or-ne (some b) e h k = λ same. h (ap some same)

module _ (net : NetLib) {Key : Type 0} (keys : KeyLib Key) {Body : Type 0} where
  failed-same :
      (h : Host Body) (target : Option String) (r : Outcome × Host Body)
      → Switches net keys h target r
      → r.0 ≡ failed
      → (r.1.config_file ≡ h.config_file) × (r.1.key ≡ h.key) × (r.1.token_file ≡ h.token_file)
  failed-same h target r fails_early f = (refl, refl, refl)
  failed-same h target r (fails_late d db e b) f = (refl, refl, refl)
  failed-same h target r (keeps id) f = (refl, refl, refl)
  failed-same h target r (switches d endpoint db e t b) f = absurd (ground arith)

  -- A switch that fails leaves the configuration, the key and the legacy token as they were.
  pub run_switch_backend-failed :
      (names : List String) (endpoint : String) (force : Bool) (c : Conditions Key) (h : Host Body)
      → (run_switch_backend net keys names endpoint force c h).0 ≡ failed
      → let r = run_switch_backend net keys names endpoint force c h in
        (r.1.config_file ≡ h.config_file) × (r.1.key ≡ h.key) × (r.1.token_file ≡ h.token_file)
  run_switch_backend-failed names endpoint force c h f =
      failed-same h (choose_endpoint names endpoint) _
        (run_switch_backend-Switches net keys names endpoint force c h) f

  -- What a staged switch leaves of the files.
  pub record IsSwitched (h r : Host Body) (target : Option String) (id : String) : Type 0 where
    pub old : Config
    pub endpoint : String
    pub was : load_config net h.config_file ≡ loaded old
    pub asked : target ≡ some endpoint
    pub becomes : r.config_file ≡ file (switched endpoint old)
    pub same_host : old.host_id ≡ id
    pub same_key : r.key ≡ h.key

  abbrev pub AllAssigned : Option (Queue Body) → Type 0
  AllAssigned none = ◌≡◌ {A = ℕ} 0 0
  AllAssigned (some q) = count unassigned q.pending ≡ 0

  staged-IsSwitched :
      (h : Host Body) (target : Option String) (r : Outcome × Host Body) (id : String)
      → Switches net keys h target r
      → r.0 ≡ staged id
      → IsSwitched h r.1 target id
  staged-IsSwitched h target r id fails_early f = absurd (ground arith)
  staged-IsSwitched h target r id (fails_late d db e b) f = absurd (ground arith)
  staged-IsSwitched h target r id (keeps j) f = absurd (ground arith)
  staged-IsSwitched h target r id (switches d endpoint db e t b) f = record {
    old = d;
    endpoint = endpoint;
    was = e;
    asked = t;
    becomes = refl;
    same_host = ground arith;
    same_key = refl;
  }

  Rebinds-AllAssigned :
      (h : Host Body) (d : Config) (o : Option (Queue Body))
      → ((url : Url) → is_empty url.host ≡ false → trim_slashes (net.to_string url) ≢ "")
      → ((q : Queue Body) → h.database ≡ some q → q.endpoint ≢ some "")
      → Rebinds net keys h d o
      → AllAssigned o
  Rebinds-AllAssigned h d o text named (absent e) = rw e refl
  Rebinds-AllAssigned h d o text named (rebound q url at p) =
      let safe = parse_notification_endpoint-IsSafe net d.endpoint url p in
      let backend = trim_slashes (net.to_string url) in
      configure_backend-unassigned q backend
        (bound_or-ne q.endpoint backend (named q at) (text url safe.has_host))

  staged-AllAssigned :
      (h : Host Body) (target : Option String) (r : Outcome × Host Body) (id : String)
      → ((url : Url) → is_empty url.host ≡ false → trim_slashes (net.to_string url) ≢ "")
      → ((q : Queue Body) → h.database ≡ some q → q.endpoint ≢ some "")
      → Switches net keys h target r
      → r.0 ≡ staged id
      → AllAssigned r.1.database
  staged-AllAssigned h target r id text named fails_early f = absurd (ground arith)
  staged-AllAssigned h target r id text named (fails_late d db e b) f = absurd (ground arith)
  staged-AllAssigned h target r id text named (keeps j) f = absurd (ground arith)
  staged-AllAssigned h target r id text named (switches d endpoint db e t b) f =
      Rebinds-AllAssigned h d db text named b

  -- A switch that is staged keeps the host and its key, writes the endpoint that was asked for
  -- with the enrollment pending, and leaves no queued event without a backend, if the text of a
  -- URL with a host is more than slashes and the queue's stored endpoint is not empty.
  pub run_switch_backend-staged :
      (names : List String) (endpoint : String) (force : Bool) (c : Conditions Key) (h : Host Body)
      (id : String)
      → ((url : Url) → is_empty url.host ≡ false → trim_slashes (net.to_string url) ≢ "")
      → ((q : Queue Body) → h.database ≡ some q → q.endpoint ≢ some "")
      → (run_switch_backend net keys names endpoint force c h).0 ≡ staged id
      → let r = (run_switch_backend net keys names endpoint force c h).1 in
        IsSwitched h r (choose_endpoint names endpoint) id × AllAssigned r.database
  run_switch_backend-staged names endpoint force c h id text named f =
      let ways = run_switch_backend-Switches net keys names endpoint force c h in
      let target = choose_endpoint names endpoint in
      (staged-IsSwitched h target _ id ways f, staged-AllAssigned h target _ id text named ways f)
