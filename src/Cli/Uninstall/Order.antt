-- ===== src/Cli/Uninstall/Order.antt =====
-- What uninstallAgent leaves (notifications/cmd/novascale-agent/uninstall.go).
use nova_codex_bootstrap.Prelude.{
  ◌≡◌, refl, Bool, true, false, not, ◌&&◌, [], ◌∷◌, ◌++◌, arith, str_eq, if_both,
}
use nova_codex_bootstrap.HookConfig.Document.{Json}
use nova_codex_bootstrap.Cli.Uninstall.{
  Machine, Options, Circumstances, run_actions, check_directories, stop_service, remove_hooks,
  remove_plugin, clear_queue, remove_plugin_dir, remove_socket, purge_state, purge_config,
  remove_binary, cleanup, uninstall_agent,
}
use nova_codex_bootstrap.Cli.Uninstall.Runs.{
  Keeps, AllKeep, run-Keeps, established, failed-keeps, all_and, succeeded,
}
use nova_codex_bootstrap.Cli.Uninstall.Parts.{
  Frame, remove_hooks-Keeps, remove_plugin-Keeps, clear_queue-Keeps,
}

module _ {Raw : Type 0} (Body : Type 0) (json : Json Raw) (c : Circumstances) (o : Options) where
  -- The steps before the last leave a part of the host if those leave it that remove files.
  cleanup-AllKeep :
      {A : Type 0} (f : Machine Raw Body → A)
      → Frame f
      → Keeps f (stop_service c o)
      → Keeps f (remove_plugin_dir c)
      → Keeps f (remove_socket c)
      → Keeps f (purge_state c o)
      → Keeps f (purge_config c o)
      → AllKeep f (cleanup json c o)
  unfolding cleanup check_directories
  cleanup-AllKeep f h stop dir socket state config =
      let last : AllKeep f
          (remove_plugin_dir c ∷ remove_socket c ∷ purge_state c o ∷ purge_config c o ∷ []) =
        (dir, (socket, (state, (config, refl)))) in
      (
        λ m. refl,
        (
          stop,
          (
            remove_hooks-Keeps f json c o h,
            (remove_plugin-Keeps f c h, (clear_queue-Keeps f c h, last)),
          ),
        ),
      )

  cleanup-binary : AllKeep (λ (m : Machine Raw Body). m.binary) (cleanup json c o)
  unfolding stop_service remove_plugin_dir remove_socket purge_state purge_config
  cleanup-binary =
      cleanup-AllKeep (λ (m : Machine Raw Body). m.binary)
        (record { hooks = λ m d. refl; plant = λ m p. refl }) (λ m. ground arith)
        (λ m. ground arith) (λ m. refl) (λ m. ground arith) (λ m. ground arith)

  cleanup-state :
      o.purge ≡ false → AllKeep (λ (m : Machine Raw Body). m.state_dir) (cleanup json c o)
  unfolding stop_service remove_plugin_dir remove_socket purge_state purge_config
  cleanup-state k =
      cleanup-AllKeep (λ (m : Machine Raw Body). m.state_dir)
        (record { hooks = λ m d. refl; plant = λ m p. refl }) (λ m. ground arith)
        (λ m. ground arith) (λ m. refl) (λ m. ground arith) (λ m. ground arith)

  cleanup-config :
      o.purge ≡ false → AllKeep (λ (m : Machine Raw Body). m.config_dir) (cleanup json c o)
  unfolding stop_service remove_plugin_dir remove_socket purge_state purge_config
  cleanup-config k =
      cleanup-AllKeep (λ (m : Machine Raw Body). m.config_dir)
        (record { hooks = λ m d. refl; plant = λ m p. refl }) (λ m. ground arith)
        (λ m. ground arith) (λ m. refl) (λ m. ground arith) (λ m. ground arith)

  -- What the last step leaves where it fails, and what it leaves of the rest.
  binary_left :
      (m : Machine Raw Body)
      → (remove_binary c m).0 ≡ false
      → (remove_binary c m).1.binary ≡ m.binary
  unfolding remove_binary
  binary_left m h = ground arith

  -- How the command ends: the binary goes last, the identity goes only with a purge, and what success
  -- means.
  pub record Uninstalls (m : Machine Raw Body) (s : Bool × Machine Raw Body) : Type 0 where
    pub keeps_binary : s.0 ≡ false → s.1.binary ≡ m.binary
    pub keeps_identity :
        o.purge ≡ false → (s.1.config_dir ≡ m.config_dir) × (s.1.state_dir ≡ m.state_dir)
    pub removes_service : s.0 ≡ true → s.1.service_file ≡ false
    pub removes_socket : s.0 ≡ true → s.1.socket ≡ false
    pub removes_binary : s.0 ≡ true → s.1.binary ≡ false

  after_service :
      AllKeep
        (λ (m : Machine Raw Body). m.service_file)
        (remove_hooks json c o
          ∷ remove_plugin c
          ∷ clear_queue c
          ∷ remove_plugin_dir c
          ∷ remove_socket c
          ∷ purge_state c o
          ∷ purge_config c o
          ∷ remove_binary c
          ∷ [])
  unfolding remove_plugin_dir remove_socket purge_state purge_config remove_binary
  after_service =
      let f = λ (m : Machine Raw Body). m.service_file in
      let h : Frame f = record { hooks = λ m d. refl; plant = λ m p. refl } in
      (
        remove_hooks-Keeps f json c o h,
        (
          remove_plugin-Keeps f c h,
          (
            clear_queue-Keeps f c h,
            (
              λ m. ground arith,
              (λ m. refl, (λ m. ground arith, (λ m. ground arith, (λ m. refl, refl)))),
            ),
          ),
        ),
      )

  stopped : (m t : Machine Raw Body) → stop_service c o m ≡ (true, t) → t.service_file ≡ false
  unfolding stop_service
  stopped m t h = ground arith

  socket_gone : (m t : Machine Raw Body) → remove_socket c m ≡ (true, t) → t.socket ≡ false
  unfolding remove_socket
  socket_gone m t h = ground arith

  binary_gone : (m t : Machine Raw Body) → remove_binary c m ≡ (true, t) → t.binary ≡ false
  unfolding remove_binary
  binary_gone m t h = ground arith

  after_socket :
      AllKeep
        (λ (m : Machine Raw Body). m.socket)
        (purge_state c o ∷ purge_config c o ∷ remove_binary c ∷ [])
  unfolding purge_state purge_config remove_binary
  after_socket = (λ m. ground arith, (λ m. ground arith, (λ m. refl, refl)))

  run_cleanup-Uninstalls :
      (m : Machine Raw Body)
      → Uninstalls m (run_actions (cleanup json c o ++ remove_binary c ∷ []) m)
  unfolding cleanup remove_binary
  run_cleanup-Uninstalls m =
      let all = cleanup json c o ++ remove_binary c ∷ [] in
      let r = (run_actions all m).1 in
      let to_stop = check_directories c o ∷ [] in
      let to_socket =
        check_directories c o
        ∷ stop_service c o
        ∷ remove_hooks json c o
        ∷ remove_plugin c
        ∷ clear_queue c
        ∷ remove_plugin_dir c
        ∷ [] in
      let rest = purge_state c o ∷ purge_config c o ∷ remove_binary c ∷ [] in
      let after_stop =
        remove_hooks json c o
        ∷ remove_plugin c
        ∷ clear_queue c
        ∷ remove_plugin_dir c
        ∷ remove_socket c
        ∷ rest in
      let done = succeeded (run_actions all m) in
      record {
        keeps_binary =
            failed-keeps (λ (s : Machine Raw Body). s.binary) (cleanup json c o) (remove_binary c) m
              cleanup-binary binary_left;
        keeps_identity = λ k. (
          run-Keeps (λ (s : Machine Raw Body). s.config_dir) all
              (all_and (λ (s : Machine Raw Body). s.config_dir) (cleanup json c o) (remove_binary c)
                (cleanup-config k) (λ s. refl))
              m,
          run-Keeps (λ (s : Machine Raw Body). s.state_dir) all
              (all_and (λ (s : Machine Raw Body). s.state_dir) (cleanup json c o) (remove_binary c)
                (cleanup-state k) (λ s. refl))
              m,
        );
        removes_service = λ h.
            established (λ (s : Machine Raw Body). s.service_file) false to_stop (stop_service c o)
              after_stop m r stopped after_service (done h);
        removes_socket = λ h.
            established (λ (s : Machine Raw Body). s.socket) false to_socket (remove_socket c) rest
              m r socket_gone after_socket (done h);
        removes_binary = λ h.
            established (λ (s : Machine Raw Body). s.binary) false (cleanup json c o)
              (remove_binary c) [] m r binary_gone refl (done h);
      }

  -- However the removal of the agent ends, a failure leaves the executable, the configuration and
  -- state directories are kept without a purge, and a success has removed the service file, the
  -- socket and the executable.
  pub uninstall_agent-Uninstalls :
      (m : Machine Raw Body) → Uninstalls m (uninstall_agent json c o m)
  unfolding uninstall_agent
  uninstall_agent-Uninstalls m =
      if_both (Uninstalls m) (not (str_eq o.platform "darwin") && not (str_eq o.platform "linux"))
        (false, m) (run_actions (cleanup json c o ++ remove_binary c ∷ []) m)
        (record {
          keeps_binary = λ h. refl;
          keeps_identity = λ k. (refl, refl);
          removes_service = λ h. absurd (ground arith);
          removes_socket = λ h. absurd (ground arith);
          removes_binary = λ h. absurd (ground arith);
        })
        (run_cleanup-Uninstalls m)
