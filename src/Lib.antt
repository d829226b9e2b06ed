-- ===== src/Lib.antt =====
-- The notification agent of novascale-codex (notifications/), which runs beside Codex and Herdr on a
-- host: hooks hand events to a daemon, the daemon keeps them in a queue on disk and uploads them to a
-- notification backend, enrolls the host with it, and turns observations of Herdr's panes into events.
--
-- Files and the code they model (paths under notifications/internal):
--   Protocol/Event     protocol/types.go: events, identifiers, HostEvent.Valid
--   Protocol/Text      protocol/herdr_metadata.go: DisplayText, with what it calls of Go's strings
--   Protocol/Metadata  protocol/herdr_metadata.go: Normalized, ValidFor, Body, session names
--   Queue/Rows         agent/queue.go and SetHerdrCaptureEnabled of agent/herdr_capture.go: the tables
--                      as one record of lists, and one function per method of Queue
--   Queue/Opening      agent/queue.go: OpenQueue, on the tables that an earlier agent left
--   Config/Endpoint    agent/register.go: parseNotificationEndpoint
--   Config/Settings    agent/config.go: Config and ValidateConfig
--   Upload/Request     agent/daemon.go: uploadToBackend
--   Upload/Loop        agent/daemon.go: uploadDue
--   Enrollment/Machine agent/enrollment.go: enrollmentLoop, attemptEnrollment, refreshConfig
--   Herdr/Agent, Herdr/Version, Herdr/Socket
--                      agent/herdr_api.go and agent/herdr_bindings.go: agents, versions, sockets, hooks
--   Herdr/Bindings     agent/herdr_state.go: BindHerdr, HerdrBinding, HerdrBindings
--   Herdr/Reconcile    agent/herdr_state.go: ReconcileHerdr
--   Ingress/Hook       agent/hook.go: NormalizeHook
--   Ingress/Ipc        agent/ipc.go and agent/peercred_linux.go, with runHook of main.go and
--                      runHerdrHook of herdr.go in cmd/novascale-agent
--   Ingress/Connection agent/daemon.go: handleConnection, validateHookEvent, eventID
--   HookConfig/Document
--                      hookconfig/hooks.go: Install, Uninstall, Installed on documents
--   HookConfig/File    hookconfig/hooks.go: load, save, and the changes on the file
--   Herdr/Reply        agent/herdr_api.go: herdrRequest, ReadHerdrAgents
--   Herdr/Watch        agent/herdr_state.go: reconcileHerdr, herdrLoop; agent/herdr_capture.go:
--                      HerdrSockets, discoverHerdr; agent/herdr_bindings.go: ReadHerdrBindingRoutes
--   Herdr/Plugin       agent/herdr_setup.go: HerdrManifest; HerdrBackendSupported,
--                      readGlobalHerdrPlugin, ReadDaemonInfo
--   Herdr/Command      agent/herdr_capture.go: herdrPluginCommand
--   Herdr/Setup        agent/herdr_setup.go: InspectHerdr
--   Herdr/Setup/Install
--                      agent/herdr_setup.go: InstallHerdr, UninstallHerdr
--   Herdr/Histories    the transactions on the queue, made in any order
--   Herdr/Snapshot     the stored panes as a map from pane ids
--   Config/Paths       agent/config.go: DefaultPaths
--   Config/Files       agent/config.go: LoadConfig, SaveConfig; agent/identity.go: key files
--   Config/Uuid        agent/identity.go: NewUUID
--   Config/Registration
--                      agent/register.go: RequestHostEnrollmentToken, RegisterHost
--   Signing            signing/signing.go: Canonical, Sign
--   AppServer/Update   appservercontrol/update.go: restartIfUpdated, inspectUpdate, binaryFromConfig
--   AppServer/Service  appservercontrol/update.go: servicePID, processElapsed, parseElapsed;
--                      appservercontrol/restart.go
--   Daemon             agent/daemon.go: Run and uploadLoop, with the loops and connections as the
--                      steps of one system
-- and of the commands in notifications/cmd/novascale-agent:
--   Cli/Shell          main.go: shellQuote, shellCommand
--   Cli/Backend        main.go: runInit, runSwitchBackend
--   Cli/Dispatch       main.go: main; herdr.go: runHerdr
--   Cli/Serve          main.go: runServe
--   Cli/Inspect        main.go: runStatus, runDaemonVersion, runRegistrationState, runHostID,
--                      runEndpoint, runHooks, runAppServer; uninstall.go: runUninstall
--   Cli/HerdrTest      herdr.go: the test notification
--   Cli/Uninstall      uninstall.go: uninstallAgent, stopNotificationService
-- Prelude and Sql hold what these share; Sql has the statements that the queue's SQL is written in
-- (DELETE, UPDATE, ORDER BY, and DELETE of the rows beyond an OFFSET). Tests has the theorems at
-- concrete inputs. The other files hold proofs and are named for what they prove.
--
-- State is passed explicitly. A function that can fail returns an Option, none being the error; the
-- queue of an Option that is none is rolled back, as the code's transactions are. What comes from
-- outside is a parameter: encoding/json, net/url, path/filepath, SHA-256 and signatures, the clock, the
-- server's responses, and the files, locks and random identifiers, each by its order of use. Failures of
-- the database and of the connections to it are not modelled.
--
-- Fuel: Normalized runs for at most 10 rounds, since each round halves fields of at most 256 bytes; an
-- upload has 2 tries, since the second try has no metadata left to drop; a run of the upload loop has
-- more rounds than the queue has events; a number has fewer decimal digits than its successor. The links to an
-- executable are followed 32 times, as the code does, and more are an error.
--
-- Simplifications: times are seconds since Go's zero time (nanoseconds in AppServer); strings are valid
-- UTF-8; event and attempt numbers are natural numbers; rows with the same time keep the order of
-- insertion; in Upload/Loop nothing else reaches the queue during one run of the upload loop (Daemon
-- interleaves them); a file or directory that
-- cannot be written or removed is left as it was.
--
-- Not modelled: the shell scripts, flags of the commands and the words that they print, the
-- socket protocols, file formats on disk, key generation and Ed25519, the peer's credentials on
-- systems other than Linux, file locks, and the run of the herdr command, whose outcome is an input.
pub mod Prelude
pub mod Sql
pub mod Protocol
pub mod Queue
pub mod Config
pub mod Upload
pub mod Enrollment
pub mod Daemon
pub mod Herdr
pub mod Ingress
pub mod HookConfig
pub mod AppServer
pub mod Signing
pub mod Cli
pub mod Tests
