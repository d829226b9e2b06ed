-- ===== src/Cli.antt =====
-- The commands of novascale-agent (notifications/cmd/novascale-agent).
pub mod Shell
pub mod Backend
pub mod Uninstall
pub mod HerdrTest
pub mod Serve
pub mod Inspect
pub mod Dispatch
