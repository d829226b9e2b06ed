-- ===== src/Tests.antt =====
-- The theorems at concrete inputs, with stand-ins for the libraries of Go that the code calls.
mod AppServerRuns
pub mod Data
pub mod Trees
mod QueueRuns
pub mod UploadRuns
mod EnrollmentRuns
pub mod HerdrRuns
mod DaemonRuns
pub mod IngressRuns
pub mod Json
mod CliRuns
mod SetupRuns
