-- ===== src/Scheduler.antt =====
-- pkg/service/scheduler/scheduler.go: how a build goes from pending to its end. Defs takes the error of
-- a package's run, or none, as an argument; Job has the run, `executePackageJob`. Times are arguments
-- too; the log, the metrics and the traces are left out.
mod Defs
mod Setup
pub mod Round
pub mod Status
pub mod Order
pub mod Cascade
pub mod Waits
pub mod Skipped
pub mod Duplicates
pub mod Job
mod Tests
unfoldable pub use Defs.*
unfoldable pub use Setup.*
