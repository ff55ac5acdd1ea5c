-- ===== src/Scheduler/Job.antt =====
-- `executePackageJob` of pkg/service/scheduler/scheduler.go: the run of one package on a backend.
mod Defs
mod Phases
pub mod Slots
pub mod Sharing
pub mod Env
mod Tests
unfoldable pub use Defs.*
unfoldable pub use Phases.*
