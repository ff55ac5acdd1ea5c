-- ===== src/Llb.antt =====
-- pkg/buildkit/{llb,determinism,cache}.go: how pipelines become BuildKit operations. BuildKit's states
-- and the operations on them are the caller's; the options of a run are kept as data, and the
-- evaluation of a condition is a function of its text.
mod Defs
mod Env
mod Mounts
mod Workspace
mod Pipelines
mod Scripts
pub mod Recovery
pub mod Quoting
mod Tests
pub mod Determinism
unfoldable pub use Defs.*
unfoldable pub use Env.*
unfoldable pub use Mounts.*
unfoldable pub use Workspace.*
unfoldable pub use Pipelines.*
unfoldable pub use Scripts.*
