-- ===== src/Progress.antt =====
-- pkg/buildkit/progress.go: what the progress of a BuildKit run shows and counts. A digest is a text,
-- times are nanoseconds, and a printed line is kept by its parts, not by its format. Since a terminal
-- display is not implemented, the mode `tty` prints less than `plain`.
mod Defs
mod Output
mod Totals
pub mod Counts
pub mod Report
mod Tests
unfoldable pub use Defs.*
unfoldable pub use Output.*
unfoldable pub use Totals.*
