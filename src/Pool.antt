-- ===== src/Pool.antt =====
-- pkg/service/buildkit/pool.go: the backends that builds run on, with a circuit breaker and a count
-- of running jobs for each address. Times and durations are nanoseconds, and the time of a call is
-- an argument of it. The lock makes a call one step; the messages and the log are left out.
-- A load, `float64(active) / float64(maxJobs)`, is the fraction itself: for counts below 2 ^ 26 two
-- different fractions are different floats, in the same order.
mod Defs
mod Choice
pub mod Equivalence
pub mod Serving
pub mod Load
pub mod Invariant
pub mod Leases
pub mod Breaker
pub mod Readding
pub mod Examples
mod Tests
unfoldable pub use Defs.*
unfoldable pub use Choice.*
