-- ===== src/Store.antt =====
-- pkg/service/store/memory.go and pkg/service/store/store.go: the builds in memory, with an index of
-- those that are not finished. A call is one step under the lock. Builds are values here, so a copy
-- of a build is the build. The current time, the new identifier and the order in which a `range`
-- visits a map are arguments of the call.
mod Defs
pub mod Index
pub mod Claim
mod Sweep
mod Oldest
mod Tests
pub mod Evict
unfoldable pub use Defs.*
