-- ===== src/Api.antt =====
-- pkg/service/api/server.go: the HTTP handlers over the store and the pool. The bytes of a request
-- and of a response are left out: a handler takes the decoded body, or the decoder's error, and
-- answers a status code with the value that is encoded. YAML decoding is an argument.
mod Defs
mod Backends
mod Metrics
mod Create
pub mod Percentile
pub mod Creating
pub mod Created
pub mod Managing
mod Tests
unfoldable pub use Defs.*
unfoldable pub use Backends.*
unfoldable pub use Metrics.*
unfoldable pub use Create.*
