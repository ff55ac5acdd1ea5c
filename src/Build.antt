-- ===== src/Build.antt =====
-- pkg/build: the configuration that a build of a package starts from.
mod Config
unfoldable pub use Config.*
