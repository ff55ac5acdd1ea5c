-- ===== src/Llb/Mounts.antt =====
-- pkg/buildkit/cache.go: the caches that are mounted into the steps.
use melange.Prelude.{List, [], ◌∷◌, String}
use melange.Prelude.Maps.{Dict}
use melange.Llb.Defs.{CacheMount, shared, RunOption, cache_dir}

unfoldable pub cache_mount_option : CacheMount → RunOption
cache_mount_option c = cache_dir c.target c.id c.mode

unfoldable pub cache_mount_options : List CacheMount → List RunOption
unfolding cache_mount_option
cache_mount_options [] = []
cache_mount_options (m ∷ ms) = cache_mount_option m ∷ cache_mount_options ms

abbrev pub shared_mount : String → String → CacheMount
shared_mount id target = record { id = id; target = target; mode = shared }

unfoldable pub go_cache_mounts : List CacheMount
go_cache_mounts =
    shared_mount "melange-go-mod-cache" "/home/build/go/pkg/mod"
    ∷ shared_mount "melange-go-build-cache" "/home/build/.cache/go-build"
    ∷ []

unfoldable pub python_cache_mounts : List CacheMount
python_cache_mounts = shared_mount "melange-pip-cache" "/home/build/.cache/pip" ∷ []

unfoldable pub rust_cache_mounts : List CacheMount
rust_cache_mounts =
    shared_mount "melange-cargo-registry-cache" "/home/build/.cargo/registry"
    ∷ shared_mount "melange-cargo-build-cache" "/home/build/.cargo/git"
    ∷ []

unfoldable pub node_cache_mounts : List CacheMount
node_cache_mounts = shared_mount "melange-npm-cache" "/home/build/.npm" ∷ []

unfoldable pub c_cache_mounts : List CacheMount
c_cache_mounts = shared_mount "melange-ccache-cache" "/home/build/.ccache" ∷ []

unfoldable pub default_cache_mounts : List CacheMount
default_cache_mounts =
    shared_mount "melange-go-mod-cache" "/home/build/go/pkg/mod"
    ∷ shared_mount "melange-go-build-cache" "/home/build/.cache/go-build"
    ∷ shared_mount "melange-pip-cache" "/home/build/.cache/pip"
    ∷ shared_mount "melange-npm-cache" "/home/build/.npm"
    ∷ shared_mount "melange-cargo-registry-cache" "/home/build/.cargo/registry"
    ∷ shared_mount "melange-cargo-build-cache" "/home/build/.cargo/git"
    ∷ shared_mount "melange-ccache-cache" "/home/build/.ccache"
    ∷ shared_mount "melange-apk-cache" "/var/cache/apk"
    ∷ []

unfoldable pub cache_environment : Dict String
cache_environment =
    ("GOMODCACHE", "/home/build/go/pkg/mod")
    ∷ ("GOCACHE", "/home/build/.cache/go-build")
    ∷ ("GOPATH", "/home/build/go")
    ∷ ("PIP_CACHE_DIR", "/home/build/.cache/pip")
    ∷ ("NPM_CONFIG_CACHE", "/home/build/.npm")
    ∷ ("CARGO_HOME", "/home/build/.cargo")
    ∷ ("CCACHE_DIR", "/home/build/.ccache")
    ∷ []
