-- ===== src/Linter.antt =====
-- pkg/linter/linter.go: the linters that run by default. A linter is its name and its default behavior.
use melange.Prelude.{Bool, true, false, List, [], ◌∷◌, String, keep_if, map, not}
use melange.Prelude.Sorting.{sort_texts}
use melange.Prelude.Maps.{Dict, has_key, lookup}

pub data Behavior : Type 0 where
  ignore warn require : Behavior

abbrev pub linter_map : Dict Behavior
linter_map =
    ("dev", require)
    ∷ ("documentation", ignore)
    ∷ ("opt", warn)
    ∷ ("object", warn)
    ∷ ("maninfo", warn)
    ∷ ("sbom", warn)
    ∷ ("setuidgid", require)
    ∷ ("srv", warn)
    ∷ ("tempdir", require)
    ∷ ("usrlocal", warn)
    ∷ ("varempty", require)
    ∷ ("worldwrite", require)
    ∷ ("strip", warn)
    ∷ ("infodir", require)
    ∷ ("empty", ignore)
    ∷ ("python/docs", warn)
    ∷ ("python/multiple", warn)
    ∷ ("python/test", warn)
    ∷ ("pkgconf", warn)
    ∷ ("lddcheck", warn)
    ∷ ("usrmerge", require)
    ∷ ("cudaruntimelib", warn)
    ∷ ("dll", warn)
    ∷ ("dylib", warn)
    ∷ ("nonlinux", warn)
    ∷ ("unsupportedarch", warn)
    ∷ ("binaryarch", warn)
    ∷ ("staticarchive", warn)
    ∷ ("duplicate", warn)
    ∷ []

abbrev pub is_require : Behavior → Bool
is_require require = true
is_require _ = false

abbrev pub is_warn : Behavior → Bool
is_warn warn = true
is_warn _ = false

unfoldable pub default_required_linters : List String
unfolding keep_if sort_texts
default_required_linters = sort_texts (map (λ e. e.0) (keep_if (λ e. is_require e.1) linter_map))

unfoldable pub default_warn_linters : List String
unfolding keep_if sort_texts
default_warn_linters = sort_texts (map (λ e. e.0) (keep_if (λ e. is_warn e.1) linter_map))

-- `checkLinters`: the names that are not in the map, each an error.
unfoldable pub unknown_linters : List String → List String
unfolding keep_if lookup
unknown_linters names = keep_if (λ name. not (has_key linter_map name)) names
