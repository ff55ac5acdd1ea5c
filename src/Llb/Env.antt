-- ===== src/Llb/Env.antt =====
-- pkg/buildkit/determinism.go: environments in an order that does not depend on that of a map.
use melange.Prelude.{List, [], ◌∷◌, Option, none, some, String}
use melange.Prelude.Text.{◌<>◌}
use melange.Prelude.Sorting.{sort_texts}
use melange.Prelude.Maps.{Dict, lookup, overlay, keys}
use melange.Llb.Defs.{RunOption, add_env}

-- `env[k]`: a name that is missing has the empty text.
abbrev pub or_empty : Option String → String
or_empty none = ""
or_empty (some v) = v

unfoldable pub add_envs : Dict String → List String → List RunOption
unfolding lookup
add_envs env [] = []
add_envs env (k ∷ ks) = add_env k (or_empty (lookup k env)) ∷ add_envs env ks

unfoldable pub sorted_env_opts : Dict String → List RunOption
unfolding add_envs sort_texts
sorted_env_opts env = add_envs env (sort_texts (keys env))

unfoldable pub merge_from : Dict String → List (Dict String) → Dict String
unfolding overlay
merge_from result [] = result
merge_from result (env ∷ envs) = merge_from (overlay result env) envs

unfoldable pub merge_env : List (Dict String) → Dict String
unfolding merge_from
merge_env envs = merge_from [] envs

unfoldable pub env_texts : Dict String → List String → List String
unfolding lookup
env_texts env [] = []
env_texts env (k ∷ ks) = (k <> ("=" <> or_empty (lookup k env))) ∷ env_texts env ks

unfoldable pub sorted_env_slice : Dict String → List String
unfolding env_texts sort_texts
sorted_env_slice env = env_texts env (sort_texts (keys env))
