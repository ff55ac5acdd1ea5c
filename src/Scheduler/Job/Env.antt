-- ===== src/Scheduler/Job/Env.antt =====
-- The environment that a package is built in.
use melange.Prelude.{◌≡◌, refl, ◌∙◌, ap, [], Option, none, some, String, string_eq}
use melange.Prelude.Maps.{Dict, lookup, overlay, DistinctKeys, or_below, lookup-overlay}
use melange.Scheduler.Job.Defs.{merged_env}

-- A variable of the merged environment has the server's secret if there is one of that name, and
-- otherwise the client's value if there is one. So no client's value replaces a secret, and neither
-- order in which the maps are visited changes a value.
pub lookup-merged_env :
    (k : String) (client secret : Dict String)
    → DistinctKeys client
    → DistinctKeys secret
    → lookup k (merged_env client secret) ≡ or_below (lookup k secret) (lookup k client)
unfolding merged_env lookup
lookup-merged_env k client secret c s =
    lookup-overlay k (overlay [] client) secret s
    ∙ ap (or_below (lookup k secret)) (lookup-overlay k [] client c ∙ none_below (lookup k client))
  where
    none_below : (o : Option String) → or_below o none ≡ o
    none_below none = refl
    none_below (some v) = refl
