-- ===== src/Api/Tests.antt =====
-- Runs and witnesses for pkg/service/api/server.go on a request for two packages.
use melange.Prelude.{
  ℕ, ◌≡◌, refl, ◌⊎◌, false, List, [], ◌∷◌, map, none, some, String, Result, ok, err, arith,
  if◌then◌else◌, ◌==◌, ==_iff, string_eq,
}
use mathlib.Core.List.{Memᴰ}
use melange.Prelude.Int.{ℤ, pos, negsuc, ◌≤ℤ◌}
use melange.Prelude.Maps.{Dict, lookup, delete, lookup-delete, delete-DistinctKeys, DistinctKeys}
use melange.Types.{Node, Build, BuildMode, CreateBuildRequest}
use melange.Dag.{Graph}
use melange.Store.{default_config, new_memory_build_store, create_build}
use melange.Git.{Calls}
use melange.Scheduler.Order.{here, IsOrderly}
use melange.Api.Defs.{Server, Response, Body, decoded}
use melange.Api.Create.{
  ConfigDependencies, Outside, handle_create_build, collect_configs, store_build, spec_of,
}
use melange.Pool.Examples.{pool, pool-IsPool}
use melange.Api.Defs.{Method, Decoded, too_large}
use melange.Api.Backends.{AddBackendRequest, handle_backends}
use melange.Api.Managing.{Manages, handle_backends-Manages}
use melange.Api.Metrics.{percentile}
use melange.Api.Percentile.{percentile_lem}
use melange.Api.Created.{Pairwise, IsNodeOf, IsBuildOrder, Stores, handle_create_build_cases}
use melange.Api.Creating.{Fails, AreRanges, handle_create_build-IsOrderly}

abbrev samples : List ℤ
samples = pos 30 ∷ pos 10 ∷ negsuc 4 ∷ pos 20 ∷ []

percentiles : (percentile samples 50 ≡ pos 20) × (percentile samples 99 ≡ pos 30)
unfolding percentile
percentiles = (refl, refl)

percentile_lem_example :
    Memᴰ (percentile samples 50) samples × (percentile samples 50 ≤ℤ percentile samples 99)
percentile_lem_example = percentile_lem samples 50 99 (omega arith) (omega arith)

abbrev no_calls : Calls
no_calls = record {
  plain_clone = λ url ref. err "no network";
  checkout_revision = λ dir ref. dir;
  glob = λ pattern. ok [];
  read_file = λ path. err "no file";
}

-- The text "app" is a configuration of `app`, which needs `lib`, and any other is one of `lib`.
abbrev read_yaml : String → Result String ConfigDependencies
read_yaml yaml =
    if yaml == "app"
    then ok (record { package_name = "app"; environment_packages = "lib" ∷ [] })
    else ok (record { package_name = "lib"; environment_packages = [] })

abbrev outside : Outside
outside = record { unmarshal = read_yaml; git = no_calls }

-- One order of a map: its entries, each key once.
unfoldable unique : Dict Node → Dict Node
unfolding delete
unique [] = []
unique ((k, n) ∷ m) = (k, n) ∷ delete k (unique m)

lookup-unique : (k : String) (m : Dict Node) → lookup k (unique m) ≡ lookup k m
unfolding unique lookup
lookup-unique k [] = refl
lookup-unique k ((i, n) ∷ m) = ground (arith, lookup-delete i k (unique m), lookup-unique k m)

unique-DistinctKeys : (m : Dict Node) → DistinctKeys (unique m)
unfolding unique
unique-DistinctKeys [] = tt
unique-DistinctKeys ((i, n) ∷ m) = (
  ground (arith, lookup-delete i i (unique m), ==_iff {A = String} i i),
  delete-DistinctKeys i (unique m) (unique-DistinctKeys m),
)

abbrev ranges : Graph → ℕ → Dict Node
ranges g i = unique g.nodes

ranges-AreRanges : AreRanges ranges
ranges-AreRanges g i = record {
  distinct = unique-DistinctKeys g.nodes;
  same = λ k. lookup-unique k g.nodes;
}

abbrev server : Server
server = record {
  build_store = new_memory_build_store default_config;
  pool = record {
    backends = [];
    state = [];
    default_max_jobs = pos 4;
    failure_threshold = pos 3;
    recovery_timeout = pos 30;
  };
}

abbrev request : CreateBuildRequest
request = record {
  config_yaml = "";
  configs = "app" ∷ "lib" ∷ [];
  git_source = none;
  pipelines = none;
  arch = "x86_64";
  backend_selector = [];
  with_test = false;
  debug = false;
  source_files = none;
  mode = BuildMode.dag;
  env = [];
}

abbrev app_node : Node
app_node = record { name = "app"; config_yaml = "app"; dependencies = "lib" ∷ [] }

abbrev lib_node : Node
lib_node = record { name = "lib"; config_yaml = "lib"; dependencies = [] }

abbrev stored : Response × Server
stored = store_build server "x" 1 request ("app" ∷ "lib" ∷ []) (lib_node ∷ app_node ∷ [])

creates : handle_create_build outside ranges "x" 1 server (decoded request) ≡ some stored
unfolding handle_create_build unique
creates = refl

abbrev built : Build
built =
    (create_build server.build_store "x" 1 (lib_node ∷ app_node ∷ [])
      (spec_of request ("app" ∷ "lib" ∷ []))).0

handle_create_build_cases_example :
    ((r : Response) × (handle_create_build outside ranges "x" 1 server (decoded request)
        ≡ some (r, server))
      × Fails r)
    ⊎ ((req : CreateBuildRequest) × (configs : List String) × (nodes : List Node) × (ns : List Node)
        × (r : Response) × (t : Server) × (handle_create_build outside ranges "x" 1 server
              (decoded request)
            ≡ some (r, t))
        × (r ≡ record { code = 201; body = Body.created "x" (map (λ n. n.name) ns) })
        × (decoded request ≡ decoded req)
        × (collect_configs no_calls req ≡ ok configs)
        × Pairwise (IsNodeOf read_yaml) configs nodes
        × IsBuildOrder nodes ns req.mode
        × Stores server t "x" 1 req configs ns)
handle_create_build_cases_example =
    handle_create_build_cases outside ranges "x" 1 server (decoded request) ranges-AreRanges

stored-built : lookup "x" stored.1.build_store.builds ≡ some built
unfolding store_build create_build lookup new_memory_build_store
stored-built = refl

stored_code : stored.0.code ≡ 201
unfolding store_build create_build
stored_code = refl

handle_create_build-IsOrderly_example : IsOrderly built.packages
handle_create_build-IsOrderly_example =
    handle_create_build-IsOrderly outside ranges "x" 1 server stored.1 request stored.0 built
      built.packages ranges-AreRanges refl creates stored_code stored-built here

-- A backend at an address that the pool has is a conflict, and the last request adds one.
abbrev managed : Server
managed = record server { pool = pool }

abbrev addition : String → Decoded AddBackendRequest
addition addr = decoded (record { addr = addr; arch = "x86_64"; labels = none })

conflict : (handle_backends managed Method.post "" (addition "a") too_large).0.code ≡ 409
unfolding handle_backends
conflict = refl

handle_backends-Manages_example :
    Manages managed (handle_backends managed Method.post "" (addition "c") too_large)
handle_backends-Manages_example =
    handle_backends-Manages managed Method.post "" (addition "c") too_large pool-IsPool
