-- ===== src/Api/Create.antt =====
-- The creation of a build: `createBuild` and `parseConfigDependencies`.
use melange.Prelude.{
  ℕ, List, [], ◌∷◌, Option, none, some, String, Result, ok, err, if◌then◌else◌, ◌==◌, string_eq,
  length, nat_beq, map,
}
use melange.Prelude.Maps.{Dict}
use melange.Types.{Node, BuildMode, BuildSpec, Build, CreateBuildRequest}
use melange.Dag.{Graph, GraphError, new_graph, add_node, sorted, failed, fault, topological_sort}
use melange.Store.{create_build, list_builds}
use melange.Git.{Calls, validate_source, new_source_from_git_source, load_configs}
use melange.Api.Defs.{
  Server, Response, Body, Problem, Method, ConfigError, yaml_error, missing_package_name, Decoded,
  decoded, too_large, malformed, fails, answers,
}

-- What the YAML decoder reads of a configuration.
pub record ConfigDependencies : Type 0 where
  pub package_name : String
  pub environment_packages : List String

-- The code outside the server that the handler calls.
pub record Outside : Type 0 where
  pub unmarshal : String → Result String ConfigDependencies
  pub git : Calls

unfoldable pub parse_config_dependencies :
    (String → Result String ConfigDependencies) → List String → Result ConfigError (List Node)
parse_config_dependencies unmarshal [] = ok []
parse_config_dependencies unmarshal (yaml ∷ configs) =
    let rest = parse_config_dependencies unmarshal configs in
    elim (unmarshal yaml) [
      | err e ↦ err (yaml_error e)
      | ok cfg ↦ if cfg.package_name == "" then err missing_package_name else elim rest [
        | err e ↦ err e
        | ok nodes ↦ ok (
            record {
              name = cfg.package_name;
              config_yaml = yaml;
              dependencies = cfg.environment_packages;
            }
            ∷ nodes)
      ]
    ]

-- The loop that adds the nodes to the graph.
unfoldable pub add_nodes : Graph → List Node → Result GraphError Graph
unfolding add_node
add_nodes g [] = ok g
add_nodes g (n ∷ ns) = elim (add_node g n.name n.config_yaml n.dependencies) [
  | err e ↦ err e
  | ok g' ↦ add_nodes g' ns
]

unfoldable pub flat_node : Node → Node
flat_node n = record n { dependencies = [] }

-- The configurations of a request, or the response to a request without any.
unfoldable pub collect_configs : Calls → CreateBuildRequest → Result Response (List String)
unfolding validate_source new_source_from_git_source load_configs
collect_configs calls req = elim req.git_source [
  | some g ↦ elim (validate_source (some g)) [
    | some e ↦ err (fails 400 (Problem.invalid_git_source e))
    | none ↦ elim (new_source_from_git_source (some g)) [
      | none ↦ ok []
      | some source ↦ elim (load_configs calls source) [
        | err e ↦ err (fails 400 (Problem.git_failed e))
        | ok configs ↦ ok configs
      ]
    ]
  ]
  | none ↦
      if nat_beq (length req.configs) 0
      then if req.config_yaml == ""
        then err (fails 400 Problem.source_required)
        else ok (req.config_yaml ∷ [])
      else ok req.configs
]

abbrev pub mode_or_flat : BuildMode → BuildMode
mode_or_flat BuildMode.unset = BuildMode.flat
mode_or_flat m = m

-- The nodes in the order of the build: any mode but `dag` is treated as `flat`. The answer is none at a fault of the sort.
unfoldable pub order_nodes :
    BuildMode → List Node → (Graph → ℕ → Dict Node) → Option (Result Response (List Node))
unfolding add_nodes topological_sort new_graph flat_node
order_nodes BuildMode.dag nodes ranges = elim (add_nodes new_graph nodes) [
  | err e ↦ some (err (fails 400 (Problem.graph_failed e)))
  | ok g ↦ elim (topological_sort g (ranges g)) [
    | sorted ns ↦ some (ok ns)
    | failed e ↦ some (err (fails 400 (Problem.dependency_failed e)))
    | fault ↦ none
  ]
]
order_nodes _ nodes ranges = some (ok (map flat_node nodes))

unfoldable pub spec_of : CreateBuildRequest → List String → BuildSpec
spec_of req configs = record {
  configs = configs;
  git_source = req.git_source;
  pipelines = req.pipelines;
  source_files = req.source_files;
  arch = req.arch;
  backend_selector = req.backend_selector;
  with_test = req.with_test;
  debug = req.debug;
  mode = mode_or_flat req.mode;
  env = req.env;
}

-- The end of the handler: the build enters the store.
unfoldable pub store_build :
    Server → String → ℕ → CreateBuildRequest → List String → List Node → Response × Server
unfolding create_build spec_of
store_build s id now req configs nodes =
    let (build, t) = create_build s.build_store id now nodes (spec_of req configs) in
    (
      record { code = 201; body = Body.created build.id (map (λ n. n.name) nodes) },
      record s { build_store = t },
    )

-- `ranges` gives the orders in which the sort of a graph visits its nodes, and `id` and `now` are what
-- the store draws. The answer is none at a fault of the sort.
unfoldable pub handle_create_build :
    Outside
    → (Graph → ℕ → Dict Node)
    → String
    → ℕ
    → Server
    → Decoded CreateBuildRequest
    → Option (Response × Server)
unfolding collect_configs parse_config_dependencies order_nodes store_build
handle_create_build out ranges id now s too_large = some (fails 413 Problem.body_too_large, s)
handle_create_build out ranges id now s (malformed e) = some (fails 400 (Problem.invalid_body e), s)
handle_create_build out ranges id now s (decoded req) = elim (collect_configs out.git req) [
  | err r ↦ some (r, s)
  | ok configs ↦
      if nat_beq (length configs) 0
      then some (fails 400 Problem.no_configs, s)
      else elim (parse_config_dependencies out.unmarshal configs) [
        | err e ↦ some (fails 400 (Problem.parse_failed e), s)
        | ok nodes ↦ elim (order_nodes (mode_or_flat req.mode) nodes ranges) [
          | none ↦ none
          | some (err r) ↦ some (r, s)
          | some (ok ns) ↦ some (store_build s id now req configs ns)
        ]
      ]
]

unfoldable pub handle_list_builds : Server → Dict Build → Response
unfolding list_builds
handle_list_builds s range = answers (Body.build_list (list_builds s.build_store range))

unfoldable pub handle_builds :
    Outside
    → (Graph → ℕ → Dict Node)
    → Dict Build
    → String
    → ℕ
    → Server
    → Method
    → Decoded CreateBuildRequest
    → Option (Response × Server)
unfolding handle_create_build handle_list_builds
handle_builds out ranges range id now s Method.post req =
    handle_create_build out ranges id now s req
handle_builds out ranges range id now s Method.get req = some (handle_list_builds s range, s)
handle_builds out ranges range id now s _ req = some (fails 405 Problem.method_not_allowed, s)
