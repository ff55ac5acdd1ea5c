-- ===== src/Api/Created.antt =====
-- What a request to `createBuild` of pkg/service/api/server.go creates, said without the handler's own
-- functions for the nodes, the packages and the store.
use melange.Prelude.{
  ℕ, ◌≡◌, ◌≢◌, refl, subst, sym, ◌∙◌, ◌⊎◌, ◌↔◌, true, false, ◌||◌, List, [], ◌∷◌, map, Option, some,
  String, Result, ok, arith, ◌==◌, ==_iff, ==_refl, string_eq, contains, Distinct, All, Bool-cases,
  Result-cases, inl, inr,
}
use melange.Prelude.Maps.{Dict, lookup, has_key, lookup-insert}
use melange.Types.{
  Node, BuildMode, BuildStatus, PackageStatus, Build, CreateBuildRequest, PackageJob,
}
use melange.Dag.{Graph, new_graph, get_node}
use melange.Dag.Order.{IsGraph, IsTopological}
use melange.Dag.Building.{new_graph-IsGraph, add_node_lem}
use melange.Store.{create_build, package_of}
use melange.Api.Defs.{Server, Response, Body, Decoded, decoded}
use melange.Api.Create.{
  Outside, ConfigDependencies, parse_config_dependencies, add_nodes, flat_node, collect_configs,
  mode_or_flat, store_build, spec_of, handle_create_build,
}
use melange.Api.Creating.{Fails, AreRanges, IsOrder, create_cases}

-- The lists have one length, and their members correspond.
abbrev pub Pairwise : {A B : Type 0} → (A → B → Type 0) → List A → List B → Type 0
Pairwise R [] [] = Unit
Pairwise R (x ∷ xs) (y ∷ ys) = R x y × Pairwise R xs ys
Pairwise R _ _ = ⊥

-- The node that a configuration stands for.
pub record IsNodeOf (unmarshal : String → Result String ConfigDependencies) (yaml : String)
    (n : Node) : Type 0 where
  pub read : ConfigDependencies
  pub decodes : unmarshal yaml ≡ ok read
  pub nonempty : read.package_name ≢ ""
  pub named : n.name ≡ read.package_name
  pub config : n.config_yaml ≡ yaml
  pub deps : n.dependencies ≡ read.environment_packages

parse_config_dependencies-IsNodeOf :
    (unmarshal : String → Result String ConfigDependencies) (configs : List String)
    (nodes : List Node)
    → parse_config_dependencies unmarshal configs ≡ ok nodes
    → Pairwise (IsNodeOf unmarshal) configs nodes
unfolding parse_config_dependencies
parse_config_dependencies-IsNodeOf unmarshal [] [] e = tt
parse_config_dependencies-IsNodeOf unmarshal [] (n ∷ nodes) e = absurd (ground arith)
parse_config_dependencies-IsNodeOf unmarshal (yaml ∷ configs) nodes e =
    elim (Result-cases (unmarshal yaml)) [
      | inl (x, bad) ↦ absurd (ground arith)
      | inr (cfg, read) ↦ elim (Bool-cases (cfg.package_name == "")) [
        | inl unnamed ↦ absurd (ground arith)
        | inr named ↦ elim (Result-cases (parse_config_dependencies unmarshal configs)) [
          | inl (x, bad) ↦ absurd (ground arith)
          | inr (rest, parsed) ↦
              let n : Node = record {
                name = cfg.package_name;
                config_yaml = yaml;
                dependencies = cfg.environment_packages;
              } in
              let same : n ∷ rest ≡ nodes = ground arith in
              subst (Pairwise (IsNodeOf unmarshal) (yaml ∷ configs)) same (
                record {
                  read = cfg;
                  decodes = read;
                  nonempty = λ e.
                      absurd (ground (arith, named, (==_iff {A = String} cfg.package_name "").1 e));
                  named = refl;
                  config = refl;
                  deps = refl;
                },
                parse_config_dependencies-IsNodeOf unmarshal configs rest parsed,
              )
        ]
      ]
    ]

-- The nodes have different names and are those of the graph.
pub record AreNodesOf (g : Graph) (nodes : List Node) : Type 0 where
  pub distinct : Distinct (map (λ n. n.name) nodes)
  pub within : All (λ n. lookup n.name g.nodes ≡ some n) nodes
  pub covers : (k : String) → has_key g.nodes k ≡ contains (map (λ n. n.name) nodes) k

-- What the nodes add to a graph.
abbrev Adds : Graph → List Node → Graph → Type 0
Adds g ns h =
    Distinct (map (λ n. n.name) ns)
    × All (λ n. lookup n.name h.nodes ≡ some n) ns
    × ((k : String) → contains (map (λ n. n.name) ns) k ≡ true → has_key g.nodes k ≡ false)
    × ((k : String) → has_key h.nodes k ≡ (has_key g.nodes k || contains (map (λ n. n.name) ns) k))
    × ((k : String) (n : Node) → lookup k g.nodes ≡ some n → lookup k h.nodes ≡ some n)

add_nodes-Adds : (ns : List Node) (g h : Graph) → IsGraph g → add_nodes g ns ≡ ok h → Adds g ns h
unfolding add_nodes contains get_node
add_nodes-Adds [] g h v e =
    let same : g ≡ h = ground arith in
    subst (Adds g []) same (tt, tt, λ k f. absurd (ground arith), λ k. ground arith, λ k n f. f)
add_nodes-Adds (n ∷ ns) g h v e = elim (add_node_lem g n.name n.config_yaml n.dependencies v) [
  | inl (_, f) ↦ absurd (ground arith)
  | inr (g', free, f, w, there) ↦
      let (distinct, within, fresh, covers, keeps) = add_nodes-Adds ns g' h w (ground arith) in
      let here : lookup n.name g'.nodes ≡ some n =
        ground (arith, there n.name, ==_refl {A = String} n.name) in
      let missed : contains (map (λ m. m.name) ns) n.name ≡ false =
        ground (arith, fresh n.name, here) in
      (
        (missed, distinct),
        (keeps n.name n here, within),
        λ k c. ground (arith, fresh k, there k, free, c, ==_iff {A = String} n.name k),
        λ k. ground (arith, covers k, there k, ==_iff {A = String} n.name k),
        λ k m q. keeps k m (ground (arith, there k, free, q, ==_iff {A = String} n.name k)),
      )
]

AreNodesOf-add_nodes :
    (nodes : List Node) (g : Graph) → add_nodes new_graph nodes ≡ ok g → AreNodesOf g nodes
unfolding new_graph lookup
AreNodesOf-add_nodes nodes g e =
    let (distinct, within, fresh, covers, keeps) =
      add_nodes-Adds nodes new_graph g new_graph-IsGraph e in
    record { distinct = distinct; within = within; covers = λ k. ground (arith, covers k) }

-- A node without its dependencies.
pub record IsBare (n m : Node) : Type 0 where
  pub named : m.name ≡ n.name
  pub config : m.config_yaml ≡ n.config_yaml
  pub free : m.dependencies ≡ []

map-IsBare : (nodes : List Node) → Pairwise IsBare nodes (map flat_node nodes)
unfolding flat_node
map-IsBare [] = tt
map-IsBare (n ∷ nodes) = (record { named = refl; config = refl; free = refl }, map-IsBare nodes)

-- The nodes of the build: in the mode `dag` a topological order of the graph of the configurations'
-- nodes, and in any other mode those nodes in their order, without dependencies.
pub data IsBuildOrder (nodes ns : List Node) (mode : BuildMode) : Type 0 where
  sorts :
      mode ≡ BuildMode.dag
      → (g : Graph) → AreNodesOf g nodes
      → IsTopological g ns
      → IsBuildOrder nodes ns mode
  keeps : mode ≢ BuildMode.dag → Pairwise IsBare nodes ns → IsBuildOrder nodes ns mode

mode_or_flat-dag : (mode : BuildMode) → (mode_or_flat mode ≡ BuildMode.dag) ↔ (mode ≡ BuildMode.dag)
mode_or_flat-dag mode = ground arith

IsBuildOrder-IsOrder :
    (nodes ns : List Node) (req mode : BuildMode)
    → mode_or_flat req ≡ mode
    → IsOrder nodes ns mode
    → IsBuildOrder nodes ns req
IsBuildOrder-IsOrder nodes ns req mode e (IsOrder.in_dag g added t) =
    IsBuildOrder.sorts ((mode_or_flat-dag req).0 e) g (AreNodesOf-add_nodes nodes g added) t
IsBuildOrder-IsOrder nodes ns req mode e (IsOrder.in_flat m other same) =
    IsBuildOrder.keeps (λ h. other (sym e ∙ (mode_or_flat-dag req).1 h))
      (subst (Pairwise IsBare nodes) (sym same) (map-IsBare nodes))

-- A package that is yet to be built.
pub record IsPackageOf (pipelines : Option (Dict String)) (n : Node) (p : PackageJob) : Type 0 where
  pub named : p.name ≡ n.name
  pub config : p.config_yaml ≡ n.config_yaml
  pub deps : p.dependencies ≡ n.dependencies
  pub status : p.status ≡ PackageStatus.pending
  pub given : p.pipelines ≡ pipelines

map-IsPackageOf :
    (pipelines : Option (Dict String)) (ns : List Node)
    → Pairwise (IsPackageOf pipelines) ns (map (package_of pipelines) ns)
unfolding package_of
map-IsPackageOf pipelines [] = tt
map-IsPackageOf pipelines (n ∷ ns) = (
  record { named = refl; config = refl; deps = refl; status = refl; given = refl },
  map-IsPackageOf pipelines ns,
)

-- The server `t` is `s` with a new build of the nodes, which waits to be scheduled.
pub record Stores (s t : Server) (id : String) (now : ℕ) (req : CreateBuildRequest)
    (configs : List String) (ns : List Node) : Type 0 where
  pub build : Build
  pub stored : lookup id t.build_store.builds ≡ some build
  pub status : build.status ≡ BuildStatus.pending
  pub created : build.created_at ≡ now
  pub given : build.spec.configs ≡ configs
  pub packages : Pairwise (IsPackageOf req.pipelines) ns build.packages
  pub active : has_key t.build_store.active_builds id ≡ true
  pub others : (k : String) → k ≢ id → lookup k t.build_store.builds ≡ lookup k s.build_store.builds
  pub pool : t.pool ≡ s.pool

store_build-Stores :
    (s : Server) (id : String) (now : ℕ) (req : CreateBuildRequest) (configs : List String)
    (ns : List Node)
    → Stores s (store_build s id now req configs ns).1 id now req configs ns
unfolding store_build create_build spec_of
store_build-Stores s id now req configs ns =
    let b : Build = (create_build s.build_store id now ns (spec_of req configs)).0 in
    record {
      build = b;
      stored = ground (arith, lookup-insert id id b s.build_store.builds, ==_refl {A = String} id);
      status = refl;
      created = refl;
      given = refl;
      packages = map-IsPackageOf req.pipelines ns;
      active =
          ground
            (arith, lookup-insert id id tt s.build_store.active_builds, ==_refl {A = String} id);
      others = λ k other. ground (
        arith,
        lookup-insert id k b s.build_store.builds,
        ==_iff {A = String} id k,
        other,
        λ (e : id ≡ k). other (sym e),
      );
      pool = refl;
    }

created_answer :
    (s : Server) (id : String) (now : ℕ) (req : CreateBuildRequest) (configs : List String)
    (ns : List Node)
    → (store_build s id now req configs ns).0
      ≡ record { code = 201; body = Body.created id (map (λ n. n.name) ns) }
unfolding store_build create_build
created_answer s id now req configs ns = refl

-- A request for a build always has an answer: an error response, and the server as it was, or the
-- code 201 with the names of the build's nodes. These come from the nodes of the configurations, each
-- as the YAML decoder reads it: a topological order of their graph in the mode `dag`, and else in
-- their order and without dependencies. The build then waits in the store with a pending package for
-- each node, in this order; the other builds and the pool stay as they were.
pub handle_create_build_cases :
    (out : Outside) (ranges : Graph → ℕ → Dict Node) (id : String) (now : ℕ) (s : Server)
    (body : Decoded CreateBuildRequest)
    → AreRanges ranges
    → ((r : Response) × (handle_create_build out ranges id now s body ≡ some (r, s)) × Fails r)
      ⊎ ((req : CreateBuildRequest) × (configs : List String) × (nodes : List Node) × (ns : List
            Node)
          × (r : Response) × (t : Server) × (handle_create_build out ranges id now s body
              ≡ some (r, t))
          × (r ≡ record { code = 201; body = Body.created id (map (λ n. n.name) ns) })
          × (body ≡ decoded req)
          × (collect_configs out.git req ≡ ok configs)
          × Pairwise (IsNodeOf out.unmarshal) configs nodes
          × IsBuildOrder nodes ns req.mode
          × Stores s t id now req configs ns)
handle_create_build_cases out ranges id now s body each =
    elim (create_cases out ranges id now s body each) [
      | inl failed ↦ inl failed
      | inr (req, configs, nodes, ns, same, e, parsed, order, f) ↦ inr (
        req,
        configs,
        nodes,
        ns,
        (store_build s id now req configs ns).0,
        (store_build s id now req configs ns).1,
        f,
        created_answer s id now req configs ns,
        same,
        e,
        parse_config_dependencies-IsNodeOf out.unmarshal configs nodes parsed,
        IsBuildOrder-IsOrder nodes ns req.mode (mode_or_flat req.mode) refl order,
        store_build-Stores s id now req configs ns,
      )
    ]
