-- ===== src/Api/Creating.antt =====
-- What `createBuild` of pkg/service/api/server.go does to the store, on every path.
use melange.Prelude.{
  ℕ, ◌≡◌, ◌≢◌, refl, subst, ◌⊎◌, false, List, [], ◌∷◌, map, some, String, Result, ok, err, arith,
  string_eq, length, nat_beq, Distinct, ==_refl, Bool-cases, inl, inr, ◌≤◌,
}
use melange.Prelude.Maps.{Dict, IsRange, lookup, insert, lookup-insert}
use melange.Types.{Node, BuildMode, Build, CreateBuildRequest, PackageJob}
use melange.Dag.{Graph, GraphError, new_graph, Outcome, sorted, failed, fault, topological_sort}
use melange.Dag.Order.{
  IsGraph, IsTopological, topological_sort-IsTopological, topological_sort-ne-fault,
}
use melange.Dag.Building.{new_graph-IsGraph, add_node_lem}
use melange.Store.{Store, create_build}
use melange.Git.{Calls}
use melange.Scheduler.Order.{Reach, IsOrderly, create_build-IsOrderly}
use melange.Api.Defs.{
  Server, Response, Problem, ConfigError, Decoded, decoded, too_large, malformed, fails,
}
use melange.Api.Create.{
  Outside, parse_config_dependencies, add_nodes, flat_node, collect_configs, mode_or_flat,
  order_nodes, spec_of, store_build, handle_create_build,
}

-- A response with the code of an error.
abbrev pub Fails : Response → Type 0
Fails r = 400 ≤ r.code

collect_configs-Fails :
    (calls : Calls) (req : CreateBuildRequest) (r : Response)
    → collect_configs calls req ≡ err r
    → Fails r
unfolding collect_configs
collect_configs-Fails calls req r e = ground arith

pub add_nodes-IsGraph :
    (ns : List Node) (g g' : Graph) → IsGraph g → add_nodes g ns ≡ ok g' → IsGraph g'
unfolding add_nodes
add_nodes-IsGraph [] g g' v e = let same : g ≡ g' = ground arith in subst IsGraph same v
add_nodes-IsGraph (n ∷ ns) g g' v e = elim (add_node_lem g n.name n.config_yaml n.dependencies v) [
  | inl (_, f) ↦ absurd (ground arith)
  | inr (h, _, f, w, _) ↦ add_nodes-IsGraph ns h g' w (ground arith)
]

-- The orders of the maps are orders of the maps.
abbrev pub AreRanges : (Graph → ℕ → Dict Node) → Type 0
AreRanges ranges = (g : Graph) (i : ℕ) → IsRange g.nodes (ranges g i)

-- The nodes of the build: in the mode `dag` a topological order of the graph of the request's nodes,
-- and else the request's nodes without dependencies.
pub data IsOrder (nodes : List Node) (ns : List Node) : BuildMode → Type 0 where
  in_dag :
      (g : Graph)
      → add_nodes new_graph nodes ≡ ok g
      → IsTopological g ns
      → IsOrder nodes ns BuildMode.dag
  in_flat :
      (mode : BuildMode) → mode ≢ BuildMode.dag → ns ≡ map flat_node nodes → IsOrder nodes ns mode

order_nodes_cases :
    (mode : BuildMode) (nodes : List Node) (ranges : Graph → ℕ → Dict Node)
    → AreRanges ranges
    → ((r : Response) × (order_nodes mode nodes ranges ≡ some (err r)) × Fails r)
      ⊎ ((ns : List Node) × (order_nodes mode nodes ranges ≡ some (ok ns)) × IsOrder nodes ns mode)
unfolding order_nodes
order_nodes_cases BuildMode.unset nodes ranges each =
    inr (map flat_node nodes, refl, IsOrder.in_flat BuildMode.unset (λ e. cc) refl)
order_nodes_cases BuildMode.flat nodes ranges each =
    inr (map flat_node nodes, refl, IsOrder.in_flat BuildMode.flat (λ e. cc) refl)
order_nodes_cases (BuildMode.other text) nodes ranges each =
    inr (map flat_node nodes, refl, IsOrder.in_flat (BuildMode.other text) (λ e. cc) refl)
order_nodes_cases BuildMode.dag nodes ranges each = go (add_nodes new_graph nodes) refl
  where
    sorts :
        (g : Graph)
        → add_nodes new_graph nodes ≡ ok g
        → (o : Outcome) → topological_sort g (ranges g) ≡ o
        → ((r : Response) × (order_nodes BuildMode.dag nodes ranges ≡ some (err r)) × Fails r)
          ⊎ ((ns : List Node) × (order_nodes BuildMode.dag nodes ranges ≡ some (ok ns))
              × IsOrder nodes ns BuildMode.dag)
    sorts g added (sorted ns) e = inr (
      ns,
      rw (added, e, order_nodes) refl,
      IsOrder.in_dag g added (
          topological_sort-IsTopological g (ranges g)
            (add_nodes-IsGraph nodes new_graph g new_graph-IsGraph added) (each g) ns e),
    )
    sorts g added (failed x) e =
        inl (fails 400 (Problem.dependency_failed x), rw (added, e, order_nodes) refl, omega arith)
    sorts g added fault e = absurd (
        topological_sort-ne-fault g (ranges g)
          (add_nodes-IsGraph nodes new_graph g new_graph-IsGraph added) (each g) e)

    go :
        (a : Result GraphError Graph)
        → add_nodes new_graph nodes ≡ a
        → ((r : Response) × (order_nodes BuildMode.dag nodes ranges ≡ some (err r)) × Fails r)
          ⊎ ((ns : List Node) × (order_nodes BuildMode.dag nodes ranges ≡ some (ok ns))
              × IsOrder nodes ns BuildMode.dag)
    go (err x) e = inl (fails 400 (Problem.graph_failed x), rw (e, order_nodes) refl, omega arith)
    go (ok g) e = sorts g e (topological_sort g (ranges g)) refl

-- The outcomes of the handler, by the functions that it calls.
pub create_cases :
    (out : Outside) (ranges : Graph → ℕ → Dict Node) (id : String) (now : ℕ) (s : Server)
    (body : Decoded CreateBuildRequest)
    → AreRanges ranges
    → ((r : Response) × (handle_create_build out ranges id now s body ≡ some (r, s)) × Fails r)
      ⊎ ((req : CreateBuildRequest) × (configs : List String) × (nodes : List Node) × (ns : List
            Node)
          × (body ≡ decoded req)
          × (collect_configs out.git req ≡ ok configs)
          × (parse_config_dependencies out.unmarshal configs ≡ ok nodes)
          × IsOrder nodes ns (mode_or_flat req.mode)
          × (handle_create_build out ranges id now s body
              ≡ some (store_build s id now req configs ns)))
unfolding handle_create_build
create_cases out ranges id now s too_large each =
    inl (fails 413 Problem.body_too_large, refl, omega arith)
create_cases out ranges id now s (malformed e) each =
    inl (fails 400 (Problem.invalid_body e), refl, omega arith)
create_cases out ranges id now s (decoded req) each = collected (collect_configs out.git req) refl
  where
    Outcomes : Type 0
    Outcomes =
        ((r : Response) × (handle_create_build out ranges id now s (decoded req) ≡ some (r, s))
          × Fails r)
        ⊎ ((req' : CreateBuildRequest) × (configs : List String) × (nodes : List Node) × (ns : List
              Node)
            × (decoded req ≡ decoded req')
            × (collect_configs out.git req' ≡ ok configs)
            × (parse_config_dependencies out.unmarshal configs ≡ ok nodes)
            × IsOrder nodes ns (mode_or_flat req'.mode)
            × (handle_create_build out ranges id now s (decoded req)
                ≡ some (store_build s id now req' configs ns)))

    parsed :
        (configs : List String)
        → collect_configs out.git req ≡ ok configs
        → nat_beq (length configs) 0 ≡ false
        → (p : Result ConfigError (List Node)) → parse_config_dependencies out.unmarshal configs ≡ p
        → Outcomes
    parsed configs e some_configs (err x) f = inl (
      fails 400 (Problem.parse_failed x),
      rw (e, some_configs, f, handle_create_build) refl,
      omega arith,
    )
    parsed configs e some_configs (ok nodes) f =
        elim (order_nodes_cases (mode_or_flat req.mode) nodes ranges each) [
          | inl (r, g, bad) ↦ inl (r, rw (e, some_configs, f, g, handle_create_build) refl, bad)
          | inr (ns, g, order) ↦ inr (
            req,
            configs,
            nodes,
            ns,
            refl,
            e,
            f,
            order,
            rw (e, some_configs, f, g, handle_create_build) refl,
          )
        ]

    collected : (c : Result Response (List String)) → collect_configs out.git req ≡ c → Outcomes
    collected (err r) e =
        inl (r, rw (e, handle_create_build) refl, collect_configs-Fails out.git req r e)
    collected (ok configs) e = elim (Bool-cases (nat_beq (length configs) 0)) [
      | inl empty ↦
          inl (fails 400 Problem.no_configs, rw (e, empty, handle_create_build) refl, omega arith)
      | inr some_configs ↦
          parsed configs e some_configs (parse_config_dependencies out.unmarshal configs) refl
    ]

IsOrder-Distinct :
    (nodes ns : List Node) (mode : BuildMode)
    → IsOrder nodes ns mode
    → mode ≡ BuildMode.dag
    → Distinct (map (λ n. n.name) ns)
IsOrder-Distinct nodes ns mode (IsOrder.in_dag g e t) h = t.once
IsOrder-Distinct nodes ns mode (IsOrder.in_flat m ne e) h = absurd (ne h)

-- In a build that a request in the mode `dag` creates, whatever the store and the scheduler then do
-- to its packages, each package that runs, succeeded or failed has only dependencies that are outside
-- the build or have succeeded.
pub handle_create_build-IsOrderly :
    (out : Outside) (ranges : Graph → ℕ → Dict Node) (id : String) (now : ℕ) (s s' : Server)
    (req : CreateBuildRequest) (r : Response) (b : Build) (qs : List PackageJob)
    → AreRanges ranges
    → req.mode ≡ BuildMode.dag
    → handle_create_build out ranges id now s (decoded req) ≡ some (r, s')
    → r.code ≡ 201
    → lookup id s'.build_store.builds ≡ some b
    → Reach b.packages qs
    → IsOrderly qs
unfolding store_build create_build
handle_create_build-IsOrderly out ranges id now s s' req r b qs each dag e code found reach =
    elim (create_cases out ranges id now s (decoded req) each) [
      | inl (r', f, bad) ↦ absurd (ground arith)
      | inr (req', configs, nodes, ns, same, _, _, order, f) ↦
          let mode : mode_or_flat req'.mode ≡ BuildMode.dag = ground arith in
          let built : Build × Store = create_build s.build_store id now ns (spec_of req' configs) in
          let store : s'.build_store.builds ≡ insert id built.0 s.build_store.builds =
            ground arith in
          let here : b ≡ built.0 = ground (
            arith,
            store,
            lookup-insert id id built.0 s.build_store.builds,
            ==_refl {A = String} id,
          ) in
          create_build-IsOrderly s.build_store id now ns (spec_of req' configs) qs
            (IsOrder-Distinct nodes ns (mode_or_flat req'.mode) order mode)
            (subst (λ x. Reach x.packages qs) here reach)
    ]
