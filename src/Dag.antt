-- ===== src/Dag.antt =====
-- pkg/service/dag/dag.go: the dependency graph of a build and Kahn's algorithm over it. Each `range`
-- over the map of nodes may visit it in another order, so the i-th such statement that runs takes
-- its order from `ranges i`.
mod Sorting
mod Counting
mod Cycle
mod Paths
mod Search
mod Relax
mod Loop
mod Start
mod Topological
pub mod Order
pub mod Building
pub mod Reported
mod Edges
mod Tests
use melange.Prelude.{
  ℕ, zero, suc, ◌+◌, Bool, true, false, List, [], ◌∷◌, ◌++◌, map, Option, none, some, String,
  Result, ok, err, if◌then◌else◌, ◌==◌, string_eq, contains, keep_if, length, nat_beq, not,
}
use melange.Prelude.Int.{pos, pred_ℤ, eqb_ℤ}
use melange.Prelude.Maps.{Dict, lookup, insert, has_key, keys}
use melange.Types.{Node}
use Sorting.{sort_strings}
use Counting.{Degrees, set_degree, count_all_edges}
use Cycle.{detect_cycle}

pub record Graph : Type 0 where
  pub nodes : Dict Node

pub data GraphError : Type 0 where
  duplicate : String → GraphError
  cycle : Option (List String) → GraphError

unfoldable pub new_graph : Graph
new_graph = record { nodes = [] }

unfoldable pub add_node : Graph → String → String → List String → Result GraphError Graph
unfolding lookup insert
add_node g name config_yaml deps =
    if has_key g.nodes name
    then err (duplicate name)
    else ok (record {
      nodes =
          insert name (record { name = name; config_yaml = config_yaml; dependencies = deps })
            g.nodes;
    })

unfoldable pub get_node : Graph → String → Option Node
unfolding lookup
get_node g name = lookup name g.nodes

unfoldable pub size : Graph → ℕ
size g = length g.nodes

-- The nodes with no edge left, in the order of a `range` over `inDegree`.
unfoldable pub roots : Dict Node → Degrees → List String
unfolding keep_if
roots range d = keep_if (λ k. eqb_ℤ (d k) (pos 0)) (keys range)

-- What an iteration of the loop over the nodes does to one node: an edge from `name` goes, and a
-- node with no edge left enters the queue.
unfoldable pub visit : String → Node → List String × Degrees → List String × Degrees
unfolding sort_strings contains
visit name n (queue, d) =
    let left = pred_ℤ (d n.name) in
    if contains n.dependencies name
    then (
      if eqb_ℤ left (pos 0) then sort_strings (queue ++ n.name ∷ []) else queue,
      set_degree d n.name left,
    )
    else (queue, d)

unfoldable pub relax : String → Dict Node → List String × Degrees → List String × Degrees
unfolding visit
relax name [] s = s
relax name ((k, n) ∷ range) s = relax name range (visit name n s)

-- The main loop. `none` is a fault: the fuel ran out, or the name in front has no node.
unfoldable pub kahn :
    ℕ → Graph → (ℕ → Dict Node) → ℕ → List String → Degrees → List Node → Option (List Node)
unfolding relax get_node
kahn fuel g ranges i [] d result = some result
kahn zero g ranges i (name ∷ queue) d result = none
kahn (suc fuel) g ranges i (name ∷ queue) d result = elim (get_node g name) [
  | none ↦ none
  | some n ↦
      let (queue', d') = relax name (ranges i) (queue, d) in
      kahn fuel g ranges (suc i) queue' d' (result ++ n ∷ [])
]

unfoldable pub start_degrees : Graph → Dict Node → Degrees
unfolding count_all_edges
start_degrees g range = count_all_edges g.nodes range (λ _. pos 0)

-- A sort ends in a list, in an error, or in a fault of `kahn` or of `detect_cycle`.
pub data Outcome : Type 0 where
  sorted : List Node → Outcome
  failed : GraphError → Outcome
  fault : Outcome

unfoldable pub topological_sort : Graph → (ℕ → Dict Node) → Outcome
unfolding start_degrees roots kahn detect_cycle size
topological_sort g ranges =
    if nat_beq (size g) 0
    then sorted []
    else let d = start_degrees g (ranges 0) in
      elim (kahn (size g) g ranges 2 (sort_strings (roots (ranges 1) d)) d []) [
        | none ↦ fault
        | some result ↦
            if nat_beq (length result) (size g)
            then sorted result
            else elim (detect_cycle g.nodes (keys (ranges (2 + size g)))) [
              | none ↦ fault
              | some c ↦ failed (cycle c)
            ]
      ]

unfoldable pub filter_in_graph_deps : Graph → List String → List String
unfolding keep_if lookup
filter_in_graph_deps g deps = keep_if (has_key g.nodes) deps

-- The loop over a node's dependencies stops at the first one that is in the graph.
unfoldable pub ready : Dict Node → List String → Bool
unfolding lookup
ready m [] = true
ready m (dep ∷ deps) = if has_key m dep then false else ready m deps

unfoldable pub buildable_names : Dict Node → Dict Node → List String
unfolding ready
buildable_names m [] = []
buildable_names m ((k, n) ∷ range) =
    if ready m n.dependencies then n.name ∷ buildable_names m range else buildable_names m range

unfoldable pub get_buildable_paths : Graph → Dict Node → List String
unfolding buildable_names sort_strings
get_buildable_paths g range = sort_strings (buildable_names g.nodes range)
