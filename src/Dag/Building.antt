-- ===== src/Dag/Building.antt =====
-- `NewGraph`, `AddNode`, `GetNode` and the two queries of pkg/service/dag/dag.go.
use melange.Prelude.{
  ◌≡◌, refl, ◌↔◌, Bool, true, false, List, [], ◌∷◌, Option, none, some, String, ok, err, arith,
  if◌then◌else◌, ◌==◌, ==_iff, string_eq, contains, Option-cases, inl, inr, All, subst, ◌⊎◌,
}
use melange.Prelude.Maps.{
  Dict, lookup, insert, has_key, IsRange, DistinctKeys, lookup-insert, insert-DistinctKeys,
}
use melange.Types.{Node}
use melange.Dag.{
  Graph, duplicate, new_graph, add_node, get_node, get_buildable_paths, buildable_names, ready,
}
use melange.Dag.Relax.{NamedBy, NamedBy-tail, lookup-cons_self}
use melange.Dag.Sorting.{contains-sort_strings}
use melange.Dag.Order.{IsGraph}

abbrev pub new_node : String → String → List String → Node
new_node name yaml deps = record { name = name; config_yaml = yaml; dependencies = deps }

pub new_graph-IsGraph : IsGraph new_graph
unfolding new_graph lookup
new_graph-IsGraph = record { named = λ k n e. absurd (ground arith); distinct = tt }

-- On a well-formed graph `AddNode` succeeds exactly for a new name, adds that node and no other, and
-- keeps the graph well formed; for a name in use it reports the duplicate.
pub add_node_lem :
    (g : Graph) (name yaml : String) (deps : List String)
    → IsGraph g
    → ((has_key g.nodes name ≡ true) × (add_node g name yaml deps ≡ err (duplicate name)))
      ⊎ ((g' : Graph) × (get_node g name ≡ none)
          × (add_node g name yaml deps ≡ ok g')
          × IsGraph g'
          × ((k : String)
              → get_node g' k
                ≡ (if name == k then some (new_node name yaml deps) else get_node g k)))
unfolding add_node get_node
add_node_lem g name yaml deps v = elim (Option-cases (lookup name g.nodes)) [
  | inl free ↦ inr (
    record { nodes = insert name (new_node name yaml deps) g.nodes },
    free,
    rw (free, has_key) refl,
    record {
      named = λ k n e. ground (
        arith,
        lookup-insert name k (new_node name yaml deps) g.nodes,
        v.named k n,
        ==_iff {A = String} name k,
      );
      distinct = insert-DistinctKeys name (new_node name yaml deps) g.nodes v.distinct;
    },
    λ k. lookup-insert name k (new_node name yaml deps) g.nodes,
  )
  | inr (n, e) ↦ inl (rw (e, has_key) refl, rw (e, has_key) refl)
]

-- A name is buildable exactly when it is a node none of whose dependencies is in the graph.
ready_iff :
    (m : Dict Node) (deps : List String)
    → (ready m deps ≡ true) ↔ All (λ dep. has_key m dep ≡ false) deps
unfolding ready
ready_iff m [] = (λ h. tt, λ h. refl)
ready_iff m (x ∷ deps) =
    let (f, b) = ready_iff m deps in
    (λ h. (ground arith, f (ground arith)), λ h. let r = b h.1 in ground arith)

abbrev ready_node : Dict Node → Option Node → Bool
ready_node m none = false
ready_node m (some n) = ready m n.dependencies

contains-buildable_names :
    (m l : Dict Node) (k : String)
    → DistinctKeys l
    → NamedBy l
    → contains (buildable_names m l) k ≡ ready_node m (lookup k l)
unfolding buildable_names contains lookup
contains-buildable_names m [] k d named = refl
contains-buildable_names m ((i, n) ∷ l) k d named = ground (
  arith,
  contains-buildable_names m l k d.1 (NamedBy-tail i n l d.0 named),
  named i n (lookup-cons_self i n l),
  ==_iff {A = String} i k,
  ==_iff {A = String} n.name k,
)

-- `GetBuildablePaths` lists, for every order of the map, exactly the nodes that depend on no node of
-- the graph.
pub get_buildable_paths_iff :
    (g : Graph) (range : Dict Node) (k : String)
    → IsGraph g
    → IsRange g.nodes range
    → (contains (get_buildable_paths g range) k ≡ true) ↔ (
        (n : Node) × (get_node g k ≡ some n)
        × All (λ dep. has_key g.nodes dep ≡ false) n.dependencies)
unfolding get_buildable_paths get_node
get_buildable_paths_iff g range k v r =
    let named : NamedBy range = λ j n e. v.named j n (rw (r.same j) at e) in
    let found = contains-buildable_names g.nodes range k r.distinct named in
    let sorted = contains-sort_strings (buildable_names g.nodes range) k in
    rw (sorted, found, r.same k)
      (elim (Option-cases (lookup k g.nodes)) [
        | inl miss ↦ rw miss (λ h. absurd (ground arith), λ (n, e, a). absurd (ground arith))
        | inr (n, e) ↦ rw e (
          λ h. (n, refl, (ready_iff g.nodes n.dependencies).0 h),
          λ (n', e', a).
              let same : n' ≡ n = ground arith in
              (ready_iff g.nodes n.dependencies).1 (
                subst (λ (v : Node). All (λ dep. has_key g.nodes dep ≡ false) v.dependencies) same
                  a),
        )
      ])
