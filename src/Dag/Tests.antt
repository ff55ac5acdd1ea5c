-- ===== src/Dag/Tests.antt =====
-- Runs and witnesses for pkg/service/dag/dag.go on two packages, `app` and `lib`.
use melange.Prelude.{
  ℕ, zero, suc, ◌<◌, ◌≡◌, ◌≢◌, refl, ◌⊎◌, true, List, [], ◌∷◌, Option, none, some, String, ok, err,
  arith, if◌then◌else◌, ◌==◌, ==_iff, string_eq, contains, All, inl, inr, subst, Bool-cases,
}
use melange.Prelude.Maps.{Dict, lookup, has_key, IsRange}
use melange.Types.{Node}
use melange.Dag.{
  Graph, sorted, failed, fault, duplicate, cycle, topological_sort, add_node, get_node,
}
use melange.Dag.Edges.{Unrepeated}
use melange.Dag.Order.{
  IsGraph, IsTopological, IsRanked, IsUnrepeated, topological_sort-IsTopological,
  topological_sort_acyclic, topological_sort-Repeated, topological_sort-ne-fault,
}
use melange.Dag.Building.{new_node, add_node_lem}

abbrev app : List String → Node
app deps = new_node "app" "a" deps

abbrev lib : Node
lib = new_node "lib" "l" []

-- `app` names `lib` once, or as often as the list says.
abbrev pair : List String → Graph
pair deps = record { nodes = ("app", app deps) ∷ ("lib", lib) ∷ [] }

abbrev orders : List String → ℕ → Dict Node
orders deps zero = ("lib", lib) ∷ ("app", app deps) ∷ []
orders deps (suc i) = (pair deps).nodes

pair-IsGraph : (deps : List String) → IsGraph (pair deps)
unfolding lookup
pair-IsGraph deps = record {
  named = λ k n e. ground (arith, ==_iff {A = String} "app" k, ==_iff {A = String} "lib" k);
  distinct = (refl, (refl, tt));
}

orders-IsRange : (deps : List String) (i : ℕ) → IsRange (pair deps).nodes (orders deps i)
unfolding lookup
orders-IsRange deps zero = record {
  distinct = (refl, (refl, tt));
  same = λ k. elim (Bool-cases ("app" == k)) [
    | inl hit ↦
        subst (λ j. lookup j (orders deps 0) ≡ lookup j (pair deps).nodes)
          ((==_iff {A = String} "app" k).0 hit) refl
    | inr miss ↦ ground (arith, miss)
  ];
}
orders-IsRange deps (suc i) = record { distinct = (refl, (refl, tt)); same = λ k. refl }

abbrev once : List String
once = "lib" ∷ []

run_once : topological_sort (pair once) (orders once) ≡ sorted (lib ∷ app once ∷ [])
unfolding topological_sort
run_once = refl

topological_sort-IsTopological_example : IsTopological (pair once) (lib ∷ app once ∷ [])
topological_sort-IsTopological_example =
    topological_sort-IsTopological (pair once) (orders once) (pair-IsGraph once)
      (orders-IsRange once) (lib ∷ app once ∷ []) run_once

abbrev depth : String → ℕ
depth k = if k == "app" then 1 else 0

IsRanked-once : IsRanked depth (pair once)
unfolding lookup
IsRanked-once k n e = elim (Bool-cases ("app" == k)) [
  | inl hit ↦
      let deps : once ≡ n.dependencies = ground arith in
      let name : "app" ≡ k = (==_iff {A = String} "app" k).0 hit in
      subst (All (λ dep. has_key (pair once).nodes dep ≡ true → depth dep < depth k)) deps (
        subst (λ j. All (λ dep. has_key (pair once).nodes dep ≡ true → depth dep < depth j) once)
          name (λ h. omega arith, tt))
  | inr miss ↦
      let deps : [] ≡ n.dependencies = ground arith in
      subst (All (λ dep. has_key (pair once).nodes dep ≡ true → depth dep < depth k)) deps tt
]

single_once : IsUnrepeated (pair once)
unfolding lookup contains
single_once k n e = elim (Bool-cases ("app" == k)) [
  | inl hit ↦
      let deps : once ≡ n.dependencies = ground arith in
      subst (Unrepeated (pair once).nodes) deps (λ h. refl, tt)
  | inr miss ↦
      let deps : [] ≡ n.dependencies = ground arith in subst (Unrepeated (pair once).nodes) deps tt
]

topological_sort_acyclic_example :
    (r : List Node) × (topological_sort (pair once) (orders once) ≡ sorted r)
    × IsTopological (pair once) r
unfolding lookup contains
topological_sort_acyclic_example =
    topological_sort_acyclic (pair once) (orders once) (pair-IsGraph once) (orders-IsRange once)
      depth IsRanked-once single_once

topological_sort-Repeated_example :
    (c : Option (List String)) × (topological_sort (pair ("lib" ∷ once)) (orders ("lib" ∷ once))
      ≡ failed (cycle c))
unfolding lookup contains
topological_sort-Repeated_example =
    topological_sort-Repeated (pair ("lib" ∷ once)) (orders ("lib" ∷ once))
      (pair-IsGraph ("lib" ∷ once)) (orders-IsRange ("lib" ∷ once)) "app" (app ("lib" ∷ once)) refl
      (inl (refl, refl))

topological_sort-ne-fault_example : topological_sort (pair once) (orders once) ≢ fault
topological_sort-ne-fault_example =
    topological_sort-ne-fault (pair once) (orders once) (pair-IsGraph once) (orders-IsRange once)

add_node_lem_example :
    ((has_key (pair once).nodes "lib" ≡ true)
      × (add_node (pair once) "lib" "x" [] ≡ err (duplicate "lib")))
    ⊎ ((g' : Graph) × (get_node (pair once) "lib" ≡ none)
        × (add_node (pair once) "lib" "x" [] ≡ ok g')
        × IsGraph g'
        × ((k : String)
            → get_node g' k
              ≡ (if "lib" == k then some (new_node "lib" "x" []) else get_node (pair once) k)))
add_node_lem_example = add_node_lem (pair once) "lib" "x" [] (pair-IsGraph once)
