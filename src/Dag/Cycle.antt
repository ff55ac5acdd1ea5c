-- ===== src/Dag/Cycle.antt =====
-- `DetectCycle` of pkg/service/dag/dag.go: a depth-first search, with the path that it reports.
-- The fuel of each part is one more than the number of nodes: a call marks a node that was not
-- visited, and the chain of parents goes through visited nodes. `none` is a fault.
use melange.Prelude.{
  ℕ, zero, suc, Bool, true, false, List, [], ◌∷◌, Option, none, some, String, if◌then◌else◌, ◌==◌,
  string_eq, length, nat_beq,
}
use melange.Prelude.Maps.{Dict, lookup, has_key}
use melange.Types.{Node}

-- `state` is 0 for a node not visited, 1 for one in the current path, and 2 for one that is done.
pub record Dfs : Type 0 where
  pub state : String → ℕ
  pub parent : String → Option String
  pub cycle_path : List String

abbrev pub set_state : Dfs → String → ℕ → Dfs
set_state s k v = record s { state = λ j. if k == j then v else s.state j }

abbrev pub set_parent : Dfs → String → String → Dfs
set_parent s k p = record s { parent = λ j. if k == j then some p else s.parent j }

-- The reconstruction of the path: parents are put in front until `dep` is reached.
unfoldable pub walk_back :
    ℕ → (String → Option String) → String → String → List String → Option (List String)
walk_back zero parent dep cur path = none
walk_back (suc fuel) parent dep cur path = elim (cur == dep) [
  | true ↦ some path
  | false ↦ elim (parent cur) [ none ↦ some path | some p ↦ walk_back fuel parent dep p (p ∷ path) ]
]

-- The loop over the dependencies of `name`; `rec` is the recursive call.
unfoldable pub visit_deps :
    ℕ
    → Dict Node
    → (String → Dfs → Option (Bool × Dfs))
    → String
    → List String
    → Dfs
    → Option (Bool × Dfs)
unfolding lookup walk_back
visit_deps fuel m rec name [] s = some (false, set_state s name 2)
visit_deps fuel m rec name (dep ∷ deps) s =
    let rest = visit_deps fuel m rec name deps in
    if has_key m dep
    then if nat_beq (s.state dep) 1
      then elim (walk_back fuel s.parent dep name (dep ∷ name ∷ [])) [
        | none ↦ none
        | some path ↦ some (true, record s { cycle_path = path })
      ]
      else if nat_beq (s.state dep) 0
      then elim (rec dep (set_parent s dep name)) [
        | none ↦ none
        | some (found, s') ↦ if found then some (true, s') else rest s'
      ]
      else rest s
    else rest s

unfoldable pub dfs : ℕ → ℕ → Dict Node → String → Dfs → Option (Bool × Dfs)
unfolding visit_deps lookup
dfs fuel zero m name s = none
dfs fuel (suc depth) m name s = elim (lookup name m) [
  | none ↦ none
  | some n ↦
      visit_deps fuel m (λ dep. dfs fuel depth m dep) name n.dependencies (set_state s name 1)
]

unfoldable pub search_all : ℕ → Dict Node → List String → Dfs → Option (Option (List String))
unfolding dfs
search_all fuel m [] s = some none
search_all fuel m (name ∷ names) s =
    let rest = search_all fuel m names in
    if nat_beq (s.state name) 0
    then elim (dfs fuel fuel m name s) [
      | none ↦ none
      | some (found, s') ↦ if found then some (some s'.cycle_path) else rest s'
    ]
    else rest s

-- The keys of the map, in the order of the `range`. The answer is the path, if there is a cycle.
unfoldable pub detect_cycle : Dict Node → List String → Option (Option (List String))
unfolding search_all
detect_cycle m names =
    search_all (suc (length m)) m names
      (record { state = λ _. 0; parent = λ _. none; cycle_path = [] })
