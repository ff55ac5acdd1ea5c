-- ===== src/Dag/Order.antt =====
-- The promises of `TopologicalSort` in pkg/service/dag/dag.go, for every order of the map.
use melange.Prelude.{
  ℕ, zero, suc, ◌+◌, ◌<◌, ◌≡◌, refl, ◌≢◌, ◌⊎◌, true, List, [], ◌∷◌, Option, some, String, arith,
  if◌then◌else◌, contains, Distinct, All, All-map, subst, length, nat_beq, nat_beq_iff,
  Option-cases, Bool-cases, inl, inr, string_eq,
}
use melange.Prelude.Maps.{Dict, lookup, has_key, IsRange, DistinctKeys, keys, contains-keys}
use melange.Types.{Node}
use melange.Dag.{
  Graph, sorted, failed, fault, cycle, size, topological_sort, kahn, start_degrees, roots,
}
use melange.Dag.Relax.{NamedBy}
use melange.Dag.Sorting.{sort_strings}
use melange.Dag.Edges.{Satisfied, Unrepeated, Repeated, done-of-Satisfied, done-lt-total}
use melange.Dag.Start.{start-Inv}
use melange.Dag.Search.{detect_cycle-some}
use melange.Dag.Topological.{
  names, IsOrdered, Done, kahn-Done, unplaced, unplaced_start, unplaced_none, unplaced_all,
}

-- What `AddNode` keeps: each node stands under its name, and each name once.
pub record IsGraph (g : Graph) : Type 0 where
  pub named : NamedBy g.nodes
  pub distinct : DistinctKeys g.nodes

-- A topological order of a graph: its nodes, each once, behind their dependencies.
pub record IsTopological (g : Graph) (result : List Node) : Type 0 where
  pub covers : (k : String) → contains (names result) k ≡ has_key g.nodes k
  pub once : Distinct (names result)
  pub own : All (λ n. lookup n.name g.nodes ≡ some n) result
  pub ordered : IsOrdered g.nodes [] result

-- `rank` puts each dependency that is in the graph below the node that names it.
abbrev pub IsRanked : (String → ℕ) → Graph → Type 0
IsRanked rank g =
    (k : String) (n : Node)
    → lookup k g.nodes ≡ some n
    → All (λ dep. has_key g.nodes dep ≡ true → rank dep < rank k) n.dependencies

abbrev pub Each : Graph → (ℕ → Dict Node) → Type 0
Each g ranges = (i : ℕ) → IsRange g.nodes (ranges i)

-- No node names a dependency in the graph twice.
abbrev pub IsUnrepeated : Graph → Type 0
IsUnrepeated g =
    (k : String) (n : Node) → lookup k g.nodes ≡ some n → Unrepeated g.nodes n.dependencies

lookup-length : (k : String) (n : Node) (m : Dict Node) → lookup k m ≡ some n → 0 < length m
unfolding lookup
lookup-length k n [] e = absurd (ground arith)
lookup-length k n (x ∷ m) e = omega arith

nil_covers : (m : Dict Node) (k : String) → length m ≡ 0 → contains [] k ≡ has_key m k
unfolding contains lookup
nil_covers [] k e = refl
nil_covers (x ∷ m) k e = absurd (omega arith)

IsTopological-nil : (g : Graph) → size g ≡ 0 → IsTopological g []
unfolding size contains lookup
IsTopological-nil g e = record {
  covers = λ k. nil_covers g.nodes k e;
  once = tt;
  own = tt;
  ordered = tt;
}

Done-IsTopological :
    (g : Graph) (r : List Node)
    → Done g.nodes r
    → unplaced g.nodes (names r) ≡ 0
    → IsTopological g r
Done-IsTopological g r d e = record {
  covers = λ k. elim (Bool-cases (has_key g.nodes k)) [
    | inl known ↦ rw (known, unplaced_none g.nodes (names r) k e known) refl
    | inr unknown ↦ elim (Bool-cases (contains (names r) k)) [
      | inl placed ↦ absurd (ground (arith, d.inv.placed_within k placed))
      | inr absent ↦ rw (unknown, absent) refl
    ]
  ];
  once = d.inv.placed_distinct;
  own = d.own;
  ordered = d.ordered;
}

module _ (g : Graph) (ranges : ℕ → Dict Node) (ok_graph : IsGraph g) (each : Each g ranges) where
  -- The loop as `TopologicalSort` starts it.
  run_loop :
      (r : List Node) × (kahn
          (size g)
          g
          ranges
          2
          (sort_strings (roots (ranges 1) (start_degrees g (ranges 0))))
          (start_degrees g (ranges 0))
          []
        ≡ some r)
      × Done g.nodes r
  unfolding start_degrees size
  run_loop =
      kahn-Done g ranges ok_graph.named ok_graph.distinct each (size g) 2
        (sort_strings (roots (ranges 1) (start_degrees g (ranges 0)))) (start_degrees g (ranges 0))
        [] (omega (arith, unplaced_start g.nodes))
        (start-Inv g.nodes (ranges 0) (ranges 1) ok_graph.named (each 0) (each 1)) tt tt
        (omega (arith, unplaced_start g.nodes))

  range_keys : (i : ℕ) (k : String) → contains (keys (ranges i)) k ≡ true → has_key g.nodes k ≡ true
  range_keys i k h = ground (arith, contains-keys (ranges i) k, (each i).same k)

  -- The answer of the sort, by whether the loop placed every node.
  pub sort_cases :
      ((size g ≡ 0) × (topological_sort g ranges ≡ sorted []))
      ⊎ ((r : List Node) × (c : Option (List String)) × Done g.nodes r
          × (topological_sort g ranges
              ≡ (if nat_beq (length r) (size g) then sorted r else failed (cycle c))))
  unfolding topological_sort
  sort_cases = elim (Bool-cases (nat_beq (size g) 0)) [
    | inl empty ↦ inl ((nat_beq_iff _ _).0 empty, rw empty)
    | inr full ↦
        let (r, e, d) = run_loop in
        let (c, reported) =
          detect_cycle-some g.nodes (keys (ranges (2 + size g))) (range_keys (2 + size g)) in
        inr (r, c, d, rw (full, e, reported) refl)
  ]

  -- In every order of the map, a sort that returns a list returns a topological order of the graph:
  -- its nodes, each once, behind their dependencies in the graph.
  pub topological_sort-IsTopological :
      (result : List Node) → topological_sort g ranges ≡ sorted result → IsTopological g result
  unfolding size
  topological_sort-IsTopological result e = elim sort_cases [
    | inl (empty, s) ↦ subst (IsTopological g) (ground arith) (IsTopological-nil g empty)
    | inr (r, c, d, s) ↦ elim (Bool-cases (nat_beq (length r) (size g))) [
      | inl whole ↦
          subst (IsTopological g) (ground arith)
            (Done-IsTopological g r d (omega (arith, (nat_beq_iff _ _).0 whole, d.counted)))
      | inr part ↦ absurd (ground arith)
    ]
  ]

  -- With acyclic dependencies, none named twice, every node is placed.
  all_placed :
      (rank : String → ℕ)
      → IsRanked rank g
      → IsUnrepeated g
      → (r : List Node) → Done g.nodes r
      → (b : ℕ) (k : String) → rank k < b
      → has_key g.nodes k ≡ true
      → contains (names r) k ≡ true
  unfolding contains
  all_placed rank ranked once r d zero k lt h = elim lt [ ]
  all_placed rank ranked once r d (suc b) k lt h =
      let lower = all_placed rank ranked once r d b in
      elim (Option-cases (lookup k g.nodes)) [
        | inl miss ↦ absurd (ground arith)
        | inr (n, e) ↦
            let filled : Satisfied g.nodes (names r) n.dependencies =
              All-map _ _ n.dependencies (λ dep f q. lower dep (omega (arith, f q)) q)
                (ranked k n e) in
            ground (
              arith,
              d.inv.complete k n e (
                  done-of-Satisfied g.nodes n.dependencies (names r) d.inv.placed_distinct
                    d.inv.placed_within (once k n e) filled),
            )
      ]

  -- A graph without cycles, in which no node names a dependency in the graph twice, is sorted into a
  -- topological order, in every order of the map.
  pub topological_sort_acyclic :
      (rank : String → ℕ)
      → IsRanked rank g
      → IsUnrepeated g
      → (r : List Node) × (topological_sort g ranges ≡ sorted r) × IsTopological g r
  unfolding size
  topological_sort_acyclic rank ranked once = elim sort_cases [
    | inl (empty, s) ↦ ([], s, IsTopological-nil g empty)
    | inr (r, c, d, s) ↦
        let none_left : unplaced g.nodes (names r) ≡ 0 =
          unplaced_all g.nodes (names r) ok_graph.distinct
            (λ k h. all_placed rank ranked once r d (suc (rank k)) k (omega arith) h) in
        let whole : length r ≡ size g = omega (arith, d.counted) in
        (r, rw (s, (nat_beq_iff _ _).1 whole) refl, Done-IsTopological g r d none_left)
  ]

  -- A node that names a dependency in the graph twice makes the sort report a cycle, in every order
  -- of the map and whether or not there is one.
  pub topological_sort-Repeated :
      (k : String) (n : Node)
      → lookup k g.nodes ≡ some n
      → Repeated g.nodes n.dependencies
      → (c : Option (List String)) × (topological_sort g ranges ≡ failed (cycle c))
  unfolding contains size
  topological_sort-Repeated k n e twice = elim sort_cases [
    | inl (empty, s) ↦ absurd (omega (arith, lookup-length k n g.nodes e))
    | inr (r, c, d, s) ↦ (
      c,
      elim (Bool-cases (nat_beq (length r) (size g))) [
        | inl whole ↦ absurd (
            omega (
              arith,
              done-lt-total g.nodes n.dependencies (names r) d.inv.placed_distinct
                  d.inv.placed_within twice,
              d.inv.sound k n e (
                  unplaced_none g.nodes (names r) k
                    (omega (arith, d.counted, (nat_beq_iff _ _).0 whole)) (rw (e, has_key) refl)),
            ))
        | inr part ↦ rw (s, part) refl
      ],
    )
  ]

  -- In every order of the map, the sort of a well-formed graph ends in a list or in an error: neither
  -- its loop nor the search for a cycle runs out of fuel or meets a name without a node.
  pub topological_sort-ne-fault : topological_sort g ranges ≢ fault
  topological_sort-ne-fault e = elim sort_cases [
    | inl (empty, s) ↦ absurd (ground arith)
    | inr (r, c, d, s) ↦ absurd (ground arith)
  ]
