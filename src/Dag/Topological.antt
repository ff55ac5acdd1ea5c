-- ===== src/Dag/Topological.antt =====
-- What `TopologicalSort` returns, against a description of a topological order.
use melange.Prelude.{
  ℕ, zero, suc, ◌+◌, ◌≤◌, ◌≡◌, refl, true, false, ◌||◌, not, List, [], ◌∷◌, ◌++◌, none, some,
  String, arith, ==_iff, string_eq, contains, count_if, map, Option-cases, inl, inr, All, length,
  length-append, contains-append,
}
use mathlib.Core.List.{map-append, append_assoc, append-nil}
use melange.Prelude.Maps.{Dict, lookup, has_key, IsRange, DistinctKeys}
use melange.Types.{Node}
use melange.Dag.{Graph, kahn, get_node, relax}
use melange.Dag.Counting.{Degrees}
use melange.Dag.Relax.{NamedBy}
use melange.Dag.Edges.{Satisfied, Satisfied-of-done}
use melange.Dag.Loop.{Inv, round-Inv, p_within, fresh_p}

abbrev pub names : List Node → List String
names = map (λ n. n.name)

-- Behind the names `seen`, every node comes after its dependencies that are in the graph.
abbrev pub IsOrdered : Dict Node → List String → List Node → Type 0
IsOrdered m seen [] = Unit {0}
IsOrdered m seen (n ∷ ns) = Satisfied m seen n.dependencies × IsOrdered m (seen ++ n.name ∷ []) ns

IsOrdered-snoc :
    (m : Dict Node) (seen : List String) (ns : List Node) (n : Node)
    → IsOrdered m seen ns
    → Satisfied m (seen ++ names ns) n.dependencies
    → IsOrdered m seen (ns ++ n ∷ [])
IsOrdered-snoc m seen [] n o s = (rw append-nil at s, tt)
IsOrdered-snoc m seen (x ∷ ns) n o s =
    (o.0, IsOrdered-snoc m (seen ++ x.name ∷ []) ns n o.1 (rw append_assoc s))

-- How many nodes are not placed yet.
pub unplaced : Dict Node → List String → ℕ
unplaced m placed = count_if (λ e. not (contains placed e.0)) m

unplaced-other :
    (m : Dict Node) (placed : List String) (p : String)
    → lookup p m ≡ none
    → unplaced m (placed ++ p ∷ []) ≡ unplaced m placed
unfolding unplaced count_if lookup contains
unplaced-other [] placed p h = refl
unplaced-other ((k, n) ∷ m) placed p h = ground (
  arith,
  unplaced-other m placed p,
  contains-append placed (p ∷ []) k,
  ==_iff {A = String} p k,
  ==_iff {A = String} k p,
)

unplaced-snoc :
    (m : Dict Node) (placed : List String) (p : String)
    → DistinctKeys m
    → has_key m p ≡ true
    → contains placed p ≡ false
    → suc (unplaced m (placed ++ p ∷ [])) ≡ unplaced m placed
unfolding unplaced count_if lookup contains
unplaced-snoc [] placed p d h f = ground arith
unplaced-snoc ((k, n) ∷ m) placed p d h f = ground (
  arith,
  unplaced-snoc m placed p d.1,
  unplaced-other m placed p,
  contains-append placed (p ∷ []) k,
  ==_iff {A = String} p k,
  ==_iff {A = String} k p,
)

pub unplaced_start : (m : Dict Node) → unplaced m [] ≡ length m
unfolding unplaced count_if contains
unplaced_start [] = refl
unplaced_start (e ∷ m) = omega (arith, unplaced_start m)

-- Nothing is left to place exactly when every name is placed.
pub unplaced_none :
    (m : Dict Node) (placed : List String) (k : String)
    → unplaced m placed ≡ 0
    → has_key m k ≡ true
    → contains placed k ≡ true
unfolding unplaced count_if lookup
unplaced_none [] placed k u h = ground arith
unplaced_none ((j, n) ∷ m) placed k u h =
    ground (arith, unplaced_none m placed k, ==_iff {A = String} j k)

pub unplaced_all :
    (m : Dict Node) (placed : List String)
    → DistinctKeys m
    → ((k : String) → has_key m k ≡ true → contains placed k ≡ true)
    → unplaced m placed ≡ 0
unfolding unplaced count_if lookup
unplaced_all [] placed d h = refl
unplaced_all ((j, n) ∷ m) placed d h =
    let here = h j in
    ground (
      arith,
      here,
      ==_iff {A = String} j j,
      unplaced_all m placed d.1
          (λ k q. let there = h k in ground (arith, there, ==_iff {A = String} j k)),
    )

-- What holds of the result at the end of the loop.
pub record Done (m : Dict Node) (result : List Node) : Type 0 where
  pub degrees : Degrees
  pub inv : Inv m (names result) [] degrees
  pub own : All (λ n. lookup n.name m ≡ some n) result
  pub ordered : IsOrdered m [] result
  pub counted : length result + unplaced m (names result) ≡ length m

names-snoc :
    (result : List Node) (n : Node) (p : String)
    → n.name ≡ p
    → names (result ++ n ∷ []) ≡ names result ++ p ∷ []
names-snoc result n p e = rw (← e) (map-append (λ v. v.name) result (n ∷ []))

All-snoc :
    {A : Type 0} (P : A → Type 0) (xs : List A) (a : A) → All P xs → P a → All P (xs ++ a ∷ [])
All-snoc P [] a h p = (p, tt)
All-snoc P (x ∷ xs) a h p = (h.0, All-snoc P xs a h.1 p)

queued-has_node :
    (g : Graph) (placed queue : List String) (p : String) (d : Degrees)
    → Inv g.nodes placed (p ∷ queue) d
    → (n : Node) × (lookup p g.nodes ≡ some n)
unfolding contains
queued-has_node g placed queue p d inv =
    let known : has_key g.nodes p ≡ true =
      inv.queue_within p (ground (arith, ==_iff {A = String} p p)) in
    elim (Option-cases (lookup p g.nodes)) [ inl miss ↦ absurd (ground arith) | inr found ↦ found ]

queued_now :
    (placed queue : List String) (p : String) → (contains (p ∷ queue) p || contains placed p) ≡ true
unfolding contains
queued_now placed queue p = ground (arith, ==_iff {A = String} p p)

module _ (g : Graph) (ranges : ℕ → Dict Node) (named : NamedBy g.nodes)
    (dist : DistinctKeys g.nodes) (each : (i : ℕ) → IsRange g.nodes (ranges i)) where
  -- The loop ends with the fuel of the nodes not placed, and never at a name without a node.
  pub kahn-Done :
      (fuel i : ℕ) (queue : List String) (d : Degrees) (result : List Node)
      → unplaced g.nodes (names result) ≤ fuel
      → Inv g.nodes (names result) queue d
      → All (λ n. lookup n.name g.nodes ≡ some n) result
      → IsOrdered g.nodes [] result
      → length result + unplaced g.nodes (names result) ≡ length g.nodes
      → (r : List Node) × (kahn fuel g ranges i queue d result ≡ some r) × Done g.nodes r
  unfolding kahn get_node
  kahn-Done zero i [] d result few inv own ordered counted = (
    result,
    refl,
    record { degrees = d; inv = inv; own = own; ordered = ordered; counted = counted },
  )
  kahn-Done (suc fuel) i [] d result few inv own ordered counted = (
    result,
    refl,
    record { degrees = d; inv = inv; own = own; ordered = ordered; counted = counted },
  )
  kahn-Done zero i (p ∷ queue) d result few inv own ordered counted = absurd (
      omega (
        arith,
        unplaced-snoc g.nodes (names result) p dist
            (p_within g.nodes (ranges i) named (each i) (names result) queue p d inv)
            (fresh_p g.nodes (ranges i) named (each i) (names result) queue p d inv),
      ))
  kahn-Done (suc fuel) i (p ∷ queue) d result few inv own ordered counted =
      let (n, e) = queued-has_node g (names result) queue p d inv in
      let name : n.name ≡ p = named p n e in
      let longer = names-snoc result n p name in
      let fewer =
        unplaced-snoc g.nodes (names result) p dist
          (p_within g.nodes (ranges i) named (each i) (names result) queue p d inv)
          (fresh_p g.nodes (ranges i) named (each i) (names result) queue p d inv) in
      rw (e, get_node, kahn)
        (kahn-Done fuel (suc i) (relax p (ranges i) (queue, d)).0 (relax p (ranges i) (queue, d)).1
          (result ++ n ∷ []) (rw longer (omega (arith, fewer)))
          (rw longer (round-Inv g.nodes (ranges i) named (each i) (names result) queue p d inv))
          (All-snoc _ result n own (rw name e))
          (IsOrdered-snoc g.nodes [] result n ordered (
            Satisfied-of-done g.nodes n.dependencies (names result) inv.placed_distinct
              inv.placed_within (inv.sound p n e (queued_now (names result) queue p))))
          (rw longer (omega (arith, fewer, length-append result (n ∷ [])))))
