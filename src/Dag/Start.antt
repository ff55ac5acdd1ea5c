-- ===== src/Dag/Start.antt =====
-- The state in which the main loop begins: the counted degrees and the queue of the roots.
use melange.Prelude.{
  ℕ, ◌+◌, ◌-◌, ◌≡◌, refl, false, ◌&&◌, List, [], ◌∷◌, none, some, String, arith, if◌then◌else◌,
  ◌==◌, ==_iff, string_eq, contains, Distinct, count_if, keep_if, Bool-cases, inl, inr,
}
use melange.Prelude.Int.{pos, ◌+ℤ◌, eqb_ℤ}
use melange.Prelude.Maps.{Dict, lookup, has_key, IsRange, DistinctKeys}
use melange.Types.{Node}
use melange.Dag.{roots}
use melange.Dag.Counting.{Degrees, count_edges, count_all_edges}
use melange.Dag.Relax.{NamedBy, NamedBy-tail, lookup-cons_self}
use melange.Dag.Edges.{total, done}
use melange.Dag.Loop.{Inv}
use melange.Dag.Sorting.{sort_strings, contains-sort_strings, Distinct-sort_strings}

count_edges_self :
    (m : Dict Node) (name : String) (deps : List String) (d : Degrees) (j : ℕ)
    → d name ≡ pos j
    → count_edges m name deps d name ≡ pos (j + total m deps)
unfolding count_edges count_if
count_edges_self m name [] d j e = ground arith
count_edges_self m name (x ∷ deps) d j e = ground (
  arith,
  ==_iff {A = String} name name,
  count_edges_self m name deps d j,
  count_edges_self m name deps (λ i. if name == i then d name +ℤ pos 1 else d i) (j + 1),
)

count_edges-other :
    (m : Dict Node) (name : String) (deps : List String) (d : Degrees) (k : String)
    → (name == k) ≡ false
    → count_edges m name deps d k ≡ d k
unfolding count_edges
count_edges-other m name [] d k h = refl
count_edges-other m name (x ∷ deps) d k h = ground (
  arith,
  count_edges-other m name deps d k,
  count_edges-other m name deps (λ i. if name == i then d name +ℤ pos 1 else d i) k,
)

count_all-missing :
    (m l : Dict Node) (d : Degrees) (k : String)
    → DistinctKeys l
    → NamedBy l
    → lookup k l ≡ none
    → count_all_edges m l d k ≡ d k
unfolding count_all_edges lookup
count_all-missing m [] d k dist named h = refl
count_all-missing m ((i, n) ∷ l) d k dist named h = ground (
  arith,
  named i n (lookup-cons_self i n l),
  ==_iff {A = String} i k,
  count_all-missing m l (count_edges m n.name n.dependencies d) k dist.1
      (NamedBy-tail i n l dist.0 named),
  count_edges-other m n.name n.dependencies d k,
)

count_all-found :
    (m l : Dict Node) (d : Degrees) (k : String) (n : Node)
    → DistinctKeys l
    → NamedBy l
    → lookup k l ≡ some n
    → d k ≡ pos 0
    → count_all_edges m l d k ≡ pos (total m n.dependencies)
unfolding count_all_edges lookup
count_all-found m [] d k n dist named h z = ground arith
count_all-found m ((i, v) ∷ l) d k n dist named h z =
    let rest = NamedBy-tail i v l dist.0 named in
    let name : v.name ≡ i = named i v (lookup-cons_self i v l) in
    let d' = count_edges m v.name v.dependencies d in
    elim (Bool-cases (i == k)) [
      | inl here ↦
          let ik : i ≡ k = (==_iff {A = String} i k).0 here in
          ground (
            arith,
            count_all-missing m l d' k dist.1 rest,
            count_edges_self m v.name v.dependencies d 0,
          )
      | inr there ↦ ground (
        arith,
        count_all-found m l d' k n dist.1 rest,
        ==_iff {A = String} i k,
        count_edges-other m v.name v.dependencies d k,
      )
    ]

roots-contains :
    (l : Dict Node) (d : Degrees) (k : String)
    → contains (roots l d) k ≡ (has_key l k && eqb_ℤ (d k) (pos 0))
unfolding roots keep_if lookup contains
roots-contains [] d k = refl
roots-contains ((i, n) ∷ l) d k = ground (arith, roots-contains l d k, ==_iff {A = String} i k)

roots-Distinct : (l : Dict Node) (d : Degrees) → DistinctKeys l → Distinct (roots l d)
unfolding roots keep_if
roots-Distinct [] d h = tt
roots-Distinct ((i, n) ∷ l) d h = ground (arith, roots-Distinct l d, roots-contains l d i)

nothing_placed : (k : String) → contains [] k ≡ false
unfolding contains
nothing_placed k = refl

nothing_done : (deps : List String) → done deps [] ≡ 0
unfolding count_if
nothing_done deps = refl

-- Before the first round nothing is placed, and the queue holds the nodes without an edge.
pub start-Inv :
    (m l l' : Dict Node)
    → NamedBy m
    → IsRange m l
    → IsRange m l'
    → Inv m []
        (sort_strings (roots l' (count_all_edges m l (λ _. pos 0))))
        (count_all_edges m l (λ _. pos 0))
start-Inv m l l' named r r' = record {
  degree = degree;
  queue_distinct = Distinct-sort_strings (roots l' d) (roots-Distinct l' d r'.distinct);
  placed_distinct = tt;
  disjoint = λ k h. none_placed k;
  queue_within = λ k h. ground (arith, queue k);
  placed_within = λ k h. ground (arith, none_placed k);
  sound =
      λ k n e h. ground (arith, queue k, none_placed k, degree k n e, none_done n.dependencies, e);
  complete = λ k n e h. ground (arith, queue k, degree k n e, none_done n.dependencies, e);
}
  where
    d : Degrees
    d = count_all_edges m l (λ _. pos 0)

    named_range : NamedBy l
    named_range k n e = named k n (rw (r.same k) at e)

    none_placed : (k : String) → contains [] k ≡ false
    none_placed k = nothing_placed k

    none_done : (deps : List String) → done deps [] ≡ 0
    none_done deps = nothing_done deps

    degree :
        (k : String) (n : Node)
        → lookup k m ≡ some n
        → d k ≡ pos (total m n.dependencies - done n.dependencies [])
    degree k n e = ground (
      arith,
      count_all-found m l (λ _. pos 0) k n r.distinct named_range (rw (r.same k) e) refl,
      none_done n.dependencies,
    )

    queue :
        (k : String) → contains (sort_strings (roots l' d)) k ≡ (has_key m k && eqb_ℤ (d k) (pos 0))
    queue k = ground (arith, contains-sort_strings (roots l' d) k, roots-contains l' d k, r'.same k)
