-- ===== src/Dag/Relax.antt =====
-- One round over the nodes, in any order of the map, takes one edge from each node that depends on
-- the name in front, and puts the nodes that have none left into the queue.
use melange.Prelude.{
  ◌≡◌, refl, Bool, true, false, ◌&&◌, ◌||◌, List, [], ◌∷◌, ◌++◌, Option, none, some, String, arith,
  if◌then◌else◌, ◌==◌, ==_iff, string_eq, contains, Distinct, contains-append, Distinct-snoc,
}
use melange.Prelude.Int.{pos, pred_ℤ, eqb_ℤ}
use melange.Prelude.Maps.{Dict, lookup, DistinctKeys}
use melange.Types.{Node}
use melange.Dag.{visit, relax}
use melange.Dag.Counting.{Degrees}
use melange.Dag.Sorting.{contains-sort_strings, Distinct-sort_strings}

-- Each node stands under its own name.
abbrev pub NamedBy : Dict Node → Type 0
NamedBy m = (k : String) (n : Node) → lookup k m ≡ some n → n.name ≡ k

-- The node, if there is one, depends on `p`.
abbrev pub hit : String → Option Node → Bool
hit p none = false
hit p (some n) = contains n.dependencies p

visit-degree :
    (p : String) (n : Node) (s : List String × Degrees) (k : String)
    → (visit p n s).1 k
      ≡ (if contains n.dependencies p && (n.name == k) then pred_ℤ (s.1 k) else s.1 k)
unfolding visit
visit-degree p n s k = ground (arith, ==_iff {A = String} n.name k)

visit-queue :
    (p : String) (n : Node) (s : List String × Degrees) (k : String)
    → contains (visit p n s).0 k ≡ (
        contains s.0 k
        || (contains n.dependencies p && eqb_ℤ (pred_ℤ (s.1 n.name)) (pos 0) && (n.name == k)))
unfolding visit contains
visit-queue p n s k =
    ground
      (arith, contains-sort_strings (s.0 ++ n.name ∷ []) k, contains-append s.0 (n.name ∷ []) k)

visit-Distinct :
    (p : String) (n : Node) (s : List String × Degrees)
    → Distinct s.0
    → ((contains n.dependencies p && eqb_ℤ (pred_ℤ (s.1 n.name)) (pos 0)) ≡ true
        → contains s.0 n.name ≡ false)
    → Distinct (visit p n s).0
unfolding visit
visit-Distinct p n s d fresh =
    ground (arith, Distinct-sort_strings (s.0 ++ n.name ∷ []), Distinct-snoc s.0 n.name)

pub lookup-cons_self : (k : String) (n : Node) (l : Dict Node) → lookup k ((k, n) ∷ l) ≡ some n
unfolding lookup
lookup-cons_self k n l = ground (arith, ==_iff {A = String} k k)

pub NamedBy-tail :
    (k : String) (n : Node) (l : Dict Node) → lookup k l ≡ none → NamedBy ((k, n) ∷ l) → NamedBy l
unfolding lookup
NamedBy-tail k n l h named j v e = ground (arith, named j v, ==_iff {A = String} k j)

-- The degree of every node of the range, and of no other, falls where there is an edge.
pub relax-degree :
    (p : String) (l : Dict Node) (s : List String × Degrees) (k : String)
    → DistinctKeys l
    → NamedBy l
    → (relax p l s).1 k ≡ (if hit p (lookup k l) then pred_ℤ (s.1 k) else s.1 k)
unfolding relax lookup
relax-degree p [] s k d named = refl
relax-degree p ((i, n) ∷ l) s k d named = ground (
  arith,
  relax-degree p l (visit p n s) k d.1 (NamedBy-tail i n l d.0 named),
  visit-degree p n s k,
  named i n (lookup-cons_self i n l),
  ==_iff {A = String} i k,
  ==_iff {A = String} n.name k,
)

-- What is in the queue after the round.
pub relax-queue :
    (p : String) (l : Dict Node) (s : List String × Degrees) (k : String)
    → DistinctKeys l
    → NamedBy l
    → contains (relax p l s).0 k
      ≡ (contains s.0 k || (hit p (lookup k l) && eqb_ℤ (pred_ℤ (s.1 k)) (pos 0)))
unfolding relax lookup
relax-queue p [] s k d named = ground arith
relax-queue p ((i, n) ∷ l) s k d named = ground (
  arith,
  relax-queue p l (visit p n s) k d.1 (NamedBy-tail i n l d.0 named),
  visit-queue p n s k,
  visit-degree p n s k,
  named i n (lookup-cons_self i n l),
  ==_iff {A = String} i k,
  ==_iff {A = String} n.name k,
)

abbrev pub Fresh : String → Dict Node → List String × Degrees → Type 0
Fresh p l s =
    (k : String)
    → (hit p (lookup k l) && eqb_ℤ (pred_ℤ (s.1 k)) (pos 0)) ≡ true
    → contains s.0 k ≡ false

Fresh-visit :
    (p : String) (i : String) (n : Node) (l : Dict Node) (s : List String × Degrees)
    → lookup i l ≡ none
    → n.name ≡ i
    → Fresh p ((i, n) ∷ l) s
    → Fresh p l (visit p n s)
unfolding lookup
Fresh-visit p i n l s miss e fresh k h = ground (
  arith,
  fresh k,
  visit-queue p n s k,
  visit-degree p n s k,
  ==_iff {A = String} i k,
  ==_iff {A = String} n.name k,
)

-- The queue keeps each name once, if what enters was not in it.
pub relax-Distinct :
    (p : String) (l : Dict Node) (s : List String × Degrees)
    → DistinctKeys l
    → NamedBy l
    → Distinct s.0
    → Fresh p l s
    → Distinct (relax p l s).0
unfolding relax
relax-Distinct p [] s d named q fresh = q
relax-Distinct p ((i, n) ∷ l) s d named q fresh =
    let e : n.name ≡ i = named i n (lookup-cons_self i n l) in
    relax-Distinct p l (visit p n s) d.1 (NamedBy-tail i n l d.0 named)
      (visit-Distinct p n s q (λ h. rw e (fresh i (rw (lookup-cons_self i n l) (rw (← e) h)))))
      (Fresh-visit p i n l s d.0 e fresh)
