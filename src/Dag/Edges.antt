-- ===== src/Dag/Edges.antt =====
-- Counting edges: how many of a node's dependencies are in the graph, and how many of its edges are
-- gone once some names are placed.
use melange.Prelude.{
  ℕ, ◌+◌, ◌≤◌, ◌<◌, ◌≡◌, refl, true, false, List, [], ◌∷◌, String, arith, if◌then◌else◌, ==_iff,
  string_eq, contains, Distinct, count_if, ◌⊎◌, inl, inr, All,
}
use melange.Prelude.Maps.{Dict, has_key}
use melange.Types.{Node}

-- The occurrences of dependencies that are in the graph.
abbrev pub total : Dict Node → List String → ℕ
total m deps = count_if (has_key m) deps

-- The placed names that the node depends on.
abbrev pub done : List String → List String → ℕ
done deps placed = count_if (contains deps) placed

-- The occurrences of dependencies that are placed.
abbrev pub occ : List String → List String → ℕ
occ deps placed = count_if (contains placed) deps

done-nil : (placed : List String) → done [] placed ≡ 0
unfolding count_if contains
done-nil [] = refl
done-nil (p ∷ ps) = omega (arith, done-nil ps)

-- A repeated dependency adds no edge that can go.
done-cons :
    (x : String) (deps placed : List String)
    → Distinct placed
    → done (x ∷ deps) placed
      ≡ (if contains deps x then 0 else if contains placed x then 1 else 0) + done deps placed
unfolding count_if contains
done-cons x deps [] d = ground arith
done-cons x deps (p ∷ ps) d =
    ground (arith, done-cons x deps ps d.1, ==_iff {A = String} x p, ==_iff {A = String} p x)

abbrev pub Within : List String → Dict Node → Type 0
Within placed m = (k : String) → contains placed k ≡ true → has_key m k ≡ true

-- No more edges go than there are.
pub done-le-total :
    (m : Dict Node) (deps placed : List String)
    → Distinct placed
    → Within placed m
    → done deps placed ≤ total m deps
unfolding count_if
done-le-total m [] placed d w = omega (arith, done-nil placed)
done-le-total m (x ∷ deps) placed d w =
    ground (arith, done-cons x deps placed d, done-le-total m deps placed d w, w x)

-- Every dependency that is in the graph is placed.
abbrev pub Satisfied : Dict Node → List String → List String → Type 0
Satisfied m placed deps = All (λ dep. has_key m dep ≡ true → contains placed dep ≡ true) deps

-- When all edges of a node are gone, its dependencies are placed.
pub Satisfied-of-done :
    (m : Dict Node) (deps placed : List String)
    → Distinct placed
    → Within placed m
    → done deps placed ≡ total m deps
    → Satisfied m placed deps
unfolding count_if
Satisfied-of-done m [] placed d w e = tt
Satisfied-of-done m (x ∷ deps) placed d w e = (
  λ h. ground (arith, done-cons x deps placed d, done-le-total m deps placed d w),
  Satisfied-of-done m deps placed d w
      (ground (arith, done-cons x deps placed d, done-le-total m deps placed d w, w x)),
)

-- A node names no dependency that is in the graph twice.
abbrev pub Unrepeated : Dict Node → List String → Type 0
Unrepeated m [] = Unit {0}
Unrepeated m (x ∷ deps) = (has_key m x ≡ true → contains deps x ≡ false) × Unrepeated m deps

-- Without repetition the converse holds.
pub done-of-Satisfied :
    (m : Dict Node) (deps placed : List String)
    → Distinct placed
    → Within placed m
    → Unrepeated m deps
    → Satisfied m placed deps
    → done deps placed ≡ total m deps
unfolding count_if
done-of-Satisfied m [] placed d w u s = done-nil placed
done-of-Satisfied m (x ∷ deps) placed d w u s =
    let h0 = u.0 in
    let h1 = s.0 in
    ground (
      arith,
      done-cons x deps placed d,
      done-of-Satisfied m deps placed d w u.1 s.1,
      w x,
      h0,
      h1,
      done-le-total m deps placed d w,
    )

-- A node names some dependency that is in the graph twice.
abbrev pub Repeated : Dict Node → List String → Type 0
Repeated m [] = ⊥
Repeated m (x ∷ deps) = ((has_key m x ≡ true) × (contains deps x ≡ true)) ⊎ Repeated m deps

-- A node with a repeated dependency keeps an edge for ever.
pub done-lt-total :
    (m : Dict Node) (deps placed : List String)
    → Distinct placed
    → Within placed m
    → Repeated m deps
    → done deps placed < total m deps
unfolding count_if
done-lt-total m [] placed d w r = absurd r
done-lt-total m (x ∷ deps) placed d w (inl r) =
    ground (arith, done-cons x deps placed d, done-le-total m deps placed d w, w x)
done-lt-total m (x ∷ deps) placed d w (inr r) =
    ground (arith, done-cons x deps placed d, done-lt-total m deps placed d w r, w x)
