-- ===== src/Dag/Loop.antt =====
-- The invariant of the main loop of Kahn's algorithm, and what one round keeps of it.
use melange.Prelude.{
  ℕ, zero, suc, ◌+◌, ◌-◌, ◌<◌, ◌≡◌, refl, sym, true, false, ◌&&◌, ◌||◌, List, [], ◌∷◌, ◌++◌, some,
  String, arith, if◌then◌else◌, ==_iff, string_eq, contains, Distinct, count_if, count_if-append,
  contains-append, Distinct-snoc, ◌≢◌, ◌⊎◌, inl, inr, Option-cases, Bool-cases,
}
use melange.Prelude.Int.{pos, pred_ℤ, eqb_ℤ}
use melange.Prelude.Maps.{Dict, lookup, has_key, IsRange}
use melange.Types.{Node}
use melange.Dag.{relax}
use melange.Dag.Counting.{Degrees}
use melange.Dag.Relax.{NamedBy, hit, Fresh, relax-degree, relax-queue, relax-Distinct}
use melange.Dag.Edges.{total, done, Within, done-le-total}

-- `placed` are the names of the result so far.
pub record Inv (m : Dict Node) (placed queue : List String) (d : Degrees) : Type 0 where
  pub degree :
      (k : String) (n : Node)
      → lookup k m ≡ some n
      → d k ≡ pos (total m n.dependencies - done n.dependencies placed)
  pub queue_distinct : Distinct queue
  pub placed_distinct : Distinct placed
  pub disjoint : (k : String) → contains queue k ≡ true → contains placed k ≡ false
  pub queue_within : Within queue m
  pub placed_within : Within placed m
  pub sound :
      (k : String) (n : Node)
      → lookup k m ≡ some n
      → (contains queue k || contains placed k) ≡ true
      → done n.dependencies placed ≡ total m n.dependencies
  pub complete :
      (k : String) (n : Node)
      → lookup k m ≡ some n
      → done n.dependencies placed ≡ total m n.dependencies
      → (contains queue k || contains placed k) ≡ true

pred_pos : (j : ℕ) → 0 < j → pred_ℤ (pos j) ≡ pos (j - 1)
pred_pos zero h = elim h [ ]
pred_pos (suc j) h = ground arith

pub done-snoc :
    (deps placed : List String) (p : String)
    → done deps (placed ++ p ∷ []) ≡ done deps placed + (if contains deps p then 1 else 0)
unfolding count_if
done-snoc deps placed p = omega (arith, count_if-append (contains deps) placed (p ∷ []))

module _ (m l : Dict Node) (named : NamedBy m) (r : IsRange m l) (placed queue : List String)
    (p : String) (d : Degrees) (inv : Inv m placed (p ∷ queue) d) where
  named_range : NamedBy l
  named_range k n e = named k n (rw (r.same k) at e)

  pub fresh_p : contains placed p ≡ false
  unfolding contains
  fresh_p = inv.disjoint p (ground (arith, ==_iff {A = String} p p))

  placed_distinct' : Distinct (placed ++ p ∷ [])
  placed_distinct' = Distinct-snoc placed p inv.placed_distinct fresh_p

  pub p_within : has_key m p ≡ true
  unfolding contains
  p_within = inv.queue_within p (ground (arith, ==_iff {A = String} p p))

  placed-Within' : Within (placed ++ p ∷ []) m
  unfolding contains
  placed-Within' k h = ground (
    arith,
    contains-append placed (p ∷ []) k,
    inv.placed_within k,
    ==_iff {A = String} p k,
    p_within,
  )

  -- A node with an edge from `p` had an edge left.
  edge_left :
      (n : Node)
      → contains n.dependencies p ≡ true
      → done n.dependencies placed < total m n.dependencies
  edge_left n h = ground (
    arith,
    done-snoc n.dependencies placed p,
    done-le-total m n.dependencies (placed ++ p ∷ []) placed_distinct' placed-Within',
  )

  degree_after :
      (k : String) → (relax p l (queue, d)).1 k ≡ (if hit p (lookup k m) then pred_ℤ (d k) else d k)
  degree_after k = rw (← r.same k) (relax-degree p l (queue, d) k r.distinct named_range)

  queue_after :
      (k : String)
      → contains (relax p l (queue, d)).0 k
        ≡ (contains queue k || (hit p (lookup k m) && eqb_ℤ (pred_ℤ (d k)) (pos 0)))
  queue_after k = rw (← r.same k) (relax-queue p l (queue, d) k r.distinct named_range)

  degree' :
      (k : String) (n : Node)
      → lookup k m ≡ some n
      → (relax p l (queue, d)).1 k
        ≡ pos (total m n.dependencies - done n.dependencies (placed ++ p ∷ []))
  degree' k n e = ground (
    arith,
    degree_after k,
    inv.degree k n e,
    done-snoc n.dependencies placed p,
    edge_left n,
    pred_pos (total m n.dependencies - done n.dependencies placed),
  )

  -- A node whose edges were not all gone is neither in the queue nor placed.
  not_queued :
      (k : String) (n : Node)
      → lookup k m ≡ some n
      → contains n.dependencies p ≡ true
      → (contains queue k ≡ false) × (contains placed k ≡ false) × (k ≢ p)
  unfolding contains
  not_queued k n e h = (
    ground (arith, inv.sound k n e, edge_left n h),
    ground (arith, inv.sound k n e, edge_left n h),
    λ q. ground (arith, inv.sound k n e, edge_left n h, ==_iff {A = String} p k, q),
  )

  fresh : Fresh p l (queue, d)
  fresh k h = elim (Option-cases (lookup k l)) [
    | inl miss ↦ ground arith
    | inr (n, e) ↦ ground (arith, not_queued k n (rw (r.same k) at e), e)
  ]

  queued_cases :
      (k : String)
      → contains (relax p l (queue, d)).0 k ≡ true
      → (contains queue k ≡ true)
        ⊎ ((n : Node) × (lookup k m ≡ some n)
            × (contains n.dependencies p ≡ true)
            × (eqb_ℤ (pred_ℤ (d k)) (pos 0) ≡ true))
  queued_cases k h = elim (Option-cases (lookup k m)) [
    | inl miss ↦ inl (ground (arith, queue_after k))
    | inr (n, e) ↦ elim (Bool-cases (contains queue k)) [
      | inl old ↦ inl old
      | inr new ↦ inr (n, e, ground (arith, queue_after k, e), ground (arith, queue_after k, e))
    ]
  ]

  disjoint' :
      (k : String)
      → contains (relax p l (queue, d)).0 k ≡ true
      → contains (placed ++ p ∷ []) k ≡ false
  unfolding contains
  disjoint' k h =
      let (off, q) = inv.queue_distinct in
      elim (queued_cases k h) [
        | inl old ↦
            ground (
              arith,
              contains-append placed (p ∷ []) k,
              inv.disjoint k,
              ==_iff {A = String} p k,
              off,
            )
        | inr (n, e, edge, z) ↦
            let (a, b, c) = not_queued k n e edge in
            ground (
              arith,
              contains-append placed (p ∷ []) k,
              ==_iff {A = String} p k,
              b,
              λ (q : p ≡ k). c (sym q),
            )
      ]

  queue-Within' : Within (relax p l (queue, d)).0 m
  unfolding contains
  queue-Within' k h = elim (queued_cases k h) [
    | inl old ↦ inv.queue_within k (ground arith)
    | inr (n, e, edge, z) ↦ rw (e, has_key) refl
  ]

  sound' :
      (k : String) (n : Node)
      → lookup k m ≡ some n
      → (contains (relax p l (queue, d)).0 k || contains (placed ++ p ∷ []) k) ≡ true
      → done n.dependencies (placed ++ p ∷ []) ≡ total m n.dependencies
  unfolding contains
  sound' k n e h = ground (
    arith,
    queue_after k,
    e,
    contains-append placed (p ∷ []) k,
    inv.degree k n e,
    done-snoc n.dependencies placed p,
    edge_left n,
    inv.sound k n e,
    pred_pos (total m n.dependencies - done n.dependencies placed),
    not_queued k n e,
    ==_iff {A = String} p k,
  )

  complete' :
      (k : String) (n : Node)
      → lookup k m ≡ some n
      → done n.dependencies (placed ++ p ∷ []) ≡ total m n.dependencies
      → (contains (relax p l (queue, d)).0 k || contains (placed ++ p ∷ []) k) ≡ true
  unfolding contains
  complete' k n e h = ground (
    arith,
    queue_after k,
    e,
    contains-append placed (p ∷ []) k,
    inv.degree k n e,
    done-snoc n.dependencies placed p,
    edge_left n,
    inv.complete k n e,
    pred_pos (total m n.dependencies - done n.dependencies placed),
  )

  -- A round keeps the invariant.
  pub round-Inv : Inv m (placed ++ p ∷ []) (relax p l (queue, d)).0 (relax p l (queue, d)).1
  round-Inv = record {
    degree = degree';
    queue_distinct =
        relax-Distinct p l (queue, d) r.distinct named_range inv.queue_distinct.1 fresh;
    placed_distinct = placed_distinct';
    disjoint = disjoint';
    queue_within = queue-Within';
    placed_within = placed-Within';
    sound = sound';
    complete = complete';
  }
