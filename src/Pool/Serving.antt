-- ===== src/Pool/Serving.antt =====
-- Which backends of pkg/service/buildkit/pool.go may take a job, said without the filters of `Select`,
-- and that the filters let exactly these through.
use melange.Prelude.{
  sym, ℕ, ◌≡◌, ◌≢◌, refl, true, false, [], ◌∷◌, none, some, arith, All, Bool-cases, Option-cases,
  inl, inr, String, Option, ◌⊎◌, ◌↔◌, ◌==◌, ==_iff, string_eq,
}
use melange.Prelude.Int.{ℤ, pos, negsuc, eqb_ℤ, leb_ℤ, ltb_ℤ, sub_ℕ}
use melange.Prelude.Maps.{Dict, lookup}
use melange.Pool.Defs.{Backend, BackendState, Pool, effective_max}
use melange.Pool.Choice.{Candidate, label, matches_selector, excluded, consider}
use melange.Pool.Equivalence.{IsEligible}

-- The label of a backend has the value that the selector asks for; a missing label reads as empty.
abbrev pub HasLabel : Option (Dict String) → String → String → Type 0
HasLabel none k v = v ≡ ""
HasLabel (some m) k v = (lookup k m ≡ some v) ⊎ ((lookup k m ≡ none) × (v ≡ ""))

-- The breaker lets jobs pass: it is closed, or the recovery timeout has passed since the last failure.
abbrev pub Admits : ℤ → ℕ → BackendState → Type 0
Admits timeout now s =
    (s.circuit_open ≡ false)
    ⊎ ((t : ℕ) → s.last_failure ≡ some t → ltb_ℤ (sub_ℕ now t) timeout ≡ false)

-- The limit of a backend: its own, and the pool's default where its own is 0.
abbrev pub IsLimit : Pool → Backend → ℤ → Type 0
IsLimit p b max =
    ((b.max_jobs ≡ pos 0) × (max ≡ p.default_max_jobs))
    ⊎ ((b.max_jobs ≢ pos 0) × (max ≡ b.max_jobs))

-- A backend that may take a job at the time `now`: it has the architecture and the labels, the pool
-- tracks it, its breaker lets jobs pass, and it has a free slot.
pub record Serves (p : Pool) (arch : String) (selector : Dict String) (now : ℕ) (b : Backend)
    : Type 0 where
  pub right_arch : b.arch ≡ arch
  pub labelled : All (λ e. HasLabel b.labels e.0 e.1) selector
  pub state : BackendState
  pub tracked : lookup b.addr p.state ≡ some state
  pub admitted : Admits p.recovery_timeout now state
  pub max_jobs : ℤ
  pub limit : IsLimit p b max_jobs
  pub has_room : ltb_ℤ state.active_jobs max_jobs ≡ true

is_zero : (a : ℤ) → (eqb_ℤ a (pos 0) ≡ true) ↔ (a ≡ pos 0)
is_zero (pos n) = ground arith
is_zero (negsuc n) = ground arith

effective_max-IsLimit : (p : Pool) (b : Backend) → IsLimit p b (effective_max p.default_max_jobs b)
effective_max-IsLimit p b = elim (Bool-cases (eqb_ℤ b.max_jobs (pos 0))) [
  | inl unset ↦ inl ((is_zero b.max_jobs).0 unset, rw unset refl)
  | inr own ↦ inr (λ e. absurd (ground (arith, (is_zero b.max_jobs).1 e)), rw own refl)
]

pub IsLimit-effective_max :
    (p : Pool) (b : Backend) (max : ℤ) → IsLimit p b max → max ≡ effective_max p.default_max_jobs b
IsLimit-effective_max p b max (inl (unset, e)) = rw ((is_zero b.max_jobs).1 unset) e
IsLimit-effective_max p b max (inr (own, e)) = elim (Bool-cases (eqb_ℤ b.max_jobs (pos 0))) [
  | inl unset ↦ absurd (own ((is_zero b.max_jobs).0 unset))
  | inr other ↦ rw other e
]

ltb_ℤ-leb_ℤ : (a b : ℤ) → (leb_ℤ a b ≡ false) ↔ (ltb_ℤ b a ≡ true)
ltb_ℤ-leb_ℤ a b = ground arith

label-HasLabel :
    (labels : Option (Dict String)) (k v : String) → (label labels k ≡ v) ↔ HasLabel labels k v
unfolding label
label-HasLabel none k v = (λ e. sym e, λ e. sym e)
label-HasLabel (some m) k v = elim (Option-cases (lookup k m)) [
  | inl miss ↦ (
    λ e. inr (miss, ground (arith, miss)),
    λ h. elim h [ inl hit ↦ absurd (ground arith) | inr (_, empty) ↦ ground (arith, miss) ],
  )
  | inr (w, found) ↦ (
    λ e. inl (ground (arith, found)),
    λ h. elim h [ inl hit ↦ ground (arith, found) | inr (gone, _) ↦ absurd (ground arith) ],
  )
]

matches_selector-HasLabel :
    (labels : Option (Dict String)) (selector : Dict String)
    → (matches_selector labels selector ≡ true) ↔ All (λ e. HasLabel labels e.0 e.1) selector
unfolding matches_selector
matches_selector-HasLabel labels [] = (λ _. tt, λ _. refl)
matches_selector-HasLabel labels ((k, v) ∷ selector) = (
  λ h. (
    (label-HasLabel labels k v).0 (ground (arith, ==_iff {A = String} (label labels k) v)),
    (matches_selector-HasLabel labels selector).0 (ground arith),
  ),
  λ a.
      let hit : (label labels k == v) ≡ true =
        (==_iff {A = String} (label labels k) v).1 ((label-HasLabel labels k v).1 a.0) in
      rw (hit, matches_selector) ((matches_selector-HasLabel labels selector).1 a.1),
)

excluded-Admits :
    (timeout : ℤ) (now : ℕ) (s : BackendState)
    → (excluded timeout now s ≡ false) ↔ Admits timeout now s
unfolding excluded
excluded-Admits timeout now s = elim (Bool-cases s.circuit_open) [
  | inr closed ↦ (λ _. inl closed, λ _. rw closed refl)
  | inl opened ↦ elim (Option-cases s.last_failure) [
    | inl never ↦ (λ _. inr (λ t e. absurd (ground arith)), λ _. rw (opened, never) refl)
    | inr (t, last) ↦ (
      λ h. inr (λ t' e. let same : t ≡ t' = ground arith in ground (arith, opened, last, same)),
      λ h. elim h [
        | inl closed ↦ absurd (ground arith)
        | inr passed ↦ rw (opened, last) (passed t last)
      ],
    )
  ]
]

module _ (p : Pool) (arch : String) (selector : Dict String) (now : ℕ) where
  -- What `Select` considers is what serves, with its count and its limit.
  pub Serves-consider :
      (b : Backend) (v : Serves p arch selector now b)
      → consider p arch selector now b
        ≡ some (record {
          backend = b;
          active = v.state.active_jobs;
          max_jobs = effective_max p.default_max_jobs b;
        })
  unfolding consider
  Serves-consider b v =
      let here : (b.arch == arch) ≡ true = (==_iff {A = String} b.arch arch).1 v.right_arch in
      let labels = (matches_selector-HasLabel b.labels selector).1 v.labelled in
      let admits = (excluded-Admits p.recovery_timeout now v.state).1 v.admitted in
      let room : leb_ℤ (effective_max p.default_max_jobs b) v.state.active_jobs ≡ false =
        (ltb_ℤ-leb_ℤ (effective_max p.default_max_jobs b) v.state.active_jobs).1
          (rw (← IsLimit-effective_max p b v.max_jobs v.limit) v.has_room) in
      rw (here, labels, v.tracked, admits, room) refl

  pub IsEligible-Serves :
      (b : Backend) (c : Candidate)
      → IsEligible p arch selector now b c
      → (w : Serves p arch selector now b) × (w.state.active_jobs ≡ c.active)
        × (w.max_jobs ≡ c.max_jobs)
  IsEligible-Serves b c v = (
    record {
      right_arch = v.right_arch;
      labelled = (matches_selector-HasLabel b.labels selector).0 v.labelled;
      state = v.state;
      tracked = v.tracked;
      admitted = (excluded-Admits p.recovery_timeout now v.state).0 v.admitted;
      max_jobs = effective_max p.default_max_jobs b;
      limit = effective_max-IsLimit p b;
      has_room =
          (ltb_ℤ-leb_ℤ (effective_max p.default_max_jobs b) v.state.active_jobs).0
            (rw (← v.limit) v.has_room);
    },
    sym v.counted,
    sym v.limit,
  )
