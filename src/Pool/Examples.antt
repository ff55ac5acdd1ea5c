-- ===== src/Pool/Examples.antt =====
-- A pool of two backends, idle, for the runs and witnesses.
use melange.Prelude.{
  ◌≡◌, refl, ◌⊎◌, List, [], ◌∷◌, none, some, String, arith, ◌==◌, string_eq, contains, count_if,
  inl, inr, Bool-cases,
}
use melange.Prelude.Int.{ℤ, pos}
use melange.Prelude.Maps.{lookup}
use melange.Pool.Defs.{Backend, BackendState, fresh_state, Pool, has_addr}
use melange.Pool.Invariant.{IsPool}
use melange.Pool.Leases.{System, IsSound, find}

abbrev pub backend : String → ℤ → Backend
backend addr max = record { addr = addr; arch = "x86_64"; labels = none; max_jobs = max }

abbrev pub two : List Backend
two = backend "a" (pos 2) ∷ backend "b" (pos 1) ∷ []

-- What `NewPoolWithConfig` makes of the two backends.
abbrev pub pool : Pool
pool = record {
  backends = two;
  state = ("a", fresh_state) ∷ ("b", fresh_state) ∷ [];
  default_max_jobs = pos 4;
  failure_threshold = pos 3;
  recovery_timeout = pos 30000000000;
}

pub pool-IsPool : IsPool pool
unfolding has_addr lookup
pool-IsPool = record {
  nonempty = omega arith;
  distinct = (refl, (refl, tt));
  tracked = λ addr. ground arith;
}

abbrev pub idle : System
idle = record { pool = pool; leases = [] }

fresh : (addr : String) (st : BackendState) → lookup addr pool.state ≡ some st → st ≡ fresh_state
unfolding lookup
fresh addr st e = elim (Bool-cases ("a" == addr)) [
  | inl hit ↦ ground arith
  | inr miss ↦ elim (Bool-cases ("b" == addr)) [
    | inl hit ↦ ground arith
    | inr out ↦ absurd (ground arith)
  ]
]

found_limit :
    (addr : String) (b : Backend)
    → find two addr ≡ some b
    → (b ≡ backend "a" (pos 2)) ⊎ (b ≡ backend "b" (pos 1))
unfolding find
found_limit addr b e = elim (Bool-cases ("a" == addr)) [
  | inl hit ↦ inl (ground arith)
  | inr miss ↦ elim (Bool-cases ("b" == addr)) [
    | inl hit ↦ inr (ground arith)
    | inr out ↦ absurd (ground arith)
  ]
]

pub idle-IsSound : IsSound idle
unfolding contains count_if
idle-IsSound = record {
  pool = pool-IsPool;
  counted = λ addr st e. rw (fresh addr st e) refl;
  known = λ addr h. absurd (ground arith);
  limited = λ addr b e h. absurd (omega (arith, h));
  small = λ addr b e. elim (found_limit addr b e) [
    | inl first ↦ rw first (omega arith)
    | inr second ↦ rw second (omega arith)
  ];
}
