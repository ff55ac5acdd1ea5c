-- ===== src/Pool/Leases.antt =====
-- The callers' side of pkg/service/buildkit/pool.go under any history of calls: jobs take slots and
-- end, and backends come and go. The scheduler releases the backend that it acquired, once.
mod Lookup
pub mod Keeping
use mathlib.Core.List.{Memᴰ}
use melange.Prelude.{
  ℕ, zero, suc, ◌+◌, ◌-◌, ◌≤◌, ◌<◌, ◌≡◌, refl, ◌∙◌, sym, ap, subst, length, Bool, true, false, List,
  [], ◌∷◌, ◌++◌, Option, none, some, String, Result, ok, err, arith, if◌then◌else◌, ◌==◌, ==_iff,
  string_eq, contains, count_if, Option-cases, Bool-cases, inl, inr,
}
use melange.Prelude.Int.{ℤ, pos, negsuc, ◌+ℤ◌, ◌≤ℤ◌, wrap32, wrap32_in_range, two31, leb_ℤ}
use melange.Prelude.Maps.{Dict, lookup, insert, delete, has_key, lookup-insert, lookup-delete}
use melange.Pool.Defs.{
  Backend, BackendState, fresh_state, Pool, release, release_state, has_addr, add, remove_addr,
  remove, effective_max,
}
use melange.Pool.Choice.{select_and_acquire}
use melange.Pool.Equivalence.{select_and_acquire-select, IsEligible}
use melange.Pool.Invariant.{
  DistinctAddrs, IsPool, add-IsPool, remove-IsPool, release-IsPool, select_and_acquire-IsPool,
}

-- The first backend at an address.
unfoldable pub find : List Backend → String → Option Backend
find [] addr = none
find (b ∷ bs) addr = if b.addr == addr then some b else find bs addr

-- How many running jobs hold a slot at the address.
abbrev pub held : List String → String → ℕ
held leases addr = count_if (λ a. a == addr) leases

unfoldable pub erase : String → List String → List String
erase addr [] = []
erase addr (a ∷ rest) = if a == addr then rest else a ∷ erase addr rest

-- The pool, and the address of the slot that each running job holds.
pub record System : Type 0 where
  pub pool : Pool
  pub leases : List String

-- A job ends at most once, and no backend is removed while a job runs on it; limits fit an `int32`.
pub data Step (s : System) : System → Type 0 where
  acquire :
      (arch : String) (selector : Dict String) (now : ℕ) (b : Backend) (q : Pool)
      → select_and_acquire s.pool arch selector now ≡ ok (b, q)
      → Step s (record { pool = q; leases = b.addr ∷ s.leases })
  finish :
      (addr : String) (success : Bool) (now : ℕ)
      → contains s.leases addr ≡ true
      → Step s (record { pool = release s.pool addr success now; leases = erase addr s.leases })
  add_backend :
      (b : Backend) (q : Pool)
      → add s.pool b ≡ ok q
      → effective_max s.pool.default_max_jobs b ≤ℤ pos 2147483647
      → Step s (record { pool = q; leases = s.leases })
  remove_backend :
      (addr : String) (q : Pool)
      → remove s.pool addr ≡ ok q
      → contains s.leases addr ≡ false
      → Step s (record { pool = q; leases = s.leases })

pub data Reach (s : System) : System → Type 0 where
  here : Reach s s
  next : {t u : System} → Reach s t → Step t u → Reach s u

pub record IsSound (s : System) : Type 0 where
  pub pool : IsPool s.pool
  pub counted :
      (addr : String) (st : BackendState)
      → lookup addr s.pool.state ≡ some st
      → st.active_jobs ≡ pos (held s.leases addr)
  pub known : (addr : String) → contains s.leases addr ≡ true → has_key s.pool.state addr ≡ true
  pub limited :
      (addr : String) (b : Backend)
      → find s.pool.backends addr ≡ some b
      → 0 < held s.leases addr
      → pos (held s.leases addr) ≤ℤ effective_max s.pool.default_max_jobs b
  pub small :
      (addr : String) (b : Backend)
      → find s.pool.backends addr ≡ some b
      → effective_max s.pool.default_max_jobs b ≤ℤ pos 2147483647
