-- ===== src/Pool/Choice.antt =====
-- `Select` and `SelectAndAcquireWithContext`: which backend a build runs on.
use melange.Prelude.{
  ℕ, zero, suc, Bool, true, false, ◌&&◌, List, [], ◌∷◌, Option, none, some, String, Result, ok, err,
  if◌then◌else◌, ◌==◌, string_eq, length, get_elem?, remove_at,
}
use melange.Prelude.Int.{ℤ, pos, ◌+ℤ◌, ◌*ℤ◌, ltb_ℤ, leb_ℤ, sub_ℕ, wrap32}
use melange.Prelude.Maps.{Dict, lookup, insert}
use melange.Pool.Defs.{Backend, BackendState, Pool, PoolError, no_available_backend, effective_max}

-- `labels[k]`, which is empty for a missing key and for a nil map.
unfoldable pub label : Option (Dict String) → String → String
unfolding lookup
label none k = ""
label (some m) k = elim (lookup k m) [ none ↦ "" | some v ↦ v ]

unfoldable pub matches_selector : Option (Dict String) → Dict String → Bool
unfolding label
matches_selector labels [] = true
matches_selector labels ((k, v) ∷ selector) =
    if label labels k == v then matches_selector labels selector else false

-- The breaker excludes the backend: it is open, and the last failure is more recent than the
-- recovery timeout. The time since the zero time is longer than any timeout.
unfoldable pub excluded : ℤ → ℕ → BackendState → Bool
excluded timeout now s =
    s.circuit_open && elim s.last_failure [ none ↦ false | some t ↦ ltb_ℤ (sub_ℕ now t) timeout ]

pub record Candidate : Type 0 where
  pub backend : Backend
  pub active : ℤ
  pub max_jobs : ℤ

-- The filters that both functions apply to a backend, in their order.
unfoldable pub consider : Pool → String → Dict String → ℕ → Backend → Option Candidate
unfolding matches_selector excluded
consider p arch selector now b =
    if b.arch == arch
    then if matches_selector b.labels selector
      then elim (lookup b.addr p.state) [
        | none ↦ none
        | some s ↦
            if excluded p.recovery_timeout now s
            then none
            else let max = effective_max p.default_max_jobs b in
              if leb_ℤ max s.active_jobs
              then none
              else some (record { backend = b; active = s.active_jobs; max_jobs = max })
      ]
      else none
    else none

-- a / m < b / n for limits other than 0, by the cross products.
unfoldable pub ratio_lt : ℤ → ℤ → ℤ → ℤ → Bool
ratio_lt a m b n =
    if ltb_ℤ (pos 0) (m *ℤ n) then ltb_ℤ (a *ℤ n) (b *ℤ m) else ltb_ℤ (b *ℤ m) (a *ℤ n)

-- `a.load < b.load`
abbrev pub load_lt : Candidate → Candidate → Bool
load_lt a b = ratio_lt a.active a.max_jobs b.active b.max_jobs

-- One round of the loop of `Select`.
unfoldable pub keep_best : Option Candidate → Option Candidate → Option Candidate
unfolding ratio_lt
keep_best best none = best
keep_best none (some c) = some c
keep_best (some b) (some c) = if load_lt c b then some c else some b

unfoldable pub select_from :
    Pool → String → Dict String → ℕ → List Backend → Option Candidate → Option Candidate
unfolding consider keep_best
select_from p arch selector now [] best = best
select_from p arch selector now (b ∷ bs) best =
    select_from p arch selector now bs (keep_best best (consider p arch selector now b))

unfoldable pub select : Pool → String → Dict String → ℕ → Result PoolError Backend
unfolding select_from
select p arch selector now = elim (select_from p arch selector now p.backends none) [
  | none ↦ err no_available_backend
  | some c ↦ ok c.backend
]

unfoldable pub candidates : Pool → String → Dict String → ℕ → List Backend → List Candidate
unfolding consider
candidates p arch selector now [] = []
candidates p arch selector now (b ∷ bs) = elim (consider p arch selector now b) [
  | none ↦ candidates p arch selector now bs
  | some c ↦ c ∷ candidates p arch selector now bs
]

-- The index of the least loaded candidate, the first one of several: `best` stands at `at`, and the
-- rest begins at `i`.
unfoldable pub best_index : Candidate → ℕ → ℕ → List Candidate → ℕ
unfolding ratio_lt
best_index best at i [] = at
best_index best at i (c ∷ cs) =
    best_index (if load_lt c best then c else best) (if load_lt c best then i else at) (suc i) cs

-- The attempt to take a slot: the count is read again, and is one more afterwards.
unfoldable pub try_acquire : Dict BackendState → Candidate → Option (Dict BackendState)
unfolding lookup insert wrap32
try_acquire st c = elim (lookup c.backend.addr st) [
  | none ↦ none
  | some s ↦
      if leb_ℤ c.max_jobs s.active_jobs
      then none
      else some
          (insert c.backend.addr (record s { active_jobs = wrap32 (s.active_jobs +ℤ pos 1) }) st)
]

-- The loop over the candidates, the least loaded first. Each round drops one, so their number is
-- enough fuel.
unfoldable pub acquire_from :
    ℕ → Dict BackendState → List Candidate → Option (Backend × Dict BackendState)
unfolding best_index try_acquire
acquire_from zero st cs = none
acquire_from (suc fuel) st [] = none
acquire_from (suc fuel) st (c ∷ cs) =
    let at = best_index c 0 1 cs in
    elim (get_elem? (c ∷ cs) at) [
      | none ↦ none
      | some best ↦ elim (try_acquire st best) [
        | none ↦ acquire_from fuel st (remove_at (c ∷ cs) at)
        | some st' ↦ some (best.backend, st')
      ]
    ]

unfoldable pub select_and_acquire :
    Pool → String → Dict String → ℕ → Result PoolError (Backend × Pool)
unfolding candidates acquire_from
select_and_acquire p arch selector now =
    let cs = candidates p arch selector now p.backends in
    elim (acquire_from (length cs) p.state cs) [
      | none ↦ err no_available_backend
      | some (b, st) ↦ ok (b, record p { state = st })
    ]
