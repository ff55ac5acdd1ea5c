-- ===== src/Pool/Tests.antt =====
-- Runs and witnesses for pkg/service/buildkit/pool.go on a pool of two backends.
use melange.Prelude.{
  ◌≡◌, ◌≢◌, refl, ◌⊎◌, true, List, [], ◌∷◌, some, String, ok, err, arith, ==_iff, string_eq,
  contains,
}
use mathlib.Core.List.{Memᴰ}
use melange.Prelude.Int.{pos, negsuc, ◌+ℤ◌, wrap32, leb_ℤ}
use melange.Prelude.Maps.{lookup, insert}
use melange.Pool.Examples.{backend, two, pool, idle, idle-IsSound}
use melange.Pool.Defs.{
  Backend, BackendState, fresh_state, Pool, PoolConfig, no_available_backend, new_pool_with_config,
  release, add, remove,
}
use melange.Pool.Choice.{Candidate, select, select_and_acquire}
use melange.Pool.Equivalence.{IsEligible, select_and_acquire-select}
use melange.Pool.Serving.{Serves}
use melange.Pool.Load.{IsNonnegative, IsNoMoreLoaded, select-least}
use melange.Pool.Breaker.{fail_all, fail_all-opens, fail_all-excludes}
use melange.Pool.Readding.{release-readded}
use melange.Pool.Leases.{System, Step, Reach, IsSound, erase, here, next}
use melange.Pool.Leases.Keeping.{Reach-IsSound}

abbrev config : List Backend → PoolConfig
config bs = record {
  backends = bs;
  default_max_jobs = pos 0;
  failure_threshold = pos 0;
  recovery_timeout = pos 0;
}

abbrev entry : String → List Backend → Pool
entry addr bs = record {
  backends = bs;
  state = (addr, fresh_state) ∷ [];
  default_max_jobs = pos 4;
  failure_threshold = pos 3;
  recovery_timeout = pos 30000000000;
}

made : new_pool_with_config (config two) ≡ ok pool
unfolding new_pool_with_config
made = refl

pool-IsNonnegative : IsNonnegative pool
unfolding lookup
pool-IsNonnegative addr s e = (0, ground arith)

select-least_example :
    ((select pool "x86_64" [] 0 ≡ err no_available_backend)
      × ((b : Backend) → Memᴰ b pool.backends → Serves pool "x86_64" [] 0 b → ⊥))
    ⊎ ((b : Backend) × (v : Serves pool "x86_64" [] 0 b) × (select pool "x86_64" [] 0 ≡ ok b)
        × Memᴰ b pool.backends
        × ((other : Backend)
            → Memᴰ other pool.backends
            → (w : Serves pool "x86_64" [] 0 other)
            → IsNoMoreLoaded v.state.active_jobs v.max_jobs w.state.active_jobs w.max_jobs))
select-least_example = select-least pool "x86_64" [] 0 pool-IsNonnegative

select_and_acquire-select_example :
    ((select pool "x86_64" [] 0 ≡ err no_available_backend)
      × (select_and_acquire pool "x86_64" [] 0 ≡ err no_available_backend))
    ⊎ ((b : Backend) × (c : Candidate) × (v : IsEligible pool "x86_64" [] 0 b c) × Memᴰ b
          pool.backends
        × (select pool "x86_64" [] 0 ≡ ok b)
        × (select_and_acquire pool "x86_64" [] 0
            ≡ ok (
              b,
              record pool {
                state =
                    insert b.addr
                      (record v.state { active_jobs = wrap32 (v.state.active_jobs +ℤ pos 1) })
                      pool.state;
              },
            )))
select_and_acquire-select_example = select_and_acquire-select pool "x86_64" [] 0

abbrev busy : Pool
busy = record pool {
  state = ("a", record fresh_state { active_jobs = pos 1 }) ∷ ("b", fresh_state) ∷ [];
}

acquired : select_and_acquire pool "x86_64" [] 0 ≡ ok (backend "a" (pos 2), busy)
unfolding select_and_acquire
acquired = refl

abbrev one_job : System
one_job = record { pool = busy; leases = "a" ∷ [] }

one_job-IsSound : IsSound one_job
one_job-IsSound =
    Reach-IsSound idle-IsSound
      (next here (Step.acquire "x86_64" [] 0 (backend "a" (pos 2)) busy acquired))

abbrev job_ended : System
job_ended = record { pool = release busy "a" true 5; leases = [] }

history : Reach idle job_ended
unfolding contains erase
history =
    next (next here (Step.acquire "x86_64" [] 0 (backend "a" (pos 2)) busy acquired))
      (Step.finish "a" true 5 refl)

Reach-IsSound_example : IsSound job_ended
Reach-IsSound_example = Reach-IsSound idle-IsSound history

fail_all-opens_example :
    (st' : BackendState) × (lookup "a" (fail_all pool "a" (1 ∷ 2 ∷ 3 ∷ [])).state ≡ some st')
    × (st'.circuit_open ≡ leb_ℤ (pos 3) (pos 3))
    × (st'.last_failure ≡ some 3)
unfolding lookup
fail_all-opens_example =
    fail_all-opens pool "a" fresh_state (1 ∷ 2 ∷ 3 ∷ []) 3 refl (omega arith) refl refl refl
      (omega arith)

abbrev failing : Pool
failing = fail_all pool "a" (1 ∷ 2 ∷ 3 ∷ [])

chosen : select failing "x86_64" [] 4 ≡ ok (backend "b" (pos 1))
unfolding select fail_all release
chosen = refl

fail_all-excludes_example : ◌≢◌ {A = String} "b" "a"
unfolding lookup
fail_all-excludes_example =
    fail_all-excludes pool "a" fresh_state (1 ∷ 2 ∷ []) 3 3 "x86_64" [] 4 (backend "b" (pos 1)) refl
      (omega arith) refl refl refl (omega arith) (omega arith) refl chosen

release-readded_example :
    (q : Pool) × (r : Pool) × (st : BackendState) × (remove busy "a" ≡ ok q)
    × (add q (backend "a" (pos 2)) ≡ ok r)
    × (lookup "a" (release r "a" true 9).state ≡ some st)
    × (st.active_jobs ≡ negsuc 0)
unfolding contains
release-readded_example =
    release-readded one_job (backend "a" (pos 2)) true 9 one_job-IsSound (omega arith) refl
      (λ e. absurd (ground (arith, (==_iff {A = String} "a" "").1 e)))
      (λ e. absurd (ground (arith, (==_iff {A = String} "x86_64" "").1 e)))

abbrev twins : Pool
twins = entry "a" (backend "a" (pos 2) ∷ backend "a" (pos 2) ∷ [])

abbrev one_twin : Pool
one_twin = record twins { backends = backend "a" (pos 2) ∷ []; state = [] }

removed : remove twins "a" ≡ ok one_twin
unfolding remove
removed = refl
