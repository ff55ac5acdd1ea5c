-- ===== src/Pool/Breaker.antt =====
-- The circuit breaker of pkg/service/buildkit/pool.go, through rows of failures and a success.
use melange.Prelude.{
  ℕ, suc, ◌+◌, ◌≤◌, ◌<◌, ◌≡◌, refl, ◌∙◌, subst, ◌≢◌, Bool, true, false, List, [], ◌∷◌, ◌++◌, Option,
  some, String, ok, arith, if◌then◌else◌, ◌==◌, ==_iff, ==_refl, string_eq, length, inl, inr,
}
use melange.Prelude.Int.{ℤ, pos, ◌+ℤ◌, wrap32, two31, leb_ℤ, ltb_ℤ, sub_ℕ}
use melange.Prelude.Maps.{Dict, lookup, lookup-insert}
use melange.Pool.Defs.{Backend, BackendState, Pool, release, release_state}
use melange.Pool.Choice.{select, excluded}
use melange.Pool.Equivalence.{select_and_acquire-select}

-- A call of `Release` changes the state of its own address only.
pub lookup-release :
    (p : Pool) (addr j : String) (success : Bool) (now : ℕ) (st : BackendState)
    → lookup addr p.state ≡ some st
    → lookup j (release p addr success now).state ≡ (
        if addr == j
        then some (release_state p.failure_threshold now success st)
        else lookup j p.state)
unfolding release
lookup-release p addr j success now st e =
    rw (e, release)
      (lookup-insert addr j (release_state p.failure_threshold now success st) p.state)

release-threshold :
    (p : Pool) (addr : String) (success : Bool) (now : ℕ) (st : BackendState)
    → lookup addr p.state ≡ some st
    → (release p addr success now).failure_threshold ≡ p.failure_threshold
unfolding release
release-threshold p addr success now st e = rw (e, release) refl

release_timeout :
    (p : Pool) (addr : String) (success : Bool) (now : ℕ)
    → (release p addr success now).recovery_timeout ≡ p.recovery_timeout
unfolding release
release_timeout p addr success now = ground arith

-- Jobs on one backend that fail at the given times, the latest time last.
unfoldable pub fail_all : Pool → String → List ℕ → Pool
fail_all p addr [] = p
fail_all p addr (t ∷ times) = fail_all (release p addr false t) addr times

-- The state of a backend with `n` failures in a row behind it.
pub record Failed (threshold : ℕ) (n : ℕ) (last : Option ℕ) (st : BackendState) : Type 0 where
  pub count : st.failures ≡ pos n
  pub breaker : st.circuit_open ≡ leb_ℤ (pos threshold) (pos n)
  pub latest : st.last_failure ≡ last

wrap_suc : (n : ℕ) → suc n < two31 → wrap32 (pos n +ℤ pos 1) ≡ pos (suc n)
unfolding wrap32
wrap_suc n h = ground arith

release_state-Failed :
    (threshold n : ℕ) (last : Option ℕ) (st : BackendState) (t : ℕ)
    → suc n < two31
    → Failed threshold n last st
    → Failed threshold (suc n) (some t) (release_state (pos threshold) t false st)
unfolding release_state
release_state-Failed threshold n last st t h f =
    let counted : wrap32 (st.failures +ℤ pos 1) ≡ pos (suc n) = rw f.count (wrap_suc n h) in
    record { count = counted; breaker = ground (arith, counted, f.breaker); latest = refl }

abbrev pub latest_of : Option ℕ → List ℕ → Option ℕ
latest_of last [] = last
latest_of last (t ∷ times) = latest_of (some t) times

latest_of-snoc :
    (times : List ℕ) (t : ℕ) (last : Option ℕ) → latest_of last (times ++ t ∷ []) ≡ some t
latest_of-snoc [] t last = refl
latest_of-snoc (x ∷ times) t last = latest_of-snoc times t (some x)

fail_all-Failed :
    (threshold n : ℕ) (last : Option ℕ) (times : List ℕ) (p : Pool) (addr : String)
    (st : BackendState)
    → p.failure_threshold ≡ pos threshold
    → lookup addr p.state ≡ some st
    → n + length times < two31
    → Failed threshold n last st
    → (st' : BackendState) × (lookup addr (fail_all p addr times).state ≡ some st')
      × Failed threshold (n + length times) (latest_of last times) st'
unfolding fail_all
fail_all-Failed threshold n last [] p addr st limit e h f =
    (st, e, subst (λ k. Failed threshold k last st) (omega arith) f)
fail_all-Failed threshold n last (t ∷ times) p addr st limit e h f =
    let after = release_state p.failure_threshold t false st in
    let found : lookup addr (release p addr false t).state ≡ some after =
      ground (arith, lookup-release p addr addr false t st e, ==_iff {A = String} addr addr) in
    let step : Failed threshold (suc n) (some t) after =
      rw limit (release_state-Failed threshold n last st t (omega arith) f) in
    let (st', e', f') =
      fail_all-Failed threshold (suc n) (some t) times (release p addr false t) addr after
        (release-threshold p addr false t st e ∙ limit) found (omega arith) step in
    (st', e', subst (λ k. Failed threshold k (latest_of (some t) times) st') (omega arith) f')

-- No backend that the breaker excludes is selected.
select-ne-excluded :
    (p : Pool) (arch : String) (selector : Dict String) (now : ℕ) (addr : String)
    (st : BackendState)
    → lookup addr p.state ≡ some st
    → excluded p.recovery_timeout now st ≡ true
    → (b : Backend) → select p arch selector now ≡ ok b
    → b.addr ≢ addr
select-ne-excluded p arch selector now addr st e x b chosen same =
    elim (select_and_acquire-select p arch selector now) [
      | inl (none_left, _) ↦ absurd (ground arith)
      | inr (b', c, v, _, found, _) ↦
          let one : b' ≡ b = ground arith in
          let there : lookup b'.addr p.state ≡ some st = rw (one, same) e in
          absurd (ground (arith, v.tracked, v.admitted))
    ]

fail_all-timeout :
    (times : List ℕ) (p : Pool) (addr : String)
    → (fail_all p addr times).recovery_timeout ≡ p.recovery_timeout
unfolding fail_all release
fail_all-timeout [] p addr = refl
fail_all-timeout (t ∷ times) p addr =
    fail_all-timeout times (release p addr false t) addr ∙ release_timeout p addr false t

-- A backend with no failure counted and its breaker closed, on which fewer than 2 ^ 31 jobs fail one
-- after the other, has its breaker open exactly when as many have failed as the threshold, which is
-- above 0, says; the last failure is the time of the last of them.
pub fail_all-opens :
    (p : Pool) (addr : String) (st : BackendState) (times : List ℕ) (threshold : ℕ)
    → p.failure_threshold ≡ pos threshold
    → 0 < threshold
    → lookup addr p.state ≡ some st
    → st.failures ≡ pos 0
    → st.circuit_open ≡ false
    → length times < two31
    → (st' : BackendState) × (lookup addr (fail_all p addr times).state ≡ some st')
      × (st'.circuit_open ≡ leb_ℤ (pos threshold) (pos (length times)))
      × (st'.last_failure ≡ latest_of st.last_failure times)
fail_all-opens p addr st times threshold limit positive e zero_failures shut small =
    let (st', found, f) =
      fail_all-Failed threshold 0 st.last_failure times p addr st limit e (omega arith)
        (record { count = zero_failures; breaker = ground arith; latest = refl }) in
    (st', found, ground (arith, f.breaker), f.latest)

-- Once as many jobs in a row, fewer than 2 ^ 31, have failed on a backend with no failure counted as
-- the threshold, which is above 0, says, no selection returns a backend at its address until the
-- recovery timeout has passed since the last failure.
pub fail_all-excludes :
    (p : Pool) (addr : String) (st : BackendState) (times : List ℕ) (last threshold : ℕ)
    (arch : String) (selector : Dict String) (now : ℕ) (b : Backend)
    → p.failure_threshold ≡ pos threshold
    → 0 < threshold
    → lookup addr p.state ≡ some st
    → st.failures ≡ pos 0
    → st.circuit_open ≡ false
    → length (times ++ last ∷ []) < two31
    → threshold ≤ length (times ++ last ∷ [])
    → ltb_ℤ (sub_ℕ now last) p.recovery_timeout ≡ true
    → select (fail_all p addr (times ++ last ∷ [])) arch selector now ≡ ok b
    → b.addr ≢ addr
unfolding excluded
fail_all-excludes p addr st times last threshold arch selector now b limit positive e zero_failures
      shut small enough recent chosen =
    let all = times ++ last ∷ [] in
    let (st', found, opened, latest) =
      fail_all-opens p addr st all threshold limit positive e zero_failures shut small in
    let ended = latest_of-snoc times last st.last_failure in
    select-ne-excluded (fail_all p addr all) arch selector now addr st' found
      (ground (arith, opened, latest, ended, fail_all-timeout all p addr)) b chosen

-- A success on a backend that the pool knows closes the breaker and forgets the failures, whatever
-- came before, so that the breaker excludes the backend at no time, and leaves every other backend as
-- it was.
pub release-success :
    (p : Pool) (addr : String) (st : BackendState) (now : ℕ)
    → lookup addr p.state ≡ some st
    → (st' : BackendState) × (lookup addr (release p addr true now).state ≡ some st')
      × (st'.failures ≡ pos 0)
      × (st'.circuit_open ≡ false)
      × ((timeout : ℤ) (later : ℕ) → excluded timeout later st' ≡ false)
      × ((j : String)
          → lookup j (release p addr true now).state
            ≡ (if addr == j then some st' else lookup j p.state))
unfolding excluded release_state
release-success p addr st now e = (
  release_state p.failure_threshold now true st,
  ground (arith, lookup-release p addr addr true now st e, ==_refl {A = String} addr),
  refl,
  refl,
  λ timeout later. refl,
  λ j. lookup-release p addr j true now st e,
)
