-- ===== src/Pool/Readding.antt =====
-- The removal of backends from the pool of pkg/service/buildkit/pool.go while their addresses are in
-- use.
use melange.Prelude.{
  ℕ, ◌<◌, ◌≡◌, ◌≢◌, refl, ◌∙◌, sym, Bool, true, false, [], ◌∷◌, ◌++◌, none, some, String, ok, arith,
  ◌==◌, ==_iff, ==_refl, string_eq, contains, length, nat_beq,
}
use melange.Prelude.Int.{ℤ, negsuc}
use melange.Prelude.Maps.{Dict, lookup, insert, delete, lookup-insert, lookup-delete}
use melange.Pool.Defs.{
  Backend, BackendState, fresh_state, Pool, release, release_state, has_addr, add, remove_addr,
  remove,
}
use melange.Pool.Invariant.{has_addr-remove_addr}
use melange.Pool.Leases.{System, IsSound}
use melange.Pool.Choice.{consider}
use melange.Pool.Breaker.{lookup-release}

lookup-add : (q r : Pool) (b : Backend) → add q b ≡ ok r → lookup b.addr r.state ≡ some fresh_state
unfolding add
lookup-add q r b e =
    ground (arith, lookup-insert b.addr b.addr fresh_state q.state, ==_refl {A = String} b.addr)

release_fresh :
    (threshold : ℤ) (now : ℕ) (success : Bool)
    → (release_state threshold now success fresh_state).active_jobs ≡ negsuc 0
unfolding release_state
release_fresh threshold now true = refl
release_fresh threshold now false = refl

-- In a sound state of a pool of several backends, one that a job holds a slot of can be removed and
-- added again, and when that job ends the backend counts -1 running jobs.
pub release-readded :
    (s : System) (b : Backend) (success : Bool) (now : ℕ)
    → IsSound s
    → 1 < length s.pool.backends
    → contains s.leases b.addr ≡ true
    → b.addr ≢ ""
    → b.arch ≢ ""
    → (q : Pool) × (r : Pool) × (st : BackendState) × (remove s.pool b.addr ≡ ok q)
      × (add q b ≡ ok r)
      × (lookup b.addr (release r b.addr success now).state ≡ some st)
      × (st.active_jobs ≡ negsuc 0)
unfolding remove add
release-readded s b success now sound several holds named arched =
    let there : has_addr s.pool.backends b.addr ≡ true =
      sym (sound.pool.tracked b.addr) ∙ sound.known b.addr holds in
    let many : nat_beq (length s.pool.backends) 1 ≡ false = ground (arith, several) in
    let q : Pool = record s.pool {
      backends = remove_addr s.pool.backends b.addr;
      state = delete b.addr s.pool.state;
    } in
    let r : Pool = record q {
      backends =
          q.backends
          ++ record b { labels = elim b.labels [ none ↦ some [] | some l ↦ some l ] } ∷ [];
      state = insert b.addr fresh_state q.state;
    } in
    let gone : has_addr (remove_addr s.pool.backends b.addr) b.addr ≡ false = ground (
      arith,
      has_addr-remove_addr s.pool.backends b.addr b.addr sound.pool.distinct,
      ==_refl {A = String} b.addr,
    ) in
    let addr : (b.addr == "") ≡ false = ground (arith, named, ==_iff {A = String} b.addr "") in
    let arch : (b.arch == "") ≡ false = ground (arith, arched, ==_iff {A = String} b.arch "") in
    let added : add q b ≡ ok r = rw (addr, arch, gone, add) refl in
    (
      q,
      r,
      release_state r.failure_threshold now success fresh_state,
      rw (many, there, remove) refl,
      added,
      ground (
        arith,
        lookup-release r b.addr b.addr success now fresh_state (lookup-add q r b added),
        ==_refl {A = String} b.addr,
      ),
      release_fresh r.failure_threshold now success,
    )

-- Of two backends with one address the second stays in the pool when the first is removed, but it
-- has no state, and no selection ever considers it.
pub remove-duplicate :
    (p q : Pool) (b : Backend) (arch : String) (selector : Dict String) (now : ℕ)
    → has_addr (remove_addr p.backends b.addr) b.addr ≡ true
    → remove p b.addr ≡ ok q
    → (has_addr q.backends b.addr ≡ true) × (consider q arch selector now b ≡ none)
unfolding remove consider
remove-duplicate p q b arch selector now twice e =
    let gone : lookup b.addr q.state ≡ none =
      ground (arith, lookup-delete b.addr b.addr p.state, ==_refl {A = String} b.addr) in
    (ground arith, ground (arith, gone))
