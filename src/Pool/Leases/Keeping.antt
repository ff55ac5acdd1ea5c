-- ===== src/Pool/Leases/Keeping.antt =====
-- The counts of the running jobs of pkg/service/buildkit/pool.go, through a history of calls.
use melange.Prelude.{
  ℕ, suc, ◌≤◌, ◌≡◌, refl, ◌∙◌, sym, ap, subst, length, Bool, true, false, [], ◌∷◌, ◌++◌, none, some,
  String, ok, arith, ==_iff, string_eq, contains, Option-cases, Bool-cases, inl, inr,
}
use melange.Prelude.Int.{pos, ◌+ℤ◌, ◌≤ℤ◌, wrap32, leb_ℤ}
use melange.Prelude.Maps.{Dict, lookup, insert, delete, lookup-insert, lookup-delete}
use melange.Pool.Defs.{
  Backend, BackendState, fresh_state, Pool, release, release_state, has_addr, add, remove_addr,
  remove, effective_max,
}
use melange.Pool.Choice.{select_and_acquire}
use melange.Pool.Equivalence.{select_and_acquire-select}
use melange.Pool.Invariant.{
  IsPool, add-IsPool, remove-IsPool, release-IsPool, select_and_acquire-IsPool,
}
use melange.Pool.Leases.{
  find, held, erase, System, Step, acquire, finish, add_backend, remove_backend, Reach, here, next,
  IsSound,
}
use melange.Pool.Leases.Lookup.{
  find-Memᴰ, held-cons, held-erase, contains-erase, held_pos, not_held, one_more, has_addr-find,
  find-snoc, find-remove_addr, ℤ_le_trans, fewer, release_state-active,
}

module _ (s : System) (v : IsSound s) where
  acquire-IsSound :
      (arch : String) (selector : Dict String) (now : ℕ) (b : Backend) (q : Pool)
      → select_and_acquire s.pool arch selector now ≡ ok (b, q)
      → IsSound (record { pool = q; leases = b.addr ∷ s.leases })
  unfolding contains
  acquire-IsSound arch selector now b q e =
      elim (select_and_acquire-select s.pool arch selector now) [
        | inl (_, f) ↦ absurd (ground arith)
        | inr (b', c, w, m, _, f) ↦
            let p = s.pool in
            let at : find p.backends b'.addr ≡ some b' =
              find-Memᴰ p.backends b' v.pool.distinct m in
            let n = held s.leases b'.addr in
            let running : w.state.active_jobs ≡ pos n = v.counted b'.addr w.state w.tracked in
            let room : leb_ℤ (effective_max p.default_max_jobs b') (pos n) ≡ false =
              subst (λ x. leb_ℤ (effective_max p.default_max_jobs b') x ≡ false) running
                (subst (λ x. leb_ℤ x w.state.active_jobs ≡ false) w.limit w.has_room) in
            let (grown, fits) =
              one_more n (effective_max p.default_max_jobs b') room (v.small b'.addr b' at) in
            let st = record w.state { active_jobs = wrap32 (w.state.active_jobs +ℤ pos 1) } in
            let now_running : st.active_jobs ≡ pos (suc n) = rw running grown in
            let same_b : b' ≡ b = ground arith in
            let same_q : record p { state = insert b'.addr st p.state } ≡ q = ground arith in
            subst (λ (x : Backend). IsSound (record { pool = q; leases = x.addr ∷ s.leases }))
              same_b
              (subst (λ (x : Pool). IsSound (record { pool = x; leases = b'.addr ∷ s.leases }))
                same_q
                (record {
                  pool = rw same_q (select_and_acquire-IsPool p arch selector now b q v.pool e);
                  counted = λ j x found. ground (
                    arith,
                    lookup-insert b'.addr j st p.state,
                    v.counted j x,
                    held-cons s.leases b'.addr j,
                    ==_iff {A = String} b'.addr j,
                    now_running,
                  );
                  known = λ j h. ground (
                    arith,
                    lookup-insert b'.addr j st p.state,
                    v.known j,
                    ==_iff {A = String} b'.addr j,
                  );
                  limited = λ j x found h. ground (
                    arith,
                    held-cons s.leases b'.addr j,
                    ==_iff {A = String} b'.addr j,
                    v.limited j x,
                    fits,
                    at,
                  );
                  small = v.small;
                }))
      ]

  -- The slot of a running job has a backend, and a count that fits an `int32`.
  lease_backend :
      (addr : String)
      → contains s.leases addr ≡ true
      → (st : BackendState) × (lookup addr s.pool.state ≡ some st)
        × (held s.leases addr ≤ 2147483647)
  lease_backend addr h = elim (Option-cases (lookup addr s.pool.state)) [
    | inl miss ↦ absurd (ground (arith, v.known addr h))
    | inr (st, found) ↦
        let (b, at) =
          has_addr-find s.pool.backends addr
            (ground (arith, v.known addr h, v.pool.tracked addr)) in
        (
          st,
          found,
          ℤ_le_trans (held s.leases addr) (effective_max s.pool.default_max_jobs b) 2147483647
              (v.limited addr b at (held_pos s.leases addr h)) (v.small addr b at),
        )
  ]

  finish-IsSound :
      (addr : String) (success : Bool) (now : ℕ)
      → contains s.leases addr ≡ true
      → IsSound (record { pool = release s.pool addr success now; leases = erase addr s.leases })
  unfolding release
  finish-IsSound addr success now h =
      let p = s.pool in
      let (st, found, fits) = lease_backend addr h in
      let n = held (erase addr s.leases) addr in
      let more : held s.leases addr ≡ suc n =
        ground (arith, held-erase s.leases addr addr h, ==_iff {A = String} addr addr) in
      let st' = release_state p.failure_threshold now success st in
      let running : st'.active_jobs ≡ pos n =
        release_state-active p.failure_threshold now success st n
          (v.counted addr st found ∙ ap pos more) (omega (arith, more)) in
      rw (found, release)
        (record {
          pool = subst IsPool (rw (found, release) refl) (release-IsPool p addr success now v.pool);
          counted = λ j x e. ground (
            arith,
            lookup-insert addr j st' p.state,
            v.counted j x,
            held-erase s.leases addr j h,
            ==_iff {A = String} addr j,
            running,
          );
          known = λ j c. ground (
            arith,
            lookup-insert addr j st' p.state,
            v.known j,
            contains-erase s.leases addr j c,
          );
          limited = λ j x e c.
              let before = held-erase s.leases addr j h in
              fewer (held (erase addr s.leases) j) (held s.leases j)
                (effective_max p.default_max_jobs x) (ground arith)
                (v.limited j x e (ground arith));
          small = v.small;
        })

  add-IsSound :
      (b : Backend) (q : Pool)
      → add s.pool b ≡ ok q
      → effective_max s.pool.default_max_jobs b ≤ℤ pos 2147483647
      → IsSound (record { pool = q; leases = s.leases })
  unfolding add
  add-IsSound b q e fits =
      let p = s.pool in
      let labelled = record b { labels = elim b.labels [ none ↦ some [] | some l ↦ some l ] } in
      elim (Bool-cases (has_addr p.backends b.addr)) [
        | inl old ↦ absurd (ground arith)
        | inr new ↦
            let unused : contains s.leases b.addr ≡ false =
              elim (Bool-cases (contains s.leases b.addr)) [
                | inl used ↦ absurd (ground (arith, v.known b.addr used, v.pool.tracked b.addr))
                | inr free ↦ free
              ] in
            let same : record p {
              backends = p.backends ++ labelled ∷ [];
              state = insert b.addr fresh_state p.state;
            }
                ≡ q =
              ground arith in
            subst (λ (x : Pool). IsSound (record { pool = x; leases = s.leases })) same
              (record {
                pool = subst IsPool (sym same) (add-IsPool p q b v.pool e);
                counted = λ j x c. ground (
                  arith,
                  lookup-insert b.addr j fresh_state p.state,
                  v.counted j x,
                  not_held s.leases b.addr unused,
                  ==_iff {A = String} b.addr j,
                );
                known = λ j c. ground (
                  arith,
                  lookup-insert b.addr j fresh_state p.state,
                  v.known j,
                  ==_iff {A = String} b.addr j,
                );
                limited = λ j x c h. ground (
                  arith,
                  find-snoc p.backends labelled j,
                  v.limited j x,
                  not_held s.leases b.addr unused,
                  ==_iff {A = String} b.addr j,
                );
                small = λ j x c. ground (arith, find-snoc p.backends labelled j, v.small j x, fits);
              })
      ]

  remove-IsSound :
      (addr : String) (q : Pool)
      → remove s.pool addr ≡ ok q
      → contains s.leases addr ≡ false
      → IsSound (record { pool = q; leases = s.leases })
  unfolding remove
  remove-IsSound addr q e idle =
      let p = s.pool in
      let count = length p.backends in
      elim (Bool-cases (has_addr p.backends addr)) [
        | inr absent ↦ absurd (ground arith)
        | inl there ↦
            let same : record p {
              backends = remove_addr p.backends addr;
              state = delete addr p.state;
            }
                ≡ q =
              ground arith in
            subst (λ (x : Pool). IsSound (record { pool = x; leases = s.leases })) same
              (record {
                pool = subst IsPool (sym same) (remove-IsPool p q addr v.pool e);
                counted = λ j x c. ground (arith, lookup-delete addr j p.state, v.counted j x);
                known = λ j c. ground (
                  arith,
                  lookup-delete addr j p.state,
                  v.known j,
                  ==_iff {A = String} addr j,
                  idle,
                );
                limited = λ j x c h.
                    ground
                      (arith, find-remove_addr p.backends addr j v.pool.distinct, v.limited j x);
                small = λ j x c.
                    ground (arith, find-remove_addr p.backends addr j v.pool.distinct, v.small j x);
              })
      ]

-- Every step keeps the counts exact and within the limits.
pub Step-IsSound : {s t : System} → IsSound s → Step s t → IsSound t
Step-IsSound {s} v (acquire arch selector now b q e) = acquire-IsSound s v arch selector now b q e
Step-IsSound {s} v (finish addr success now h) = finish-IsSound s v addr success now h
Step-IsSound {s} v (add_backend b q e fits) = add-IsSound s v b q e fits
Step-IsSound {s} v (remove_backend addr q e idle) = remove-IsSound s v addr q e idle

-- In every state that a history reaches from a sound one, in which each job ends once and no backend
-- is removed while a job runs on it, the pool is well formed, the count of each backend is the number
-- of jobs that hold a slot on it, and that number is within its limit while it is not 0.
pub Reach-IsSound : {s t : System} → IsSound s → Reach s t → IsSound t
Reach-IsSound v here = v
Reach-IsSound v (next r st) = Step-IsSound (Reach-IsSound v r) st
