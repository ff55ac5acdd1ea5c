-- ===== src/Pool/Equivalence.antt =====
-- `Select` and `SelectAndAcquire` of pkg/service/buildkit/pool.go, compared.
use melange.Prelude.{
  ℕ, ◌≡◌, refl, ap, true, false, List, [], ◌∷◌, ◌++◌, Option, none, some, String, ok, err, arith,
  if◌then◌else◌, ==_iff, string_eq, length, get_elem?, length-snoc, get_elem?-length,
  get_elem?-append, Option-cases, Bool-cases, inl, inr, ◌⊎◌, All, All-map,
}
use mathlib.Core.List.{Memᴰ, append-nil, append_assoc}
use melange.Prelude.Int.{pos, ◌+ℤ◌, leb_ℤ, wrap32}
use melange.Prelude.Maps.{Dict, lookup, insert}
use melange.Pool.Defs.{Backend, BackendState, Pool, no_available_backend, effective_max}
use melange.Pool.Choice.{
  Candidate, load_lt, consider, matches_selector, excluded, keep_best, select_from, select,
  candidates, best_index, try_acquire, acquire_from, select_and_acquire,
}

-- The least loaded candidate, as the loop of `Select` keeps it.
abbrev pub least : Candidate → List Candidate → Candidate
least best [] = best
least best (c ∷ cs) = least (if load_lt c best then c else best) cs

get_elem?-best_index :
    (best : Candidate) (seen : List Candidate) (at : ℕ) (cs : List Candidate)
    → get_elem? seen at ≡ some best
    → get_elem? (seen ++ cs) (best_index best at (length seen) cs) ≡ some (least best cs)
unfolding best_index
get_elem?-best_index best seen at [] e = rw (append-nil seen) e
get_elem?-best_index best seen at (c ∷ cs) e =
    let next = if load_lt c best then c else best in
    let next_at = if load_lt c best then length seen else at in
    let shown : get_elem? (seen ++ c ∷ []) next_at ≡ some next =
      elim (Bool-cases (load_lt c best)) [
        | inl less ↦ rw less (get_elem?-length seen c)
        | inr not_less ↦ rw not_less (get_elem?-append seen (c ∷ []) at best e)
      ] in
    rw (← append_assoc seen (c ∷ []) cs)
      (rw (length-snoc seen c) at (get_elem?-best_index next (seen ++ c ∷ []) next_at cs shown))

module _ (p : Pool) (arch : String) (selector : Dict String) (now : ℕ) where
  select_from-candidates :
      (bs : List Backend) (best : Candidate)
      → select_from p arch selector now bs (some best)
        ≡ some (least best (candidates p arch selector now bs))
  unfolding select_from candidates
  select_from-candidates [] best = refl
  select_from-candidates (b ∷ bs) best = elim (Option-cases (consider p arch selector now b)) [
    | inl out ↦ rw (out, keep_best, candidates) (select_from-candidates bs best)
    | inr (c, e) ↦ elim (Bool-cases (load_lt c best)) [
      | inl less ↦ rw (e, keep_best, candidates, less) (select_from-candidates bs c)
      | inr not_less ↦ rw (e, keep_best, candidates, not_less) (select_from-candidates bs best)
    ]
  ]

  -- What the filters let through.
  pub record IsEligible (b : Backend) (c : Candidate) : Type 0 where
    pub same : c.backend ≡ b
    pub right_arch : b.arch ≡ arch
    pub labelled : matches_selector b.labels selector ≡ true
    pub state : BackendState
    pub tracked : lookup b.addr p.state ≡ some state
    pub admitted : excluded p.recovery_timeout now state ≡ false
    pub counted : c.active ≡ state.active_jobs
    pub limit : c.max_jobs ≡ effective_max p.default_max_jobs b
    pub has_room : leb_ℤ c.max_jobs state.active_jobs ≡ false

  pub consider-IsEligible :
      (b : Backend) (c : Candidate) → consider p arch selector now b ≡ some c → IsEligible b c
  unfolding consider
  consider-IsEligible b c e = elim (Option-cases (lookup b.addr p.state)) [
    | inl miss ↦ absurd (ground arith)
    | inr (s, found) ↦ record {
      same = ground (arith, ==_iff {A = String} b.arch arch);
      right_arch = ground (arith, ==_iff {A = String} b.arch arch);
      labelled = ground (arith, ==_iff {A = String} b.arch arch);
      state = s;
      tracked = found;
      admitted = ground (arith, ==_iff {A = String} b.arch arch);
      counted = ground (arith, ==_iff {A = String} b.arch arch);
      limit = ground (arith, ==_iff {A = String} b.arch arch);
      has_room = ground (arith, ==_iff {A = String} b.arch arch);
    }
  ]

  -- A candidate comes from a backend of the list.
  abbrev pub IsCandidate : List Backend → Candidate → Type 0
  IsCandidate bs c = (b : Backend) × Memᴰ b bs × IsEligible b c

  IsCandidate-cons :
      (a : Backend) (bs : List Backend) (c : Candidate) → IsCandidate bs c → IsCandidate (a ∷ bs) c
  IsCandidate-cons a bs c (b, m, e) = (b, Memᴰ.tail m, e)

  pub candidates-IsCandidate :
      (bs : List Backend) → All (IsCandidate bs) (candidates p arch selector now bs)
  unfolding candidates
  candidates-IsCandidate [] = tt
  candidates-IsCandidate (b ∷ bs) =
      let rest =
        All-map (IsCandidate bs) (IsCandidate (b ∷ bs)) (candidates p arch selector now bs)
          (IsCandidate-cons b bs) (candidates-IsCandidate bs) in
      elim (Option-cases (consider p arch selector now b)) [
        | inl out ↦ rw (out, candidates) rest
        | inr (c, e) ↦ rw (e, candidates) ((b, Memᴰ.head refl, consider-IsEligible b c e), rest)
      ]

  pub least-All :
      (P : Candidate → Type 0) (best : Candidate) (cs : List Candidate)
      → P best
      → All P cs
      → P (least best cs)
  least-All P best [] h a = h
  least-All P best (c ∷ cs) h a = elim (Bool-cases (load_lt c best)) [
    | inl less ↦ rw less (least-All P c cs a.0 a.1)
    | inr not_less ↦ rw not_less (least-All P best cs h a.1)
  ]

  -- The outcome of both functions, by whether any backend passes the filters.
  abbrev pub Outcomes : List Candidate → Option Candidate → Type 0
  Outcomes [] r = r ≡ none
  Outcomes (c ∷ cs) r = r ≡ some (least c cs)

  pub select_from-Outcomes :
      (bs : List Backend)
      → Outcomes (candidates p arch selector now bs) (select_from p arch selector now bs none)
  unfolding select_from candidates
  select_from-Outcomes [] = refl
  select_from-Outcomes (b ∷ bs) = elim (Option-cases (consider p arch selector now b)) [
    | inl out ↦ rw (out, keep_best, candidates) (select_from-Outcomes bs)
    | inr (c, e) ↦ rw (e, keep_best, candidates) (select_from-candidates bs c)
  ]

  -- The attempt on a candidate that passed the filters succeeds.
  try_acquire-IsEligible :
      (b : Backend) (c : Candidate) (v : IsEligible b c)
      → try_acquire p.state c
        ≡ some (
            insert b.addr
              (record v.state { active_jobs = wrap32 (v.state.active_jobs +ℤ pos 1) })
              p.state)
  unfolding try_acquire
  try_acquire-IsEligible b c v =
      let found : lookup c.backend.addr p.state ≡ some v.state = rw v.same v.tracked in
      rw (found, try_acquire, v.has_room)
        (ap
          (λ (x : Backend). some (
            insert x.addr (record v.state { active_jobs = wrap32 (v.state.active_jobs +ℤ pos 1) })
              p.state))
          v.same)

  acquire_from-least :
      (c : Candidate) (cs : List Candidate) (b : Backend) (v : IsEligible b (least c cs))
      → acquire_from (length (c ∷ cs)) p.state (c ∷ cs)
        ≡ some (
          b,
          insert b.addr
              (record v.state { active_jobs = wrap32 (v.state.active_jobs +ℤ pos 1) })
              p.state,
        )
  unfolding acquire_from
  acquire_from-least c cs b v =
      let hit : get_elem? (c ∷ cs) (best_index c 0 1 cs) ≡ some (least c cs) =
        get_elem?-best_index c (c ∷ []) 0 cs refl in
      rw (hit, acquire_from, try_acquire-IsEligible b (least c cs) v, v.same) refl

  -- The two functions agree: both find no backend, or both choose the same eligible backend, and
  -- then its count of running jobs is one more and nothing else of the pool changes.
  pub select_and_acquire-select :
      ((select p arch selector now ≡ err no_available_backend)
        × (select_and_acquire p arch selector now ≡ err no_available_backend))
      ⊎ ((b : Backend) × (c : Candidate) × (v : IsEligible b c) × Memᴰ b p.backends
          × (select p arch selector now ≡ ok b)
          × (select_and_acquire p arch selector now
              ≡ ok (
                b,
                record p {
                  state =
                      insert b.addr
                        (record v.state { active_jobs = wrap32 (v.state.active_jobs +ℤ pos 1) })
                        p.state;
                },
              )))
  unfolding select select_and_acquire
  select_and_acquire-select =
      agree (candidates p arch selector now p.backends) refl (select_from-Outcomes p.backends)
        (candidates-IsCandidate p.backends)
    where
      agree :
          (cs : List Candidate)
          → candidates p arch selector now p.backends ≡ cs
          → Outcomes cs (select_from p arch selector now p.backends none)
          → All (IsCandidate p.backends) cs
          → ((select p arch selector now ≡ err no_available_backend)
              × (select_and_acquire p arch selector now ≡ err no_available_backend))
            ⊎ ((b : Backend) × (c : Candidate) × (v : IsEligible b c) × Memᴰ b p.backends
                × (select p arch selector now ≡ ok b)
                × (select_and_acquire p arch selector now
                    ≡ ok (
                      b,
                      record p {
                        state =
                            insert b.addr
                              (record v.state {
                                active_jobs = wrap32 (v.state.active_jobs +ℤ pos 1);
                              })
                              p.state;
                      },
                    )))
      agree [] e o a = inl (rw (o, select) refl, rw (e, select_and_acquire) refl)
      agree (c ∷ cs) e o a =
          let (b, m, v) = least-All (IsCandidate p.backends) c cs a.0 a.1 in
          inr (
            b,
            least c cs,
            v,
            m,
            rw (o, select, v.same) refl,
            rw (e, select_and_acquire, acquire_from-least c cs b v) refl,
          )
