-- ===== src/Scheduler/Round.antt =====
-- `processBuilds`: one round of the scheduler over the builds that are not finished.
use melange.Prelude.{
  ℕ, suc, ◌≡◌, refl, ◌∙◌, sym, ap, Bool, true, false, ◌&&◌, ◌||◌, not, List, [], ◌∷◌, map, String,
  arith, if◌then◌else◌, ◌==◌, ==_iff, ==_refl, string_eq, contains, Distinct, All, length, keep_if,
  count_if, Option-cases, Bool-cases, inl, inr,
}
use melange.Prelude.Int.{ℤ}
use melange.Prelude.Maps.{Dict, lookup, insert, has_key, IsRange, DistinctKeys}
use melange.Types.{Build, BuildStatus, build_status_eq}
use melange.Store.{
  list_active_builds, indexed, insert_by_created, sort_by_created, is_terminal_status,
}
use melange.Store.Index.{IsIndexed, live, list_active_builds_iff}
use melange.Pool.{BackendStatus, status}
use melange.Scheduler.Setup.{Scheduler}

-- What the round tells the metrics: the pending builds, and the backends in all, those with a closed
-- breaker, and the running jobs and the architecture of each address.
pub record Report : Type 0 where
  pub queue_depth : ℕ
  pub total : ℕ
  pub available : ℕ
  pub active_jobs : Dict ℤ
  pub arch_by_addr : Dict String

unfoldable pub count_backends : List BackendStatus → Report → Report
unfolding insert
count_backends [] r = r
count_backends (b ∷ bs) r = count_backends bs (record r {
  available = if b.circuit_open then r.available else suc r.available;
  active_jobs = insert b.backend.addr b.active_jobs r.active_jobs;
  arch_by_addr = insert b.backend.addr b.backend.arch r.arch_by_addr;
})

unfoldable pub report : List Build → List BackendStatus → Report
unfolding count_backends count_if
report builds statuses = count_backends statuses (record {
  queue_depth = count_if (λ b. b.status == BuildStatus.pending) builds;
  total = length statuses;
  available = 0;
  active_jobs = [];
  arch_by_addr = [];
})

abbrev pub may_start : List String → Build → Bool
may_start active b =
    if b.status == BuildStatus.pending || b.status == BuildStatus.running
    then if contains active b.id then false else true
    else false

-- The loop over the builds: those that it starts, and the builds that are in process afterwards.
unfoldable pub start_builds : List Build → List String → List Build × List String
unfolding contains
start_builds [] active = ([], active)
start_builds (b ∷ bs) active =
    let without = start_builds bs active in
    let (started, after) = start_builds bs (b.id ∷ active) in
    if may_start active b then (b ∷ started, after) else without

-- The builds that a round starts, and the scheduler and the report afterwards.
unfoldable pub process_builds : Scheduler → Dict (Unit {0}) → Report × List Build × Scheduler
unfolding list_active_builds status report start_builds
process_builds s range =
    let builds = list_active_builds s.build_store range in
    let (started, active) = start_builds builds s.active_builds in
    (report builds (status s.pool), started, record s { active_builds = active })

-- What the goroutine of a build does when `processBuild` returns.
unfoldable pub end_build : Scheduler → String → Scheduler
unfolding keep_if
end_build s id = record s { active_builds = keep_if (λ k. not (k == id)) s.active_builds }

abbrev pub build_ids : List Build → List String
build_ids = map (λ b. b.id)

abbrev Unfinished : Build → Type 0
Unfinished b = is_terminal_status b.status ≡ false

may_start_lem :
    (active : List String) (b : Build)
    → Unfinished b
    → may_start active b ≡ not (contains active b.id)
unfolding is_terminal_status
may_start_lem active b u = ground arith

contains-start_builds :
    (bs : List Build) (active : List String) (id : String)
    → All Unfinished bs
    → contains (build_ids (start_builds bs active).0) id
      ≡ (contains (build_ids bs) id && not (contains active id))
unfolding start_builds contains
contains-start_builds [] active id a = refl
contains-start_builds (b ∷ bs) active id a = elim (Bool-cases (contains active b.id)) [
  | inl busy ↦ ground (
    arith,
    may_start_lem active b a.0,
    contains-start_builds bs active id a.1,
    busy,
    ==_iff {A = String} b.id id,
  )
  | inr free ↦ ground (
    arith,
    may_start_lem active b a.0,
    contains-start_builds bs (b.id ∷ active) id a.1,
    free,
    ==_iff {A = String} b.id id,
  )
]

active-start_builds :
    (bs : List Build) (active : List String) (id : String)
    → contains (start_builds bs active).1 id
      ≡ (contains active id || contains (build_ids (start_builds bs active).0) id)
unfolding start_builds contains
active-start_builds [] active id = ground arith
active-start_builds (b ∷ bs) active id = elim (Bool-cases (may_start active b)) [
  | inl starts ↦ ground (arith, starts, active-start_builds bs (b.id ∷ active) id)
  | inr waits ↦ ground (arith, waits, active-start_builds bs active id)
]

Distinct-start_builds :
    (bs : List Build) (active : List String)
    → All Unfinished bs
    → Distinct (build_ids (start_builds bs active).0)
unfolding start_builds contains
Distinct-start_builds [] active a = tt
Distinct-start_builds (b ∷ bs) active a = elim (Bool-cases (may_start active b)) [
  | inl starts ↦ ground (
    arith,
    starts,
    contains-start_builds bs (b.id ∷ active) b.id a.1,
    ==_refl {A = String} b.id,
    Distinct-start_builds bs (b.id ∷ active) a.1,
  )
  | inr waits ↦ ground (arith, waits, Distinct-start_builds bs active a.1)
]

All-insert_by_created :
    (b : Build) (xs : List Build)
    → Unfinished b
    → All Unfinished xs
    → All Unfinished (insert_by_created b xs)
unfolding insert_by_created
All-insert_by_created b [] u a = (u, tt)
All-insert_by_created b (x ∷ xs) u a = ground (arith, All-insert_by_created b xs u a.1)

All-sort_by_created : (xs : List Build) → All Unfinished xs → All Unfinished (sort_by_created xs)
unfolding sort_by_created
All-sort_by_created [] a = tt
All-sort_by_created (x ∷ xs) a =
    All-insert_by_created x (sort_by_created xs) a.0 (All-sort_by_created xs a.1)

All-indexed :
    (builds : Dict Build) (range : Dict (Unit {0}))
    → ((id : String) → has_key range id ≡ true → live (lookup id builds) ≡ true)
    → DistinctKeys range
    → All Unfinished (indexed builds range)
unfolding indexed lookup
All-indexed builds [] h d = tt
All-indexed builds ((id, u) ∷ range) h d =
    let tail : (j : String) → has_key range j ≡ true → live (lookup j builds) ≡ true =
      λ j e. h j (ground (arith, ==_iff {A = String} id j)) in
    let rest = All-indexed builds range tail d.1 in
    elim (Option-cases (lookup id builds)) [
      | inl miss ↦ rw (miss, indexed) rest
      | inr (b, e) ↦
          rw (e, indexed)
            (ground (arith, h id (rw (==_refl {A = String} id, has_key, lookup) refl), e), rest)
    ]

-- With an exact index, a round starts each build at most once, and exactly the unfinished builds that
-- are not in process, in every order of the index; the builds in process are then those before and
-- those that it starts.
pub process_builds_lem :
    (s : Scheduler) (range : Dict (Unit {0}))
    → IsIndexed s.build_store
    → IsRange s.build_store.active_builds range
    → Distinct (build_ids (process_builds s range).1)
      × ((id : String)
          → contains (build_ids (process_builds s range).1) id
            ≡ (live (lookup id s.build_store.builds) && not (contains s.active_builds id)))
      × ((id : String)
          → contains (process_builds s range).2.active_builds id
            ≡ (contains s.active_builds id || contains (build_ids (process_builds s range).1) id))
unfolding process_builds list_active_builds
process_builds_lem s range v r =
    let builds = list_active_builds s.build_store range in
    let unfinished : All Unfinished builds =
      All-sort_by_created (indexed s.build_store.builds range) (
        All-indexed s.build_store.builds range
          (λ id h. sym (v.exact id) ∙ rw (← r.same id, has_key) h) r.distinct) in
    (
      Distinct-start_builds builds s.active_builds unfinished,
      λ id.
          contains-start_builds builds s.active_builds id unfinished
          ∙ ap (λ z. z && not (contains s.active_builds id))
              (list_active_builds_iff s.build_store range id v r),
      λ id. active-start_builds builds s.active_builds id,
    )
