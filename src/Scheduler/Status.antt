-- ===== src/Scheduler/Status.antt =====
-- The status that `updateBuildStatus` of pkg/service/scheduler/scheduler.go gives a build.
use melange.Prelude.{
  ℕ, ◌+◌, ◌≤◌, ◌≡◌, refl, ◌∙◌, sym, ap, subst, Bool, true, false, ◌&&◌, ◌||◌, List, [], ◌∷◌, some,
  String, ok, arith, if◌then◌else◌, ◌==◌, ==_refl, string_eq, length, ltb, nat_beq, Bool-cases, inl,
  inr,
}
use melange.Prelude.Maps.{lookup, insert, has_key, lookup-insert}
use melange.Types.{
  Build, BuildStatus, PackageJob, PackageStatus, status_eq, build_status_eq, build_status_beq_iff,
}
use melange.Store.{Store, get_build, update_build}
use melange.Store.Index.{IsIndexed}
use melange.Scheduler.Defs.{
  Tally, count_one, tally, overall_status, no_packages, or_keep, update_build_status,
}

-- Some package has a status that passes the test.
abbrev pub some_status : (PackageStatus → Bool) → List PackageJob → Bool
some_status test [] = false
some_status test (p ∷ ps) = test p.status || some_status test ps

abbrev pub all_status : (PackageStatus → Bool) → List PackageJob → Bool
all_status test [] = true
all_status test (p ∷ ps) = test p.status && all_status test ps

-- The package may still run.
abbrev pub is_open : PackageStatus → Bool
is_open st =
    st == PackageStatus.pending || st == PackageStatus.blocked || st == PackageStatus.running

abbrev pub is_success : PackageStatus → Bool
is_success st = st == PackageStatus.success

abbrev pub is_failed : PackageStatus → Bool
is_failed st = st == PackageStatus.failed

abbrev successes : List PackageJob → ℕ
successes [] = 0
successes (p ∷ ps) = (if is_success p.status then 1 else 0) + successes ps

tally_open :
    (ps : List PackageJob) (t : Tally)
    → (ltb 0 (tally ps t).running || ltb 0 (tally ps t).pending)
      ≡ (ltb 0 t.running || ltb 0 t.pending || some_status is_open ps)
unfolding tally count_one
tally_open [] t = ground arith
tally_open (p ∷ ps) t = ground (arith, tally_open ps (count_one p.status t))

tally_success : (ps : List PackageJob) (t : Tally) → (tally ps t).success ≡ t.success + successes ps
unfolding tally count_one
tally_success [] t = omega arith
tally_success (p ∷ ps) t = ground (arith, tally_success ps (count_one p.status t))

tally_failed :
    (ps : List PackageJob) (t : Tally)
    → ltb 0 (tally ps t).failed ≡ (ltb 0 t.failed || some_status is_failed ps)
unfolding tally count_one
tally_failed [] t = ground arith
tally_failed (p ∷ ps) t = ground (arith, tally_failed ps (count_one p.status t))

successes_some : (ps : List PackageJob) → ltb 0 (successes ps) ≡ some_status is_success ps
successes_some [] = refl
successes_some (p ∷ ps) = ground (arith, successes_some ps)

successes_le : (ps : List PackageJob) → successes ps ≤ length ps
successes_le [] = omega arith
successes_le (p ∷ ps) = ground (arith, successes_le ps)

successes_all :
    (ps : List PackageJob) → nat_beq (successes ps) (length ps) ≡ all_status is_success ps
successes_all [] = refl
successes_all (p ∷ ps) = ground (arith, successes_all ps, successes_le ps)

-- A build runs while some package is pending, blocked or running; after that it is a success when
-- every package succeeded, partial when some failed and some succeeded, and else failed.
pub overall_status_lem :
    (ps : List PackageJob)
    → overall_status ps ≡ (
        if some_status is_open ps
        then BuildStatus.running
        else if all_status is_success ps
        then BuildStatus.success
        else if some_status is_failed ps && some_status is_success ps
        then BuildStatus.partial
        else BuildStatus.failed)
unfolding overall_status
overall_status_lem ps = ground (
  arith,
  tally_open ps no_packages,
  tally_success ps no_packages,
  tally_failed ps no_packages,
  successes_some ps,
  successes_all ps,
)

-- The build with the overall status of its packages.
abbrev settled : Build → ℕ → Build
settled b now = record b {
  status = overall_status b.packages;
  finished_at =
      if overall_status b.packages == BuildStatus.running then b.finished_at else some now;
}

settled-builds :
    (s : Store) (id : String) (now : ℕ) (b : Build)
    → b.id ≡ id
    → lookup id s.builds ≡ some b
    → (b.status == overall_status b.packages) ≡ false
    → (update_build_status s id now).builds ≡ insert id (settled b now) s.builds
unfolding update_build_status get_build update_build
settled-builds s id now b name e changed =
    let got : get_build s id ≡ ok b = rw (e, get_build) refl in
    let there : has_key s.builds b.id ≡ true =
      subst (λ k. has_key s.builds k ≡ true) (sym name) (rw (e, has_key) refl) in
    let put : (or_keep s (update_build s (settled b now))).builds
        ≡ insert b.id (settled b now) s.builds =
      rw (there, update_build) refl in
    rw (got, update_build_status, changed) (put ∙ ap (λ k. insert k (settled b now) s.builds) name)

kept-builds :
    (s : Store) (id : String) (now : ℕ) (b : Build)
    → lookup id s.builds ≡ some b
    → (b.status == overall_status b.packages) ≡ true
    → update_build_status s id now ≡ s
unfolding update_build_status get_build
kept-builds s id now b e same =
    let got : get_build s id ≡ ok b = rw (e, get_build) refl in
    rw (got, update_build_status, same) refl

-- In a store with an exact index `updateBuildStatus` gives a build of the store the status that its packages have overall, keeps the packages,
-- sets the finishing time when the build leaves the running state, and keeps every other build.
pub update_build_status_lem :
    (s : Store) (id : String) (now : ℕ) (b : Build)
    → IsIndexed s
    → lookup id s.builds ≡ some b
    → (b' : Build) × (lookup id (update_build_status s id now).builds ≡ some b')
      × (b'.status ≡ overall_status b.packages)
      × (b'.packages ≡ b.packages)
      × (b'.finished_at ≡ (
          if b.status == overall_status b.packages
            || overall_status b.packages == BuildStatus.running
          then b.finished_at
          else some now))
      × ((j : String)
          → (id == j) ≡ false
          → lookup j (update_build_status s id now).builds ≡ lookup j s.builds)
update_build_status_lem s id now b v e = elim (Bool-cases (b.status == overall_status b.packages)) [
  | inl same ↦
      let kept = kept-builds s id now b e same in
      (
        b,
        rw kept e,
        (build_status_beq_iff b.status (overall_status b.packages)).0 same,
        refl,
        rw same refl,
        λ j other. rw kept refl,
      )
  | inr changed ↦
      let put = settled-builds s id now b (v.named id b e) e changed in
      (
        settled b now,
        rw put
            (ground (arith, lookup-insert id id (settled b now) s.builds, ==_refl {A = String} id)),
        refl,
        refl,
        rw changed refl,
        λ j other. rw put (ground (arith, lookup-insert id j (settled b now) s.builds)),
      )
]
