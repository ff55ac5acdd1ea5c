-- ===== src/Scheduler/Defs.antt =====
-- The scheduler's operations on a build in the store.
use melange.Prelude.{
  ℕ, zero, suc, Bool, true, false, ◌&&◌, ◌||◌, List, [], ◌∷◌, Option, none, some, String, Result,
  ok, err, if◌then◌else◌, ◌==◌, string_eq, length, contains, ltb, nat_beq,
}
use Prim.Native.String.{◌++◌ as ◌<>◌}
use melange.Types.{Build, BuildStatus, PackageJob, PackageStatus, Error, status_eq, build_status_eq}
use melange.Store.{
  Store, get_build, update_build, update_package_job, claim_ready_package, package_names,
}

-- The counters of `updateBuildStatus`.
pub record Tally : Type 0 where
  pub pending : ℕ
  pub running : ℕ
  pub success : ℕ
  pub failed : ℕ
  pub skipped : ℕ

unfoldable pub count_one : PackageStatus → Tally → Tally
count_one PackageStatus.pending t = record t { pending = suc t.pending }
count_one PackageStatus.blocked t = record t { pending = suc t.pending }
count_one PackageStatus.running t = record t { running = suc t.running }
count_one PackageStatus.success t = record t { success = suc t.success }
count_one PackageStatus.failed t = record t { failed = suc t.failed }
count_one PackageStatus.skipped t = record t { skipped = suc t.skipped }

unfoldable pub tally : List PackageJob → Tally → Tally
unfolding count_one
tally [] t = t
tally (p ∷ ps) t = tally ps (count_one p.status t)

abbrev pub no_packages : Tally
no_packages = record { pending = 0; running = 0; success = 0; failed = 0; skipped = 0 }

unfoldable pub overall_status : List PackageJob → BuildStatus
unfolding tally
overall_status ps =
    let t = tally ps no_packages in
    if ltb 0 t.running || ltb 0 t.pending
    then BuildStatus.running
    else if nat_beq t.success (length ps)
    then BuildStatus.success
    else if ltb 0 t.failed && ltb 0 t.success
    then BuildStatus.partial
    else BuildStatus.failed

-- The store if a call succeeds, and the old one if it fails: the scheduler logs the error.
abbrev pub or_keep : Store → Result Error Store → Store
or_keep s (ok t) = t
or_keep s (err e) = s

unfoldable pub update_build_status : Store → String → ℕ → Store
unfolding overall_status get_build update_build
update_build_status s id now = elim (get_build s id) [
  | err e ↦ s
  | ok b ↦
      let new_status = overall_status b.packages in
      if b.status == new_status
      then s
      else or_keep s (
          update_build s (record b {
            status = new_status;
            finished_at = if new_status == BuildStatus.running then b.finished_at else some now;
          }))
]

-- The inner loop of `cascadeFailure`: some dependency inside the build is the failed package.
unfoldable pub depends_on : List String → String → List String → Bool
unfolding contains
depends_on in_build failed [] = false
depends_on in_build failed (dep ∷ deps) =
    if contains in_build dep
    then if dep == failed then true else depends_on in_build failed deps
    else depends_on in_build failed deps

unfoldable pub is_waiting : PackageStatus → Bool
is_waiting st = st == PackageStatus.pending || st == PackageStatus.blocked

-- The loop over the copy of the packages; `rec` is the recursive call.
unfoldable pub cascade_from :
    (Store → String → Option Store)
    → List String
    → String
    → String
    → List PackageJob
    → Store
    → Option Store
unfolding depends_on is_waiting update_package_job
cascade_from rec in_build id failed [] s = some s
cascade_from rec in_build id failed (p ∷ ps) s =
    let rest = cascade_from rec in_build id failed ps in
    if is_waiting p.status && depends_on in_build failed p.dependencies
    then (let skipped : PackageJob = record p {
      status = PackageStatus.skipped;
      error = ("dependency " <> failed) <> " failed";
    } in
        elim (rec (or_keep s (update_package_job s id skipped)) p.name) [
          | none ↦ none
          | some t ↦ rest t
        ])
    else rest s

-- A call skips a waiting package before each recursive call. `none`: the fuel ran out.
unfoldable pub cascade_failure : ℕ → Store → String → String → Option Store
unfolding cascade_from get_build
cascade_failure zero s id failed = none
cascade_failure (suc fuel) s id failed = elim (get_build s id) [
  | err e ↦ some s
  | ok b ↦
      cascade_from (λ t name. cascade_failure fuel t id name) (package_names b.packages) id failed
        b.packages s
]

unfoldable pub mark_package_failed : ℕ → Store → String → PackageJob → String → ℕ → Option Store
unfolding cascade_failure update_package_job
mark_package_failed fuel s id p message now =
    let failed : PackageJob = record p {
      status = PackageStatus.failed;
      finished_at = some now;
      error = message;
    } in
    cascade_failure fuel (or_keep s (update_package_job s id failed)) id p.name

-- `p` is the claimed package as `executePackageJob` leaves it, and `failure` is its error.
unfoldable pub execute_package_build :
    ℕ → Store → String → PackageJob → Option String → ℕ → Option Store
unfolding mark_package_failed cascade_failure get_build update_package_job
execute_package_build fuel s id p failure now = elim (get_build s id) [
  | err e ↦ mark_package_failed fuel s id p ("getting build: build not found: " <> id) now
  | ok b ↦ elim failure [
    | none ↦ some (
        or_keep s (
          update_package_job s id
            (record p { status = PackageStatus.success; finished_at = some now })))
    | some message ↦ elim (cascade_failure fuel s id p.name) [
      | none ↦ none
      | some t ↦ some (
          or_keep t (
            update_package_job t id (record p {
              status = PackageStatus.failed;
              finished_at = some now;
              error = message;
            })))
    ]
  ]
]

-- The start of `processBuild`: a pending build is set to running. `none`: the update failed.
unfoldable pub start_build : Store → Build → ℕ → Option (Build × Store)
unfolding update_build
start_build s b now =
    if b.status == BuildStatus.pending
    then (let started : Build = record b { status = BuildStatus.running; started_at = some now } in
        elim (update_build s started) [ err e ↦ none | ok t ↦ some (started, t) ])
    else some (b, s)

-- The end of `processBuild`, when no job of the build runs: a package that is ready goes back to
-- pending for the next tick, and without one the status of the build is updated.
unfoldable pub settle_build : Store → String → ℕ → Store
unfolding claim_ready_package update_package_job update_build_status
settle_build s id now = elim (claim_ready_package s id now) [
  | err e ↦ update_build_status s id now
  | ok (claim, t) ↦ elim claim [
    | none ↦ update_build_status t id now
    | some p ↦
        or_keep t
          (update_package_job t id (record p { status = PackageStatus.pending; started_at = none }))
  ]
]
