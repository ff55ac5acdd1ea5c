-- ===== src/Scheduler/Tests.antt =====
-- Runs and witnesses for pkg/service/scheduler/scheduler.go on a build of two packages.
use melange.Prelude.{
  ◌≡◌, refl, false, ◌&&◌, ◌||◌, List, [], ◌∷◌, map, Option, none, some, String, if◌then◌else◌, ◌==◌,
  string_eq, ok, err, contains,
}
use mathlib.Core.List.{Memᴰ}
use melange.Prelude.Maps.{lookup}
use melange.Types.{
  Node, Build, BuildSpec, BuildStatus, BuildMode, PackageJob, PackageStatus, status_eq,
  build_status_eq,
}
use melange.Store.{
  Store, default_config, new_memory_build_store, create_build, package_of, claimed, claim_packages,
  replace_package, get_build,
}
use melange.Store.Index.{IsIndexed, new_memory_build_store-IsIndexed, create_build-IsIndexed}
use melange.Scheduler.Defs.{
  overall_status, update_build_status, cascade_failure, execute_package_build,
}
use melange.Prelude.{Distinct, not}
use melange.Prelude.Int.{pos}
use melange.Pool.{Pool, fresh_state}
use melange.Store.Index.{live}
use melange.Scheduler.Setup.{Config, Scheduler, new_scheduler}
use melange.Scheduler.Round.{build_ids, process_builds, process_builds_lem}
use melange.Prelude.{arith, count_if}
use melange.Scheduler.Defs.{is_waiting}
use melange.Scheduler.Cascade.{Returns, jobs, cascade_failure-Returns}
use melange.Scheduler.Skipped.{cascade_failure-Skipped}
use melange.Scheduler.Waits.{IsSettled}
use melange.Scheduler.Status.{
  some_status, all_status, is_open, is_success, is_failed, overall_status_lem,
  update_build_status_lem,
}
use melange.Scheduler.Duplicates.{shadowed, Reach-overall_status}
use melange.Scheduler.Order.{Step, Reach, here, next, IsOrderly, create_build-IsOrderly}

abbrev spec : BuildSpec
spec = record {
  configs = [];
  git_source = none;
  pipelines = none;
  source_files = none;
  arch = "x86_64";
  backend_selector = [];
  with_test = false;
  debug = false;
  mode = BuildMode.dag;
  env = [];
}

abbrev node : String → List String → Node
node name deps = record { name = name; config_yaml = ""; dependencies = deps }

abbrev nodes : List Node
nodes = node "app" ("lib" ∷ []) ∷ node "lib" [] ∷ []

abbrev start : Store
start = (create_build (new_memory_build_store default_config) "x" 1 nodes spec).1

abbrev app_job : PackageJob
app_job = package_of none (node "app" ("lib" ∷ []))

abbrev lib_job : PackageJob
lib_job = package_of none (node "lib" [])

-- A failure of `lib` skips `app`, and the build fails.
outcome : Option Store → Option (BuildStatus × List PackageStatus)
unfolding get_build update_build_status
outcome none = none
outcome (some s) = elim (get_build (update_build_status s "x" 6) "x") [
  | ok b ↦ some (b.status, map (λ p. p.status) b.packages)
  | err e ↦ none
]

lib_fails :
    outcome (execute_package_build 3 start "x" (claimed 2 lib_job) (some "broken") 5)
    ≡ some (BuildStatus.failed, PackageStatus.skipped ∷ PackageStatus.failed ∷ [])
unfolding create_build new_memory_build_store execute_package_build update_build_status get_build
    package_of claimed outcome
lib_fails = refl

lib_claimed :
    claim_packages 2
      (create_build (new_memory_build_store default_config) "x" 1 nodes spec).0.packages
    ≡ some (claimed 2 lib_job, app_job ∷ claimed 2 lib_job ∷ [])
unfolding create_build new_memory_build_store claim_packages package_of claimed
lib_claimed = refl

abbrev lib_done : PackageJob
lib_done = record lib_job {
  status = PackageStatus.success;
  started_at = some 2;
  finished_at = some 4;
}

lib_written :
    replace_package lib_done (app_job ∷ claimed 2 lib_job ∷ []) ≡ some (app_job ∷ lib_done ∷ [])
unfolding replace_package package_of claimed
lib_written = refl

app_claimed :
    claim_packages 5 (app_job ∷ lib_done ∷ [])
    ≡ some (claimed 5 app_job, claimed 5 app_job ∷ lib_done ∷ [])
unfolding claim_packages package_of claimed
app_claimed = refl

history :
    Reach
      (create_build (new_memory_build_store default_config) "x" 1 nodes spec).0.packages
      (claimed 5 app_job ∷ lib_done ∷ [])
unfolding package_of claimed
history =
    next
      (next
        (next here
          (Step.claim 2 (claimed 2 lib_job) (app_job ∷ claimed 2 lib_job ∷ []) lib_claimed))
        (Step.write_back (claimed 2 lib_job) lib_done (app_job ∷ lib_done ∷ [])
          (Memᴰ.tail (Memᴰ.head refl)) refl refl refl lib_written))
      (Step.claim 5 (claimed 5 app_job) (claimed 5 app_job ∷ lib_done ∷ []) app_claimed)

create_build-IsOrderly_example : IsOrderly (claimed 5 app_job ∷ lib_done ∷ [])
unfolding contains
create_build-IsOrderly_example =
    create_build-IsOrderly (new_memory_build_store default_config) "x" 1 nodes spec
      (claimed 5 app_job ∷ lib_done ∷ []) (refl, (refl, tt)) history

overall_status_lem_example :
    overall_status (lib_done ∷ record app_job { status = PackageStatus.failed } ∷ []) ≡ (
      if some_status is_open (lib_done ∷ record app_job { status = PackageStatus.failed } ∷ [])
      then BuildStatus.running
      else if all_status is_success
          (lib_done ∷ record app_job { status = PackageStatus.failed } ∷ [])
      then BuildStatus.success
      else if some_status is_failed
            (lib_done ∷ record app_job { status = PackageStatus.failed } ∷ [])
          && some_status is_success
              (lib_done ∷ record app_job { status = PackageStatus.failed } ∷ [])
      then BuildStatus.partial
      else BuildStatus.failed)
overall_status_lem_example =
    overall_status_lem (lib_done ∷ record app_job { status = PackageStatus.failed } ∷ [])

start-IsIndexed : IsIndexed start
start-IsIndexed =
    create_build-IsIndexed (new_memory_build_store default_config) "x" 1 nodes spec
      (new_memory_build_store-IsIndexed default_config)

abbrev built : Build
built = (create_build (new_memory_build_store default_config) "x" 1 nodes spec).0

update_build_status_lem_example :
    (b' : Build) × (lookup "x" (update_build_status start "x" 9).builds ≡ some b')
    × (b'.status ≡ overall_status built.packages)
    × (b'.packages ≡ built.packages)
    × (b'.finished_at ≡ (
        if built.status == overall_status built.packages
          || overall_status built.packages == BuildStatus.running
        then built.finished_at
        else some 9))
    × ((j : String)
        → ("x" == j) ≡ false
        → lookup j (update_build_status start "x" 9).builds ≡ lookup j start.builds)
unfolding create_build new_memory_build_store lookup
update_build_status_lem_example = update_build_status_lem start "x" 9 built start-IsIndexed refl

abbrev settings : Config
settings = record {
  output_dir = "";
  poll_interval = pos 0;
  max_parallel = pos 0;
  cache_registry = "";
  cache_mode = "";
  apko_registry = "";
  apko_registry_insecure = false;
  apk_cache_dir = "";
  apk_cache_ttl = pos 0;
  apko_service_addr = "";
  secret_env = [];
}

abbrev pool : Pool
pool = record {
  backends = record { addr = "a"; arch = "x86_64"; labels = none; max_jobs = pos 2 } ∷ [];
  state = ("a", fresh_state) ∷ [];
  default_max_jobs = pos 4;
  failure_threshold = pos 3;
  recovery_timeout = pos 30000000000;
}

abbrev scheduler : Scheduler
scheduler = new_scheduler (pos 8) start pool settings

run_slots : scheduler.slots ≡ pos 2
unfolding new_scheduler
run_slots = refl

run_round : build_ids (process_builds scheduler start.active_builds).1 ≡ "x" ∷ []
unfolding new_scheduler process_builds create_build new_memory_build_store
run_round = refl

process_builds_lem_example :
    Distinct (build_ids (process_builds scheduler start.active_builds).1)
    × ((id : String)
        → contains (build_ids (process_builds scheduler start.active_builds).1) id ≡ (
            live (lookup id scheduler.build_store.builds)
            && not (contains scheduler.active_builds id)))
    × ((id : String)
        → contains (process_builds scheduler start.active_builds).2.active_builds id ≡ (
            contains scheduler.active_builds id
            || contains (build_ids (process_builds scheduler start.active_builds).1) id))
unfolding new_scheduler
process_builds_lem_example =
    process_builds_lem scheduler start.active_builds start-IsIndexed
      (record { distinct = start-IsIndexed.distinct_index; same = λ k. refl })

cascade_failure-Returns_example : Returns (cascade_failure 3 start "x" "lib") "x" (jobs start "x")
unfolding contains create_build new_memory_build_store package_of lookup count_if is_waiting
cascade_failure-Returns_example =
    cascade_failure-Returns 3 start "x" "lib" (refl, (refl, tt)) (omega arith)

cascade_failure-Skipped_example :
    (t : Store) × (q : PackageJob) × (cascade_failure 3 start "x" "lib" ≡ some t)
    × Memᴰ q (jobs t "x")
    × (q.name ≡ "app")
    × IsSettled q
unfolding contains create_build new_memory_build_store package_of lookup count_if is_waiting
cascade_failure-Skipped_example =
    cascade_failure-Skipped 3 start "x" "lib" app_job (refl, (refl, tt)) (omega arith) refl
      (Memᴰ.head refl) refl

-- Two packages of one name, of which the second runs.
abbrev twins : List PackageJob
twins = claimed 1 lib_job ∷ claimed 2 lib_job ∷ []

Reach-overall_status_example : overall_status twins ≡ BuildStatus.running
unfolding package_of claimed shadowed
Reach-overall_status_example = Reach-overall_status "lib" twins twins refl here
