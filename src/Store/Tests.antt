-- ===== src/Store/Tests.antt =====
-- Runs and witnesses for pkg/service/store/memory.go on a store of three builds.
use melange.Prelude.{
  arith, ℕ, ◌≤◌, ◌≡◌, refl, ◌⊎◌, true, false, List, [], ◌∷◌, map, none, some, String, ok,
  if◌then◌else◌, string_eq, contains, length, All,
}
use melange.Prelude.Int.{pos}
use melange.Prelude.Maps.{lookup, has_key, IsRange}
use melange.Types.{Build, BuildSpec, BuildStatus, BuildMode, PackageJob, PackageStatus}
use melange.Store.Defs.{
  Store, default_config, is_terminal_status, new_memory_build_store, create_build, update_build,
  list_active_builds, evict_old_builds, package_of, claimed, claim_packages,
}
use melange.Store.Index.{
  live, IsIndexed, new_memory_build_store-IsIndexed, create_build-IsIndexed, update_build-IsIndexed,
  update_build_revives, evict_old_builds-IsIndexed, list_active_builds_iff,
}
use melange.Store.Evict.{
  is_finished, ended, IsYoung, evict_old_builds-live, evict_old_builds-bound,
  evict_old_builds-oldest,
}
use melange.Store.Claim.{DepsDone, Replaced, claim_packages_cases}

abbrev spec : BuildSpec
spec = record {
  configs = [];
  git_source = none;
  pipelines = none;
  source_files = none;
  arch = "x86_64";
  backend_selector = [];
  with_test = false;
  debug = false;
  mode = BuildMode.flat;
  env = [];
}

abbrev build : String → BuildStatus → ℕ → Build
build id st finished = record {
  id = id;
  status = st;
  packages = [];
  spec = spec;
  created_at = 0;
  started_at = none;
  finished_at = if is_terminal_status st then some finished else none;
}

abbrev empty : Store
empty = new_memory_build_store default_config

abbrev one : Store
one = (create_build empty "x" 3 [] spec).1

empty-IsIndexed : IsIndexed empty
empty-IsIndexed = new_memory_build_store-IsIndexed default_config

one-IsIndexed : IsIndexed one
one-IsIndexed = create_build-IsIndexed empty "x" 3 [] spec empty-IsIndexed

abbrev x_with : BuildStatus → Build
x_with st = record (create_build empty "x" 3 [] spec).0 { status = st }

abbrev finished_x : Build
finished_x = x_with BuildStatus.success

abbrev one_done : Store
one_done = record { builds = ("x", finished_x) ∷ []; config = default_config; active_builds = [] }

x_done : update_build one finished_x ≡ ok one_done
unfolding update_build create_build new_memory_build_store
x_done = refl

update_build-IsIndexed_example : IsIndexed one_done
unfolding create_build new_memory_build_store lookup is_terminal_status
update_build-IsIndexed_example =
    update_build-IsIndexed one one_done (create_build empty "x" 3 [] spec).0 finished_x
      one-IsIndexed refl refl x_done

one_done-IsIndexed : IsIndexed one_done
unfolding create_build new_memory_build_store lookup is_terminal_status
one_done-IsIndexed =
    update_build-IsIndexed one one_done (create_build empty "x" 3 [] spec).0 finished_x
      one-IsIndexed refl refl x_done

abbrev revived : Store
revived = record one_done { builds = ("x", x_with BuildStatus.running) ∷ [] }

x_revived : update_build one_done (x_with BuildStatus.running) ≡ ok revived
unfolding update_build create_build new_memory_build_store
x_revived = refl

update_build_revives_example :
    (live (lookup "x" revived.builds) ≡ true) × (has_key revived.active_builds "x" ≡ false)
unfolding create_build new_memory_build_store lookup is_terminal_status
update_build_revives_example =
    update_build_revives one_done revived finished_x (x_with BuildStatus.running) one_done-IsIndexed
      refl refl refl x_revived

list_active_builds_iff_example :
    contains (map (λ b. b.id) (list_active_builds one one.active_builds)) "x"
    ≡ live (lookup "x" one.builds)
list_active_builds_iff_example =
    list_active_builds_iff one one.active_builds "x" one-IsIndexed
      (record { distinct = one-IsIndexed.distinct_index; same = λ k. refl })

-- Two finished builds and one that runs, where one finished build may stay.
abbrev three : Store
three = record {
  builds =
      ("old", build "old" BuildStatus.success 10)
      ∷ ("new", build "new" BuildStatus.failed 20)
      ∷ ("run", build "run" BuildStatus.running 0)
      ∷ [];
  config = record { max_completed_builds = pos 1; build_ttl = pos 1000; eviction_interval = pos 1 };
  active_builds = ("run", tt) ∷ [];
}

three-IsRange : IsRange three.builds three.builds
unfolding lookup
three-IsRange = record { distinct = (refl, (refl, (refl, tt))); same = λ k. refl }

evict_old_builds-IsIndexed_example : IsIndexed (evict_old_builds one one.builds 50)
evict_old_builds-IsIndexed_example = evict_old_builds-IsIndexed one one.builds 50 one-IsIndexed

evict_old_builds-live_example :
    lookup "run" (evict_old_builds three three.builds 50).builds ≡ lookup "run" three.builds
unfolding lookup is_terminal_status
evict_old_builds-live_example = evict_old_builds-live three three.builds 50 three-IsRange "run" refl

stays :
    lookup "new" (evict_old_builds three three.builds 50).builds
    ≡ some (build "new" BuildStatus.failed 20)
unfolding evict_old_builds lookup is_terminal_status
stays = refl

goes : lookup "old" (evict_old_builds three three.builds 50).builds ≡ none
unfolding evict_old_builds lookup is_terminal_status
goes = refl

evict_old_builds-bound_example :
    (names : List String) × (length names ≤ 1)
    × ((id : String) (b : Build)
        → lookup id (evict_old_builds three three.builds 50).builds ≡ some b
        → is_finished b.status ≡ true
        → contains names id ≡ true)
evict_old_builds-bound_example = evict_old_builds-bound three three.builds 50 three-IsRange 0 refl

young : IsYoung three.config 50 (build "old" BuildStatus.success 10)
unfolding is_terminal_status
young n e = ground arith

evict_old_builds-oldest_example :
    ended (build "old" BuildStatus.success 10) ≤ ended (build "new" BuildStatus.failed 20)
unfolding lookup is_terminal_status
evict_old_builds-oldest_example =
    evict_old_builds-oldest three three.builds 50 three-IsRange "old" "new"
      (build "old" BuildStatus.success 10) (build "new" BuildStatus.failed 20) refl refl young goes
      stays refl

-- `app` waits for `lib`, which has succeeded.
abbrev job : String → PackageStatus → List String → PackageJob
job name st deps =
    record (package_of none (record { name = name; config_yaml = ""; dependencies = deps })) {
      status = st;
    }

abbrev jobs : List PackageJob
jobs = job "app" PackageStatus.pending ("lib" ∷ []) ∷ job "lib" PackageStatus.success [] ∷ []

claim_packages_cases_example :
    ((claim_packages 7 jobs ≡ none)
      × All (λ p. ¬ ((p.status ≡ PackageStatus.pending) × DepsDone jobs p.dependencies)) jobs)
    ⊎ ((p : PackageJob) × (qs : List PackageJob) × (claim_packages 7 jobs ≡ some (claimed 7 p, qs))
        × (p.status ≡ PackageStatus.pending)
        × DepsDone jobs p.dependencies
        × Replaced p (claimed 7 p) jobs qs)
unfolding package_of contains
claim_packages_cases_example = claim_packages_cases 7 jobs (refl, (refl, tt))
