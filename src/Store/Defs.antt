-- ===== src/Store/Defs.antt =====
-- The store's state and its calls.
use melange.Prelude.{
  ℕ, zero, suc, ◌-◌, Bool, true, false, ◌&&◌, List, [], ◌∷◌, ◌++◌, map, Option, none, some, String,
  Result, ok, err, if◌then◌else◌, ◌==◌, string_eq, length, leb, contains,
}
use melange.Prelude.Int.{ℤ, pos, negsuc, ltb_ℤ, sub_ℕ}
use melange.Prelude.Maps.{Dict, lookup, insert, delete, has_key}
use melange.Types.{
  Node, Build, BuildSpec, BuildStatus, PackageJob, PackageStatus, Error, build_not_found,
  package_not_found, status_eq,
}

pub record StoreConfig : Type 0 where
  pub max_completed_builds : ℤ
  pub build_ttl : ℤ
  pub eviction_interval : ℤ

abbrev pub default_config : StoreConfig
default_config = record {
  max_completed_builds = pos 1000;
  build_ttl = pos 86400000000000;
  eviction_interval = pos 300000000000;
}

pub record Store : Type 0 where
  pub builds : Dict Build
  pub config : StoreConfig
  pub active_builds : Dict (Unit {0})

unfoldable pub is_terminal_status : BuildStatus → Bool
is_terminal_status BuildStatus.pending = false
is_terminal_status BuildStatus.running = false
is_terminal_status BuildStatus.success = true
is_terminal_status BuildStatus.failed = true
is_terminal_status BuildStatus.partial = true

unfoldable pub new_memory_build_store : StoreConfig → Store
new_memory_build_store config = record { builds = []; config = config; active_builds = [] }

unfoldable pub package_of : Option (Dict String) → Node → PackageJob
package_of pipelines n = record {
  name = n.name;
  status = PackageStatus.pending;
  config_yaml = n.config_yaml;
  dependencies = n.dependencies;
  started_at = none;
  finished_at = none;
  error = "";
  log_path = "";
  output_path = "";
  backend = none;
  pipelines = pipelines;
  source_files = none;
  metrics = none;
}

unfoldable pub create_build : Store → String → ℕ → List Node → BuildSpec → Build × Store
unfolding package_of insert
create_build s id now packages spec =
    let build : Build = record {
      id = id;
      status = BuildStatus.pending;
      packages = map (package_of spec.pipelines) packages;
      spec = spec;
      created_at = now;
      started_at = none;
      finished_at = none;
    } in
    (
      build,
      record s { builds = insert id build s.builds; active_builds = insert id tt s.active_builds },
    )

unfoldable pub get_build : Store → String → Result Error Build
unfolding lookup
get_build s id = elim (lookup id s.builds) [ none ↦ err (build_not_found id) | some b ↦ ok b ]

unfoldable pub update_build : Store → Build → Result Error Store
unfolding lookup insert delete is_terminal_status
update_build s b =
    if has_key s.builds b.id
    then ok (record s {
      builds = insert b.id b s.builds;
      active_builds =
          if is_terminal_status b.status then delete b.id s.active_builds else s.active_builds;
    })
    else err (build_not_found b.id)

-- `sort.Slice` by the creation time.
unfoldable pub insert_by_created : Build → List Build → List Build
insert_by_created b [] = b ∷ []
insert_by_created b (x ∷ xs) =
    if leb b.created_at x.created_at then b ∷ x ∷ xs else x ∷ insert_by_created b xs

unfoldable pub sort_by_created : List Build → List Build
unfolding insert_by_created
sort_by_created [] = []
sort_by_created (x ∷ xs) = insert_by_created x (sort_by_created xs)

unfoldable pub values : Dict Build → List Build
values [] = []
values ((k, b) ∷ m) = b ∷ values m

unfoldable pub list_builds : Store → Dict Build → List Build
unfolding sort_by_created values
list_builds s range = sort_by_created (values range)

-- The builds of the index, in the order of a `range` over it.
unfoldable pub indexed : Dict Build → Dict (Unit {0}) → List Build
unfolding lookup
indexed builds [] = []
indexed builds ((id, u) ∷ range) = elim (lookup id builds) [
  | none ↦ indexed builds range
  | some b ↦ b ∷ indexed builds range
]

unfoldable pub list_active_builds : Store → Dict (Unit {0}) → List Build
unfolding sort_by_created indexed
list_active_builds s range = sort_by_created (indexed s.builds range)

pub record Stats : Type 0 where
  pub total : ℕ
  pub active : ℕ
  pub completed : ℕ

unfoldable pub count_builds : List Build → Stats → Stats
unfolding is_terminal_status
count_builds [] t = t
count_builds (b ∷ bs) t = count_builds bs (
    if is_terminal_status b.status
    then record t { total = suc t.total; completed = suc t.completed }
    else record t { total = suc t.total; active = suc t.active })

unfoldable pub stats : Store → Dict Build → Stats
unfolding count_builds values
stats s range = count_builds (values range) (record { total = 0; active = 0; completed = 0 })

-- `statusMap`: of two packages with one name the later one counts.
unfoldable pub status_map : List PackageJob → Dict PackageStatus → Dict PackageStatus
unfolding insert
status_map [] m = m
status_map (p ∷ ps) m = status_map ps (insert p.name p.status m)

-- The loop over the dependencies of a package: those outside the build are passed over.
unfoldable pub deps_ready : List String → Dict PackageStatus → List String → Bool
unfolding lookup contains
deps_ready in_build statuses [] = true
deps_ready in_build statuses (dep ∷ deps) =
    if contains in_build dep
    then if elim (lookup dep statuses) [ none ↦ false | some st ↦ st == PackageStatus.success ]
      then deps_ready in_build statuses deps
      else false
    else deps_ready in_build statuses deps

unfoldable pub claimed : ℕ → PackageJob → PackageJob
claimed now p = record p { status = PackageStatus.running; started_at = some now }

-- The loop that looks for a ready package: the package that it claims, and the packages afterwards.
unfoldable pub claim_from :
    List String → Dict PackageStatus → ℕ → List PackageJob → Option (PackageJob × List PackageJob)
unfolding deps_ready claimed
claim_from in_build statuses now [] = none
claim_from in_build statuses now (p ∷ ps) =
    let later : Option (PackageJob × List PackageJob) = elim (claim_from in_build statuses now ps) [
      | none ↦ none
      | some (q, qs) ↦ some (q, p ∷ qs)
    ] in
    if p.status == PackageStatus.pending && deps_ready in_build statuses p.dependencies
    then some (claimed now p, claimed now p ∷ ps)
    else later

abbrev pub package_names : List PackageJob → List String
package_names = map (λ p. p.name)

unfoldable pub claim_packages : ℕ → List PackageJob → Option (PackageJob × List PackageJob)
unfolding claim_from status_map
claim_packages now ps = claim_from (package_names ps) (status_map ps []) now ps

-- The claimed package, or none if no package is ready, and the store afterwards.
unfoldable pub claim_ready_package : Store → String → ℕ → Result Error (Option PackageJob × Store)
unfolding lookup insert claim_packages
claim_ready_package s id now = elim (lookup id s.builds) [
  | none ↦ err (build_not_found id)
  | some b ↦ elim (claim_packages now b.packages) [
    | none ↦ ok (none, s)
    | some (p, ps) ↦
        ok (some p, record s { builds = insert id (record b { packages = ps }) s.builds })
  ]
]

-- The packages with the first one of the given name replaced.
unfoldable pub replace_package : PackageJob → List PackageJob → Option (List PackageJob)
replace_package p [] = none
replace_package p (x ∷ xs) =
    if x.name == p.name
    then some (p ∷ xs)
    else elim (replace_package p xs) [ none ↦ none | some ys ↦ some (x ∷ ys) ]

unfoldable pub update_package_job : Store → String → PackageJob → Result Error Store
unfolding lookup insert replace_package
update_package_job s id p = elim (lookup id s.builds) [
  | none ↦ err (build_not_found id)
  | some b ↦ elim (replace_package p b.packages) [
    | none ↦ err (package_not_found p.name)
    | some ps ↦ ok (record s { builds = insert id (record b { packages = ps }) s.builds })
  ]
]

pub record CompletedBuild : Type 0 where
  pub id : String
  pub finished_at : ℕ

unfoldable pub finish_time : Build → ℕ
finish_time b = elim b.finished_at [ none ↦ b.created_at | some t ↦ t ]

-- The build has been finished for longer than the configured time.
unfoldable pub is_expired : StoreConfig → ℕ → Build → Bool
unfolding finish_time
is_expired config now b =
    ltb_ℤ (pos 0) config.build_ttl && ltb_ℤ config.build_ttl (sub_ℕ now (finish_time b))

unfoldable pub drop_build : Store → String → Store
unfolding delete
drop_build s id = record s {
  builds = delete id s.builds;
  active_builds = delete id s.active_builds;
}

-- The first loop: expired builds go, and the other finished ones are collected.
unfoldable pub sweep :
    StoreConfig → ℕ → Dict Build → Store × List CompletedBuild → Store × List CompletedBuild
unfolding is_terminal_status is_expired drop_build finish_time
sweep config now [] r = r
sweep config now ((id, b) ∷ range) (s, completed) = sweep config now range (
    if is_terminal_status b.status
    then if is_expired config now b
      then (drop_build s id, completed)
      else (s, completed ++ record { id = id; finished_at = finish_time b } ∷ [])
    else (s, completed))

-- `sort.Slice` by the finishing time, the oldest first.
unfoldable pub insert_completed : CompletedBuild → List CompletedBuild → List CompletedBuild
insert_completed c [] = c ∷ []
insert_completed c (x ∷ xs) =
    if leb c.finished_at x.finished_at then c ∷ x ∷ xs else x ∷ insert_completed c xs

unfoldable pub sort_completed : List CompletedBuild → List CompletedBuild
unfolding insert_completed
sort_completed [] = []
sort_completed (x ∷ xs) = insert_completed x (sort_completed xs)

-- The last loop: the first `n` of the list go.
unfoldable pub drop_first : ℕ → List CompletedBuild → Store → Store
unfolding drop_build
drop_first zero cs s = s
drop_first (suc n) [] s = s
drop_first (suc n) (c ∷ cs) s = drop_first n cs (drop_build s c.id)

-- How many builds exceed the limit, where there is one.
unfoldable pub excess : ℤ → ℕ → ℕ
excess (pos zero) n = 0
excess (pos (suc max)) n = n - suc max
excess (negsuc max) n = 0

unfoldable pub evict_old_builds : Store → Dict Build → ℕ → Store
unfolding sweep sort_completed drop_first excess
evict_old_builds s range now =
    let (swept, completed) = sweep s.config now range (s, []) in
    drop_first (excess s.config.max_completed_builds (length completed)) (sort_completed completed)
      swept
