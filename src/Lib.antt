-- ===== src/Lib.antt =====
-- The build service of melange: what its API server, its dependency graph, its backend pool, its store
-- of builds and its scheduler do, how a package's pipelines become BuildKit operations and how their
-- progress is shown, and the theorems that make them correct.
--
-- The program. A client sends package configurations. The API server puts them into a dependency graph
-- and sorts it (pkg/service/dag), and hands the sorted nodes to the store (pkg/service/store), which
-- keeps one build with a package job per node. The scheduler (pkg/service/scheduler) goes through the
-- builds that are not finished, claims a package whose dependencies have succeeded, takes a slot on a
-- backend of the pool (pkg/service/buildkit), runs the package there with a configuration of pkg/build,
-- gives the slot back, and writes the status of the package to the store. The run turns the pipelines
-- of the package into BuildKit operations (pkg/buildkit), whose progress gives the package its metrics.
-- A failure skips the packages that depend on it, and the status of the build follows from those of its
-- packages.
--
-- The files.
--   Prelude: Boolean tests, equality as an interface, results, lists, and maps as association lists.
--   Prelude/Text and Prelude/Sorting: what is used of Go's packages for texts and paths, and the order
--     of texts.
--   Prelude/Int: integers, with the wrap-around of an `int32` written out.
--   Types: pkg/service/types/types.go and pkg/service/errors/errors.go.
--   Dag: pkg/service/dag/dag.go. Graph, AddNode as add_node, TopologicalSort as topological_sort with
--     its loops start_degrees, roots, relax and kahn; Dag/Cycle has DetectCycle as detect_cycle.
--     Dag/Order has the theorems on the sort, Dag/Building those on the other calls, and Dag/Edges,
--     Dag/Relax, Dag/Loop, Dag/Start and Dag/Topological the invariant of the loop. Dag/Paths
--     has the invariant of the search for a cycle, and Dag/Search that its fuel is enough.
--   Pool: pkg/service/buildkit/pool.go. Pool/Defs has the state and most calls, Pool/Choice has Select
--     and SelectAndAcquire; Pool/Equivalence, Pool/Serving, Pool/Load, Pool/Invariant, Pool/Breaker, Pool/Leases and
--     Pool/Readding have the theorems.
--   Store: pkg/service/store/memory.go and pkg/service/store/store.go. Store/Defs has every call;
--     Store/Index, Store/Claim and Store/Evict have the theorems.
--   Scheduler: pkg/service/scheduler/scheduler.go. Scheduler/Setup has the configuration and New,
--     Scheduler/Round has processBuilds, and Scheduler/Defs has updateBuildStatus, cascadeFailure,
--     markPackageFailed, executePackageBuild, and the start and the end of processBuild;
--     Scheduler/Round, Scheduler/Status, Scheduler/Cascade, Scheduler/Waits, Scheduler/Skipped and Scheduler/Order
--     have the theorems. Scheduler/Duplicates is about builds with two packages of one name. Scheduler/Job has
--     executePackageJob: its data in Job/Defs, its phases as execute_package_job in Job/Phases, and the
--     theorems in Job/Slots, Job/Sharing and Job/Env.
--   Api: pkg/service/api/server.go. Api/Defs has the responses, Api/Backends the handlers for backends,
--     Api/Metrics those for one build and its metrics, Api/Create createBuild as handle_create_build;
--     Api/Percentile, Api/Creating, Api/Created and Api/Managing have the theorems.
--   Git: pkg/service/git/git.go.
--   Build: pkg/build/buildconfig.go, and Linter: the default linters of pkg/linter/linter.go.
--   Llb: pkg/buildkit/llb.go, pkg/buildkit/determinism.go and pkg/buildkit/cache.go. Llb/Pipelines has
--     BuildPipeline and BuildPipelinesWithRecovery, Llb/Scripts BuildTestPipelines, Llb/Env MergeEnv and
--     SortedEnvOpts; Llb/Recovery, Llb/Determinism and Llb/Quoting have the theorems.
--   Progress: pkg/buildkit/progress.go. Progress/Output has processStatus and the printing of steps,
--     Progress/Totals printSummary, Write and GetSummary; Progress/Counts and Progress/Report have the
--     theorems.
--   The modules named Tests run the definitions and apply the theorems to concrete data.
--
-- How the code is read.
--   - A call of the pool or the store is one step, since it holds the lock; the two calls of the pool
--     that read under a shared lock are read as one step too. Histories are step relations.
--   - A Go map is an association list. A `range` may visit it in any order, so a call that ranges over
--     a map takes the order as an argument.
--   - Times and durations are numbers of nanoseconds, and the current time is an argument, as is the
--     random identifier of a build.
--   - A load is an exact fraction: for counts below 2 ^ 26 the comparison of the `float64` quotients
--     agrees with it. Running jobs and failures wrap around as an `int32` does.
--   - `sort.Slice` keeps the order of equal elements here.
--   - Code that is not in the repository is a parameter: the git library, the YAML decoder, the file
--     system and the storage of a run (the record Host), and BuildKit's states and operations (the record
--     Llb), whose options are data. The evaluation of a pipeline's condition, which stands on a parser
--     library, and the build of a package in its context are parameters too.
--   - While a package runs, the others' changes to the pool are a function that is a parameter.
--   - The body of a request is given decoded. A text is one of ASCII characters, so that its length is
--     its number of bytes.
--   - Builds are values. copyBuild and what a copy shares with the stored build are not modelled.
--
-- Fuel. `kahn` takes the number of nodes, since each round places one; `acquire_from` takes the number
-- of candidates, since each round drops one. DetectCycle takes one more than the number of nodes for
-- each of its parts: a call of the search marks a node that was not visited, and a path goes through
-- different nodes. `cascade_failure` takes its fuel as an argument: each call skips a package that
-- waits.
--
-- Not modelled: what BuildKit, apko, git and the file system do, the loops of the scheduler with its
-- semaphore and the cleanup of the cache, metrics, traces and logs, the store in PostgreSQL, the gRPC
-- server, the cancellation of a run, and the parts of the repository outside the service and its use of
-- BuildKit: the parsing and validation of configurations, the orchestration of a local build, the checks
-- of the linters, SBOMs, signatures, dependency analysis and the command line.
pub mod Prelude
pub mod Types
pub mod Dag
pub mod Pool
pub mod Store
pub mod Scheduler
pub mod Git
pub mod Api
pub mod Progress
pub mod Llb
pub mod Linter
pub mod Build
