-- ===== src/Api/Metrics.antt =====
-- The handlers for one build and its metrics. Sums of durations stay within an `int64`.
use melange.Prelude.{
  ℕ, suc, ◌*◌, false, List, [], ◌∷◌, ◌++◌, none, some, String, ok, err, if◌then◌else◌, ◌==◌,
  string_eq, length, ltb, leb, get_elem?, nat_beq, count_if,
}
use Prim.Native.Nat.{◌/◌, ◌-◌}
use melange.Prelude.Int.{ℤ, pos, negsuc, ◌+ℤ◌, leb_ℤ, eqb_ℤ, sub_ℕ}
use melange.Prelude.Text.{trim_prefix, has_suffix, trim_suffix}
use melange.Types.{
  Build, PackageJob, PackageStatus, PackageBuildMetrics, Error, build_not_found, status_eq,
}
use melange.Store.{get_build}
use melange.Api.Defs.{
  Server, Shown, PackageMetricsSummary, BuildMetricsResponse, Response, Body, Problem, Method,
  fails, answers,
}

-- Division towards 0.
unfoldable pub quot_ℤ : ℤ → ℕ → ℤ
quot_ℤ (pos n) d = pos (n / d)
quot_ℤ (negsuc n) d = sub_ℕ 0 (suc n / d)

unfoldable pub format_duration : ℤ → Shown
format_duration ms = if eqb_ℤ ms (pos 0) then Shown.nothing else Shown.millis ms

unfoldable pub sum_ℤ : List ℤ → ℤ → ℤ
sum_ℤ [] sum = sum
sum_ℤ (v ∷ vs) sum = sum_ℤ vs (sum +ℤ v)

unfoldable pub average : List ℤ → ℤ
unfolding sum_ℤ quot_ℤ
average values =
    if nat_beq (length values) 0 then pos 0 else quot_ℤ (sum_ℤ values (pos 0)) (length values)

unfoldable pub insert_ℤ : ℤ → List ℤ → List ℤ
insert_ℤ v [] = v ∷ []
insert_ℤ v (x ∷ xs) = if leb_ℤ v x then v ∷ x ∷ xs else x ∷ insert_ℤ v xs

unfoldable pub sort_ℤ : List ℤ → List ℤ
unfolding insert_ℤ
sort_ℤ [] = []
sort_ℤ (x ∷ xs) = insert_ℤ x (sort_ℤ xs)

-- `sorted[i]`, which is in range; a missing entry is the zero value.
unfoldable pub entry_or_zero : List ℤ → ℕ → ℤ
entry_or_zero xs i = elim (get_elem? xs i) [ none ↦ pos 0 | some v ↦ v ]

unfoldable pub percentile_index : ℕ → ℕ → ℕ
percentile_index n p = let i = (p * n) / 100 in if leb n i then n - 1 else i

unfoldable pub percentile : List ℤ → ℕ → ℤ
unfolding sort_ℤ entry_or_zero percentile_index
percentile values p =
    if nat_beq (length values) 0
    then pos 0
    else entry_or_zero (sort_ℤ values) (percentile_index (length values) p)

-- What one package adds: its summary, and its durations in the three lists.
pub record Durations : Type 0 where
  pub total : List ℤ
  pub buildkit : List ℤ
  pub apko : List ℤ

abbrev pub blank_summary : PackageJob → PackageMetricsSummary
blank_summary p = record {
  name = p.name;
  status = p.status;
  total_duration = Shown.nothing;
  setup_duration = Shown.nothing;
  backend_wait = Shown.nothing;
  init_duration = Shown.nothing;
  buildkit_duration = Shown.nothing;
  storage_sync_duration = Shown.nothing;
  apko_duration = Shown.nothing;
  apko_cache_hit = false;
  apko_layer_count = 0;
}

unfoldable pub metrics_summary : PackageJob → PackageBuildMetrics → PackageMetricsSummary
unfolding format_duration
metrics_summary p m = record {
  name = p.name;
  status = p.status;
  total_duration = format_duration (pos m.total_duration_ms);
  setup_duration = format_duration (pos m.setup_duration_ms);
  backend_wait = format_duration (pos m.backend_wait_ms);
  init_duration = format_duration (pos m.init_duration_ms);
  buildkit_duration = format_duration (pos m.buildkit_duration_ms);
  storage_sync_duration = format_duration (pos m.storage_sync_ms);
  apko_duration = format_duration (pos m.apko_duration_ms);
  apko_cache_hit = m.apko_cache_hit;
  apko_layer_count = m.apko_layer_count;
}

unfoldable pub add_metrics : PackageBuildMetrics → Durations → Durations
add_metrics m d = record {
  total = d.total ++ pos m.total_duration_ms ∷ [];
  buildkit = d.buildkit ++ pos m.buildkit_duration_ms ∷ [];
  apko = if ltb 0 m.apko_duration_ms then d.apko ++ pos m.apko_duration_ms ∷ [] else d.apko;
}

unfoldable pub collect_one : PackageJob → Durations → PackageMetricsSummary × Durations
unfolding metrics_summary add_metrics quot_ℤ
collect_one p d = elim p.metrics [
  | some m ↦ (metrics_summary p m, add_metrics m d)
  | none ↦ elim p.started_at [
    | none ↦ (blank_summary p, d)
    | some start ↦ elim p.finished_at [
      | none ↦ (blank_summary p, d)
      | some finish ↦
          let duration = sub_ℕ finish start in
          (
            record (blank_summary p) { total_duration = Shown.nanos duration },
            record d { total = d.total ++ quot_ℤ duration 1000000 ∷ [] },
          )
    ]
  ]
]

unfoldable pub collect : List PackageJob → Durations → List PackageMetricsSummary × Durations
unfolding collect_one
collect [] d = ([], d)
collect (p ∷ ps) d =
    let (one, d') = collect_one p d in let (rest, d'') = collect ps d' in (one ∷ rest, d'')

unfoldable pub build_duration : Build → Shown
build_duration b = elim b.started_at [
  | none ↦ Shown.nothing
  | some start ↦ elim b.finished_at [
    | none ↦ Shown.in_progress
    | some finish ↦ Shown.nanos (sub_ℕ finish start)
  ]
]

unfoldable pub build_metrics : Build → BuildMetricsResponse
unfolding collect build_duration format_duration average percentile count_if
build_metrics b =
    let (packages, d) = collect b.packages (record { total = []; buildkit = []; apko = [] }) in
    record {
      build_id = b.id;
      total_duration = build_duration b;
      packages = packages;
      summary = record {
        avg_total = format_duration (average d.total);
        avg_buildkit = format_duration (average d.buildkit);
        avg_apko = format_duration (average d.apko);
        p50_total = format_duration (percentile d.total 50);
        p95_total = format_duration (percentile d.total 95);
        p99_total = format_duration (percentile d.total 99);
        total_packages = length b.packages;
        completed = count_if (λ p. p.status == PackageStatus.success) b.packages;
        failed = count_if (λ p. p.status == PackageStatus.failed) b.packages;
      };
    }

unfoldable pub error_code : Error → ℕ
error_code (build_not_found id) = 404
error_code _ = 500

unfoldable pub handle_build_metrics : Server → String → Response
unfolding get_build build_metrics error_code
handle_build_metrics s id = elim (get_build s.build_store id) [
  | err e ↦ fails (error_code e) (Problem.store_problem e)
  | ok b ↦ answers (Body.metrics (build_metrics b))
]

unfoldable pub handle_build : Server → Method → String → Response
unfolding get_build error_code handle_build_metrics trim_prefix has_suffix trim_suffix
handle_build s Method.get url_path =
    let path = trim_prefix url_path "/api/v1/builds/" in
    if path == ""
    then fails 400 Problem.id_required
    else if has_suffix path "/metrics"
    then handle_build_metrics s (trim_suffix path "/metrics")
    else elim (get_build s.build_store path) [
      | err e ↦ fails (error_code e) (Problem.store_problem e)
      | ok b ↦ answers (Body.one_build b)
    ]
handle_build s _ url_path = fails 405 Problem.method_not_allowed
