-- ===== src/Progress/Tests.antt =====
-- Runs and witnesses for pkg/buildkit/progress.go on two vertices.
use melange.Prelude.{
  ℕ, ◌≡◌, refl, Bool, true, false, ◌&&◌, not, List, [], ◌∷◌, Option, none, some, String, ◌==◌,
  string_eq, count_if,
}
use melange.Progress.Defs.{
  plain, ProgressWriter, Vertex, SolveStatus, step_started, step_completed, log_line, blank,
  build_summary, new_progress_writer,
}
use melange.Progress.Output.{process_vertex}
use melange.Progress.Totals.{write_all, get_summary, in_order}
use melange.Progress.Report.{
  IsCounted, write_all-IsCounted, IsSorted, step_of, get_summary_lem, process_vertex-twice,
}

abbrev vertex : String → String → Option ℕ → Option ℕ → Bool → Vertex
vertex digest name started completed cached = record {
  digest = digest;
  name = name;
  started = started;
  completed = completed;
  cached = cached;
  error = "";
}

abbrev statuses : List SolveStatus
statuses =
    record { vertexes = vertex "d1" "fetch" (some 1) none false ∷ []; logs = [] }
    ∷ record {
      vertexes =
          vertex "d1" "fetch" (some 1) (some 5) false
          ∷ vertex "d2" "make" (some 5) (some 6) true
          ∷ [];
      logs = record { vertex = "d1"; text = "ok\n" } ∷ [];
    }
    ∷ []

abbrev start : ProgressWriter
start = new_progress_writer plain true 0

abbrev finished : ProgressWriter
finished = (write_all start statuses 9).0

shows :
    (write_all start statuses 9).1
    ≡ step_started 1 1 "fetch"
      ∷ step_completed "fetch" (some (1, 5)) "done"
      ∷ step_started 2 2 "make"
      ∷ step_completed "make" (some (5, 6)) "CACHED"
      ∷ log_line "ok"
      ∷ blank
      ∷ build_summary 2 1 1 0 9
      ∷ []
unfolding write_all new_progress_writer
shows = refl

write_all-IsCounted_example : IsCounted (write_all (new_progress_writer plain true 0) statuses 9).0
write_all-IsCounted_example = write_all-IsCounted plain true 0 statuses 9

get_summary_lem_example :
    IsSorted (get_summary finished 9).steps
    × (count_if (λ s. s.cached) (get_summary finished 9).steps
        ≡ count_if
            (λ v. not (v.name == "") && (step_of v).cached)
            (in_order finished.vertices finished.vertex_order))
    × ((get_summary finished 9).errors
        ≡ count_if (λ s. not (s.error == "")) (get_summary finished 9).steps)
get_summary_lem_example = get_summary_lem finished 9 (λ s. s.cached)

process_vertex-twice_example :
    process_vertex
      (process_vertex start (vertex "d1" "fetch" (some 1) (some 5) false)).0
      (vertex "d1" "fetch" (some 1) (some 5) false)
    ≡ ((process_vertex start (vertex "d1" "fetch" (some 1) (some 5) false)).0, [])
process_vertex-twice_example =
    process_vertex-twice start (vertex "d1" "fetch" (some 1) (some 5) false)
