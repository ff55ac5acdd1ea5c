-- ===== src/Progress/Output.antt =====
-- The loop over the statuses, and the printing.
use melange.Prelude.{
  ℕ, suc, Bool, true, false, ◌&&◌, not, List, [], ◌∷◌, ◌++◌, Option, none, some, String,
  if◌then◌else◌, ◌==◌, string_eq,
}
use melange.Prelude.Text.{split, ◌<>◌}
use melange.Prelude.Maps.{lookup, insert}
use melange.Progress.Defs.{
  ProgressMode, VertexState, ProgressWriter, Vertex, VertexLog, SolveStatus, Line, blank,
  step_started, step_completed, error_output, log_line, prints_steps, is_quiet, format_name,
}

-- `strings.TrimRight` by the carriage return.
unfoldable pub trim_returns : String → String
trim_returns String.[] = ""
trim_returns (String.◌∷◌ c s) =
    let rest = trim_returns s in
    if rest == ""
    then if String.◌∷◌ c "" == "\r" then "" else String.◌∷◌ c ""
    else String.◌∷◌ c rest

unfoldable pub print_lines : List String → List Line
unfolding trim_returns
print_lines [] = []
print_lines (line ∷ lines) =
    let rest = print_lines lines in
    if trim_returns line == "" then rest else log_line (trim_returns line) ∷ rest

unfoldable pub print_log_unlocked : String → List Line
unfolding print_lines split
print_log_unlocked text = print_lines (split text "\n")

unfoldable pub print_log : ProgressMode → String → List Line
unfolding print_log_unlocked
print_log mode text = if is_quiet mode then [] else print_log_unlocked text

unfoldable pub print_vertex_started : ProgressWriter → VertexState → List Line
unfolding format_name
print_vertex_started p v =
    if prints_steps p.mode && not (format_name v.name == "")
    then step_started (suc p.completed) p.total (format_name v.name) ∷ []
    else []

-- The duration is shown when both times are known.
abbrev pub times : VertexState → Option (ℕ × ℕ)
times v = elim v.started [
  | none ↦ none
  | some a ↦ elim v.completed [ none ↦ none | some b ↦ some (a, b) ]
]

unfoldable pub status_text : VertexState → String
status_text v = if v.error == "" then if v.cached then "CACHED" else "done" else "ERROR"

unfoldable pub print_vertex_completed : ProgressWriter → VertexState → List Line
unfolding format_name status_text print_log
print_vertex_completed p v =
    if prints_steps p.mode && not (format_name v.name == "")
    then step_completed (format_name v.name) (times v) (status_text v)
      ∷ (if not (v.error == "") && not (v.logs == "") && not p.show_logs
          then blank ∷ error_output ∷ print_log p.mode v.logs
          else [])
    else []

abbrev pub new_vertex : String → VertexState
new_vertex name = record {
  name = name;
  started = none;
  completed = none;
  cached = false;
  error = "";
  logs = "";
}

abbrev pub is_some : Option ℕ → Bool
is_some none = false
is_some (some t) = true

abbrev pub put_vertex : ProgressWriter → String → VertexState → ProgressWriter
put_vertex p d v = record p { vertices = insert d v p.vertices }

-- A vertex that is not known yet is entered.
unfoldable pub enter_vertex : ProgressWriter → Vertex → VertexState × ProgressWriter
unfolding lookup insert
enter_vertex p u = elim (lookup u.digest p.vertices) [
  | some v ↦ (v, p)
  | none ↦ (
    new_vertex u.name,
    record p {
      vertices = insert u.digest (new_vertex u.name) p.vertices;
      vertex_order = p.vertex_order ++ u.digest ∷ [];
      total = suc p.total;
    },
  )
]

-- The first time at which a vertex starts.
unfoldable pub start_vertex :
    ProgressWriter → Vertex → VertexState → (VertexState × ProgressWriter) × List Line
unfolding print_vertex_started insert
start_vertex p u v =
    let v' = record v { started = u.started } in
    if is_some u.started && not (is_some v.started)
    then ((v', put_vertex p u.digest v'), print_vertex_started p v')
    else ((v, p), [])

-- The first time at which a vertex completes. The line is printed before it is counted.
unfoldable pub complete_vertex : ProgressWriter → Vertex → VertexState → ProgressWriter × List Line
unfolding print_vertex_completed insert
complete_vertex p u v =
    let v' = record v {
      completed = u.completed;
      cached = u.cached;
      error = if u.error == "" then v.error else u.error;
    } in
    if is_some u.completed && not (is_some v.completed)
    then (
      record (put_vertex p u.digest v') {
        completed = suc p.completed;
        cached = if u.cached then suc p.cached else p.cached;
      },
      print_vertex_completed p v',
    )
    else (p, [])

unfoldable pub process_vertex : ProgressWriter → Vertex → ProgressWriter × List Line
unfolding enter_vertex start_vertex complete_vertex
process_vertex p u =
    let (v, q) = enter_vertex p u in
    let ((v', r), started) = start_vertex q u v in
    let (s, completed) = complete_vertex r u v' in (s, started ++ completed)

unfoldable pub process_vertices : ProgressWriter → List Vertex → ProgressWriter × List Line
unfolding process_vertex
process_vertices p [] = (p, [])
process_vertices p (u ∷ us) =
    let (q, lines) = process_vertex p u in
    let (r, rest) = process_vertices q us in (r, lines ++ rest)

unfoldable pub process_log : ProgressWriter → VertexLog → ProgressWriter × List Line
unfolding lookup insert print_log
process_log p l = elim (lookup l.vertex p.vertices) [
  | none ↦ (p, [])
  | some v ↦ (
    put_vertex p l.vertex (record v { logs = v.logs <> l.text }),
    if p.show_logs then print_log p.mode l.text else [],
  )
]

unfoldable pub process_logs : ProgressWriter → List VertexLog → ProgressWriter × List Line
unfolding process_log
process_logs p [] = (p, [])
process_logs p (l ∷ ls) =
    let (q, lines) = process_log p l in let (r, rest) = process_logs q ls in (r, lines ++ rest)

unfoldable pub process_status : ProgressWriter → SolveStatus → ProgressWriter × List Line
unfolding process_vertices process_logs
process_status p status =
    let (q, lines) = process_vertices p status.vertexes in
    let (r, rest) = process_logs q status.logs in (r, lines ++ rest)
