-- ===== src/Progress/Totals.antt =====
-- What is shown at the end: `printSummary`, `Write` until its channel is closed, and `GetSummary`.
use melange.Prelude.{
  ℕ, ◌-◌, Bool, ◌&&◌, not, List, [], ◌∷◌, ◌++◌, none, some, String, if◌then◌else◌, ◌==◌, string_eq,
  ltb, count_if,
}
use melange.Prelude.Int.{ℤ, pos, sub_ℕ, leb_ℤ}
use melange.Prelude.Maps.{Dict, lookup}
use melange.Progress.Defs.{
  VertexState, ProgressWriter, SolveStatus, Line, blank, failed_output, failed_step, build_summary,
  is_quiet, format_name,
}
use melange.Progress.Output.{print_log_unlocked, process_status, times}

-- The states in the order in which the vertices came.
unfoldable pub in_order : Dict VertexState → List String → List VertexState
unfolding lookup
in_order m [] = []
in_order m (d ∷ ds) = elim (lookup d m) [ none ↦ in_order m ds | some v ↦ v ∷ in_order m ds ]

abbrev pub has_error : VertexState → Bool
has_error v = not (v.error == "")

unfoldable pub print_failed : List VertexState → List Line
unfolding format_name print_log_unlocked
print_failed [] = []
print_failed (v ∷ vs) =
    let rest = print_failed vs in
    if has_error v && not (v.logs == "")
    then (if format_name v.name == "" then [] else blank ∷ failed_step (format_name v.name) ∷ [])
      ++ (print_log_unlocked v.logs ++ rest)
    else rest

unfoldable pub print_summary : ProgressWriter → ℕ → List Line
unfolding in_order print_failed count_if
print_summary p now =
    if is_quiet p.mode
    then []
    else let states = in_order p.vertices p.vertex_order in
      let failed = count_if (λ v. has_error v && not (v.logs == "")) states in
      (if ltb 0 failed && not p.show_logs then blank ∷ failed_output ∷ print_failed states else [])
      ++ (blank
          ∷ build_summary p.total p.cached (p.completed - p.cached) (count_if has_error states)
              (now - p.start_time)
          ∷ [])

-- `Write` until the channel is closed.
unfoldable pub write_all : ProgressWriter → List SolveStatus → ℕ → ProgressWriter × List Line
unfolding process_status print_summary
write_all p [] now = (p, print_summary p now)
write_all p (status ∷ rest) now =
    let (q, lines) = process_status p status in
    let (r, more) = write_all q rest now in (r, lines ++ more)

pub record StepSummary : Type 0 where
  pub name : String
  pub duration : ℤ
  pub cached : Bool
  pub error : String

pub record Summary : Type 0 where
  pub total : ℕ
  pub completed : ℕ
  pub cached : ℕ
  pub errors : ℕ
  pub duration : ℕ
  pub steps : List StepSummary

abbrev pub step_duration : VertexState → ℤ
step_duration v = elim (times v) [ none ↦ pos 0 | some (a, b) ↦ sub_ℕ b a ]

-- The steps with a name, and how many of them have an error.
unfoldable pub steps_of : List VertexState → List StepSummary
steps_of [] = []
steps_of (v ∷ vs) =
    let rest = steps_of vs in
    if v.name == ""
    then rest
    else record { name = v.name; duration = step_duration v; cached = v.cached; error = v.error }
      ∷ rest

-- `sort.Slice` by the duration, the longest first.
unfoldable pub insert_step : StepSummary → List StepSummary → List StepSummary
insert_step s [] = s ∷ []
insert_step s (x ∷ xs) = if leb_ℤ x.duration s.duration then s ∷ x ∷ xs else x ∷ insert_step s xs

unfoldable pub sort_steps : List StepSummary → List StepSummary
unfolding insert_step
sort_steps [] = []
sort_steps (x ∷ xs) = insert_step x (sort_steps xs)

unfoldable pub get_summary : ProgressWriter → ℕ → Summary
unfolding in_order steps_of sort_steps count_if
get_summary p now =
    let states = in_order p.vertices p.vertex_order in
    record {
      total = p.total;
      completed = p.completed;
      cached = p.cached;
      errors = count_if (λ v. not (v.name == "") && has_error v) states;
      duration = now - p.start_time;
      steps = sort_steps (steps_of states);
    }
