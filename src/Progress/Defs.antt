-- ===== src/Progress/Defs.antt =====
-- The data of the progress writer, and the names that it shows.
use melange.Prelude.{
  ℕ, Bool, true, false, List, [], Option, String, if◌then◌else◌, ◌==◌, string_eq, ltb,
}
use melange.Prelude.Text.{has_prefix, text_length, text_take, ◌<>◌}
use melange.Prelude.Maps.{Dict}

pub data ProgressMode : Type 0 where
  auto plain tty quiet : ProgressMode

pub record VertexState : Type 0 where
  pub name : String
  pub started : Option ℕ
  pub completed : Option ℕ
  pub cached : Bool
  pub error : String
  pub logs : String

pub record ProgressWriter : Type 0 where
  pub mode : ProgressMode
  pub show_logs : Bool
  pub start_time : ℕ
  pub vertices : Dict VertexState
  pub vertex_order : List String
  pub completed : ℕ
  pub cached : ℕ
  pub total : ℕ

unfoldable pub new_progress_writer : ProgressMode → Bool → ℕ → ProgressWriter
new_progress_writer mode show_logs now = record {
  mode = mode;
  show_logs = show_logs;
  start_time = now;
  vertices = [];
  vertex_order = [];
  completed = 0;
  cached = 0;
  total = 0;
}

-- The library's messages: a vertex, a piece of output, and a status with both.
pub record Vertex : Type 0 where
  pub digest : String
  pub name : String
  pub started : Option ℕ
  pub completed : Option ℕ
  pub cached : Bool
  pub error : String

pub record VertexLog : Type 0 where
  pub vertex : String
  pub text : String

pub record SolveStatus : Type 0 where
  pub vertexes : List Vertex
  pub logs : List VertexLog

-- What is printed.
pub data Line : Type 0 where
  blank : Line
  step_started : ℕ → ℕ → String → Line
  step_completed : String → Option (ℕ × ℕ) → String → Line
  error_output failed_output : Line
  failed_step : String → Line
  log_line : String → Line
  build_summary : ℕ → ℕ → ℕ → ℕ → ℕ → Line

abbrev pub prints_steps : ProgressMode → Bool
prints_steps auto = true
prints_steps plain = true
prints_steps tty = false
prints_steps quiet = false

abbrev pub is_quiet : ProgressMode → Bool
is_quiet quiet = true
is_quiet _ = false

unfoldable pub format_name : String → String
unfolding has_prefix text_length text_take
format_name name =
    if name == ""
    then ""
    else if has_prefix name "[internal]"
    then ""
    else if ltb 80 (text_length name)
    then text_take 77 name <> "..."
    else name
