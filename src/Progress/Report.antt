-- ===== src/Progress/Report.antt =====
-- What the counters, the display and the summary say of the vertices.
use melange.Prelude.{
  ℕ, ◌≤◌, ◌≡◌, refl, sym, ap, subst, ◌∙◌, arith, Bool, false, ◌&&◌, not, List, [], ◌∷◌, some,
  if◌then◌else◌, ◌==◌, string_eq, count_if, length, length-map, Distinct, map, Bool-cases, inl, inr,
  Option-cases, All, All-map,
}
use melange.Prelude.Int.{leb_ℤ, ◌≤ℤ◌}
use melange.Prelude.Maps.{keys-Distinct, lookup}
use melange.Progress.Defs.{
  ProgressMode, VertexState, ProgressWriter, Vertex, SolveStatus, new_progress_writer,
}
use melange.Progress.Output.{
  is_some, new_vertex, enter_vertex, start_vertex, complete_vertex, process_vertex,
}
use melange.Progress.Totals.{
  in_order, write_all, StepSummary, step_duration, steps_of, insert_step, sort_steps, get_summary,
}
use melange.Prelude.Counting.{count_if-map, count_if-both, count-length}
use melange.Progress.Counts.{
  is_done, is_cached, IsConsistent, write_all-IsConsistent, new_progress_writer-IsConsistent,
  lookup-put_vertex, in_order-keys,
}

-- What is displayed of the progress agrees with the vertices in their order.
pub record IsCounted (p : ProgressWriter) : Type 0 where
  pub distinct : Distinct p.vertex_order
  pub total : length (in_order p.vertices p.vertex_order) ≡ p.total
  pub listed : length p.vertex_order ≡ p.total
  pub completed : count_if is_done (in_order p.vertices p.vertex_order) ≡ p.completed
  pub cached : count_if is_cached (in_order p.vertices p.vertex_order) ≡ p.cached
  pub cached_bound : p.cached ≤ p.completed
  pub completed_bound : p.completed ≤ p.total

IsConsistent-IsCounted : (p : ProgressWriter) → IsConsistent p → IsCounted p
IsConsistent-IsCounted p c =
    let states : in_order p.vertices p.vertex_order ≡ map (λ e. e.1) p.vertices =
      ap (in_order p.vertices) c.order ∙ in_order-keys p.vertices c.distinct in
    record {
      distinct = subst Distinct (sym c.order) (keys-Distinct p.vertices c.distinct);
      total = ap length states ∙ length-map p.vertices (λ e. e.1) ∙ sym c.total;
      listed = ap length c.order ∙ length-map p.vertices (λ e. e.0) ∙ sym c.total;
      completed =
          ap (count_if is_done) states
          ∙ count_if-map is_done (λ e. e.1) p.vertices
          ∙ sym c.completed;
      cached =
          ap (count_if is_cached) states
          ∙ count_if-map is_cached (λ e. e.1) p.vertices
          ∙ sym c.cached;
      cached_bound = omega (
        arith,
        c.completed,
        c.cached,
        count_if-both (λ e. is_done e.1) (λ e. e.1.cached) p.vertices,
      );
      completed_bound = omega (arith, c.completed, c.total, count-length is_done p.vertices);
    }

-- After any statuses from the start, the order lists each vertex once, the total is the number of
-- vertices, the counters are the numbers of completed and of completed cached vertices in that order,
-- and there are at most as many cached ones as completed ones and completed ones as vertices.
pub write_all-IsCounted :
    (mode : ProgressMode) (show : Bool) (start : ℕ) (ss : List SolveStatus) (now : ℕ)
    → IsCounted (write_all (new_progress_writer mode show start) ss now).0
write_all-IsCounted mode show start ss now =
    IsConsistent-IsCounted (write_all (new_progress_writer mode show start) ss now).0 (
      write_all-IsConsistent (new_progress_writer mode show start) ss now
        (new_progress_writer-IsConsistent mode show start))

-- Each step takes at least as long as the ones behind it.
abbrev pub IsSorted : List StepSummary → Type 0
IsSorted [] = Unit {0}
IsSorted (s ∷ ss) = All (λ x. x.duration ≤ℤ s.duration) ss × IsSorted ss

All-insert_step :
    (s v : StepSummary) (xs : List StepSummary)
    → v.duration ≤ℤ s.duration
    → All (λ x. x.duration ≤ℤ s.duration) xs
    → All (λ x. x.duration ≤ℤ s.duration) (insert_step v xs)
unfolding insert_step
All-insert_step s v [] h a = (h, tt)
All-insert_step s v (x ∷ xs) h a = ground (arith, All-insert_step s v xs h a.1)

insert_step-IsSorted :
    (v : StepSummary) (xs : List StepSummary) → IsSorted xs → IsSorted (insert_step v xs)
unfolding insert_step
insert_step-IsSorted v [] s = (tt, tt)
insert_step-IsSorted v (x ∷ xs) s = elim (Bool-cases (leb_ℤ x.duration v.duration)) [
  | inl le ↦
      let h : x.duration ≤ℤ v.duration = ground arith in
      rw (le, insert_step)
        (
          (
            h,
            All-map (λ y. y.duration ≤ℤ x.duration) (λ y. y.duration ≤ℤ v.duration) xs
                (λ y k. omega (arith, h, k)) s.0,
          ),
          s,
        )
  | inr gt ↦
      let h : v.duration ≤ℤ x.duration = ground arith in
      rw (gt, insert_step) (All-insert_step x v xs h s.0, insert_step-IsSorted v xs s.1)
]

sort_steps-IsSorted : (xs : List StepSummary) → IsSorted (sort_steps xs)
unfolding sort_steps
sort_steps-IsSorted [] = tt
sort_steps-IsSorted (x ∷ xs) = insert_step-IsSorted x (sort_steps xs) (sort_steps-IsSorted xs)

count-insert_step :
    (f : StepSummary → Bool) (v : StepSummary) (xs : List StepSummary)
    → count_if f (insert_step v xs) ≡ count_if f (v ∷ xs)
unfolding insert_step count_if
count-insert_step f v [] = refl
count-insert_step f v (x ∷ xs) = ground (arith, count-insert_step f v xs)

-- Sorting keeps how many steps pass any test, so it loses and repeats none.
count-sort_steps :
    (f : StepSummary → Bool) (xs : List StepSummary) → count_if f (sort_steps xs) ≡ count_if f xs
unfolding sort_steps count_if
count-sort_steps f [] = refl
count-sort_steps f (x ∷ xs) =
    ground (arith, count-sort_steps f xs, count-insert_step f x (sort_steps xs))

-- The step that the summary makes of a vertex.
abbrev pub step_of : VertexState → StepSummary
step_of v = record { name = v.name; duration = step_duration v; cached = v.cached; error = v.error }

count-steps_of :
    (f : StepSummary → Bool) (vs : List VertexState)
    → count_if f (steps_of vs) ≡ count_if (λ v. not (v.name == "") && f (step_of v)) vs
unfolding steps_of count_if
count-steps_of f [] = refl
count-steps_of f (v ∷ vs) = ground (arith, count-steps_of f vs)

-- The steps of a summary are sorted by their durations, the longest first; for every test, as many of
-- them pass it as there are vertices with a name in the writer's order whose step passes it; and the
-- number of errors is the number of steps with an error.
pub get_summary_lem :
    (p : ProgressWriter) (now : ℕ) (f : StepSummary → Bool)
    → IsSorted (get_summary p now).steps
      × (count_if f (get_summary p now).steps
          ≡ count_if
              (λ v. not (v.name == "") && f (step_of v))
              (in_order p.vertices p.vertex_order))
      × ((get_summary p now).errors ≡ count_if (λ s. not (s.error == "")) (get_summary p now).steps)
unfolding get_summary
get_summary_lem p now f =
    let states : List VertexState = in_order p.vertices p.vertex_order in
    (
      sort_steps-IsSorted (steps_of states),
      count-sort_steps f (steps_of states) ∙ count-steps_of f states,
      sym (
          count-sort_steps (λ s. not (s.error == "")) (steps_of states)
          ∙ count-steps_of (λ s. not (s.error == "")) states),
    )

-- The vertex of the message is known, and has started and completed if the message says so.
abbrev IsSettled : ProgressWriter → Vertex → VertexState → Type 0
IsSettled p u v =
    (lookup u.digest p.vertices ≡ some v)
    × ((is_some u.started && not (is_some v.started)) ≡ false)
    × ((is_some u.completed && not (is_some v.completed)) ≡ false)

process_vertex-settled :
    (p : ProgressWriter) (u : Vertex) (v : VertexState)
    → IsSettled p u v
    → process_vertex p u ≡ (p, [])
unfolding process_vertex enter_vertex start_vertex complete_vertex
process_vertex-settled p u v (known, started, completed) = ground (arith, known, started, completed)

start_vertex-known :
    (p : ProgressWriter) (u : Vertex) (v : VertexState)
    → lookup u.digest p.vertices ≡ some v
    → (lookup u.digest (start_vertex p u v).0.1.vertices ≡ some (start_vertex p u v).0.0)
      × ((is_some u.started && not (is_some (start_vertex p u v).0.0.started)) ≡ false)
unfolding start_vertex
start_vertex-known p u v known = elim (Bool-cases (is_some u.started && not (is_some v.started))) [
  | inl starts ↦
      rw (starts, start_vertex)
        (lookup-put_vertex p u.digest (record v { started = u.started }), ground arith)
  | inr stays ↦ rw (stays, start_vertex) (known, stays)
]

complete_vertex-IsSettled :
    (p : ProgressWriter) (u : Vertex) (v : VertexState)
    → lookup u.digest p.vertices ≡ some v
    → (is_some u.started && not (is_some v.started)) ≡ false
    → (w : VertexState) × IsSettled (complete_vertex p u v).0 u w
unfolding complete_vertex
complete_vertex-IsSettled p u v known started =
    elim (Bool-cases (is_some u.completed && not (is_some v.completed))) [
      | inl ends ↦
          let w : VertexState = record v {
            completed = u.completed;
            cached = u.cached;
            error = if u.error == "" then v.error else u.error;
          } in
          rw (ends, complete_vertex) (w, (lookup-put_vertex p u.digest w, started, ground arith))
      | inr stays ↦ rw (stays, complete_vertex) (v, (known, started, stays))
    ]

enter_vertex-known :
    (p : ProgressWriter) (u : Vertex)
    → lookup u.digest (enter_vertex p u).1.vertices ≡ some (enter_vertex p u).0
unfolding enter_vertex
enter_vertex-known p u = elim (Option-cases (lookup u.digest p.vertices)) [
  | inl none_here ↦ rw (none_here, enter_vertex) (lookup-put_vertex p u.digest (new_vertex u.name))
  | inr (v, here) ↦ rw (here, enter_vertex) here
]

process_vertex-IsSettled :
    (p : ProgressWriter) (u : Vertex) → (v : VertexState) × IsSettled (process_vertex p u).0 u v
unfolding process_vertex
process_vertex-IsSettled p u =
    let (v, q) = enter_vertex p u in
    let (known, started) = start_vertex-known q u v (enter_vertex-known p u) in
    complete_vertex-IsSettled (start_vertex q u v).0.1 u (start_vertex q u v).0.0 known started

-- A message that was processed is processed again with no effect: the writer stays, and nothing is printed.
pub process_vertex-twice :
    (p : ProgressWriter) (u : Vertex)
    → process_vertex (process_vertex p u).0 u ≡ ((process_vertex p u).0, [])
process_vertex-twice p u =
    let (v, settled) = process_vertex-IsSettled p u in
    process_vertex-settled (process_vertex p u).0 u v settled
