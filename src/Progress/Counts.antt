-- ===== src/Progress/Counts.antt =====
-- The counters of the progress writer.
use melange.Prelude.{
  ℕ, suc, ◌≡◌, refl, sym, ap, ◌∙◌, arith, Bool, false, ◌&&◌, not, List, [], ◌∷◌, ◌++◌, some, String,
  if◌then◌else◌, ◌==◌, string_eq, ==_iff, count_if, length, contains, map, Bool-cases, inl, inr,
  Option-cases,
}
use melange.Prelude.Text.{◌<>◌}
use melange.Prelude.Maps.{
  Dict, lookup, keys, contains-keys, lookup-insert, DistinctKeys, insert-DistinctKeys,
}
use melange.Prelude.Counting.{
  count_values, count-new, count-old, keys-new, keys-old, length-new, length-old,
}
use melange.Progress.Defs.{
  ProgressMode, VertexState, ProgressWriter, Vertex, VertexLog, SolveStatus, new_progress_writer,
}
use melange.Progress.Output.{
  is_some, new_vertex, put_vertex, enter_vertex, start_vertex, complete_vertex, process_vertex,
  process_vertices, process_log, process_logs, process_status,
}
use melange.Progress.Totals.{in_order, write_all}

abbrev pub is_done : VertexState → Bool
is_done v = is_some v.completed

abbrev pub is_cached : VertexState → Bool
is_cached v = is_some v.completed && v.cached

-- The counters are those of the vertices, which the order lists as they came.
pub record IsConsistent (p : ProgressWriter) : Type 0 where
  pub distinct : DistinctKeys p.vertices
  pub order : p.vertex_order ≡ keys p.vertices
  pub total : p.total ≡ length p.vertices
  pub completed : p.completed ≡ count_values is_done p.vertices
  pub cached : p.cached ≡ count_values is_cached p.vertices

-- A vertex that is known is replaced by one that is completed and cached as it is.
put_vertex-IsConsistent :
    (p : ProgressWriter) (d : String) (v old : VertexState)
    → IsConsistent p
    → lookup d p.vertices ≡ some old
    → is_done v ≡ is_done old
    → is_cached v ≡ is_cached old
    → IsConsistent (put_vertex p d v)
put_vertex-IsConsistent p d v old c known done cached = record {
  distinct = insert-DistinctKeys d v p.vertices c.distinct;
  order = c.order ∙ sym (keys-old d v old p.vertices known);
  total = c.total ∙ sym (length-old d v old p.vertices known);
  completed = ground (arith, c.completed, count-old is_done d v old p.vertices known);
  cached = ground (arith, c.cached, count-old is_cached d v old p.vertices known);
}

pub enter_vertex-IsConsistent :
    (p : ProgressWriter) (u : Vertex)
    → IsConsistent p
    → IsConsistent (enter_vertex p u).1
      × (lookup u.digest (enter_vertex p u).1.vertices ≡ some (enter_vertex p u).0)
unfolding enter_vertex
enter_vertex-IsConsistent p u c = elim (Option-cases (lookup u.digest p.vertices)) [
  | inl none_here ↦
      rw (none_here, enter_vertex)
        (
          record {
            distinct = insert-DistinctKeys u.digest (new_vertex u.name) p.vertices c.distinct;
            order =
                ap (λ o. o ++ u.digest ∷ []) c.order
                ∙ sym (keys-new u.digest (new_vertex u.name) p.vertices none_here);
            total =
                ap suc c.total ∙ sym (length-new u.digest (new_vertex u.name) p.vertices none_here);
            completed = ground (
              arith,
              c.completed,
              count-new is_done u.digest (new_vertex u.name) p.vertices none_here,
            );
            cached = ground (
              arith,
              c.cached,
              count-new is_cached u.digest (new_vertex u.name) p.vertices none_here,
            );
          },
          ground (
            arith,
            lookup-insert u.digest u.digest (new_vertex u.name) p.vertices,
            ==_iff {A = String} u.digest u.digest,
          ),
        )
  | inr (v, here) ↦ rw (here, enter_vertex) (c, here)
]

pub lookup-put_vertex :
    (p : ProgressWriter) (d : String) (v : VertexState)
    → lookup d (put_vertex p d v).vertices ≡ some v
lookup-put_vertex p d v = ground (arith, lookup-insert d d v p.vertices, ==_iff {A = String} d d)

start_vertex-IsConsistent :
    (p : ProgressWriter) (u : Vertex) (v : VertexState)
    → IsConsistent p
    → lookup u.digest p.vertices ≡ some v
    → IsConsistent (start_vertex p u v).0.1
      × (lookup u.digest (start_vertex p u v).0.1.vertices ≡ some (start_vertex p u v).0.0)
unfolding start_vertex
start_vertex-IsConsistent p u v c known =
    elim (Bool-cases (is_some u.started && not (is_some v.started))) [
      | inl starts ↦ rw starts (
        put_vertex-IsConsistent p u.digest (record v { started = u.started }) v c known refl refl,
        lookup-put_vertex p u.digest (record v { started = u.started }),
      )
      | inr stays ↦ rw stays (c, known)
    ]

complete_vertex-IsConsistent :
    (p : ProgressWriter) (u : Vertex) (v : VertexState)
    → IsConsistent p
    → lookup u.digest p.vertices ≡ some v
    → IsConsistent (complete_vertex p u v).0
unfolding complete_vertex
complete_vertex-IsConsistent p u v c known =
    elim (Bool-cases (is_some u.completed && not (is_some v.completed))) [
      | inl ends ↦
          let v' : VertexState = record v {
            completed = u.completed;
            cached = u.cached;
            error = if u.error == "" then v.error else u.error;
          } in
          rw ends (record {
            distinct = insert-DistinctKeys u.digest v' p.vertices c.distinct;
            order = c.order ∙ sym (keys-old u.digest v' v p.vertices known);
            total = c.total ∙ sym (length-old u.digest v' v p.vertices known);
            completed =
                ground (arith, c.completed, ends, count-old is_done u.digest v' v p.vertices known);
            cached =
                ground (arith, c.cached, ends, count-old is_cached u.digest v' v p.vertices known);
          })
      | inr stays ↦ rw stays c
    ]

pub process_vertex-IsConsistent :
    (p : ProgressWriter) (u : Vertex) → IsConsistent p → IsConsistent (process_vertex p u).0
unfolding process_vertex
process_vertex-IsConsistent p u c =
    let (q, known) = enter_vertex-IsConsistent p u c in
    let (r, there) =
      start_vertex-IsConsistent (enter_vertex p u).1 u (enter_vertex p u).0 q known in
    complete_vertex-IsConsistent (start_vertex (enter_vertex p u).1 u (enter_vertex p u).0).0.1 u
      (start_vertex (enter_vertex p u).1 u (enter_vertex p u).0).0.0 r there

process_vertices-IsConsistent :
    (p : ProgressWriter) (us : List Vertex)
    → IsConsistent p
    → IsConsistent (process_vertices p us).0
unfolding process_vertices
process_vertices-IsConsistent p [] c = c
process_vertices-IsConsistent p (u ∷ us) c =
    process_vertices-IsConsistent (process_vertex p u).0 us (process_vertex-IsConsistent p u c)

process_log-IsConsistent :
    (p : ProgressWriter) (l : VertexLog) → IsConsistent p → IsConsistent (process_log p l).0
unfolding process_log
process_log-IsConsistent p l c = elim (Option-cases (lookup l.vertex p.vertices)) [
  | inl none_here ↦ rw (none_here, process_log) c
  | inr (v, here) ↦
      rw (here, process_log)
        (put_vertex-IsConsistent p l.vertex (record v { logs = v.logs <> l.text }) v c here refl
          refl)
]

process_logs-IsConsistent :
    (p : ProgressWriter) (ls : List VertexLog) → IsConsistent p → IsConsistent (process_logs p ls).0
unfolding process_logs
process_logs-IsConsistent p [] c = c
process_logs-IsConsistent p (l ∷ ls) c =
    process_logs-IsConsistent (process_log p l).0 ls (process_log-IsConsistent p l c)

process_status-IsConsistent :
    (p : ProgressWriter) (s : SolveStatus) → IsConsistent p → IsConsistent (process_status p s).0
unfolding process_status
process_status-IsConsistent p s c =
    process_logs-IsConsistent (process_vertices p s.vertexes).0 s.logs
      (process_vertices-IsConsistent p s.vertexes c)

pub write_all-IsConsistent :
    (p : ProgressWriter) (ss : List SolveStatus) (now : ℕ)
    → IsConsistent p
    → IsConsistent (write_all p ss now).0
unfolding write_all
write_all-IsConsistent p [] now c = c
write_all-IsConsistent p (s ∷ ss) now c =
    write_all-IsConsistent (process_status p s).0 ss now (process_status-IsConsistent p s c)

pub new_progress_writer-IsConsistent :
    (mode : ProgressMode) (show : Bool) (now : ℕ) → IsConsistent (new_progress_writer mode show now)
unfolding new_progress_writer count_if
new_progress_writer-IsConsistent mode show now = record {
  distinct = tt;
  order = refl;
  total = refl;
  completed = refl;
  cached = refl;
}

-- An entry with a key that the list does not have changes nothing of what is shown.
in_order-skip :
    (k : String) (w : VertexState) (m : Dict VertexState) (ds : List String)
    → contains ds k ≡ false
    → in_order ((k, w) ∷ m) ds ≡ in_order m ds
unfolding in_order lookup contains
in_order-skip k w m [] h = refl
in_order-skip k w m (d ∷ ds) h =
    ground (arith, in_order-skip k w m ds, ==_iff {A = String} d k, ==_iff {A = String} k d)

pub in_order-keys : (m : Dict VertexState) → DistinctKeys m → in_order m (keys m) ≡ map (λ e. e.1) m
unfolding in_order lookup
in_order-keys [] d = refl
in_order-keys ((k, w) ∷ m) d = ground (
  arith,
  ==_iff {A = String} k k,
  in_order-skip k w m (keys m),
  contains-keys m k,
  d.0,
  in_order-keys m d.1,
)
