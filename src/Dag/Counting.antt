-- ===== src/Dag/Counting.antt =====
-- The map `inDegree`: a missing key reads as 0.
use melange.Prelude.{List, [], ◌∷◌, String, if◌then◌else◌, ◌==◌, string_eq}
use melange.Prelude.Int.{ℤ, pos, ◌+ℤ◌}
use melange.Prelude.Maps.{Dict, lookup, has_key}
use melange.Types.{Node}

abbrev pub Degrees : Type 0
Degrees = String → ℤ

abbrev pub set_degree : Degrees → String → ℤ → Degrees
set_degree d k v j = if k == j then v else d j

-- The inner loop of the counting: one more for each dependency that is in the graph.
unfoldable pub count_edges : Dict Node → String → List String → Degrees → Degrees
unfolding lookup
count_edges m name [] d = d
count_edges m name (dep ∷ deps) d =
    count_edges m name deps (if has_key m dep then set_degree d name (d name +ℤ pos 1) else d)

unfoldable pub count_all_edges : Dict Node → Dict Node → Degrees → Degrees
unfolding count_edges
count_all_edges m [] d = d
count_all_edges m ((k, n) ∷ range) d =
    count_all_edges m range (count_edges m n.name n.dependencies d)
