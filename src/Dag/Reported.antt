-- ===== src/Dag/Reported.antt =====
-- The path that `DetectCycle` of pkg/service/dag/dag.go reports.
use melange.Prelude.{◌≡◌, false, [], ◌∷◌, some, String, arith, ◌==◌, ==_iff, ==_refl, string_eq}
use melange.Prelude.Maps.{Dict}
use melange.Types.{Node}
use melange.Dag.Cycle.{detect_cycle}

-- Two packages that depend on one another.
abbrev pub mutual_pair : String → String → Dict Node
mutual_pair x y =
    (x, record { name = x; config_yaml = ""; dependencies = y ∷ [] })
    ∷ (y, record { name = y; config_yaml = ""; dependencies = x ∷ [] })
    ∷ []

-- For two packages that depend on one another the report is `x, x, y`, although `x` does not depend
-- on itself: the closing name stands in front of the path in place of behind it.
pub detect_cycle-mutual_pair :
    (x y : String)
    → (x == y) ≡ false
    → detect_cycle (mutual_pair x y) (x ∷ y ∷ []) ≡ some (some (x ∷ x ∷ y ∷ []))
unfolding detect_cycle
detect_cycle-mutual_pair x y h =
    let flip : (y == x) ≡ false =
      ground (arith, ==_iff {A = String} y x, ==_iff {A = String} x y) in
    ground (arith, ==_refl {A = String} x, ==_refl {A = String} y, h, flip)
