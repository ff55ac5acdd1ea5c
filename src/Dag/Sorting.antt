-- ===== src/Dag/Sorting.antt =====
-- `sort.Strings`, as an insertion sort by the order of the texts' bytes.
use Prim.Native.Nat.{Ordering}
use Prim.Native.String.{compare}
use melange.Prelude.{
  ◌≡◌, refl, Bool, true, false, ◌||◌, List, [], ◌∷◌, String, arith, if◌then◌else◌, ◌==◌, ==_iff,
  string_eq, contains, Distinct,
}

abbrev pub leb_text : String → String → Bool
leb_text a b = elim (compare a b) [ Ordering.gt ↦ false | _ ↦ true ]

unfoldable pub insert_sorted : String → List String → List String
insert_sorted a [] = a ∷ []
insert_sorted a (x ∷ xs) = if leb_text a x then a ∷ x ∷ xs else x ∷ insert_sorted a xs

unfoldable pub sort_strings : List String → List String
unfolding insert_sorted
sort_strings [] = []
sort_strings (x ∷ xs) = insert_sorted x (sort_strings xs)

contains-insert_sorted :
    (a : String) (xs : List String) (b : String)
    → contains (insert_sorted a xs) b ≡ (a == b || contains xs b)
unfolding insert_sorted contains
contains-insert_sorted a [] b = refl
contains-insert_sorted a (x ∷ xs) b = ground (arith, contains-insert_sorted a xs b)

-- Sorting keeps the entries.
pub contains-sort_strings :
    (xs : List String) (b : String) → contains (sort_strings xs) b ≡ contains xs b
unfolding sort_strings contains
contains-sort_strings [] b = refl
contains-sort_strings (x ∷ xs) b =
    ground (arith, contains-insert_sorted x (sort_strings xs) b, contains-sort_strings xs b)

Distinct-insert_sorted :
    (a : String) (xs : List String)
    → contains xs a ≡ false
    → Distinct xs
    → Distinct (insert_sorted a xs)
unfolding insert_sorted contains
Distinct-insert_sorted a [] h d = (refl, tt)
Distinct-insert_sorted a (x ∷ xs) h d = ground (
  arith,
  Distinct-insert_sorted a xs,
  contains-insert_sorted a xs x,
  ==_iff {A = String} a x,
  ==_iff {A = String} x a,
)

pub Distinct-sort_strings : (xs : List String) → Distinct xs → Distinct (sort_strings xs)
unfolding sort_strings
Distinct-sort_strings [] d = tt
Distinct-sort_strings (x ∷ xs) d = ground (
  arith,
  Distinct-insert_sorted x (sort_strings xs),
  Distinct-sort_strings xs,
  contains-sort_strings xs x,
)
