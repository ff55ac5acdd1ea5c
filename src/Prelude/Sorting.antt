-- ===== src/Prelude/Sorting.antt =====
-- Go's order of texts, `slices.Sort` by it, and that the sorted list depends on the members alone.
use Prim.Native.Char.{code}
use Prim.Native.String.{String}
use mathlib.Core.Path.{◌≡◌, refl, sym, ap, ◌∙◌, subst}
use mathlib.Core.Bool.{Bool, true, false, ◌&&◌, ◌||◌}
use mathlib.Core.Logic.{inl, inr}
use mathlib.Core.List.{List, [], ◌∷◌}
use native.Mathlib.Omega.{arith}
use text.Mathlib.TextEquality.{Char-path}
use melange.Prelude.Tests.{nat_beq, ltb, if◌then◌else◌, ◌==◌, ==_iff, string_eq, Bool-cases}
use melange.Prelude.Lists.{contains, Distinct, All, All-map}

-- `s <= t`
unfoldable pub text_le : String → String → Bool
text_le String.[] t = true
text_le (String.◌∷◌ c s) String.[] = false
text_le (String.◌∷◌ c s) (String.◌∷◌ d t) =
    ltb (code c) (code d) || (nat_beq (code c) (code d) && text_le s t)

unfoldable pub insert_text : String → List String → List String
unfolding text_le
insert_text a [] = a ∷ []
insert_text a (b ∷ bs) = if text_le a b then a ∷ b ∷ bs else b ∷ insert_text a bs

unfoldable pub sort_texts : List String → List String
unfolding insert_text
sort_texts [] = []
sort_texts (x ∷ xs) = insert_text x (sort_texts xs)

text_le_total : (s t : String) → text_le s t ≡ false → text_le t s ≡ true
unfolding text_le
text_le_total String.[] t h = absurd (ground arith)
text_le_total (String.◌∷◌ c s) String.[] h = refl
text_le_total (String.◌∷◌ c s) (String.◌∷◌ d t) h = ground (arith, text_le_total s t)

text_le_refl : (s : String) → text_le s s ≡ true
unfolding text_le
text_le_refl String.[] = refl
text_le_refl (String.◌∷◌ c s) = ground (arith, text_le_refl s)

text_le_trans : (s t u : String) → text_le s t ≡ true → text_le t u ≡ true → text_le s u ≡ true
unfolding text_le
text_le_trans String.[] t u h k = refl
text_le_trans (String.◌∷◌ c s) String.[] u h k = absurd (ground arith)
text_le_trans (String.◌∷◌ c s) (String.◌∷◌ d t) String.[] h k = absurd (ground arith)
text_le_trans (String.◌∷◌ c s) (String.◌∷◌ d t) (String.◌∷◌ e u) h k =
    ground (arith, text_le_trans s t u)

text_le_antisymm : (s t : String) → text_le s t ≡ true → text_le t s ≡ true → s ≡ t
unfolding text_le
text_le_antisymm String.[] String.[] h k = refl
text_le_antisymm String.[] (String.◌∷◌ d t) h k = absurd (ground arith)
text_le_antisymm (String.◌∷◌ c s) String.[] h k = absurd (ground arith)
text_le_antisymm (String.◌∷◌ c s) (String.◌∷◌ d t) h k =
    let first : c ≡ d = Char-path c d (ground arith) in
    let rest : s ≡ t = text_le_antisymm s t (ground arith) (ground arith) in
    ap (λ x. String.◌∷◌ x s) first ∙ ap (String.◌∷◌ d) rest

-- Each text is at most the ones behind it.
abbrev IsSorted : List String → Type 0
IsSorted [] = Unit {0}
IsSorted (x ∷ xs) = All (λ y. text_le x y ≡ true) xs × IsSorted xs

All-insert_text :
    (x a : String) (xs : List String)
    → text_le x a ≡ true
    → All (λ y. text_le x y ≡ true) xs
    → All (λ y. text_le x y ≡ true) (insert_text a xs)
unfolding insert_text
All-insert_text x a [] h k = (h, tt)
All-insert_text x a (y ∷ xs) h k = ground (arith, All-insert_text x a xs h k.1)

insert_text-IsSorted : (a : String) (xs : List String) → IsSorted xs → IsSorted (insert_text a xs)
unfolding insert_text
insert_text-IsSorted a [] s = (tt, tt)
insert_text-IsSorted a (x ∷ xs) s = elim (Bool-cases (text_le a x)) [
  | inl le ↦
      rw (le, insert_text)
        (
          (
            le,
            All-map (λ y. text_le x y ≡ true) (λ y. text_le a y ≡ true) xs
                (λ y k. text_le_trans a x y le k) s.0,
          ),
          s,
        )
  | inr gt ↦
      rw (gt, insert_text)
        (All-insert_text x a xs (text_le_total a x gt) s.0, insert_text-IsSorted a xs s.1)
]

sort_texts-IsSorted : (xs : List String) → IsSorted (sort_texts xs)
unfolding sort_texts
sort_texts-IsSorted [] = tt
sort_texts-IsSorted (x ∷ xs) = insert_text-IsSorted x (sort_texts xs) (sort_texts-IsSorted xs)

contains-insert_text :
    (a b : String) (xs : List String) → contains (insert_text a xs) b ≡ contains (a ∷ xs) b
unfolding insert_text contains
contains-insert_text a b [] = refl
contains-insert_text a b (x ∷ xs) = ground (arith, contains-insert_text a b xs)

pub contains-sort_texts :
    (b : String) (xs : List String) → contains (sort_texts xs) b ≡ contains xs b
unfolding sort_texts contains
contains-sort_texts b [] = refl
contains-sort_texts b (x ∷ xs) =
    contains-insert_text x b (sort_texts xs) ∙ ap (λ r. x == b || r) (contains-sort_texts b xs)

insert_text-Distinct :
    (a : String) (xs : List String)
    → Distinct xs
    → contains xs a ≡ false
    → Distinct (insert_text a xs)
unfolding insert_text contains
insert_text-Distinct a [] d h = (refl, tt)
insert_text-Distinct a (x ∷ xs) d h = elim (Bool-cases (text_le a x)) [
  | inl le ↦ rw (le, insert_text) (h, d)
  | inr gt ↦
      rw (gt, insert_text)
        (
          ground (
            arith,
            contains-insert_text a x xs,
            d.0,
            h,
            ==_iff {A = String} a x,
            ==_iff {A = String} x a,
          ),
          insert_text-Distinct a xs d.1 (ground (arith, h)),
        )
]

sort_texts-Distinct : (xs : List String) → Distinct xs → Distinct (sort_texts xs)
unfolding sort_texts
sort_texts-Distinct [] d = tt
sort_texts-Distinct (x ∷ xs) d =
    insert_text-Distinct x (sort_texts xs) (sort_texts-Distinct xs d.1)
      (contains-sort_texts x xs ∙ d.0)

All-contains :
    (x a : String) (xs : List String)
    → All (λ y. text_le x y ≡ true) xs
    → contains xs a ≡ true
    → text_le x a ≡ true
unfolding contains
All-contains x a [] k h = absurd (ground arith)
All-contains x a (y ∷ xs) k h = elim (Bool-cases (y == a)) [
  | inl here ↦ subst (λ z. text_le x z ≡ true) ((==_iff {A = String} y a).0 here) k.0
  | inr there ↦ All-contains x a xs k.1 (ground (arith, there, h))
]

head-le :
    (x y : String) (ys : List String)
    → IsSorted (y ∷ ys)
    → contains (y ∷ ys) x ≡ true
    → text_le y x ≡ true
unfolding contains
head-le x y ys s h = elim (Bool-cases (y == x)) [
  | inl here ↦ subst (λ z. text_le y z ≡ true) ((==_iff {A = String} y x).0 here) (text_le_refl y)
  | inr there ↦ All-contains y x ys s.0 (ground (arith, there, h))
]

sorted_unique :
    (xs ys : List String)
    → IsSorted xs
    → IsSorted ys
    → Distinct xs
    → Distinct ys
    → ((a : String) → contains xs a ≡ contains ys a)
    → xs ≡ ys
unfolding contains
sorted_unique [] [] s t d e same = refl
sorted_unique [] (y ∷ ys) s t d e same = absurd (ground (arith, same y, ==_iff {A = String} y y))
sorted_unique (x ∷ xs) [] s t d e same = absurd (ground (arith, same x, ==_iff {A = String} x x))
sorted_unique (x ∷ xs) (y ∷ ys) s t d e same =
    let first : x ≡ y =
      text_le_antisymm x y (head-le y x xs s (ground (arith, same y, ==_iff {A = String} y y)))
        (head-le x y ys t (ground (arith, same x, ==_iff {A = String} x x))) in
    let rest : xs ≡ ys = sorted_unique xs ys s.1 t.1 d.1 e.1 (tails first) in
    ap (λ z. z ∷ xs) first ∙ ap (λ zs. y ∷ zs) rest
  where
    tails : x ≡ y → (a : String) → contains xs a ≡ contains ys a
    tails first a =
        ground (arith, same a, d.0, e.0, first, ==_iff {A = String} x a, ==_iff {A = String} y a)

-- Two lists with the same members, each once, are sorted to one list.
pub sort_texts-same :
    (xs ys : List String)
    → Distinct xs
    → Distinct ys
    → ((a : String) → contains xs a ≡ contains ys a)
    → sort_texts xs ≡ sort_texts ys
sort_texts-same xs ys d e same =
    sorted_unique (sort_texts xs) (sort_texts ys) (sort_texts-IsSorted xs) (sort_texts-IsSorted ys)
      (sort_texts-Distinct xs d) (sort_texts-Distinct ys e)
      (λ a. contains-sort_texts a xs ∙ same a ∙ sym (contains-sort_texts a ys))
