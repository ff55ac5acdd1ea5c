-- ===== src/Store/Oldest.antt =====
-- The sort by the finishing time in `evictOldBuilds` of pkg/service/store/memory.go, and the loop
-- that drops the oldest.
use melange.Prelude.{
  ℕ, zero, suc, ◌≤◌, ◌≡◌, refl, ◌||◌, List, [], ◌∷◌, none, String, arith, if◌then◌else◌, ◌==◌,
  string_eq, contains, length, take, drop, leb, All, Bool-cases, inl, inr,
}
use melange.Prelude.Maps.{lookup}
use melange.Store.Defs.{
  Store, drop_build, drop_first, CompletedBuild, insert_completed, sort_completed,
}
use melange.Store.Sweep.{ids, drop_build-lookup}

-- Oldest first.
abbrev pub Sorted : List CompletedBuild → Type 0
Sorted [] = Unit {0}
Sorted (c ∷ cs) = All (λ x. c.finished_at ≤ x.finished_at) cs × Sorted cs

pub insert_completed-All :
    (P : CompletedBuild → Type 0) (c : CompletedBuild) (cs : List CompletedBuild)
    → P c
    → All P cs
    → All P (insert_completed c cs)
unfolding insert_completed
insert_completed-All P c [] h a = (h, tt)
insert_completed-All P c (x ∷ cs) h a = elim (Bool-cases (leb c.finished_at x.finished_at)) [
  | inl front ↦ rw (front, insert_completed) (h, a)
  | inr behind ↦ rw (behind, insert_completed) (a.0, insert_completed-All P c cs h a.1)
]

pub sort_completed-All :
    (P : CompletedBuild → Type 0) (cs : List CompletedBuild) → All P cs → All P (sort_completed cs)
unfolding sort_completed
sort_completed-All P [] a = tt
sort_completed-All P (c ∷ cs) a =
    insert_completed-All P c (sort_completed cs) a.0 (sort_completed-All P cs a.1)

pub All-le_trans :
    (a b : ℕ) (cs : List CompletedBuild)
    → a ≤ b
    → All (λ x. b ≤ x.finished_at) cs
    → All (λ x. a ≤ x.finished_at) cs
All-le_trans a b [] h all = tt
All-le_trans a b (c ∷ cs) h all = (omega (arith, all.0), All-le_trans a b cs h all.1)

pub insert_completed-Sorted :
    (c : CompletedBuild) (cs : List CompletedBuild) → Sorted cs → Sorted (insert_completed c cs)
unfolding insert_completed
insert_completed-Sorted c [] s = (tt, tt)
insert_completed-Sorted c (x ∷ cs) s = elim (Bool-cases (leb c.finished_at x.finished_at)) [
  | inl front ↦
      let le : c.finished_at ≤ x.finished_at = ground arith in
      rw (front, insert_completed)
        ((le, All-le_trans c.finished_at x.finished_at cs le s.0), (s.0, s.1))
  | inr behind ↦
      rw (behind, insert_completed)
        (
          insert_completed-All (λ y. x.finished_at ≤ y.finished_at) c cs (ground arith) s.0,
          insert_completed-Sorted c cs s.1,
        )
]

pub sort_completed-Sorted : (cs : List CompletedBuild) → Sorted (sort_completed cs)
unfolding sort_completed
sort_completed-Sorted [] = tt
sort_completed-Sorted (c ∷ cs) =
    insert_completed-Sorted c (sort_completed cs) (sort_completed-Sorted cs)

pub contains-insert_completed :
    (c : CompletedBuild) (cs : List CompletedBuild) (id : String)
    → contains (ids (insert_completed c cs)) id ≡ (c.id == id || contains (ids cs) id)
unfolding insert_completed contains
contains-insert_completed c [] id = refl
contains-insert_completed c (x ∷ cs) id = ground (arith, contains-insert_completed c cs id)

pub contains-sort_completed :
    (cs : List CompletedBuild) (id : String)
    → contains (ids (sort_completed cs)) id ≡ contains (ids cs) id
unfolding sort_completed contains
contains-sort_completed [] id = refl
contains-sort_completed (c ∷ cs) id =
    ground
      (arith, contains-insert_completed c (sort_completed cs) id, contains-sort_completed cs id)

pub length-insert_completed :
    (c : CompletedBuild) (cs : List CompletedBuild)
    → length (insert_completed c cs) ≡ suc (length cs)
unfolding insert_completed
length-insert_completed c [] = refl
length-insert_completed c (x ∷ cs) = ground (arith, length-insert_completed c cs)

pub length-sort_completed : (cs : List CompletedBuild) → length (sort_completed cs) ≡ length cs
unfolding sort_completed
length-sort_completed [] = refl
length-sort_completed (c ∷ cs) =
    omega (arith, length-insert_completed c (sort_completed cs), length-sort_completed cs)

pub drop_first-lookup :
    (n : ℕ) (cs : List CompletedBuild) (s : Store) (id : String)
    → lookup id (drop_first n cs s).builds
      ≡ (if contains (ids (take n cs)) id then none else lookup id s.builds)
unfolding drop_first contains
drop_first-lookup zero cs s id = refl
drop_first-lookup (suc n) [] s id = refl
drop_first-lookup (suc n) (c ∷ cs) s id =
    ground (arith, drop_first-lookup n cs (drop_build s c.id) id, drop_build-lookup s c.id id)

pub contains-take-drop :
    (n : ℕ) (cs : List CompletedBuild) (id : String)
    → contains (ids cs) id ≡ (contains (ids (take n cs)) id || contains (ids (drop n cs)) id)
unfolding contains
contains-take-drop zero cs id = refl
contains-take-drop (suc n) [] id = refl
contains-take-drop (suc n) (c ∷ cs) id = ground (arith, contains-take-drop n cs id)
