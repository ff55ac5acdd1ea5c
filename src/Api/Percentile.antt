-- ===== src/Api/Percentile.antt =====
-- The percentiles and the statistics of `handleBuildMetrics` in pkg/service/api/server.go.
use mathlib.Core.List.{Memᴰ}
use melange.Prelude.{
  ℕ, zero, suc, ◌*◌, ◌≤◌, ◌<◌, ◌≡◌, refl, ◌∙◌, ap, false, List, [], ◌∷◌, arith, length, nat_beq,
  All, All-map, Bool-cases, inl, inr,
}
use Prim.Native.Nat.{◌/◌}
use melange.Prelude.Int.{ℤ, leb_ℤ, ◌≤ℤ◌}
use melange.Api.Metrics.{insert_ℤ, sort_ℤ, entry_or_zero, percentile_index, percentile}

abbrev IsSorted : List ℤ → Type 0
IsSorted [] = Unit {0}
IsSorted (x ∷ xs) = All (λ y. x ≤ℤ y) xs × IsSorted xs

All-insert_ℤ :
    (x v : ℤ) (xs : List ℤ) → x ≤ℤ v → All (λ y. x ≤ℤ y) xs → All (λ y. x ≤ℤ y) (insert_ℤ v xs)
unfolding insert_ℤ
All-insert_ℤ x v [] h a = (h, tt)
All-insert_ℤ x v (y ∷ xs) h a = ground (arith, All-insert_ℤ x v xs h a.1)

All-le : (v y : ℤ) (xs : List ℤ) → v ≤ℤ y → All (λ z. y ≤ℤ z) xs → All (λ z. v ≤ℤ z) xs
All-le v y xs h a = All-map (λ z. y ≤ℤ z) (λ z. v ≤ℤ z) xs (λ z k. omega (arith, h, k)) a

insert_ℤ-IsSorted : (v : ℤ) (xs : List ℤ) → IsSorted xs → IsSorted (insert_ℤ v xs)
unfolding insert_ℤ
insert_ℤ-IsSorted v [] s = (tt, tt)
insert_ℤ-IsSorted v (x ∷ xs) s = elim (Bool-cases (leb_ℤ v x)) [
  | inl le ↦ let h : v ≤ℤ x = ground arith in rw (le, insert_ℤ) ((h, All-le v x xs h s.0), s)
  | inr gt ↦
      let h : x ≤ℤ v = ground arith in
      rw (gt, insert_ℤ) (All-insert_ℤ x v xs h s.0, insert_ℤ-IsSorted v xs s.1)
]

sort_ℤ-IsSorted : (xs : List ℤ) → IsSorted (sort_ℤ xs)
unfolding sort_ℤ
sort_ℤ-IsSorted [] = tt
sort_ℤ-IsSorted (x ∷ xs) = insert_ℤ-IsSorted x (sort_ℤ xs) (sort_ℤ-IsSorted xs)

length-insert_ℤ : (v : ℤ) (xs : List ℤ) → length (insert_ℤ v xs) ≡ suc (length xs)
unfolding insert_ℤ
length-insert_ℤ v [] = refl
length-insert_ℤ v (x ∷ xs) = ground (arith, length-insert_ℤ v xs)

length-sort_ℤ : (xs : List ℤ) → length (sort_ℤ xs) ≡ length xs
unfolding sort_ℤ
length-sort_ℤ [] = refl
length-sort_ℤ (x ∷ xs) = length-insert_ℤ x (sort_ℤ xs) ∙ ap suc (length-sort_ℤ xs)

behind : {y v x : ℤ} {xs : List ℤ} → Memᴰ y (v ∷ xs) → Memᴰ y (v ∷ x ∷ xs)
behind (Memᴰ.head e) = Memᴰ.head e
behind (Memᴰ.tail m) = Memᴰ.tail (Memᴰ.tail m)

in_place :
    {y v x : ℤ} {xs zs : List ℤ}
    → Memᴰ y (x ∷ zs)
    → (Memᴰ y zs → Memᴰ y (v ∷ xs))
    → Memᴰ y (v ∷ x ∷ xs)
in_place (Memᴰ.head e) f = Memᴰ.tail (Memᴰ.head e)
in_place (Memᴰ.tail m) f = behind (f m)

Memᴰ-insert_ℤ : (v y : ℤ) (xs : List ℤ) → Memᴰ y (insert_ℤ v xs) → Memᴰ y (v ∷ xs)
unfolding insert_ℤ
Memᴰ-insert_ℤ v y [] m = m
Memᴰ-insert_ℤ v y (x ∷ xs) m = elim (Bool-cases (leb_ℤ v x)) [
  | inl le ↦ rw (le, insert_ℤ) at m
  | inr gt ↦ in_place (rw (gt, insert_ℤ) at m) (Memᴰ-insert_ℤ v y xs)
]

Memᴰ-sort_ℤ : (y : ℤ) (xs : List ℤ) → Memᴰ y (sort_ℤ xs) → Memᴰ y xs
unfolding sort_ℤ
Memᴰ-sort_ℤ y [] m = m
Memᴰ-sort_ℤ y (x ∷ xs) m = in_tail (Memᴰ-insert_ℤ x y (sort_ℤ xs) m) (Memᴰ-sort_ℤ y xs)
  where
    in_tail : {ys : List ℤ} → Memᴰ y (x ∷ ys) → (Memᴰ y ys → Memᴰ y xs) → Memᴰ y (x ∷ xs)
    in_tail (Memᴰ.head e) f = Memᴰ.head e
    in_tail (Memᴰ.tail m) f = Memᴰ.tail (f m)

Memᴰ-entry_or_zero : (xs : List ℤ) (i : ℕ) → i < length xs → Memᴰ (entry_or_zero xs i) xs
unfolding entry_or_zero
Memᴰ-entry_or_zero [] i h = absurd (omega (arith, h))
Memᴰ-entry_or_zero (x ∷ xs) zero h = Memᴰ.head refl
Memᴰ-entry_or_zero (x ∷ xs) (suc i) h = Memᴰ.tail (Memᴰ-entry_or_zero xs i (omega (arith, h)))

All-entry_or_zero :
    (x : ℤ) (xs : List ℤ) (i : ℕ) → All (λ y. x ≤ℤ y) xs → i < length xs → x ≤ℤ entry_or_zero xs i
unfolding entry_or_zero
All-entry_or_zero x [] i a h = absurd (omega (arith, h))
All-entry_or_zero x (y ∷ xs) zero a h = a.0
All-entry_or_zero x (y ∷ xs) (suc i) a h = All-entry_or_zero x xs i a.1 (omega (arith, h))

-- A later entry of a sorted list is no smaller.
entry_or_zero_mono :
    (xs : List ℤ) (i j : ℕ)
    → IsSorted xs
    → i ≤ j
    → j < length xs
    → entry_or_zero xs i ≤ℤ entry_or_zero xs j
unfolding entry_or_zero
entry_or_zero_mono [] i j s le h = absurd (omega (arith, h))
entry_or_zero_mono (x ∷ xs) zero zero s le h = omega arith
entry_or_zero_mono (x ∷ xs) zero (suc j) s le h = All-entry_or_zero x xs j s.0 (omega (arith, h))
entry_or_zero_mono (x ∷ xs) (suc i) zero s le h = absurd (omega (arith, le))
entry_or_zero_mono (x ∷ xs) (suc i) (suc j) s le h =
    entry_or_zero_mono xs i j s.1 (omega (arith, le)) (omega (arith, h))

percentile_index-lt : (n p : ℕ) → 0 < n → percentile_index n p < n
unfolding percentile_index
percentile_index-lt n p h = ground arith

mul_le : (p q n : ℕ) → p ≤ q → p * n ≤ q * n
mul_le p q n h = grind arith

percentile_index_mono : (n p q : ℕ) → p ≤ q → percentile_index n p ≤ percentile_index n q
unfolding percentile_index
percentile_index_mono n p q h =
    let k : (p * n) / 100 ≤ (q * n) / 100 = omega (arith, mul_le p q n h) in ground (arith, k)

-- A percentile of some durations is one of them, and a higher percentile is no smaller.
pub percentile_lem :
    (values : List ℤ) (p q : ℕ)
    → 0 < length values
    → p ≤ q
    → Memᴰ (percentile values p) values × (percentile values p ≤ℤ percentile values q)
unfolding percentile
percentile_lem values p q h le =
    let some_values : nat_beq (length values) 0 ≡ false = ground arith in
    let size = length-sort_ℤ values in
    let in_range : (r : ℕ) → percentile_index (length values) r < length (sort_ℤ values) =
      λ r. omega (arith, percentile_index-lt (length values) r h, size) in
    rw (some_values, percentile)
      (
        Memᴰ-sort_ℤ _ values (Memᴰ-entry_or_zero (sort_ℤ values) _ (in_range p)),
        entry_or_zero_mono (sort_ℤ values) _ _ (sort_ℤ-IsSorted values)
            (percentile_index_mono (length values) p q le) (in_range q),
      )
