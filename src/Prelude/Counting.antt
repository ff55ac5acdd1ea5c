-- ===== src/Prelude/Counting.antt =====
-- How many values of a map pass a test, and what an insertion changes of that, of the keys and of the size.
use Prim.Native.Nat.{ℕ, suc, ◌+◌, ◌≤◌}
use Prim.Native.String.{String}
use mathlib.Core.Path.{◌≡◌, refl, ap}
use mathlib.Core.Bool.{Bool, true, false, ◌&&◌}
use mathlib.Core.Option.{none, some}
use mathlib.Core.List.{List, [], ◌∷◌, ◌++◌, map}
use native.Mathlib.Omega.{arith}
use melange.Prelude.Tests.{if◌then◌else◌, ==_iff, string_eq}
use melange.Prelude.Lists.{count_if, length}
use melange.Prelude.Maps.{Dict, lookup, insert, keys}

abbrev pub one : Bool → ℕ
one true = 1
one false = 0

module _ {ℓ} {V : Type ℓ} where
  -- The values of a map on which a test holds.
  abbrev pub count_values : (V → Bool) → Dict V → ℕ
  count_values f m = count_if (λ e. f e.1) m

  pub count-new :
      (f : V → Bool) (k : String) (v : V) (m : Dict V)
      → lookup k m ≡ none
      → count_values f (insert k v m) ≡ count_values f m + one (f v)
  unfolding count_if insert lookup
  count-new f k v [] h = ground arith
  count-new f k v ((i, w) ∷ m) h = ground (arith, count-new f k v m)

  pub count-old :
      (f : V → Bool) (k : String) (v old : V) (m : Dict V)
      → lookup k m ≡ some old
      → count_values f (insert k v m) + one (f old) ≡ count_values f m + one (f v)
  unfolding count_if insert lookup
  count-old f k v old [] h = ground arith
  count-old f k v old ((i, w) ∷ m) h = ground (arith, count-old f k v old m)

  pub keys-new :
      (k : String) (v : V) (m : Dict V) → lookup k m ≡ none → keys (insert k v m) ≡ keys m ++ k ∷ []
  unfolding insert lookup
  keys-new k v [] h = refl
  keys-new k v ((i, w) ∷ m) h = ground (arith, keys-new k v m)

  pub keys-old :
      (k : String) (v old : V) (m : Dict V) → lookup k m ≡ some old → keys (insert k v m) ≡ keys m
  unfolding insert lookup
  keys-old k v old [] h = ground arith
  keys-old k v old ((i, w) ∷ m) h = ground (arith, keys-old k v old m, ==_iff {A = String} i k)

  pub count-length : (f : V → Bool) (m : Dict V) → count_values f m ≤ length m
  unfolding count_if
  count-length f [] = omega arith
  count-length f ((i, w) ∷ m) = ground (arith, count-length f m)

  pub length-new :
      (k : String) (v : V) (m : Dict V) → lookup k m ≡ none → length (insert k v m) ≡ suc (length m)
  unfolding insert lookup
  length-new k v [] h = refl
  length-new k v ((i, w) ∷ m) h = ground (arith, length-new k v m)

  pub length-old :
      (k : String) (v old : V) (m : Dict V)
      → lookup k m ≡ some old
      → length (insert k v m) ≡ length m
  unfolding insert lookup
  length-old k v old [] h = ground arith
  length-old k v old ((i, w) ∷ m) h = ground (arith, length-old k v old m)

pub count_if-map :
    {A B : Type 0} (f : B → Bool) (g : A → B) (xs : List A)
    → count_if f (map g xs) ≡ count_if (λ x. f (g x)) xs
unfolding count_if
count_if-map f g [] = refl
count_if-map f g (x ∷ xs) = ap (λ n. (if f (g x) then 1 else 0) + n) (count_if-map f g xs)

pub count_if-both :
    {A : Type 0} (f g : A → Bool) (xs : List A) → count_if (λ x. f x && g x) xs ≤ count_if f xs
unfolding count_if
count_if-both f g [] = omega arith
count_if-both f g (x ∷ xs) = ground (arith, count_if-both f g xs)
