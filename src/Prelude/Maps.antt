-- ===== src/Prelude/Maps.antt =====
-- A Go map with text keys, as an association list: the order of the list is one order in which a
-- `range` statement may visit it.
use melange.Prelude.Tests.{◌==◌, if◌then◌else◌, ==_iff, string_eq, Bool-cases}
use Prim.Native.String.{String}
use mathlib.Core.Path.{◌≡◌, refl, subst}
use mathlib.Core.Bool.{Bool, true, false}
use mathlib.Core.Logic.{inl, inr}
use mathlib.Core.Option.{Option, none, some}
use mathlib.Core.List.{List, [], ◌∷◌, map}
use native.Mathlib.Omega.{arith}
use melange.Prelude.Lists.{contains, Distinct}

abbrev pub Dict {ℓ} : Type ℓ → Type ℓ
Dict V = List (String × V)

module _ {ℓ} {V : Type ℓ} where
  unfoldable pub lookup : String → Dict V → Option V
  lookup key [] = none
  lookup key ((x, value) ∷ rest) = if x == key then some value else lookup key rest

  unfoldable pub insert : String → V → Dict V → Dict V
  insert key new [] = (key, new) ∷ []
  insert key new ((x, old) ∷ rest) =
      if x == key then (key, new) ∷ rest else (x, old) ∷ insert key new rest

  unfoldable pub delete : String → Dict V → Dict V
  delete k [] = []
  delete k ((j, w) ∷ m) = if j == k then delete k m else (j, w) ∷ delete k m

  pub lookup-insert :
      (a b : String) (new : V) (m : Dict V)
      → lookup b (insert a new m) ≡ (if a == b then some new else lookup b m)
  unfolding insert lookup
  lookup-insert a b new [] = refl
  lookup-insert a b new ((x, old) ∷ m) = ground (
    arith,
    lookup-insert a b new m,
    ==_iff {A = String} x a,
    ==_iff {A = String} x b,
    ==_iff {A = String} a b,
  )

  pub lookup-delete :
      (k j : String) (m : Dict V) → lookup j (delete k m) ≡ (if k == j then none else lookup j m)
  unfolding lookup delete
  lookup-delete k j [] = ground arith
  lookup-delete k j ((i, w) ∷ m) = ground (
    arith,
    ==_iff {A = String} k j,
    ==_iff {A = String} i k,
    ==_iff {A = String} i j,
    lookup-delete k j m,
  )

  abbrev pub has_key : Dict V → String → Bool
  has_key m k = elim (lookup k m) [ none ↦ false | some _ ↦ true ]

  abbrev pub keys : Dict V → List String
  keys = map (λ e. e.0)

  -- A map holds each key once.
  abbrev pub DistinctKeys : Dict V → Type ℓ
  DistinctKeys [] = Unit
  DistinctKeys ((k, v) ∷ m) = (lookup k m ≡ none) × DistinctKeys m

  -- One order in which `range` may visit the map `m`: the same entries, each once.
  pub record IsRange (m l : Dict V) : Type ℓ where
    pub distinct : DistinctKeys l
    pub same : (k : String) → lookup k l ≡ lookup k m

  pub insert-DistinctKeys :
      (k : String) (v : V) (m : Dict V) → DistinctKeys m → DistinctKeys (insert k v m)
  unfolding insert lookup
  insert-DistinctKeys k v [] d = (refl, tt)
  insert-DistinctKeys k v ((i, w) ∷ m) d = elim (Bool-cases (i == k)) [
    | inl here ↦
        rw (here, insert)
          (subst (λ j. lookup j m ≡ none) ((==_iff {A = String} i k).0 here) d.0, d.1)
    | inr there ↦
        rw (there, insert)
          (
            rw (lookup-insert k i v m)
                (ground (arith, ==_iff {A = String} k i, ==_iff {A = String} i k)),
            insert-DistinctKeys k v m d.1,
          )
  ]

  pub delete-DistinctKeys : (k : String) (m : Dict V) → DistinctKeys m → DistinctKeys (delete k m)
  unfolding delete
  delete-DistinctKeys k [] d = tt
  delete-DistinctKeys k ((i, w) ∷ m) d =
      ground (arith, lookup-delete k i m, delete-DistinctKeys k m d.1)

  -- The loop that enters the entries of a map into another map.
  unfoldable pub overlay : Dict V → Dict V → Dict V
  unfolding insert
  overlay m [] = m
  overlay m ((k, v) ∷ new) = overlay (insert k v m) new

  -- The value of the upper map, if there is one, and otherwise the value below it.
  abbrev pub or_below : Option V → Option V → Option V
  or_below none below = below
  or_below (some v) below = some v

  pub lookup-overlay :
      (k : String) (m new : Dict V)
      → DistinctKeys new
      → lookup k (overlay m new) ≡ or_below (lookup k new) (lookup k m)
  unfolding overlay lookup
  lookup-overlay k m [] d = refl
  lookup-overlay k m ((i, v) ∷ new) d = ground (
    arith,
    d,
    lookup-overlay k (insert i v m) new,
    lookup-insert i k v m,
    ==_iff {A = String} i k,
  )

  pub overlay-DistinctKeys : (m new : Dict V) → DistinctKeys m → DistinctKeys (overlay m new)
  unfolding overlay
  overlay-DistinctKeys m [] d = d
  overlay-DistinctKeys m ((k, v) ∷ new) d =
      overlay-DistinctKeys (insert k v m) new (insert-DistinctKeys k v m d)

  pub contains-keys : (m : Dict V) (k : String) → contains (keys m) k ≡ has_key m k
  unfolding contains lookup
  contains-keys [] k = refl
  contains-keys ((i, w) ∷ m) k = ground (arith, contains-keys m k)

  pub keys-Distinct : (m : Dict V) → DistinctKeys m → Distinct (keys m)
  unfolding lookup
  keys-Distinct [] d = tt
  keys-Distinct ((i, w) ∷ m) d = (ground (arith, contains-keys m i, d.0), keys-Distinct m d.1)
