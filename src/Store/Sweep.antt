-- ===== src/Store/Sweep.antt =====
-- The two loops of `evictOldBuilds` of pkg/service/store/memory.go, one at a time.
use melange.Prelude.{
  ℕ, ◌≡◌, refl, Bool, false, ◌&&◌, ◌||◌, not, List, [], ◌∷◌, ◌++◌, map, Option, none, some, String,
  arith, if◌then◌else◌, ◌==◌, ==_iff, string_eq, contains, All, Bool-cases, inl, inr,
}
use melange.Prelude.Maps.{Dict, lookup, lookup-delete, DistinctKeys}
use melange.Types.{Build}
use melange.Store.Defs.{
  StoreConfig, Store, is_terminal_status, is_expired, finish_time, drop_build, sweep,
  CompletedBuild,
}

-- The build is finished and has expired; it is finished and has not.
abbrev pub gone : StoreConfig → ℕ → Option Build → Bool
gone config now none = false
gone config now (some b) = is_terminal_status b.status && is_expired config now b

abbrev pub kept : StoreConfig → ℕ → Option Build → Bool
kept config now none = false
kept config now (some b) = is_terminal_status b.status && not (is_expired config now b)

abbrev pub ids : List CompletedBuild → List String
ids = map (λ c. c.id)

pub contains-ids-snoc :
    (cs : List CompletedBuild) (c : CompletedBuild) (id : String)
    → contains (ids (cs ++ c ∷ [])) id ≡ (contains (ids cs) id || (c.id == id))
unfolding contains
contains-ids-snoc [] c id = ground arith
contains-ids-snoc (x ∷ cs) c id = ground (arith, contains-ids-snoc cs c id)

pub drop_build-lookup :
    (s : Store) (k id : String)
    → lookup id (drop_build s k).builds ≡ (if k == id then none else lookup id s.builds)
unfolding drop_build
drop_build-lookup s k id = lookup-delete k id s.builds

pub sweep-lookup :
    (config : StoreConfig) (now : ℕ) (range : Dict Build) (s : Store) (cs : List CompletedBuild)
    (id : String)
    → DistinctKeys range
    → lookup id (sweep config now range (s, cs)).0.builds
      ≡ (if gone config now (lookup id range) then none else lookup id s.builds)
unfolding sweep lookup
sweep-lookup config now [] s cs id d = refl
sweep-lookup config now ((k, b) ∷ range) s cs id d = ground (
  arith,
  sweep-lookup config now range s cs id d.1,
  sweep-lookup config now range (drop_build s k) cs id d.1,
  sweep-lookup config now range s (cs ++ record { id = k; finished_at = finish_time b } ∷ []) id
      d.1,
  drop_build-lookup s k id,
  ==_iff {A = String} k id,
)

pub sweep-collects :
    (config : StoreConfig) (now : ℕ) (range : Dict Build) (s : Store) (cs : List CompletedBuild)
    (id : String)
    → DistinctKeys range
    → contains (ids (sweep config now range (s, cs)).1) id
      ≡ (contains (ids cs) id || kept config now (lookup id range))
unfolding sweep lookup
sweep-collects config now [] s cs id d = ground arith
sweep-collects config now ((k, b) ∷ range) s cs id d = ground (
  arith,
  sweep-collects config now range s cs id d.1,
  sweep-collects config now range (drop_build s k) cs id d.1,
  sweep-collects config now range s (cs ++ record { id = k; finished_at = finish_time b } ∷ []) id
      d.1,
  contains-ids-snoc cs (record { id = k; finished_at = finish_time b }) id,
  ==_iff {A = String} k id,
)

-- What is collected is the time at which the build of that name finished.
abbrev pub Dated : Dict Build → CompletedBuild → Type 0
Dated m c = (b : Build) × (lookup c.id m ≡ some b) × (c.finished_at ≡ finish_time b)

All-snoc :
    (P : CompletedBuild → Type 0) (cs : List CompletedBuild) (c : CompletedBuild)
    → All P cs
    → P c
    → All P (cs ++ c ∷ [])
All-snoc P [] c a h = (h, tt)
All-snoc P (x ∷ cs) c a h = (a.0, All-snoc P cs c a.1 h)

pub sweep-Dated :
    (m : Dict Build) (config : StoreConfig) (now : ℕ) (range : Dict Build) (s : Store)
    (cs : List CompletedBuild)
    → DistinctKeys range
    → ((id : String) (b : Build) → lookup id range ≡ some b → lookup id m ≡ some b)
    → All (Dated m) cs
    → All (Dated m) (sweep config now range (s, cs)).1
unfolding sweep lookup
sweep-Dated m config now [] s cs d h a = a
sweep-Dated m config now ((k, b) ∷ range) s cs d h a =
    let rest : (id : String) (x : Build) → lookup id range ≡ some x → lookup id m ≡ some x =
      λ id x e. ground (arith, h id x, ==_iff {A = String} k id, d.0) in
    let found : lookup k m ≡ some b = ground (arith, h k b, ==_iff {A = String} k k) in
    elim (Bool-cases (is_terminal_status b.status)) [
      | inr active ↦ rw (active, sweep) (sweep-Dated m config now range s cs d.1 rest a)
      | inl finished ↦ elim (Bool-cases (is_expired config now b)) [
        | inl old ↦
            rw (finished, old, sweep)
              (sweep-Dated m config now range (drop_build s k) cs d.1 rest a)
        | inr young ↦
            rw (finished, young, sweep)
              (sweep-Dated m config now range s _ d.1 rest
                (All-snoc (Dated m) cs _ a (b, found, refl)))
      ]
    ]
