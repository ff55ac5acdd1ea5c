-- ===== src/Store/Index.antt =====
-- The index of the builds that are not finished in pkg/service/store/memory.go.
use melange.Prelude.{
  ℕ, zero, suc, ◌≡◌, refl, subst, Bool, true, false, ◌&&◌, ◌||◌, not, List, [], ◌∷◌, map, Option,
  none, some, String, ok, arith, if◌then◌else◌, ◌==◌, ==_iff, ==_refl, string_eq, contains, length,
  Option-cases, Bool-cases, inl, inr,
}
use melange.Prelude.Maps.{
  Dict, lookup, insert, delete, has_key, lookup-insert, lookup-delete, DistinctKeys, IsRange,
  insert-DistinctKeys, delete-DistinctKeys,
}
use melange.Types.{Node, Build, BuildSpec, PackageJob}
use melange.Store.Defs.{
  StoreConfig, Store, is_terminal_status, new_memory_build_store, create_build, update_build,
  list_active_builds, indexed, sort_by_created, insert_by_created, claim_ready_package,
  update_package_job, claim_packages, replace_package, drop_build, sweep, drop_first,
  evict_old_builds, is_expired, CompletedBuild, sort_completed, excess,
}

-- A build is there and is not finished.
abbrev pub live : Option Build → Bool
live none = false
live (some b) = not (is_terminal_status b.status)

pub record IsIndexed (s : Store) : Type 0 where
  pub named : (id : String) (b : Build) → lookup id s.builds ≡ some b → b.id ≡ id
  pub exact : (id : String) → has_key s.active_builds id ≡ live (lookup id s.builds)
  pub distinct : DistinctKeys s.builds
  pub distinct_index : DistinctKeys s.active_builds

pub new_memory_build_store-IsIndexed :
    (config : StoreConfig) → IsIndexed (new_memory_build_store config)
unfolding new_memory_build_store lookup
new_memory_build_store-IsIndexed config = record {
  named = λ id b e. absurd (ground arith);
  exact = λ id. refl;
  distinct = tt;
  distinct_index = tt;
}

pub create_build-IsIndexed :
    (s : Store) (id : String) (now : ℕ) (packages : List Node) (spec : BuildSpec)
    → IsIndexed s
    → IsIndexed (create_build s id now packages spec).1
unfolding create_build is_terminal_status
create_build-IsIndexed s id now packages spec v =
    let b = (create_build s id now packages spec).0 in
    record {
      named = λ j x e.
          ground (arith, lookup-insert id j b s.builds, v.named j x, ==_iff {A = String} id j);
      exact = λ j.
          ground (
            arith,
            lookup-insert id j b s.builds,
            lookup-insert id j tt s.active_builds,
            v.exact j,
          );
      distinct = insert-DistinctKeys id b s.builds v.distinct;
      distinct_index = insert-DistinctKeys id tt s.active_builds v.distinct_index;
    }

-- The write of a build under its own identifier keeps the index, where it keeps the status or
-- finishes the build.
put-IsIndexed :
    (s : Store) (id : String) (old new : Build)
    → lookup id s.builds ≡ some old
    → new.id ≡ id
    → is_terminal_status new.status ≡ is_terminal_status old.status
    → IsIndexed s
    → IsIndexed (record s { builds = insert id new s.builds })
put-IsIndexed s id old new e name same v = record {
  named = λ j x q.
      ground (arith, lookup-insert id j new s.builds, v.named j x, ==_iff {A = String} id j);
  exact = λ j. ground (arith, lookup-insert id j new s.builds, v.exact j, ==_iff {A = String} id j);
  distinct = insert-DistinctKeys id new s.builds v.distinct;
  distinct_index = v.distinct_index;
}

-- `UpdateBuild` of a build in the store keeps the index exact unless it takes a finished build back to
-- an unfinished status.
pub update_build-IsIndexed :
    (s t : Store) (old new : Build)
    → IsIndexed s
    → lookup new.id s.builds ≡ some old
    → (is_terminal_status old.status && not (is_terminal_status new.status)) ≡ false
    → update_build s new ≡ ok t
    → IsIndexed t
unfolding update_build
update_build-IsIndexed s t old new v e forward q =
    let same : record s {
      builds = insert new.id new s.builds;
      active_builds =
          if is_terminal_status new.status then delete new.id s.active_builds else s.active_builds;
    }
        ≡ t =
      ground arith in
    subst IsIndexed same (record {
      named = λ j x h.
          ground
            (arith, lookup-insert new.id j new s.builds, v.named j x, ==_iff {A = String} new.id j);
      exact = λ j. ground (
        arith,
        lookup-insert new.id j new s.builds,
        lookup-delete new.id j s.active_builds,
        v.exact j,
        ==_iff {A = String} new.id j,
      );
      distinct = insert-DistinctKeys new.id new s.builds v.distinct;
      distinct_index =
          ground
            (arith, delete-DistinctKeys new.id s.active_builds v.distinct_index, v.distinct_index);
    })

-- With an exact index, a finished build that `UpdateBuild` takes back to an unfinished status is missing from the index.
pub update_build_revives :
    (s t : Store) (old new : Build)
    → IsIndexed s
    → lookup new.id s.builds ≡ some old
    → is_terminal_status old.status ≡ true
    → is_terminal_status new.status ≡ false
    → update_build s new ≡ ok t
    → (live (lookup new.id t.builds) ≡ true) × (has_key t.active_builds new.id ≡ false)
unfolding update_build
update_build_revives s t old new v e was is q =
    ground
      (arith, lookup-insert new.id new.id new s.builds, v.exact new.id, ==_refl {A = String} new.id)

pub update_package_job-IsIndexed :
    (s t : Store) (id : String) (p : PackageJob)
    → IsIndexed s
    → update_package_job s id p ≡ ok t
    → IsIndexed t
unfolding update_package_job
update_package_job-IsIndexed s t id p v e = elim (Option-cases (lookup id s.builds)) [
  | inl miss ↦ absurd (ground arith)
  | inr (b, found) ↦ elim (Option-cases (replace_package p b.packages)) [
    | inl none_such ↦ absurd (ground arith)
    | inr (ps, done) ↦
        let new = record b { packages = ps } in
        let same : record s { builds = insert id new s.builds } ≡ t = ground arith in
        subst IsIndexed same (put-IsIndexed s id b new found (v.named id b found) refl v)
  ]
]

pub claim_ready_package-IsIndexed :
    (s t : Store) (id : String) (now : ℕ) (r : Option PackageJob)
    → IsIndexed s
    → claim_ready_package s id now ≡ ok (r, t)
    → IsIndexed t
unfolding claim_ready_package
claim_ready_package-IsIndexed s t id now r v e = elim (Option-cases (lookup id s.builds)) [
  | inl miss ↦ absurd (ground arith)
  | inr (b, found) ↦ elim (Option-cases (claim_packages now b.packages)) [
    | inl nothing ↦ let same : s ≡ t = ground arith in subst IsIndexed same v
    | inr ((p, ps), got) ↦
        let new = record b { packages = ps } in
        let same : record s { builds = insert id new s.builds } ≡ t = ground arith in
        subst IsIndexed same (put-IsIndexed s id b new found (v.named id b found) refl v)
  ]
]

pub drop_build-IsIndexed : (s : Store) (id : String) → IsIndexed s → IsIndexed (drop_build s id)
unfolding drop_build
drop_build-IsIndexed s id v = record {
  named = λ j x e. ground (arith, lookup-delete id j s.builds, v.named j x);
  exact = λ j.
      ground (arith, lookup-delete id j s.builds, lookup-delete id j s.active_builds, v.exact j);
  distinct = delete-DistinctKeys id s.builds v.distinct;
  distinct_index = delete-DistinctKeys id s.active_builds v.distinct_index;
}

drop_first-IsIndexed :
    (n : ℕ) (cs : List CompletedBuild) (s : Store) → IsIndexed s → IsIndexed (drop_first n cs s)
unfolding drop_first
drop_first-IsIndexed zero cs s v = v
drop_first-IsIndexed (suc n) [] s v = v
drop_first-IsIndexed (suc n) (c ∷ cs) s v =
    drop_first-IsIndexed n cs (drop_build s c.id) (drop_build-IsIndexed s c.id v)

sweep-IsIndexed :
    (config : StoreConfig) (now : ℕ) (range : Dict Build) (s : Store) (cs : List CompletedBuild)
    → IsIndexed s
    → IsIndexed (sweep config now range (s, cs)).0
unfolding sweep
sweep-IsIndexed config now [] s cs v = v
sweep-IsIndexed config now ((id, b) ∷ range) s cs v =
    elim (Bool-cases (is_terminal_status b.status)) [
      | inr active ↦ rw (active, sweep) (sweep-IsIndexed config now range s cs v)
      | inl finished ↦ elim (Bool-cases (is_expired config now b)) [
        | inl old ↦
            rw (finished, old, sweep)
              (sweep-IsIndexed config now range (drop_build s id) cs (drop_build-IsIndexed s id v))
        | inr young ↦ rw (finished, young, sweep) (sweep-IsIndexed config now range s _ v)
      ]
    ]

-- An eviction keeps the index exact.
pub evict_old_builds-IsIndexed :
    (s : Store) (range : Dict Build) (now : ℕ)
    → IsIndexed s
    → IsIndexed (evict_old_builds s range now)
unfolding evict_old_builds
evict_old_builds-IsIndexed s range now v =
    let (swept, cs) = sweep s.config now range (s, []) in
    drop_first-IsIndexed (excess s.config.max_completed_builds (length cs)) (sort_completed cs)
      swept (sweep-IsIndexed s.config now range s [] v)

contains-insert_by_created :
    (b : Build) (xs : List Build) (id : String)
    → contains (map (λ x. x.id) (insert_by_created b xs)) id
      ≡ (b.id == id || contains (map (λ x. x.id) xs) id)
unfolding insert_by_created contains
contains-insert_by_created b [] id = refl
contains-insert_by_created b (x ∷ xs) id = ground (arith, contains-insert_by_created b xs id)

contains-sort_by_created :
    (xs : List Build) (id : String)
    → contains (map (λ x. x.id) (sort_by_created xs)) id ≡ contains (map (λ x. x.id) xs) id
unfolding sort_by_created contains
contains-sort_by_created [] id = refl
contains-sort_by_created (x ∷ xs) id =
    ground
      (arith, contains-insert_by_created x (sort_by_created xs) id, contains-sort_by_created xs id)

contains-indexed :
    (builds : Dict Build) (range : Dict (Unit {0})) (id : String)
    → ((j : String) (b : Build) → lookup j builds ≡ some b → b.id ≡ j)
    → contains (map (λ x. x.id) (indexed builds range)) id ≡ (has_key range id && has_key builds id)
unfolding indexed contains lookup
contains-indexed builds [] id named = refl
contains-indexed builds ((j, u) ∷ range) id named = elim (Option-cases (lookup j builds)) [
  | inl miss ↦
      ground (arith, contains-indexed builds range id named, miss, ==_iff {A = String} j id)
  | inr (b, e) ↦ ground (
    arith,
    contains-indexed builds range id named,
    e,
    named j b e,
    ==_iff {A = String} j id,
    ==_iff {A = String} b.id id,
  )
]

-- With an exact index, `ListActiveBuilds` returns, in every order of the index, exactly the builds
-- that are not finished.
pub list_active_builds_iff :
    (s : Store) (range : Dict (Unit {0})) (id : String)
    → IsIndexed s
    → IsRange s.active_builds range
    → contains (map (λ x. x.id) (list_active_builds s range)) id ≡ live (lookup id s.builds)
unfolding list_active_builds
list_active_builds_iff s range id v r = ground (
  arith,
  contains-sort_by_created (indexed s.builds range) id,
  contains-indexed s.builds range id v.named,
  r.same id,
  v.exact id,
)
