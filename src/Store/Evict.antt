-- ===== src/Store/Evict.antt =====
-- What `evictOldBuilds` of pkg/service/store/memory.go keeps and what it drops.
use melange.Prelude.{
  ℕ, zero, suc, ◌+◌, ◌≤◌, ◌≡◌, refl, ◌∙◌, sym, ap, subst, Bool, true, false, ◌&&◌, ◌||◌, List, [],
  ◌∷◌, Option, none, some, String, arith, if◌then◌else◌, ◌==◌, ==_iff, string_eq, contains, length,
  take, drop, length-drop, length-map, All, Option-cases, Bool-cases, inl, inr,
}
use mathlib.Core.List.{Memᴰ}
use melange.Prelude.Int.{ℤ, pos, negsuc, ltb_ℤ, sub_ℕ}
use melange.Prelude.Maps.{Dict, lookup, IsRange}
use melange.Types.{Build, BuildStatus}
use melange.Store.Defs.{
  StoreConfig, Store, is_terminal_status, is_expired, finish_time, sweep, evict_old_builds,
  CompletedBuild, sort_completed, excess,
}
use melange.Store.Sweep.{gone, kept, ids, sweep-lookup, sweep-collects, Dated, sweep-Dated}
use melange.Store.Oldest.{
  Sorted, sort_completed-All, sort_completed-Sorted, contains-sort_completed, length-sort_completed,
  drop_first-lookup, contains-take-drop,
}
use melange.Store.Index.{live}

nothing_collected : (b : Bool) (id : String) → (contains (ids []) id || b) ≡ b
unfolding contains
nothing_collected b id = refl

All-Memᴰ :
    (P : CompletedBuild → Type 0) (cs : List CompletedBuild) (c : CompletedBuild)
    → All P cs
    → Memᴰ c cs
    → P c
All-Memᴰ P [] c a m = elim m [ ]
All-Memᴰ P (x ∷ cs) c a (Memᴰ.head e) = subst P (sym e) a.0
All-Memᴰ P (x ∷ cs) c a (Memᴰ.tail m) = All-Memᴰ P cs c a.1 m

Memᴰ-drop : (n : ℕ) (cs : List CompletedBuild) (c : CompletedBuild) → Memᴰ c (drop n cs) → Memᴰ c cs
Memᴰ-drop zero cs c m = m
Memᴰ-drop (suc n) [] c m = elim m [ ]
Memᴰ-drop (suc n) (x ∷ cs) c m = Memᴰ.tail (Memᴰ-drop n cs c m)

Memᴰ-take : (n : ℕ) (cs : List CompletedBuild) (c : CompletedBuild) → Memᴰ c (take n cs) → Memᴰ c cs
Memᴰ-take zero cs c m = elim m [ ]
Memᴰ-take (suc n) [] c m = elim m [ ]
Memᴰ-take (suc n) (x ∷ cs) c (Memᴰ.head e) = Memᴰ.head e
Memᴰ-take (suc n) (x ∷ cs) c (Memᴰ.tail m) = Memᴰ.tail (Memᴰ-take n cs c m)

-- The entry of a name that is in the list.
entry :
    (cs : List CompletedBuild) (id : String)
    → contains (ids cs) id ≡ true
    → (c : CompletedBuild) × Memᴰ c cs × (c.id ≡ id)
unfolding contains
entry [] id h = absurd (ground arith)
entry (c ∷ cs) id h = elim (Bool-cases (c.id == id)) [
  | inl here ↦ (c, Memᴰ.head refl, (==_iff {A = String} c.id id).0 here)
  | inr there ↦ let (x, m, e) = entry cs id (ground arith) in (x, Memᴰ.tail m, e)
]

-- Every entry in front is at most as late as every entry behind.
All-take-drop :
    (n : ℕ) (cs : List CompletedBuild) (f l : CompletedBuild)
    → Sorted cs
    → Memᴰ f (take n cs)
    → Memᴰ l (drop n cs)
    → f.finished_at ≤ l.finished_at
All-take-drop zero cs f l s m k = elim m [ ]
All-take-drop (suc n) [] f l s m k = elim m [ ]
All-take-drop (suc n) (c ∷ cs) f l s (Memᴰ.head e) k =
    rw e (All-Memᴰ _ cs l s.0 (Memᴰ-drop n cs l k))
All-take-drop (suc n) (c ∷ cs) f l s (Memᴰ.tail m) k = All-take-drop n cs f l s.1 m k

-- A build in one of the states that it does not leave.
abbrev pub is_finished : BuildStatus → Bool
is_finished BuildStatus.pending = false
is_finished BuildStatus.running = false
is_finished BuildStatus.success = true
is_finished BuildStatus.failed = true
is_finished BuildStatus.partial = true

-- When a build ended: the time it finished at, and the time of its creation if there is none.
abbrev pub ended : Build → ℕ
ended b = elim b.finished_at [ none ↦ b.created_at | some t ↦ t ]

-- The time to live of a finished build has not passed; 0 and less stand for no limit.
abbrev pub IsYoung : StoreConfig → ℕ → Build → Type 0
IsYoung config now b = (n : ℕ) → config.build_ttl ≡ pos (suc n) → now ≤ ended b + suc n

is_finished_lem : (status : BuildStatus) → is_terminal_status status ≡ is_finished status
unfolding is_terminal_status
is_finished_lem status = ground arith

finish_time-ended : (b : Build) → finish_time b ≡ ended b
unfolding finish_time
finish_time-ended b = elim (Option-cases b.finished_at) [
  | inl never ↦ rw never refl
  | inr (t, e) ↦ rw e refl
]

not_past :
    (ttl : ℤ) (now t : ℕ)
    → ((n : ℕ) → ttl ≡ pos (suc n) → now ≤ t + suc n)
    → (ltb_ℤ (pos 0) ttl && ltb_ℤ ttl (sub_ℕ now t)) ≡ false
not_past (pos zero) now t h = ground arith
not_past (pos (suc n)) now t h = ground (arith, h n refl)
not_past (negsuc n) now t h = ground arith

IsYoung-is_expired :
    (config : StoreConfig) (now : ℕ) (b : Build)
    → IsYoung config now b
    → is_expired config now b ≡ false
unfolding is_expired
IsYoung-is_expired config now b young =
    not_past config.build_ttl now (finish_time b) (λ n e. rw (finish_time-ended b) (young n e))

module _ (s : Store) (range : Dict Build) (now : ℕ) (r : IsRange s.builds range) where
  abbrev collected : List CompletedBuild
  collected = (sweep s.config now range (s, [])).1

  abbrev spare : ℕ
  spare = excess s.config.max_completed_builds (length collected)

  evict-lookup :
      (id : String)
      → lookup id (evict_old_builds s range now).builds ≡ (
          if contains (ids (take spare (sort_completed collected))) id
          then none
          else if gone s.config now (lookup id s.builds)
          then none
          else lookup id s.builds)
  unfolding evict_old_builds
  evict-lookup id =
      drop_first-lookup spare (sort_completed collected) (sweep s.config now range (s, [])).0 id
      ∙ ap (λ x. if contains (ids (take spare (sort_completed collected))) id then none else x)
          (subst
            (λ (x : Option Build).
              lookup id (sweep s.config now range (s, [])).0.builds
              ≡ (if gone s.config now x then none else lookup id s.builds))
            (r.same id) (sweep-lookup s.config now range s [] id r.distinct))

  collected-contains :
      (id : String)
      → (contains (ids (take spare (sort_completed collected))) id
          || contains (ids (drop spare (sort_completed collected))) id)
        ≡ kept s.config now (lookup id s.builds)
  collected-contains id =
      sym (contains-take-drop spare (sort_completed collected) id)
      ∙ contains-sort_completed collected id
      ∙ sweep-collects s.config now range s [] id r.distinct
      ∙ rw (r.same id) (nothing_collected (kept s.config now (lookup id s.builds)) id)

  -- In every order of the map, a build that is not finished stays as it is.
  pub evict_old_builds-live :
      (id : String)
      → live (lookup id s.builds) ≡ true
      → lookup id (evict_old_builds s range now).builds ≡ lookup id s.builds
  evict_old_builds-live id h = elim (Option-cases (lookup id s.builds)) [
    | inl miss ↦ absurd (ground arith)
    | inr (b, e) ↦ ground (arith, evict-lookup id, collected-contains id, e)
  ]

  -- In every order of the map, a build that stays is one of those before, unchanged, and is not an
  -- expired finished build.
  pub evict_old_builds-stays :
      (id : String) (b : Build)
      → lookup id (evict_old_builds s range now).builds ≡ some b
      → (lookup id s.builds ≡ some b)
        × ((is_terminal_status b.status && is_expired s.config now b) ≡ false)
  evict_old_builds-stays id b h = elim (Option-cases (lookup id s.builds)) [
    | inl miss ↦ absurd (ground (arith, evict-lookup id))
    | inr (b', e) ↦
        let same : b' ≡ b = ground (arith, evict-lookup id, e) in
        (rw e (ap some same), ground (arith, evict-lookup id, e, same))
  ]

  -- A build that stays and is finished is among those that the limit counts.
  stays-collected :
      (id : String) (b : Build)
      → lookup id (evict_old_builds s range now).builds ≡ some b
      → is_finished b.status ≡ true
      → contains (ids (drop spare (sort_completed collected))) id ≡ true
  stays-collected id b stays finished =
      let (before, young) = evict_old_builds-stays id b stays in
      ground (arith, evict-lookup id, collected-contains id, before, is_finished_lem b.status)

  -- In every order of the map, under a limit above 0 at most that many finished builds stay: their
  -- names are in a list that is no longer than the limit.
  pub evict_old_builds-bound :
      (max : ℕ)
      → s.config.max_completed_builds ≡ pos (suc max)
      → (names : List String) × (length names ≤ suc max)
        × ((id : String) (b : Build)
            → lookup id (evict_old_builds s range now).builds ≡ some b
            → is_finished b.status ≡ true
            → contains names id ≡ true)
  unfolding excess
  evict_old_builds-bound max e =
      let cs = drop spare (sort_completed collected) in
      let short : length cs ≤ suc max =
        rw (length-drop spare (sort_completed collected), length-sort_completed collected, e)
          (omega arith) in
      (ids cs, omega (arith, length-map cs (λ c. c.id)), stays-collected)

  -- In every order of the map, a finished build that goes though its time to live has not passed
  -- ended no later than any finished build that stays. A build without a finishing time ended when it
  -- was created.
  pub evict_old_builds-oldest :
      (old new : String) (b b' : Build)
      → lookup old s.builds ≡ some b
      → is_finished b.status ≡ true
      → IsYoung s.config now b
      → lookup old (evict_old_builds s range now).builds ≡ none
      → lookup new (evict_old_builds s range now).builds ≡ some b'
      → is_finished b'.status ≡ true
      → ended b ≤ ended b'
  evict_old_builds-oldest old new b b' e done young out stays finished =
      let sorted = sort_completed collected in
      let k : kept s.config now (some b) ≡ true =
        ground (arith, is_finished_lem b.status, IsYoung-is_expired s.config now b young) in
      let (before, _) = evict_old_builds-stays new b' stays in
      let (f, front, fid) = entry (take spare sorted) old (ground (arith, evict-lookup old, e)) in
      let (l, back, lid) = entry (drop spare sorted) new (stays-collected new b' stays finished) in
      let dated = sort_completed-All (Dated s.builds) collected (
        sweep-Dated s.builds s.config now range s [] r.distinct (λ id x h. rw (r.same id) at h)
          tt) in
      let (fb, ffound, ftime) =
        All-Memᴰ (Dated s.builds) sorted f dated (Memᴰ-take spare sorted f front) in
      let (lb, lfound, ltime) =
        All-Memᴰ (Dated s.builds) sorted l dated (Memᴰ-drop spare sorted l back) in
      let fsame : fb ≡ b = ground arith in
      let lsame : lb ≡ b' = ground arith in
      let order = All-take-drop spare sorted f l (sort_completed-Sorted collected) front back in
      let late : finish_time fb ≤ finish_time lb = rw (← ftime, ← ltime) order in
      subst (λ x. x ≤ ended b') (finish_time-ended b)
        (subst (λ x. finish_time b ≤ x) (finish_time-ended b')
          (subst (λ x. finish_time x ≤ finish_time b') fsame
            (subst (λ x. finish_time fb ≤ finish_time x) lsame late)))
