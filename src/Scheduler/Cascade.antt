-- ===== src/Scheduler/Cascade.antt =====
-- The end of `cascadeFailure` of pkg/service/scheduler/scheduler.go, by the packages that wait.
use melange.Prelude.{
  ℕ, zero, suc, ◌≤◌, ◌<◌, ◌≡◌, refl, ◌∙◌, sym, ap, subst, true, false, ◌&&◌, List, [], ◌∷◌, Option,
  none, some, String, ok, arith, ◌==◌, ==_iff, ==_refl, string_eq, contains, Distinct, All, All-map,
  count_if, Option-cases, Bool-cases, inl, inr,
}
use mathlib.Core.List.{Memᴰ}
use Prim.Native.String.{◌++◌ as ◌<>◌}
use melange.Prelude.Maps.{lookup, insert, lookup-insert}
use melange.Types.{Build, PackageJob, PackageStatus, status_eq}
use melange.Store.{Store, get_build, update_package_job, package_names, replace_package}
use melange.Scheduler.Defs.{is_waiting, depends_on, or_keep, cascade_from, cascade_failure}

abbrev pub waiting : List PackageJob → ℕ
waiting ps = count_if (λ p. is_waiting p.status) ps

-- The packages of a build.
abbrev pub jobs : Store → String → List PackageJob
jobs s id = elim (lookup id s.builds) [ none ↦ [] | some b ↦ b.packages ]

-- The same names, where fewer packages wait.
unfoldable pub Below : List PackageJob → List PackageJob → Type 0
Below [] [] = Unit {0}
Below [] (p ∷ ps) = ⊥
Below (q ∷ qs) [] = ⊥
Below (q ∷ qs) (p ∷ ps) =
    (q.name ≡ p.name) × (is_waiting q.status ≡ true → is_waiting p.status ≡ true) × Below qs ps

pub Below-refl : (ps : List PackageJob) → Below ps ps
unfolding Below
Below-refl [] = tt
Below-refl (p ∷ ps) = (refl, λ h. h, Below-refl ps)

pub Below-trans : (rs qs ps : List PackageJob) → Below rs qs → Below qs ps → Below rs ps
unfolding Below
Below-trans [] [] [] a b = tt
Below-trans [] [] (p ∷ ps) a b = b
Below-trans [] (q ∷ qs) ps a b = absurd a
Below-trans (r ∷ rs) [] ps a b = absurd a
Below-trans (r ∷ rs) (q ∷ qs) [] a b = b
Below-trans (r ∷ rs) (q ∷ qs) (p ∷ ps) (e, f, a) (e', g, b) =
    (e ∙ e', λ h. g (f h), Below-trans rs qs ps a b)

Below-waiting : (qs ps : List PackageJob) → Below qs ps → waiting qs ≤ waiting ps
unfolding Below count_if
Below-waiting [] [] b = omega arith
Below-waiting [] (p ∷ ps) b = absurd b
Below-waiting (q ∷ qs) [] b = absurd b
Below-waiting (q ∷ qs) (p ∷ ps) (e, f, b) = ground (arith, f, Below-waiting qs ps b)

pub Below-names : (qs ps : List PackageJob) → Below qs ps → package_names qs ≡ package_names ps
unfolding Below
Below-names [] [] b = refl
Below-names [] (p ∷ ps) b = absurd b
Below-names (q ∷ qs) [] b = absurd b
Below-names (q ∷ qs) (p ∷ ps) (e, f, b) = cc (e, Below-names qs ps b)

pub contains-member :
    (p : PackageJob) (ps : List PackageJob) → Memᴰ p ps → contains (package_names ps) p.name ≡ true
unfolding contains
contains-member p [] m = elim m [ ]
contains-member p (x ∷ ps) (Memᴰ.head e) = rw e (ground (arith, ==_refl {A = String} x.name))
contains-member p (x ∷ ps) (Memᴰ.tail m) = ground (arith, contains-member p ps m)

-- The skip of a package that waited at first leaves fewer packages waiting than there were.
pub replace-Below :
    (p q : PackageJob) (qs ps : List PackageJob)
    → Distinct (package_names ps)
    → Memᴰ p ps
    → is_waiting p.status ≡ true
    → q.name ≡ p.name
    → is_waiting q.status ≡ false
    → Below qs ps
    → (rs : List PackageJob) × (replace_package q qs ≡ some rs)
      × Below rs ps
      × (suc (waiting rs) ≤ waiting ps)
unfolding Below replace_package contains count_if
replace-Below p q qs [] d m w e h b = elim m [ ]
replace-Below p q [] (x ∷ ps) d m w e h b = absurd b
replace-Below p q (y ∷ qs) (x ∷ ps) d (Memᴰ.head same) w e h (n, f, b) =
    let hit : (y.name == q.name) ≡ true =
      (==_iff {A = String} y.name q.name).1 (n ∙ ap (λ z. z.name) (sym same) ∙ sym e) in
    let waits : is_waiting x.status ≡ true = subst (λ z. is_waiting z.status ≡ true) same w in
    (
      q ∷ qs,
      rw hit refl,
      (e ∙ ap (λ z. z.name) same, λ g. waits, b),
      ground (arith, Below-waiting qs ps b),
    )
replace-Below p q (y ∷ qs) (x ∷ ps) d (Memᴰ.tail m) w e h (n, f, b) =
    let miss : (y.name == q.name) ≡ false =
      ground (arith, contains-member p ps m, d.0, ==_iff {A = String} y.name q.name) in
    let (rs, found, below, less) = replace-Below p q qs ps d.1 m w e h b in
    (y ∷ rs, rw (miss, found) refl, (n, f, below), ground arith)

pub jobs_of :
    (s : Store) (id : String) (b : Build) → lookup id s.builds ≡ some b → jobs s id ≡ b.packages
jobs_of s id b e = rw (e, jobs) refl

pub jobs-update :
    (s : Store) (id : String) (q : PackageJob) (build : Build) (rs : List PackageJob)
    → lookup id s.builds ≡ some build
    → replace_package q build.packages ≡ some rs
    → jobs (or_keep s (update_package_job s id q)) id ≡ rs
unfolding update_package_job
jobs-update s id q build rs there found =
    let new = record build { packages = rs } in
    let put : update_package_job s id q ≡ ok (record s { builds = insert id new s.builds }) =
      rw (there, update_package_job) (rw found refl) in
    let t = record s { builds = insert id new s.builds } in
    ap (λ r. jobs (or_keep s r) id) put
    ∙ jobs_of t id new (rw (lookup-insert id id new s.builds, ==_refl {A = String} id) refl)

-- The same of the store.
pub update-Below :
    (s : Store) (id : String) (p q : PackageJob) (ps : List PackageJob)
    → Distinct (package_names ps)
    → Memᴰ p ps
    → is_waiting p.status ≡ true
    → q.name ≡ p.name
    → is_waiting q.status ≡ false
    → Below (jobs s id) ps
    → Below (jobs (or_keep s (update_package_job s id q)) id) ps
      × (suc (waiting (jobs (or_keep s (update_package_job s id q)) id)) ≤ waiting ps)
unfolding update_package_job
update-Below s id p q ps d m w e h b =
    let (rs, found, below, less) = replace-Below p q (jobs s id) ps d m w e h b in
    elim (Option-cases (lookup id s.builds)) [
      | inl miss ↦ absurd (ground (arith, no_jobs q))
      | inr (build, there) ↦
          let same : jobs s id ≡ build.packages = jobs_of s id build there in
          let now : jobs (or_keep s (update_package_job s id q)) id ≡ rs =
            jobs-update s id q build rs there (rw (← same) found) in
          (subst (λ z. Below z ps) (sym now) below, rw now less)
    ]
  where
    no_jobs : (q : PackageJob) → replace_package q [] ≡ none
    no_jobs q = refl

-- What a call returns.
abbrev pub Returns : Option Store → String → List PackageJob → Type 0
Returns o id ps = (t : Store) × (o ≡ some t) × Below (jobs t id) ps

module _ (fuel : ℕ) (id : String) (rec : Store → String → Option Store) (in_build : List String)
    (failed : String) (all : List PackageJob) (d : Distinct (package_names all))
    (rec_returns : (s : Store) (name : String)
      → Distinct (package_names (jobs s id))
      → waiting (jobs s id) < fuel
      → Returns (rec s name) id (jobs s id))
    (enough : waiting all ≤ fuel) where
  cascade_from-Returns :
      (ps : List PackageJob) (s : Store)
      → All (λ p. Memᴰ p all) ps
      → Below (jobs s id) all
      → Returns (cascade_from rec in_build id failed ps s) id all
  unfolding cascade_from
  cascade_from-Returns [] s m b = (s, refl, b)
  cascade_from-Returns (p ∷ ps) s m b =
      elim (Bool-cases (is_waiting p.status && depends_on in_build failed p.dependencies)) [
        | inr passed ↦
            let (t, e, below) = cascade_from-Returns ps s m.1 b in (t, rw passed e, below)
        | inl hit ↦
            let q : PackageJob = record p {
              status = PackageStatus.skipped;
              error = ("dependency " <> failed) <> " failed";
            } in
            let s1 = or_keep s (update_package_job s id q) in
            let (b1, less) =
              update-Below s id p q all d m.0 (ground arith) refl skipped_waits_not b in
            let d1 : Distinct (package_names (jobs s1 id)) =
              subst Distinct (sym (Below-names (jobs s1 id) all b1)) d in
            let (t, e, below) = rec_returns s1 p.name d1 (omega (arith, less, enough)) in
            let (u, f, last) =
              cascade_from-Returns ps t m.1 (Below-trans (jobs t id) (jobs s1 id) all below b1) in
            (u, rw (hit, e) f, last)
      ]
    where
      skipped_waits_not : is_waiting PackageStatus.skipped ≡ false
      skipped_waits_not = refl

pub All-members : (ps : List PackageJob) → All (λ p. Memᴰ p ps) ps
All-members [] = tt
All-members (p ∷ ps) = (Memᴰ.head refl, All-map _ _ ps (λ x m. Memᴰ.tail m) (All-members ps))

-- With more fuel than there are waiting packages, on packages with different names, the cascade
-- returns a store, in which the build has packages of the same names and none waits that did not.
pub cascade_failure-Returns :
    (fuel : ℕ) (s : Store) (id failed : String)
    → Distinct (package_names (jobs s id))
    → waiting (jobs s id) < fuel
    → Returns (cascade_failure fuel s id failed) id (jobs s id)
unfolding cascade_failure get_build
cascade_failure-Returns zero s id failed d h = absurd (omega (arith, h))
cascade_failure-Returns (suc fuel) s id failed d h = elim (Option-cases (lookup id s.builds)) [
  | inl miss ↦ (s, rw (miss, get_build, cascade_failure) refl, Below-refl (jobs s id))
  | inr (b, e) ↦
      let same : jobs s id ≡ b.packages = jobs_of s id b e in
      let got : get_build s id ≡ ok b = rw (e, get_build) refl in
      let (t, f, below) =
        cascade_from-Returns fuel id (λ u name. cascade_failure fuel u id name)
          (package_names b.packages) failed b.packages
          (subst (λ z. Distinct (package_names z)) same d)
          (λ u name. cascade_failure-Returns fuel u id name)
          (subst (λ z. waiting z ≤ fuel) same (omega (arith, h))) b.packages s
          (All-members b.packages)
          (subst (λ z. Below z b.packages) (sym same) (Below-refl b.packages)) in
      (t, rw (got, cascade_failure) f, subst (Below (jobs t id)) (sym same) below)
]
