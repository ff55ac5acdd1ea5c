-- ===== src/Scheduler/Skipped.antt =====
-- What `cascadeFailure` of pkg/service/scheduler/scheduler.go skips.
use melange.Prelude.{
  ℕ, zero, suc, ◌≤◌, ◌<◌, ◌≡◌, refl, ◌∙◌, sym, subst, true, false, List, [], ◌∷◌, Option, some,
  String, ok, arith, ◌==◌, ==_iff, string_eq, contains, Distinct, All, Option-cases, Bool-cases,
  inl, inr,
}
use mathlib.Core.List.{Memᴰ}
use Prim.Native.String.{◌++◌ as ◌<>◌}
use melange.Prelude.Maps.{lookup}
use melange.Types.{PackageJob, PackageStatus, status_eq}
use melange.Store.{Store, get_build, update_package_job, package_names}
use melange.Scheduler.Defs.{is_waiting, depends_on, or_keep, cascade_from, cascade_failure}
use melange.Scheduler.Cascade.{
  waiting, jobs, jobs_of, Below, Below-refl, Below-trans, Below-names, update-Below, Returns,
  All-members, contains-member, cascade_failure-Returns,
}
use melange.Scheduler.Waits.{
  IsSettled, IsSettled-member, waits, Below-waits, waits-member, update-waits, update-keeps,
}

-- The dependents of `failed` among the given packages do not wait.
abbrev Skipped : List String → String → Store → String → List PackageJob → Type 0
Skipped in_build failed t id ps =
    All (λ p. depends_on in_build failed p.dependencies ≡ true → waits (jobs t id) p.name ≡ false)
      ps

module _ (fuel : ℕ) (id : String) (rec : Store → String → Option Store) (in_build : List String)
    (failed : String) (all : List PackageJob) (d : Distinct (package_names all))
    (rec_returns : (s : Store) (name : String)
      → Distinct (package_names (jobs s id))
      → waiting (jobs s id) < fuel
      → Returns (rec s name) id (jobs s id))
    (enough : waiting all ≤ fuel) where
  cascade_from-Skipped :
      (ps : List PackageJob) (s : Store)
      → All (λ p. Memᴰ p all) ps
      → Below (jobs s id) all
      → (t : Store) × (cascade_from rec in_build id failed ps s ≡ some t)
        × ((k : String) → waits (jobs s id) k ≡ false → waits (jobs t id) k ≡ false)
        × Skipped in_build failed t id ps
  unfolding cascade_from
  cascade_from-Skipped [] s m b = (s, refl, λ k h. h, tt)
  cascade_from-Skipped (p ∷ ps) s m b = elim (Bool-cases (is_waiting p.status)) [
    | inr idle ↦
        let (t, e, below, rest) = cascade_from-Skipped ps s m.1 b in
        let stays : waits (jobs s id) p.name ≡ false =
          Below-waits (jobs s id) all p.name b (waits-member p all d m.0 ∙ idle) in
        (t, rw (idle, cascade_from) e, below, (λ _. below p.name stays, rest))
    | inl waits_now ↦ elim (Bool-cases (depends_on in_build failed p.dependencies)) [
      | inr passed ↦
          let (t, e, below, rest) = cascade_from-Skipped ps s m.1 b in
          (t, rw (waits_now, passed, cascade_from) e, below, (λ h. absurd (ground arith), rest))
      | inl hit ↦
          let q : PackageJob = record p {
            status = PackageStatus.skipped;
            error = ("dependency " <> failed) <> " failed";
          } in
          let s1 = or_keep s (update_package_job s id q) in
          let (b1, less) = update-Below s id p q all d m.0 waits_now refl skipped_waits_not b in
          let out = update-waits s id p q all d m.0 waits_now refl skipped_waits_not b in
          let d1 : Distinct (package_names (jobs s1 id)) =
            subst Distinct (sym (Below-names (jobs s1 id) all b1)) d in
          let (t, e, below) = rec_returns s1 p.name d1 (omega (arith, less, enough)) in
          let (u, f, last, rest) =
            cascade_from-Skipped ps t m.1 (Below-trans (jobs t id) (jobs s1 id) all below b1) in
          let after : (k : String) → waits (jobs s1 id) k ≡ false → waits (jobs u id) k ≡ false =
            λ k z. last k (Below-waits (jobs t id) (jobs s1 id) k below z) in
          (
            u,
            rw (waits_now, hit, e, cascade_from) f,
            λ k z. after k (update-keeps s id p q all d m.0 waits_now refl skipped_waits_not b k z),
            (λ _. after p.name out, rest),
          )
    ]
  ]
    where
      skipped_waits_not : is_waiting PackageStatus.skipped ≡ false
      skipped_waits_not = refl

-- The cascade returns a store in which the dependents of `failed` do not wait.
cascade_failure-waits :
    (fuel : ℕ) (s : Store) (id failed : String)
    → Distinct (package_names (jobs s id))
    → waiting (jobs s id) < fuel
    → (t : Store) × (cascade_failure fuel s id failed ≡ some t)
      × Skipped (package_names (jobs s id)) failed t id (jobs s id)
unfolding cascade_failure get_build
cascade_failure-waits zero s id failed d h = absurd (omega (arith, h))
cascade_failure-waits (suc fuel) s id failed d h = elim (Option-cases (lookup id s.builds)) [
  | inl miss ↦ (s, rw (miss, get_build, cascade_failure) refl, rw (miss, jobs) tt)
  | inr (b, e) ↦
      let same = jobs_of s id b e in
      let got : get_build s id ≡ ok b = rw (e, get_build) refl in
      let (t, f, below, out) =
        cascade_from-Skipped fuel id (λ u name. cascade_failure fuel u id name)
          (package_names b.packages) failed b.packages
          (subst (λ z. Distinct (package_names z)) same d)
          (λ u name. cascade_failure-Returns fuel u id name)
          (subst (λ z. waiting z ≤ fuel) same (omega (arith, h))) b.packages s
          (All-members b.packages)
          (subst (λ z. Below z b.packages) (sym same) (Below-refl b.packages)) in
      (
        t,
        rw (got, cascade_failure) f,
        subst (λ z. Skipped (package_names z) failed t id z) (sym same) out,
      )
]

All-member :
    (P : PackageJob → Type 0) (ps : List PackageJob) (p : PackageJob) → All P ps → Memᴰ p ps → P p
All-member P [] p a m = elim m [ ]
All-member P (x ∷ ps) p a (Memᴰ.head e) = subst P (sym e) a.0
All-member P (x ∷ ps) p a (Memᴰ.tail m) = All-member P ps p a.1 m

depends_on-contains :
    (in_build deps : List String) (failed : String)
    → contains in_build failed ≡ true
    → contains deps failed ≡ true
    → depends_on in_build failed deps ≡ true
unfolding depends_on contains
depends_on-contains in_build [] failed known h = absurd (ground arith)
depends_on-contains in_build (dep ∷ deps) failed known h = elim (Bool-cases (dep == failed)) [
  | inl here ↦
      let same : dep ≡ failed = (==_iff {A = String} dep failed).0 here in
      let inside : contains in_build dep ≡ true = rw same known in
      rw (inside, here, depends_on) refl
  | inr there ↦ ground (arith, depends_on-contains in_build deps failed known)
]

-- With more fuel than there are waiting packages, on packages with different names, the cascade
-- returns a store in which each package of the build that names the failed one, a package of the
-- build, among its dependencies is still there and is neither pending nor blocked.
pub cascade_failure-Skipped :
    (fuel : ℕ) (s : Store) (id failed : String) (p : PackageJob)
    → Distinct (package_names (jobs s id))
    → waiting (jobs s id) < fuel
    → contains (package_names (jobs s id)) failed ≡ true
    → Memᴰ p (jobs s id)
    → contains p.dependencies failed ≡ true
    → (t : Store) × (q : PackageJob) × (cascade_failure fuel s id failed ≡ some t)
      × Memᴰ q (jobs t id)
      × (q.name ≡ p.name)
      × IsSettled q
cascade_failure-Skipped fuel s id failed p d enough known m dep =
    let (t, e, skipped) = cascade_failure-waits fuel s id failed d enough in
    let (t', e', below) = cascade_failure-Returns fuel s id failed d enough in
    let same : t' ≡ t = ground arith in
    let names : package_names (jobs t id) ≡ package_names (jobs s id) =
      subst (λ (z : Store). package_names (jobs z id) ≡ package_names (jobs s id)) same
        (Below-names (jobs t' id) (jobs s id) below) in
    let passed : waits (jobs t id) p.name ≡ false =
      All-member _ (jobs s id) p skipped m
        (depends_on-contains (package_names (jobs s id)) p.dependencies failed known dep) in
    let (q, here, same_name, settled) =
      IsSettled-member (jobs t id) p.name (rw names (contains-member p (jobs s id) m)) passed in
    (t, q, e, here, same_name, settled)
