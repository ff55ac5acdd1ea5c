-- ===== src/Scheduler/Waits.antt =====
-- Which packages wait while `cascadeFailure` of pkg/service/scheduler/scheduler.go goes on.
use melange.Prelude.{
  ◌≡◌, ◌≢◌, refl, ◌∙◌, sym, subst, Bool, true, false, List, [], ◌∷◌, some, String, arith,
  if◌then◌else◌, ◌==◌, ==_iff, ==_refl, string_eq, contains, Distinct, Option-cases, Bool-cases,
  inl, inr,
}
use mathlib.Core.List.{Memᴰ}
use melange.Prelude.Maps.{lookup}
use melange.Types.{PackageJob, PackageStatus, status_eq}
use melange.Store.{Store, update_package_job, package_names, replace_package}
use melange.Scheduler.Defs.{is_waiting, or_keep}
use melange.Scheduler.Cascade.{jobs, jobs_of, jobs-update, Below, replace-Below, contains-member}

-- Whether the package of a name waits.
pub waits : List PackageJob → String → Bool
unfolding is_waiting
waits [] k = false
waits (p ∷ ps) k = if p.name == k then is_waiting p.status else waits ps k

pub Below-waits :
    (qs ps : List PackageJob) (k : String) → Below qs ps → waits ps k ≡ false → waits qs k ≡ false
unfolding Below waits
Below-waits [] [] k b h = refl
Below-waits [] (p ∷ ps) k b h = absurd b
Below-waits (q ∷ qs) [] k b h = absurd b
Below-waits (q ∷ qs) (p ∷ ps) k (e, f, b) h = elim (Bool-cases (p.name == k)) [
  | inl hit ↦
      let here : (q.name == k) ≡ true = subst (λ n. (n == k) ≡ true) (sym e) hit in
      ground (arith, here, hit, f, h)
  | inr miss ↦
      let there : (q.name == k) ≡ false = subst (λ n. (n == k) ≡ false) (sym e) miss in
      ground (arith, there, miss, Below-waits qs ps k b)
]

replace-waits :
    (q : PackageJob) (qs rs : List PackageJob)
    → replace_package q qs ≡ some rs
    → waits rs q.name ≡ is_waiting q.status
unfolding replace_package waits
replace-waits q [] rs e = absurd (ground arith)
replace-waits q (x ∷ qs) rs e = elim (Bool-cases (x.name == q.name)) [
  | inl hit ↦
      let same : q ∷ qs ≡ rs = ground arith in
      subst (λ z. waits z q.name ≡ is_waiting q.status) same (rw (==_refl {A = String} q.name) refl)
  | inr miss ↦ elim (Option-cases (replace_package q qs)) [
    | inl none_such ↦ absurd (ground arith)
    | inr (zs, found) ↦
        let same : x ∷ zs ≡ rs = ground arith in
        subst (λ z. waits z q.name ≡ is_waiting q.status) same
          (rw miss (replace-waits q qs zs found))
  ]
]

pub waits-member :
    (p : PackageJob) (ps : List PackageJob)
    → Distinct (package_names ps)
    → Memᴰ p ps
    → waits ps p.name ≡ is_waiting p.status
unfolding waits contains
waits-member p [] d m = elim m [ ]
waits-member p (x ∷ ps) d (Memᴰ.head e) =
    subst (λ z. waits (x ∷ ps) z.name ≡ is_waiting z.status) (sym e)
      (rw (==_refl {A = String} x.name) refl)
waits-member p (x ∷ ps) d (Memᴰ.tail m) =
    let miss : (x.name == p.name) ≡ false =
      ground (arith, contains-member p ps m, d.0, ==_iff {A = String} x.name p.name) in
    rw miss (waits-member p ps d.1 m)

pub update-waits :
    (s : Store) (id : String) (p q : PackageJob) (ps : List PackageJob)
    → Distinct (package_names ps)
    → Memᴰ p ps
    → is_waiting p.status ≡ true
    → q.name ≡ p.name
    → is_waiting q.status ≡ false
    → Below (jobs s id) ps
    → waits (jobs (or_keep s (update_package_job s id q)) id) q.name ≡ false
unfolding replace_package
update-waits s id p q ps d m w e h b =
    let (rs, found, below, less) = replace-Below p q (jobs s id) ps d m w e h b in
    elim (Option-cases (lookup id s.builds)) [
      | inl miss ↦
          let empty : jobs s id ≡ [] = rw (miss, jobs) refl in
          absurd (no_jobs q rs (subst (λ y. replace_package q y ≡ some rs) empty found))
      | inr (build, there) ↦
          let same = jobs_of s id build there in
          let now = jobs-update s id q build rs there (rw (← same) found) in
          rw now (replace-waits q (jobs s id) rs found ∙ h)
    ]
  where
    no_jobs : (q : PackageJob) (rs : List PackageJob) → replace_package q [] ≡ some rs → ⊥
    no_jobs q rs e = absurd (ground arith)

replace-keeps :
    (q : PackageJob) (qs rs : List PackageJob) (k : String)
    → is_waiting q.status ≡ false
    → replace_package q qs ≡ some rs
    → waits qs k ≡ false
    → waits rs k ≡ false
unfolding replace_package waits
replace-keeps q [] rs k h e z = absurd (ground arith)
replace-keeps q (x ∷ qs) rs k h e z = elim (Bool-cases (x.name == q.name)) [
  | inl hit ↦
      let same : q ∷ qs ≡ rs = ground arith in
      subst (λ y. waits y k ≡ false) same
        (ground (
          arith,
          hit,
          h,
          z,
          ==_iff {A = String} x.name q.name,
          ==_iff {A = String} x.name k,
          ==_iff {A = String} q.name k,
        ))
  | inr miss ↦ elim (Option-cases (replace_package q qs)) [
    | inl none_such ↦ absurd (ground arith)
    | inr (zs, found) ↦
        let same : x ∷ zs ≡ rs = ground arith in
        subst (λ y. waits y k ≡ false) same (ground (arith, replace-keeps q qs zs k h found, z))
  ]
]

pub update-keeps :
    (s : Store) (id : String) (p q : PackageJob) (ps : List PackageJob)
    → Distinct (package_names ps)
    → Memᴰ p ps
    → is_waiting p.status ≡ true
    → q.name ≡ p.name
    → is_waiting q.status ≡ false
    → Below (jobs s id) ps
    → (k : String) → waits (jobs s id) k ≡ false
    → waits (jobs (or_keep s (update_package_job s id q)) id) k ≡ false
unfolding replace_package
update-keeps s id p q ps d m w e h b k z =
    let (rs, found, below, less) = replace-Below p q (jobs s id) ps d m w e h b in
    elim (Option-cases (lookup id s.builds)) [
      | inl miss ↦
          let empty : jobs s id ≡ [] = rw (miss, jobs) refl in
          absurd (no_jobs q rs (subst (λ y. replace_package q y ≡ some rs) empty found))
      | inr (build, there) ↦
          let same = jobs_of s id build there in
          let now = jobs-update s id q build rs there (rw (← same) found) in
          rw now (replace-keeps q (jobs s id) rs k h found z)
    ]
  where
    no_jobs : (q : PackageJob) (rs : List PackageJob) → replace_package q [] ≡ some rs → ⊥
    no_jobs q rs e = absurd (ground arith)

-- The package is neither pending nor blocked.
abbrev pub IsSettled : PackageJob → Type 0
IsSettled q = (q.status ≢ PackageStatus.pending) × (q.status ≢ PackageStatus.blocked)

pub IsSettled-member :
    (qs : List PackageJob) (k : String)
    → contains (package_names qs) k ≡ true
    → waits qs k ≡ false
    → (q : PackageJob) × Memᴰ q qs × (q.name ≡ k) × IsSettled q
unfolding contains waits is_waiting
IsSettled-member [] k h w = absurd (ground arith)
IsSettled-member (q ∷ qs) k h w = elim (Bool-cases (q.name == k)) [
  | inl here ↦
      let idle : is_waiting q.status ≡ false = ground arith in
      (
        q,
        Memᴰ.head refl,
        (==_iff {A = String} q.name k).0 here,
        (λ e. absurd (ground (arith, idle, e)), λ e. absurd (ground (arith, idle, e))),
      )
  | inr there ↦
      let (r, m, e, s) = IsSettled-member qs k (ground arith) (ground arith) in
      (r, Memᴰ.tail m, e, s)
]
