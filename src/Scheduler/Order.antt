-- ===== src/Scheduler/Order.antt =====
-- The packages of one build under every interleaving of what pkg/service/scheduler/scheduler.go and
-- the store do to them. Each step is one call of the store under its lock.
use melange.Prelude.{
  ℕ, ◌≡◌, refl, ◌∙◌, sym, ap, subst, Bool, true, false, ◌||◌, List, [], ◌∷◌, ◌++◌, map, Option,
  some, String, arith, ◌==◌, ==_iff, ==_refl, string_eq, contains, Distinct, All, All-map,
  Option-cases, Bool-cases, inl, inr, ◌⊎◌,
}
use mathlib.Core.List.{Memᴰ}
use melange.Prelude.Maps.{Dict}
use melange.Types.{Node, BuildSpec, PackageJob, PackageStatus, status_eq}
use melange.Store.{
  Store, create_build, package_of, claimed, package_names, claim_packages, replace_package,
}
use melange.Store.Claim.{status_of, DepsDone, Replaced, claim_packages_cases}
use melange.Scheduler.Defs.{is_waiting}

-- The package was claimed at some time: its job runs or has ended.
abbrev pub is_started : PackageStatus → Bool
is_started st =
    st == PackageStatus.running || st == PackageStatus.success || st == PackageStatus.failed

-- The job of a claimed package, `executePackageBuild`, ends in success or failure and writes back the
-- package; `processBuild` gives back a package that it claimed too late; `cascadeFailure` skips a
-- package that still waits, since the failed package it depends on has not succeeded.
pub data Step (ps : List PackageJob) : List PackageJob → Type 0 where
  claim :
      (now : ℕ) (p : PackageJob) (qs : List PackageJob)
      → claim_packages now ps ≡ some (p, qs)
      → Step ps qs
  write_back :
      (p q : PackageJob) (qs : List PackageJob)
      → Memᴰ p ps
      → p.status ≡ PackageStatus.running
      → q.name ≡ p.name
      → q.dependencies ≡ p.dependencies
      → replace_package q ps ≡ some qs
      → Step ps qs
  skip :
      (p q : PackageJob) (qs : List PackageJob)
      → Memᴰ p ps
      → is_waiting p.status ≡ true
      → q.name ≡ p.name
      → q.status ≡ PackageStatus.skipped
      → replace_package q ps ≡ some qs
      → Step ps qs

pub data Reach (ps : List PackageJob) : List PackageJob → Type 0 where
  here : Reach ps ps
  next : {qs rs : List PackageJob} → Reach ps qs → Step qs rs → Reach ps rs

-- A package starts only after the dependencies that are packages of its build have succeeded.
pub record IsOrderly (ps : List PackageJob) : Type 0 where
  pub distinct : Distinct (package_names ps)
  pub after : All (λ p. is_started p.status ≡ true → DepsDone ps p.dependencies) ps

names-append-cons :
    (p q : PackageJob) (xs ys : List PackageJob)
    → q.name ≡ p.name
    → package_names (xs ++ q ∷ ys) ≡ package_names (xs ++ p ∷ ys)
names-append-cons p q [] ys e = ap (λ n. n ∷ package_names ys) e
names-append-cons p q (x ∷ xs) ys e = ap (◌∷◌ x.name) (names-append-cons p q xs ys e)

contains-names-middle :
    (p : PackageJob) (xs ys : List PackageJob)
    → contains (package_names (xs ++ p ∷ ys)) p.name ≡ true
unfolding contains
contains-names-middle p [] ys = ground (arith, ==_refl {A = String} p.name)
contains-names-middle p (x ∷ xs) ys = ground (arith, contains-names-middle p xs ys)

status_of-middle :
    (p : PackageJob) (xs ys : List PackageJob)
    → Distinct (package_names (xs ++ p ∷ ys))
    → status_of (xs ++ p ∷ ys) p.name ≡ some p.status
unfolding status_of contains
status_of-middle p [] ys d = ground (arith, ==_refl {A = String} p.name)
status_of-middle p (x ∷ xs) ys d = ground (
  arith,
  status_of-middle p xs ys d.1,
  contains-names-middle p xs ys,
  d.0,
  ==_iff {A = String} x.name p.name,
)

status_of-other :
    (p q : PackageJob) (xs ys : List PackageJob) (k : String)
    → q.name ≡ p.name
    → (p.name == k) ≡ false
    → status_of (xs ++ q ∷ ys) k ≡ status_of (xs ++ p ∷ ys) k
unfolding status_of
status_of-other p q [] ys k e h = rw (e, h) refl
status_of-other p q (x ∷ xs) ys k e h = ground (arith, status_of-other p q xs ys k e h)

-- The change of a package that had not succeeded leaves every success in place.
DepsDone-middle :
    (p q : PackageJob) (xs ys : List PackageJob) (deps : List String)
    → Distinct (package_names (xs ++ p ∷ ys))
    → q.name ≡ p.name
    → (p.status == PackageStatus.success) ≡ false
    → DepsDone (xs ++ p ∷ ys) deps
    → DepsDone (xs ++ q ∷ ys) deps
DepsDone-middle p q xs ys deps d e undone done = All-map _ _ deps step done
  where
    step :
        (dep : String)
        → (contains (package_names (xs ++ p ∷ ys)) dep ≡ false)
          ⊎ (status_of (xs ++ p ∷ ys) dep ≡ some PackageStatus.success)
        → (contains (package_names (xs ++ q ∷ ys)) dep ≡ false)
          ⊎ (status_of (xs ++ q ∷ ys) dep ≡ some PackageStatus.success)
    step dep (inl outside) = inl (rw (names-append-cons p q xs ys e) outside)
    step dep (inr done) = elim (Bool-cases (p.name == dep)) [
      | inl same ↦ absurd (
          ground (arith, status_of-middle p xs ys d, done, (==_iff {A = String} p.name dep).0 same))
      | inr other ↦ inr (status_of-other p q xs ys dep e other ∙ done)
    ]

All-middle :
    (P : PackageJob → Type 0) (p q : PackageJob) (xs ys : List PackageJob)
    → (P p → P q)
    → All P (xs ++ p ∷ ys)
    → All P (xs ++ q ∷ ys)
All-middle P p q [] ys f a = (f a.0, a.1)
All-middle P p q (x ∷ xs) ys f a = (a.0, All-middle P p q xs ys f a.1)

All-at :
    (P : PackageJob → Type 0) (p : PackageJob) (xs ys : List PackageJob)
    → All P (xs ++ p ∷ ys)
    → P p
All-at P p [] ys a = a.0
All-at P p (x ∷ xs) ys a = All-at P p xs ys a.1

-- A change of one package that had not succeeded keeps the order, where the package is not started
-- or its dependencies are done.
Replaced-IsOrderly :
    (p q : PackageJob) (ps qs : List PackageJob)
    → IsOrderly ps
    → Replaced p q ps qs
    → q.name ≡ p.name
    → (p.status == PackageStatus.success) ≡ false
    → (is_started q.status ≡ true → DepsDone ps q.dependencies)
    → IsOrderly qs
Replaced-IsOrderly p q ps qs v r e undone fits = subst IsOrderly (sym r.is) (
    shift r.before r.after (subst IsOrderly r.was v)
      (λ h. subst (λ z. DepsDone z q.dependencies) r.was (fits h)))
  where
    shift :
        (xs ys : List PackageJob)
        → IsOrderly (xs ++ p ∷ ys)
        → (is_started q.status ≡ true → DepsDone (xs ++ p ∷ ys) q.dependencies)
        → IsOrderly (xs ++ q ∷ ys)
    shift xs ys w ready = record {
      distinct = subst Distinct (sym (names-append-cons p q xs ys e)) w.distinct;
      after =
          All-map _ _ (xs ++ q ∷ ys)
            (λ x f h. DepsDone-middle p q xs ys x.dependencies w.distinct e undone (f h))
            (All-middle (λ x. is_started x.status ≡ true → DepsDone (xs ++ p ∷ ys) x.dependencies) p
              q xs ys (λ _. ready) w.after);
    }

contains-Memᴰ :
    (p : PackageJob) (ps : List PackageJob) → Memᴰ p ps → contains (package_names ps) p.name ≡ true
unfolding contains
contains-Memᴰ p [] m = elim m [ ]
contains-Memᴰ p (x ∷ ps) (Memᴰ.head same) = rw same (ground (arith, ==_refl {A = String} x.name))
contains-Memᴰ p (x ∷ ps) (Memᴰ.tail m) = ground (arith, contains-Memᴰ p ps m)

-- With different names `replace_package` replaces the package itself.
replace_package-Replaced :
    (p q : PackageJob) (ps qs : List PackageJob)
    → Distinct (package_names ps)
    → Memᴰ p ps
    → q.name ≡ p.name
    → replace_package q ps ≡ some qs
    → Replaced p q ps qs
unfolding replace_package contains
replace_package-Replaced p q [] qs d m e h = elim m [ ]
replace_package-Replaced p q (x ∷ ps) qs d (Memᴰ.head same) e h =
    let hit : (x.name == q.name) ≡ true =
      (==_iff {A = String} x.name q.name).1 (ap (λ z. z.name) (sym same) ∙ sym e) in
    record { before = []; after = ps; was = ap (λ z. z ∷ ps) (sym same); is = ground arith }
replace_package-Replaced p q (x ∷ ps) qs d (Memᴰ.tail m) e h =
    let miss : (x.name == q.name) ≡ false =
      ground (arith, contains-Memᴰ p ps m, d.0, ==_iff {A = String} x.name q.name) in
    elim (Option-cases (replace_package q ps)) [
      | inl none_such ↦ absurd (ground arith)
      | inr (rs, found) ↦
          let r = replace_package-Replaced p q ps rs d.1 m e found in
          let whole : x ∷ rs ≡ qs = ground arith in
          record {
            before = x ∷ r.before;
            after = r.after;
            was = ap (◌∷◌ x) r.was;
            is = sym whole ∙ ap (◌∷◌ x) r.is;
          }
    ]

All-Memᴰ :
    (P : PackageJob → Type 0) (p : PackageJob) (ps : List PackageJob) → All P ps → Memᴰ p ps → P p
All-Memᴰ P p [] a m = elim m [ ]
All-Memᴰ P p (x ∷ ps) a (Memᴰ.head same) = subst P (sym same) a.0
All-Memᴰ P p (x ∷ ps) a (Memᴰ.tail m) = All-Memᴰ P p ps a.1 m

not_success :
    (p : PackageJob) → is_waiting p.status ≡ true → (p.status == PackageStatus.success) ≡ false
unfolding is_waiting
not_success p h = ground arith

pub Step-IsOrderly : {ps qs : List PackageJob} → IsOrderly ps → Step ps qs → IsOrderly qs
unfolding claimed
Step-IsOrderly {ps} v (claim now p qs e) = elim (claim_packages_cases now ps v.distinct) [
  | inl (nothing, _) ↦ absurd (ground arith)
  | inr (p', qs', e', pending, done, r) ↦
      let same : qs' ≡ qs = ground arith in
      subst IsOrderly same
        (Replaced-IsOrderly p' (claimed now p') ps qs' v r refl (ground arith) (λ _. done))
]
Step-IsOrderly {ps} v (write_back p q qs m running name deps e) =
    Replaced-IsOrderly p q ps qs v (replace_package-Replaced p q ps qs v.distinct m name e) name
      (ground arith)
      (λ _. subst (DepsDone ps) (sym deps) (
        All-Memᴰ (λ x. is_started x.status ≡ true → DepsDone ps x.dependencies) p ps v.after m
          (ground arith)))
Step-IsOrderly {ps} v (skip p q qs m waiting name skipped e) =
    Replaced-IsOrderly p q ps qs v (replace_package-Replaced p q ps qs v.distinct m name e) name
      (not_success p waiting) (λ h. absurd (ground arith))

names_of_nodes :
    (pipelines : Option (Dict String)) (nodes : List Node)
    → package_names (map (package_of pipelines) nodes) ≡ map (λ n. n.name) nodes
unfolding package_of
names_of_nodes pipelines [] = refl
names_of_nodes pipelines (n ∷ nodes) = ap (◌∷◌ n.name) (names_of_nodes pipelines nodes)

none_started :
    (pipelines : Option (Dict String)) (nodes : List Node) (all : List PackageJob)
    → All
        (λ p. is_started p.status ≡ true → DepsDone all p.dependencies)
        (map (package_of pipelines) nodes)
unfolding package_of
none_started pipelines [] all = tt
none_started pipelines (n ∷ nodes) all =
    (λ h. absurd (ground arith), none_started pipelines nodes all)

pub Reach-IsOrderly : {ps qs : List PackageJob} → IsOrderly ps → Reach ps qs → IsOrderly qs
Reach-IsOrderly v here = v
Reach-IsOrderly v (next r s) = Step-IsOrderly (Reach-IsOrderly v r) s

-- In every state of a build that was created from nodes with different names, each package that
-- runs, succeeded or failed has only dependencies that are outside the build or have succeeded.
pub create_build-IsOrderly :
    (s : Store) (id : String) (now : ℕ) (nodes : List Node) (spec : BuildSpec)
    (qs : List PackageJob)
    → Distinct (map (λ n. n.name) nodes)
    → Reach (create_build s id now nodes spec).0.packages qs
    → IsOrderly qs
unfolding create_build
create_build-IsOrderly s id now nodes spec qs d r =
    Reach-IsOrderly
      (record {
        distinct = subst Distinct (sym (names_of_nodes spec.pipelines nodes)) d;
        after = none_started spec.pipelines nodes (map (package_of spec.pipelines) nodes);
      })
      r
