-- ===== src/Store/Claim.antt =====
-- `ClaimReadyPackage` of pkg/service/store/memory.go: which package it claims, and when it claims
-- none.
use melange.Prelude.{
  ℕ, ◌≡◌, refl, ap, true, false, ◌&&◌, List, [], ◌∷◌, ◌++◌, Option, none, some, String, arith,
  if◌then◌else◌, ◌==◌, ==_iff, string_eq, contains, Distinct, All, All-map, Bool-cases, inl, inr,
  ◌⊎◌,
}
use melange.Prelude.Maps.{Dict, lookup, insert, lookup-insert}
use melange.Types.{PackageJob, PackageStatus, status_eq, status_beq_iff}
use melange.Store.Defs.{status_map, deps_ready, claimed, claim_from, package_names, claim_packages}

-- The status of the package of a name.
unfoldable pub status_of : List PackageJob → String → Option PackageStatus
status_of [] k = none
status_of (p ∷ ps) k = if p.name == k then some p.status else status_of ps k

-- Every dependency that is a package of the build has succeeded.
abbrev pub DepsDone : List PackageJob → List String → Type 0
DepsDone all deps =
    All
      (λ dep.
        (contains (package_names all) dep ≡ false)
        ⊎ (status_of all dep ≡ some PackageStatus.success))
      deps

status_of-none :
    (ps : List PackageJob) (k : String)
    → contains (package_names ps) k ≡ false
    → status_of ps k ≡ none
unfolding status_of contains
status_of-none [] k h = refl
status_of-none (p ∷ ps) k h = ground (arith, status_of-none ps k)

status_of-some :
    (ps : List PackageJob) (k : String)
    → contains (package_names ps) k ≡ true
    → (s : PackageStatus) × (status_of ps k ≡ some s)
unfolding status_of contains
status_of-some [] k h = absurd (ground arith)
status_of-some (p ∷ ps) k h = elim (Bool-cases (p.name == k)) [
  | inl hit ↦ (p.status, rw hit refl)
  | inr miss ↦ let (s, e) = status_of-some ps k (ground arith) in (s, rw miss e)
]

-- With different names the map holds the status of each package.
status_map-lookup :
    (ps : List PackageJob) (m : Dict PackageStatus) (k : String)
    → Distinct (package_names ps)
    → lookup k (status_map ps m) ≡ elim (status_of ps k) [ none ↦ lookup k m | some s ↦ some s ]
unfolding status_map status_of contains
status_map-lookup [] m k d = refl
status_map-lookup (p ∷ ps) m k d = ground (
  arith,
  status_map-lookup ps (insert p.name p.status m) k d.1,
  lookup-insert p.name k p.status m,
  status_of-none ps k,
  ==_iff {A = String} p.name k,
)

module _ (all : List PackageJob) (d : Distinct (package_names all)) where
  status_lookup : (k : String) → lookup k (status_map all []) ≡ status_of all k
  unfolding lookup
  status_lookup k = ground (arith, status_map-lookup all [] k d)

  -- The loop over the dependencies decides that they are done.
  deps_ready-DepsDone :
      (deps : List String)
      → deps_ready (package_names all) (status_map all []) deps ≡ true
      → DepsDone all deps
  unfolding deps_ready
  deps_ready-DepsDone [] h = tt
  deps_ready-DepsDone (dep ∷ deps) h = elim (Bool-cases (contains (package_names all) dep)) [
    | inr outside ↦ (inl outside, deps_ready-DepsDone deps (ground arith))
    | inl inside ↦
        let (s, e) = status_of-some all dep inside in
        (
          inr (ground (arith, status_lookup dep, e)),
          deps_ready-DepsDone deps (ground (arith, status_lookup dep, e)),
        )
  ]

  DepsDone-deps_ready :
      (deps : List String)
      → DepsDone all deps
      → deps_ready (package_names all) (status_map all []) deps ≡ true
  unfolding deps_ready
  DepsDone-deps_ready [] h = refl
  DepsDone-deps_ready (dep ∷ deps) (inl outside, h) =
      rw (outside, deps_ready) (DepsDone-deps_ready deps h)
  DepsDone-deps_ready (dep ∷ deps) (inr done, h) =
      ground (arith, status_lookup dep, done, DepsDone-deps_ready deps h)

-- The list with one entry changed: `before ++ p ∷ after` becomes `before ++ q ∷ after`.
pub record Replaced (p q : PackageJob) (xs ys : List PackageJob) : Type 0 where
  pub before : List PackageJob
  pub after : List PackageJob
  pub was : xs ≡ before ++ p ∷ after
  pub is : ys ≡ before ++ q ∷ after

claim_from-cases :
    (in_build : List String) (statuses : Dict PackageStatus) (now : ℕ) (ps : List PackageJob)
    → ((claim_from in_build statuses now ps ≡ none)
        × All
            (λ p.
              (p.status == PackageStatus.pending && deps_ready in_build statuses p.dependencies)
              ≡ false)
            ps)
      ⊎ ((p : PackageJob) × (qs : List PackageJob) × (claim_from in_build statuses now ps
            ≡ some (claimed now p, qs))
          × (p.status ≡ PackageStatus.pending)
          × (deps_ready in_build statuses p.dependencies ≡ true)
          × Replaced p (claimed now p) ps qs)
unfolding claim_from
claim_from-cases in_build statuses now [] = inl (refl, tt)
claim_from-cases in_build statuses now (p ∷ ps) =
    elim (Bool-cases
      (p.status == PackageStatus.pending && deps_ready in_build statuses p.dependencies)) [
        | inl hit ↦ inr (
          p,
          claimed now p ∷ ps,
          rw hit refl,
          ground (arith, status_beq_iff p.status PackageStatus.pending),
          ground arith,
          record { before = []; after = ps; was = refl; is = refl },
        )
        | inr miss ↦ elim (claim_from-cases in_build statuses now ps) [
          | inl (e, rest) ↦ inl (rw (miss, e) refl, (miss, rest))
          | inr (q, qs, e, pending, ready, r) ↦ inr (
            q,
            p ∷ qs,
            rw (miss, e) refl,
            pending,
            ready,
            record {
              before = p ∷ r.before;
              after = r.after;
              was = ap (◌∷◌ p) r.was;
              is = ap (◌∷◌ p) r.is;
            },
          )
        ]
      ]

-- Where the packages have different names, a claim takes a pending package whose dependencies in the build have all succeeded, sets it to
-- running, and changes no other package; no claim is made exactly when there is no such package.
pub claim_packages_cases :
    (now : ℕ) (ps : List PackageJob)
    → Distinct (package_names ps)
    → ((claim_packages now ps ≡ none)
        × All (λ p. ¬ ((p.status ≡ PackageStatus.pending) × DepsDone ps p.dependencies)) ps)
      ⊎ ((p : PackageJob) × (qs : List PackageJob) × (claim_packages now ps
            ≡ some (claimed now p, qs))
          × (p.status ≡ PackageStatus.pending)
          × DepsDone ps p.dependencies
          × Replaced p (claimed now p) ps qs)
unfolding claim_packages
claim_packages_cases now ps d =
    elim (claim_from-cases (package_names ps) (status_map ps []) now ps) [
      | inl (e, a) ↦ inl (
        e,
        All-map _ _ ps
            (λ p h (pending, done).
              absurd (ground (arith, h, pending, DepsDone-deps_ready ps d p.dependencies done)))
            a,
      )
      | inr (p, qs, e, pending, ready, r) ↦
          inr (p, qs, e, pending, deps_ready-DepsDone ps d p.dependencies ready, r)
    ]
