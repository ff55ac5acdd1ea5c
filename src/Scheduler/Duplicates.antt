-- ===== src/Scheduler/Duplicates.antt =====
-- Two packages of one name in a build, which the mode `flat` of pkg/service/api/server.go lets
-- through: how pkg/service/store/memory.go and pkg/service/scheduler/scheduler.go treat the second.
use melange.Prelude.{
  ℕ, ◌≡◌, refl, subst, ◌∙◌, Bool, true, false, ◌&&◌, ◌||◌, List, [], ◌∷◌, some, String, arith, ◌==◌,
  ==_iff, string_eq, Option-cases, Bool-cases, inl, inr,
}
use melange.Types.{PackageJob, PackageStatus, BuildStatus, status_eq}
use melange.Prelude.Maps.{Dict}
use melange.Store.{claimed, claim_from, claim_packages, deps_ready, replace_package}
use melange.Scheduler.Defs.{overall_status}
use melange.Scheduler.Order.{Step, Reach, claim, write_back, skip, here, next}
use melange.Scheduler.Status.{some_status, is_open, overall_status_lem}

-- Some package of the name runs that stands behind another one of the name; `seen` says that one
-- stands in front of the list.
unfoldable pub shadowed : Bool → String → List PackageJob → Bool
shadowed seen name [] = false
shadowed seen name (p ∷ ps) =
    (seen && p.name == name && p.status == PackageStatus.running)
    || shadowed (seen || p.name == name) name ps

shadowed-is_open :
    (seen : Bool) (name : String) (ps : List PackageJob)
    → shadowed seen name ps ≡ true
    → some_status is_open ps ≡ true
unfolding shadowed
shadowed-is_open seen name [] h = absurd (ground arith)
shadowed-is_open seen name (p ∷ ps) h =
    ground (arith, shadowed-is_open (seen || p.name == name) name ps)

shadowed-replace_package :
    (seen : Bool) (name : String) (q : PackageJob) (ps qs : List PackageJob)
    → (seen && q.name == name) ≡ false
    → replace_package q ps ≡ some qs
    → shadowed seen name ps ≡ true
    → shadowed seen name qs ≡ true
unfolding shadowed replace_package
shadowed-replace_package seen name q [] qs first e h = absurd (ground arith)
shadowed-replace_package seen name q (p ∷ ps) qs first e h = elim (Bool-cases (p.name == q.name)) [
  | inl hit ↦
      let same : q ∷ ps ≡ qs = ground arith in
      subst (λ z. shadowed seen name z ≡ true) same
        (ground (
          arith,
          hit,
          first,
          h,
          ==_iff {A = String} p.name q.name,
          ==_iff {A = String} p.name name,
          ==_iff {A = String} q.name name,
        ))
  | inr miss ↦ elim (Option-cases (replace_package q ps)) [
    | inl none_such ↦ absurd (ground arith)
    | inr (rs, found) ↦
        let same : p ∷ rs ≡ qs = ground arith in
        let step =
          shadowed-replace_package (seen || p.name == name) name q ps rs
            (ground (
              arith,
              miss,
              first,
              ==_iff {A = String} p.name q.name,
              ==_iff {A = String} p.name name,
              ==_iff {A = String} q.name name,
            ))
            found in
        subst (λ z. shadowed seen name z ≡ true) same (ground (arith, h, step))
  ]
]

shadowed-claim_from :
    (seen : Bool) (name : String) (in_build : List String) (statuses : Dict PackageStatus) (now : ℕ)
    (ps qs : List PackageJob) (c : PackageJob)
    → claim_from in_build statuses now ps ≡ some (c, qs)
    → shadowed seen name ps ≡ true
    → shadowed seen name qs ≡ true
unfolding shadowed claim_from claimed
shadowed-claim_from seen name in_build statuses now [] qs c e h = absurd (ground arith)
shadowed-claim_from seen name in_build statuses now (p ∷ ps) qs c e h =
    elim (Bool-cases
      (p.status == PackageStatus.pending && deps_ready in_build statuses p.dependencies)) [
        | inl hit ↦
            let same : claimed now p ∷ ps ≡ qs = ground arith in
            subst (λ z. shadowed seen name z ≡ true) same (ground (arith, hit, h))
        | inr miss ↦ elim (Option-cases (claim_from in_build statuses now ps)) [
          | inl nothing ↦ absurd (ground arith)
          | inr ((d, rs), found) ↦
              let same : p ∷ rs ≡ qs = ground arith in
              let step =
                shadowed-claim_from (seen || p.name == name) name in_build statuses now ps rs d
                  found in
              subst (λ z. shadowed seen name z ≡ true) same (ground (arith, h, step))
        ]
      ]

Step-shadowed :
    (name : String) {ps qs : List PackageJob}
    → Step ps qs
    → shadowed false name ps ≡ true
    → shadowed false name qs ≡ true
unfolding claim_packages
Step-shadowed name {ps} (claim now p qs e) h = shadowed-claim_from false name _ _ now ps qs p e h
Step-shadowed name {ps} (write_back p q qs m running same deps e) h =
    shadowed-replace_package false name q ps qs refl e h
Step-shadowed name {ps} (skip p q qs m waits same skipped e) h =
    shadowed-replace_package false name q ps qs refl e h

Reach-shadowed :
    (name : String) {ps qs : List PackageJob}
    → Reach ps qs
    → shadowed false name ps ≡ true
    → shadowed false name qs ≡ true
Reach-shadowed name here h = h
Reach-shadowed name (next r s) h = Step-shadowed name s (Reach-shadowed name r h)

-- A build in which a package runs that stands behind another one of its name never finishes: whatever
-- the store and the scheduler do to its packages, its overall status stays running.
pub Reach-overall_status :
    (name : String) (ps qs : List PackageJob)
    → shadowed false name ps ≡ true
    → Reach ps qs
    → overall_status qs ≡ BuildStatus.running
Reach-overall_status name ps qs h r =
    let stays = shadowed-is_open false name qs (Reach-shadowed name r h) in
    overall_status_lem qs ∙ rw stays refl
