-- ===== src/Scheduler/Job/Sharing.antt =====
-- A run of a package among the pool's other users: what `executePackageJob` does is a history of the
-- pool's calls.
use melange.Prelude.{
  ℕ, ◌≡◌, refl, sym, ◌⊎◌, inl, inr, Bool, true, false, List, ◌∷◌, String, ok, contains, string_eq,
}
use melange.Types.{PackageJob, BuildSpec}
use melange.Pool.{Pool, Backend, select_and_acquire, release}
use melange.Pool.Leases.{System, Reach, IsSound, erase, acquire, finish, here, next}
use melange.Pool.Leases.Keeping.{Reach-IsSound}
use melange.Scheduler.Setup.{Config}
use melange.Scheduler.Job.Defs.{Host, arch_or_runtime}
use melange.Scheduler.Job.Phases.{execute_package_job}
use melange.Scheduler.Job.Slots.{Releases, execute_package_job-Ends}

Reach-trans : {s t u : System} → Reach s t → Reach t u → Reach s u
Reach-trans r here = r
Reach-trans r (next q st) = next (Reach-trans r q) st

-- The state right after the backend was acquired.
abbrev pub with_lease : List String → Backend → Pool → System
with_lease leases b q = record { pool = q; leases = b.addr ∷ leases }

module _ {W Context Configuration Auth : Type 0} (host : Host W Context Configuration Auth)
    (config : Config) (job_id : String) (spec : BuildSpec) (meanwhile : Pool → Pool)
    (now later : ℕ) where
  abbrev pub Acquired : Pool → Backend → Pool → Type 0
  Acquired pool b q =
      select_and_acquire pool (arch_or_runtime host.runtime_arch spec.arch) spec.backend_selector
        now
      ≡ ok (b, q)

  -- While the job runs, the others' calls are a history, too, that leaves the job its slot: the
  -- addresses at which jobs hold slots after it.
  abbrev pub Others : Pool → List String → Type 0
  Others pool leases =
      (b : Backend) (q : Pool)
      → Acquired pool b q
      → (after : List String) × Reach (with_lease leases b q)
          (record { pool = meanwhile q; leases = after })
        × (contains after b.addr ≡ true)

  -- A run of a package from a sound state, during which the others' calls are a history that leaves
  -- the job its slot, is a history of the pool's calls to a sound state with the pool that it leaves.
  -- The slots held at its end are those held at its start if it got no backend, and otherwise those
  -- held after the others' calls, less the one it took.
  pub execute_package_job-Reach :
      (pool : Pool) (leases : List String) (p : PackageJob) (w : W)
      → IsSound (record { pool = pool; leases = leases })
      → (others : Others pool leases)
      → (t : System) × Reach (record { pool = pool; leases = leases }) t
        × (t.pool ≡ (execute_package_job host config job_id spec meanwhile now later pool p w).pool)
        × IsSound t
        × ((t.leases ≡ leases)
            ⊎ ((b : Backend) × (q : Pool) × (taken : Acquired pool b q) × (t.leases
                  ≡ erase b.addr (others b q taken).0)))
  execute_package_job-Reach pool leases p w sound others =
      elim (execute_package_job-Ends host config job_id spec meanwhile now later pool p w) [
        | inl (e, failed, kept, same) ↦
            (record { pool = pool; leases = leases }, here, sym kept, sound, inl refl)
        | inr (b, q, taken, released, shown) ↦
            let (after, history, holds) = others b q taken in
            let (success, left) = flag b q released in
            let t : System = record {
              pool = release (meanwhile q) b.addr success later;
              leases = erase b.addr after;
            } in
            let r : Reach (record { pool = pool; leases = leases }) t =
              next
                (Reach-trans
                  (next here (
                    acquire (arch_or_runtime host.runtime_arch spec.arch) spec.backend_selector now
                      b q taken))
                  history)
                (finish b.addr success later holds) in
            (t, r, sym left, Reach-IsSound sound r, inr (b, q, taken, refl))
      ]
    where
      flag :
          (b : Backend) (q : Pool)
          → Releases host config job_id spec meanwhile now later q b
              (execute_package_job host config job_id spec meanwhile now later pool p w)
          → (success : Bool) × ((execute_package_job host config job_id spec meanwhile now later
                pool p w).pool
              ≡ release (meanwhile q) b.addr success later)
      flag b q (inl (clean, left)) = (true, left)
      flag b q (inr (e, failed, left)) = (false, left)
