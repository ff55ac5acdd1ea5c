-- ===== src/Scheduler/Setup.antt =====
-- The configuration of the scheduler and `New`. Storage and metrics are left out of the scheduler,
-- and the semaphore is its number of slots.
use melange.Prelude.{Bool, List, [], String, if◌then◌else◌, ◌==◌, string_eq}
use melange.Prelude.Int.{ℤ, pos}
use melange.Prelude.Maps.{Dict}
use melange.Store.{Store}
use melange.Pool.{Pool, or_default, total_capacity}

pub record Config : Type 0 where
  pub output_dir : String
  pub poll_interval : ℤ
  pub max_parallel : ℤ
  pub cache_registry : String
  pub cache_mode : String
  pub apko_registry : String
  pub apko_registry_insecure : Bool
  pub apk_cache_dir : String
  pub apk_cache_ttl : ℤ
  pub apko_service_addr : String
  pub secret_env : Dict String

-- `active_builds` holds the keys of the map, whose values are all true.
pub record Scheduler : Type 0 where
  pub build_store : Store
  pub pool : Pool
  pub config : Config
  pub slots : ℤ
  pub active_builds : List String

-- `cpus` is what `runtime.NumCPU` returns.
unfoldable pub new_scheduler : ℤ → Store → Pool → Config → Scheduler
unfolding total_capacity
new_scheduler cpus s p config =
    let parallel = or_default config.max_parallel (or_default (total_capacity p) cpus) in
    record {
      build_store = s;
      pool = p;
      config = record config {
        poll_interval = or_default config.poll_interval (pos 1000000000);
        output_dir =
            if config.output_dir == "" then "/var/lib/melange/output" else config.output_dir;
        max_parallel = parallel;
      };
      slots = parallel;
      active_builds = [];
    }
