-- ===== src/Pool/Defs.antt =====
-- The pool's data, its constructors, and the changes that it makes one at a time.
use melange.Prelude.{
  ℕ, suc, Bool, true, false, List, [], ◌∷◌, ◌++◌, Option, none, some, String, Result, ok, err,
  if◌then◌else◌, ◌==◌, string_eq, length, nat_beq, keep_if, contains, map,
}
use melange.Prelude.Int.{ℤ, pos, negsuc, ◌+ℤ◌, leb_ℤ, eqb_ℤ, wrap32}
use melange.Prelude.Maps.{Dict, lookup, insert, delete}

pub record Backend : Type 0 where
  pub addr : String
  pub arch : String
  pub labels : Option (Dict String)
  pub max_jobs : ℤ

-- `last_failure` is `none` for the zero time.
pub record BackendState : Type 0 where
  pub active_jobs : ℤ
  pub failures : ℤ
  pub last_failure : Option ℕ
  pub circuit_open : Bool

abbrev pub fresh_state : BackendState
fresh_state = record {
  active_jobs = pos 0;
  failures = pos 0;
  last_failure = none;
  circuit_open = false;
}

pub record PoolConfig : Type 0 where
  pub backends : List Backend
  pub default_max_jobs : ℤ
  pub failure_threshold : ℤ
  pub recovery_timeout : ℤ

pub record Pool : Type 0 where
  pub backends : List Backend
  pub state : Dict BackendState
  pub default_max_jobs : ℤ
  pub failure_threshold : ℤ
  pub recovery_timeout : ℤ

pub data PoolError : Type 0 where
  backend_required addr_required arch_required no_available_backend last_backend : PoolError
  config_addr_required : ℕ → PoolError
  config_arch_required : ℕ → String → PoolError
  backend_already_exists backend_not_found : String → PoolError

-- The loop that validates the backends, from the index `i` on.
unfoldable pub validate : ℕ → List Backend → Option PoolError
validate i [] = none
validate i (b ∷ bs) =
    if b.addr == ""
    then some (config_addr_required i)
    else if b.arch == ""
    then some (config_arch_required i b.addr)
    else validate (suc i) bs

-- The state map of the given backends: two backends with one address share an entry.
unfoldable pub init_state : List Backend → Dict BackendState → Dict BackendState
unfolding insert
init_state [] st = st
init_state (b ∷ bs) st = init_state bs (insert b.addr fresh_state st)

abbrev pub or_default : ℤ → ℤ → ℤ
or_default v d = if eqb_ℤ v (pos 0) then d else v

unfoldable pub new_pool_with_config : PoolConfig → Result PoolError Pool
unfolding validate init_state
new_pool_with_config config =
    if nat_beq (length config.backends) 0
    then err backend_required
    else elim (validate 0 config.backends) [
      | some e ↦ err e
      | none ↦ ok (record {
        backends = config.backends;
        state = init_state config.backends [];
        default_max_jobs = or_default config.default_max_jobs (pos 4);
        failure_threshold = or_default config.failure_threshold (pos 3);
        recovery_timeout = or_default config.recovery_timeout (pos 30000000000);
      })
    ]

unfoldable pub new_pool : List Backend → Result PoolError Pool
unfolding new_pool_with_config
new_pool backends = new_pool_with_config (record {
  backends = backends;
  default_max_jobs = pos 0;
  failure_threshold = pos 0;
  recovery_timeout = pos 0;
})

-- `read` is `os.ReadFile`, and `decode` is `yaml.Unmarshal`; the failure of each is an error.
pub data ConfigError : Type 0 where
  reading parsing : String → ConfigError
  invalid : PoolError → ConfigError

unfoldable pub new_pool_from_config :
    (String → Result String String)
    → (String → Result String PoolConfig)
    → String
    → Result ConfigError Pool
unfolding new_pool_with_config
new_pool_from_config read decode path = elim (read path) [
  | err e ↦ err (reading e)
  | ok data_read ↦ elim (decode data_read) [
    | err e ↦ err (parsing e)
    | ok config ↦ elim (new_pool_with_config config) [ err e ↦ err (invalid e) | ok p ↦ ok p ]
  ]
]

unfoldable pub new_pool_from_single_addr : String → String → Result PoolError Pool
unfolding new_pool
new_pool_from_single_addr addr arch = new_pool (
    record {
      addr = addr;
      arch = if arch == "" then "x86_64" else arch;
      labels = some [];
      max_jobs = pos 0;
    }
    ∷ [])

-- A call when a job ends, at the time `now`.
unfoldable pub release_state : ℤ → ℕ → Bool → BackendState → BackendState
unfolding wrap32
release_state threshold now success s =
    let left = wrap32 (s.active_jobs +ℤ negsuc 0) in
    let failures = wrap32 (s.failures +ℤ pos 1) in
    if success
    then record s { active_jobs = left; failures = pos 0; circuit_open = false }
    else record s {
      active_jobs = left;
      failures = failures;
      last_failure = some now;
      circuit_open = if leb_ℤ threshold failures then true else s.circuit_open;
    }

unfoldable pub release : Pool → String → Bool → ℕ → Pool
unfolding release_state lookup insert
release p addr success now = elim (lookup addr p.state) [
  | none ↦ p
  | some s ↦ record p {
    state = insert addr (release_state p.failure_threshold now success s) p.state;
  }
]

unfoldable pub list_backends : Pool → List Backend
list_backends p = p.backends

unfoldable pub list_by_arch : Pool → String → List Backend
unfolding keep_if
list_by_arch p arch = keep_if (λ b. b.arch == arch) p.backends

-- The architectures not in `seen`, each at its first backend.
unfoldable pub archs_from : List String → List Backend → List String
unfolding contains
archs_from seen [] = []
archs_from seen (b ∷ bs) =
    let again = archs_from seen bs in
    let new = b.arch ∷ archs_from (b.arch ∷ seen) bs in if contains seen b.arch then again else new

unfoldable pub architectures : Pool → List String
unfolding archs_from
architectures p = archs_from [] p.backends

pub record BackendStatus : Type 0 where
  pub backend : Backend
  pub active_jobs : ℤ
  pub failures : ℤ
  pub circuit_open : Bool
  pub last_failure : Option ℕ

unfoldable pub backend_status : Dict BackendState → Backend → BackendStatus
unfolding lookup
backend_status st b = elim (lookup b.addr st) [
  | none ↦ record {
    backend = b;
    active_jobs = pos 0;
    failures = pos 0;
    circuit_open = false;
    last_failure = none;
  }
  | some s ↦ record {
    backend = b;
    active_jobs = s.active_jobs;
    failures = s.failures;
    circuit_open = s.circuit_open;
    last_failure = s.last_failure;
  }
]

unfoldable pub status : Pool → List BackendStatus
unfolding backend_status
status p = map (backend_status p.state) p.backends

-- Whether the loop over the backends finds the address.
unfoldable pub has_addr : List Backend → String → Bool
has_addr [] addr = false
has_addr (b ∷ bs) addr = if b.addr == addr then true else has_addr bs addr

unfoldable pub add : Pool → Backend → Result PoolError Pool
unfolding has_addr insert
add p b =
    if b.addr == ""
    then err addr_required
    else if b.arch == ""
    then err arch_required
    else if has_addr p.backends b.addr
    then err (backend_already_exists b.addr)
    else let labelled = record b { labels = elim b.labels [ none ↦ some [] | some l ↦ some l ] } in
      ok (record p {
        backends = p.backends ++ labelled ∷ [];
        state = insert b.addr fresh_state p.state;
      })

abbrev pub effective_max : ℤ → Backend → ℤ
effective_max default b = or_default b.max_jobs default

unfoldable pub total_from : ℤ → List Backend → ℤ → ℤ
total_from default [] total = total
total_from default (b ∷ bs) total = total_from default bs (total +ℤ effective_max default b)

unfoldable pub total_capacity : Pool → ℤ
unfolding total_from
total_capacity p = total_from p.default_max_jobs p.backends (pos 0)

-- The backends without the first one at the address.
unfoldable pub remove_addr : List Backend → String → List Backend
remove_addr [] addr = []
remove_addr (b ∷ bs) addr = if b.addr == addr then bs else b ∷ remove_addr bs addr

unfoldable pub remove : Pool → String → Result PoolError Pool
unfolding has_addr remove_addr delete
remove p addr =
    if nat_beq (length p.backends) 1
    then err last_backend
    else if has_addr p.backends addr
    then ok (record p { backends = remove_addr p.backends addr; state = delete addr p.state })
    else err (backend_not_found addr)
