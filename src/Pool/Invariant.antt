-- ===== src/Pool/Invariant.antt =====
-- The well-formed pools of pkg/service/buildkit/pool.go, and its calls on them.
use melange.Prelude.{
  ℕ, suc, ◌<◌, ◌≡◌, refl, subst, Bool, true, false, ◌||◌, List, [], ◌∷◌, ◌++◌, none, some, String,
  ok, arith, if◌then◌else◌, ◌==◌, ==_iff, string_eq, length, nat_beq, Option-cases, Bool-cases, inl,
  inr, length-append,
}
use melange.Prelude.Int.{pos, ◌+ℤ◌, wrap32}
use melange.Prelude.Maps.{Dict, lookup, insert, delete, has_key, lookup-insert, lookup-delete}
use melange.Pool.Defs.{
  Backend, BackendState, fresh_state, Pool, PoolConfig, validate, init_state, new_pool_with_config,
  release, release_state, has_addr, add, remove_addr, remove,
}
use melange.Pool.Choice.{select_and_acquire}
use melange.Pool.Equivalence.{select_and_acquire-select}

abbrev pub DistinctAddrs : List Backend → Type 0
DistinctAddrs [] = Unit {0}
DistinctAddrs (b ∷ bs) = (has_addr bs b.addr ≡ false) × DistinctAddrs bs

pub record IsPool (p : Pool) : Type 0 where
  pub nonempty : 0 < length p.backends
  pub distinct : DistinctAddrs p.backends
  pub tracked : (addr : String) → has_key p.state addr ≡ has_addr p.backends addr

has_key-insert :
    {V : Type 0} (k j : String) (v : V) (m : Dict V)
    → has_key (insert k v m) j ≡ (if k == j then true else has_key m j)
has_key-insert k j v m = ground (arith, lookup-insert k j v m)

has_key-init_state :
    (bs : List Backend) (st : Dict BackendState) (addr : String)
    → has_key (init_state bs st) addr ≡ (has_addr bs addr || has_key st addr)
unfolding init_state has_addr
has_key-init_state [] st addr = refl
has_key-init_state (b ∷ bs) st addr = ground (
  arith,
  has_key-init_state bs (insert b.addr fresh_state st) addr,
  has_key-insert b.addr addr fresh_state st,
)

empty_has_no_key : (k : String) → has_key {V = BackendState} [] k ≡ false
unfolding lookup
empty_has_no_key k = refl

-- A configuration whose addresses differ, if it is accepted, gives a pool with at least one backend,
-- each address once, and a state for exactly these addresses.
pub new_pool_with_config-IsPool :
    (config : PoolConfig) (p : Pool)
    → DistinctAddrs config.backends
    → new_pool_with_config config ≡ ok p
    → IsPool p
unfolding new_pool_with_config
new_pool_with_config-IsPool config p d e =
    let count = length config.backends in
    elim (Option-cases (validate 0 config.backends)) [
      | inl valid ↦ elim (Bool-cases (nat_beq count 0)) [
        | inl empty ↦ absurd (ground arith)
        | inr full ↦
            let same : config.backends ≡ p.backends = ground arith in
            record {
              nonempty = ground arith;
              distinct = subst DistinctAddrs same d;
              tracked = λ addr.
                  ground (arith, has_key-init_state config.backends [] addr, empty_has_no_key addr);
            }
      ]
      | inr (x, bad) ↦ absurd (ground arith)
    ]

pub release-IsPool :
    (p : Pool) (addr : String) (success : Bool) (now : ℕ)
    → IsPool p
    → IsPool (release p addr success now)
unfolding release
release-IsPool p addr success now v = elim (Option-cases (lookup addr p.state)) [
  | inl miss ↦ rw (miss, release) v
  | inr (s, e) ↦
      rw (e, release)
        (record {
          nonempty = v.nonempty;
          distinct = v.distinct;
          tracked = λ j. ground (
            arith,
            v.tracked j,
            e,
            ==_iff {A = String} addr j,
            has_key-insert addr j (release_state p.failure_threshold now success s) p.state,
          );
        })
]

pub select_and_acquire-IsPool :
    (p : Pool) (arch : String) (selector : Dict String) (now : ℕ) (b : Backend) (q : Pool)
    → IsPool p
    → select_and_acquire p arch selector now ≡ ok (b, q)
    → IsPool q
select_and_acquire-IsPool p arch selector now b q v e =
    elim (select_and_acquire-select p arch selector now) [
      | inl (_, f) ↦ absurd (ground arith)
      | inr (b', c, w, _, _, f) ↦
          let found = w.tracked in
          let s' = record w.state { active_jobs = wrap32 (w.state.active_jobs +ℤ pos 1) } in
          let same : record p { state = insert b'.addr s' p.state } ≡ q = ground arith in
          subst IsPool same (record {
            nonempty = v.nonempty;
            distinct = v.distinct;
            tracked = λ j. ground (
              arith,
              v.tracked j,
              found,
              ==_iff {A = String} b'.addr j,
              has_key-insert b'.addr j s' p.state,
            );
          })
    ]

has_addr-snoc :
    (bs : List Backend) (b : Backend) (addr : String)
    → has_addr (bs ++ b ∷ []) addr ≡ (has_addr bs addr || (b.addr == addr))
unfolding has_addr
has_addr-snoc [] b addr = ground arith
has_addr-snoc (x ∷ bs) b addr = ground (arith, has_addr-snoc bs b addr)

DistinctAddrs-snoc :
    (bs : List Backend) (b : Backend)
    → DistinctAddrs bs
    → has_addr bs b.addr ≡ false
    → DistinctAddrs (bs ++ b ∷ [])
unfolding has_addr
DistinctAddrs-snoc [] b d h = (refl, tt)
DistinctAddrs-snoc (x ∷ bs) b d h = ground (
  arith,
  has_addr-snoc bs b x.addr,
  DistinctAddrs-snoc bs b d.1,
  ==_iff {A = String} b.addr x.addr,
  ==_iff {A = String} x.addr b.addr,
)

pub add-IsPool : (p q : Pool) (b : Backend) → IsPool p → add p b ≡ ok q → IsPool q
unfolding add
add-IsPool p q b v e =
    let labelled = record b { labels = elim b.labels [ none ↦ some [] | some l ↦ some l ] } in
    elim (Bool-cases (has_addr p.backends b.addr)) [
      | inl old ↦ absurd (ground arith)
      | inr new ↦
          let same : record p {
            backends = p.backends ++ labelled ∷ [];
            state = insert b.addr fresh_state p.state;
          }
              ≡ q =
            ground arith in
          subst IsPool same (record {
            nonempty = omega (arith, length-append p.backends (labelled ∷ []));
            distinct = DistinctAddrs-snoc p.backends labelled v.distinct new;
            tracked = λ j. ground (
              arith,
              v.tracked j,
              has_addr-snoc p.backends labelled j,
              has_key-insert b.addr j fresh_state p.state,
            );
          })
    ]

pub has_addr-remove_addr :
    (bs : List Backend) (addr j : String)
    → DistinctAddrs bs
    → has_addr (remove_addr bs addr) j ≡ (if addr == j then false else has_addr bs j)
unfolding has_addr remove_addr
has_addr-remove_addr [] addr j d = ground arith
has_addr-remove_addr (b ∷ bs) addr j d = ground (
  arith,
  has_addr-remove_addr bs addr j d.1,
  ==_iff {A = String} b.addr addr,
  ==_iff {A = String} b.addr j,
  ==_iff {A = String} addr j,
)

DistinctAddrs-remove_addr :
    (bs : List Backend) (addr : String) → DistinctAddrs bs → DistinctAddrs (remove_addr bs addr)
unfolding remove_addr
DistinctAddrs-remove_addr [] addr d = tt
DistinctAddrs-remove_addr (b ∷ bs) addr d =
    ground (arith, DistinctAddrs-remove_addr bs addr d.1, has_addr-remove_addr bs addr b.addr d.1)

length-remove_addr :
    (bs : List Backend) (addr : String)
    → has_addr bs addr ≡ true
    → suc (length (remove_addr bs addr)) ≡ length bs
unfolding has_addr remove_addr
length-remove_addr [] addr h = absurd (ground arith)
length-remove_addr (b ∷ bs) addr h = ground (arith, length-remove_addr bs addr)

has_key-delete :
    (k j : String) (m : Dict BackendState)
    → has_key (delete k m) j ≡ (if k == j then false else has_key m j)
has_key-delete k j m = ground (arith, lookup-delete k j m)

pub remove-IsPool : (p q : Pool) (addr : String) → IsPool p → remove p addr ≡ ok q → IsPool q
unfolding remove
remove-IsPool p q addr v e =
    let count = length p.backends in
    elim (Bool-cases (has_addr p.backends addr)) [
      | inr absent ↦ absurd (ground arith)
      | inl there ↦
          let several : (nat_beq count 1) ≡ false = ground arith in
          let same : record p {
            backends = remove_addr p.backends addr;
            state = delete addr p.state;
          }
              ≡ q =
            ground arith in
          subst IsPool same (record {
            nonempty =
                ground (arith, length-remove_addr p.backends addr there, v.nonempty, several);
            distinct = DistinctAddrs-remove_addr p.backends addr v.distinct;
            tracked = λ j. ground (
              arith,
              v.tracked j,
              has_addr-remove_addr p.backends addr j v.distinct,
              has_key-delete addr j p.state,
            );
          })
    ]
