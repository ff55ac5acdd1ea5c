-- ===== src/Pool/Leases/Lookup.antt =====
-- Lookups by address, and the counting of leases.
use mathlib.Core.List.{Memᴰ}
use melange.Prelude.{
  ℕ, suc, ◌≤◌, ◌<◌, ◌≡◌, refl, Bool, true, false, List, [], ◌∷◌, ◌++◌, none, some, String, arith,
  if◌then◌else◌, ◌==◌, ==_iff, string_eq, contains, count_if, Bool-cases, inl, inr,
}
use melange.Prelude.Int.{ℤ, pos, negsuc, ◌+ℤ◌, ◌≤ℤ◌, wrap32, two31, leb_ℤ}
use melange.Pool.Defs.{Backend, BackendState, release_state, has_addr, remove_addr}
use melange.Pool.Invariant.{DistinctAddrs}
use melange.Pool.Leases.{find, held, erase}

pub find-has_addr :
    (bs : List Backend) (addr : String) (b : Backend)
    → find bs addr ≡ some b
    → has_addr bs addr ≡ true
unfolding find has_addr
find-has_addr [] addr b e = absurd (ground arith)
find-has_addr (x ∷ bs) addr b e = ground (arith, find-has_addr bs addr b)

pub find-none : (bs : List Backend) (addr : String) → has_addr bs addr ≡ false → find bs addr ≡ none
unfolding find has_addr
find-none [] addr h = refl
find-none (x ∷ bs) addr h = ground (arith, find-none bs addr)

pub find-Memᴰ :
    (bs : List Backend) (b : Backend) → DistinctAddrs bs → Memᴰ b bs → find bs b.addr ≡ some b
unfolding find has_addr
find-Memᴰ [] b d m = elim m [ ]
find-Memᴰ (x ∷ bs) b d (Memᴰ.head e) =
    ground (arith, ==_iff {A = String} b.addr b.addr, ==_iff {A = String} x.addr b.addr)
find-Memᴰ (x ∷ bs) b d (Memᴰ.tail m) =
    ground
      (arith, find-Memᴰ bs b d.1 m, find-has_addr bs b.addr b, ==_iff {A = String} x.addr b.addr)

pub held-cons :
    (leases : List String) (a addr : String)
    → held (a ∷ leases) addr ≡ (if a == addr then suc (held leases addr) else held leases addr)
unfolding count_if
held-cons leases a addr = ground arith

pub held-erase :
    (leases : List String) (a addr : String)
    → contains leases a ≡ true
    → held leases addr
      ≡ (if a == addr then suc (held (erase a leases) addr) else held (erase a leases) addr)
unfolding count_if erase contains
held-erase [] a addr h = absurd (ground arith)
held-erase (x ∷ leases) a addr h = ground (
  arith,
  held-erase leases a addr,
  ==_iff {A = String} x a,
  ==_iff {A = String} x addr,
  ==_iff {A = String} a addr,
)

pub contains-erase :
    (leases : List String) (a addr : String)
    → contains (erase a leases) addr ≡ true
    → contains leases addr ≡ true
unfolding erase contains
contains-erase [] a addr h = h
contains-erase (x ∷ leases) a addr h = ground (arith, contains-erase leases a addr)

pub held_pos :
    (leases : List String) (addr : String) → contains leases addr ≡ true → 0 < held leases addr
unfolding count_if contains
held_pos [] addr h = absurd (ground arith)
held_pos (x ∷ leases) addr h = ground (arith, held_pos leases addr)

pub not_held :
    (leases : List String) (addr : String) → contains leases addr ≡ false → held leases addr ≡ 0
unfolding count_if contains
not_held [] addr h = refl
not_held (x ∷ leases) addr h = ground (arith, not_held leases addr)

-- One more job, below a limit that fits.
pub one_more :
    (n : ℕ) (max : ℤ)
    → leb_ℤ max (pos n) ≡ false
    → max ≤ℤ pos 2147483647
    → (wrap32 (pos n +ℤ pos 1) ≡ pos (suc n)) × (pos (suc n) ≤ℤ max)
unfolding wrap32
one_more n (pos m) h k = (ground arith, ground arith)
one_more n (negsuc m) h k = absurd (ground arith)

-- One job less.
pub one_less : (n : ℕ) → n < two31 → wrap32 (pos (suc n) +ℤ negsuc 0) ≡ pos n
unfolding wrap32
one_less n h = ground arith

pub has_addr-find :
    (bs : List Backend) (addr : String)
    → has_addr bs addr ≡ true
    → (b : Backend) × (find bs addr ≡ some b)
unfolding has_addr find
has_addr-find [] addr h = absurd (ground arith)
has_addr-find (x ∷ bs) addr h = elim (Bool-cases (x.addr == addr)) [
  | inl hit ↦ (x, rw hit refl)
  | inr miss ↦ let (b, e) = has_addr-find bs addr (ground arith) in (b, rw miss e)
]

pub find-snoc :
    (bs : List Backend) (b : Backend) (addr : String)
    → find (bs ++ b ∷ []) addr
      ≡ elim (find bs addr) [ none ↦ if b.addr == addr then some b else none | some x ↦ some x ]
unfolding find
find-snoc [] b addr = refl
find-snoc (x ∷ bs) b addr = ground (arith, find-snoc bs b addr)

pub find-remove_addr :
    (bs : List Backend) (addr j : String)
    → DistinctAddrs bs
    → find (remove_addr bs addr) j ≡ (if addr == j then none else find bs j)
unfolding find remove_addr has_addr
find-remove_addr [] addr j d = ground arith
find-remove_addr (x ∷ bs) addr j d = ground (
  arith,
  find-remove_addr bs addr j d.1,
  find-none bs j,
  ==_iff {A = String} x.addr addr,
  ==_iff {A = String} x.addr j,
  ==_iff {A = String} addr j,
)

pub ℤ_le_trans : (n : ℕ) (m : ℤ) (k : ℕ) → pos n ≤ℤ m → m ≤ℤ pos k → n ≤ k
ℤ_le_trans n m k h e = omega arith

pub fewer : (a b : ℕ) (m : ℤ) → a ≤ b → pos b ≤ℤ m → pos a ≤ℤ m
fewer a b m h e = omega arith

pub release_state-active :
    (threshold : ℤ) (now : ℕ) (success : Bool) (st : BackendState) (n : ℕ)
    → st.active_jobs ≡ pos (suc n)
    → n < two31
    → (release_state threshold now success st).active_jobs ≡ pos n
unfolding release_state
release_state-active threshold now true st n e h = rw e (one_less n h)
release_state-active threshold now false st n e h = rw e (one_less n h)
