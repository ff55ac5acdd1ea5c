-- ===== src/Pool/Load.antt =====
-- The load of the backend that `Select` of pkg/service/buildkit/pool.go returns.
use native.Mathlib.Nat.{le_of_mul-le-mul_right, mul-le-mul_right}
use mathlib.Core.List.{Memᴰ}
use melange.Prelude.{
  ◌∙◌, sym, subst, ℕ, ◌*◌, ◌≤◌, ◌<◌, ◌≡◌, refl, true, false, List, [], ◌∷◌, none, some, arith, All,
  Bool-cases, Option-cases, inl, inr, String, ok, err, ◌⊎◌, All-map, string_eq,
}
use melange.Prelude.Int.{ℤ, pos, negsuc, leb_ℤ}
use melange.Prelude.Maps.{Dict, lookup}
use melange.Pool.Defs.{Backend, BackendState, Pool, no_available_backend, effective_max}
use melange.Pool.Choice.{Candidate, ratio_lt, load_lt, candidates, select, select_from, consider}
use melange.Pool.Equivalence.{
  least, least-All, IsCandidate, IsEligible, candidates-IsCandidate, consider-IsEligible,
  select_from-Outcomes, Outcomes,
}
use melange.Pool.Serving.{Serves, IsLimit-effective_max, Serves-consider, IsEligible-Serves}

cross_trans : (a b c m n k : ℕ) → 0 < n → b * m ≤ a * n → c * n ≤ b * k → c * m ≤ a * k
cross_trans a b c m n k h p q =
    le_of_mul-le-mul_right {k = n} (omega (arith, mul-le-mul_right k p, mul-le-mul_right m q)) h

mul_pos : (m n : ℕ) → 0 < m → 0 < n → 0 < m * n
mul_pos m n h k = grind arith

-- Counts as they are while no job is released twice: a running number below a positive limit.
pub record IsCounted (c : Candidate) : Type 0 where
  pub running : ℕ
  pub limit : ℕ
  pub active_eq : c.active ≡ pos running
  pub max_eq : c.max_jobs ≡ pos limit
  pub positive : 0 < limit

ratio_lt-le :
    (a m b n : ℕ) → 0 < m → 0 < n → ratio_lt (pos a) (pos m) (pos b) (pos n) ≡ false → b * m ≤ a * n
unfolding ratio_lt
ratio_lt-le a m b n h k e = ground (arith, mul_pos m n h k)

ratio_lt-lt :
    (a m b n : ℕ) → 0 < m → 0 < n → ratio_lt (pos a) (pos m) (pos b) (pos n) ≡ true → a * n < b * m
unfolding ratio_lt
ratio_lt-lt a m b n h k e = ground (arith, mul_pos m n h k)

le-ratio_lt :
    (a m b n : ℕ) → 0 < m → 0 < n → b * m ≤ a * n → ratio_lt (pos a) (pos m) (pos b) (pos n) ≡ false
unfolding ratio_lt
le-ratio_lt a m b n h k e = ground (arith, mul_pos m n h k)

-- `x` is at least as loaded as `y`.
abbrev pub NotLess : Candidate → Candidate → Type 0
NotLess x y = load_lt x y ≡ false

NotLess-cross :
    (x y : Candidate) (u : IsCounted x) (v : IsCounted y)
    → NotLess x y
    → v.running * u.limit ≤ u.running * v.limit
NotLess-cross x y u v h =
    ratio_lt-le u.running u.limit v.running v.limit u.positive v.positive
      (rw (← u.active_eq, ← u.max_eq, ← v.active_eq, ← v.max_eq) h)

NotLess-of-lt : (x y : Candidate) → IsCounted x → IsCounted y → load_lt y x ≡ true → NotLess x y
NotLess-of-lt x y u v h =
    let less =
      ratio_lt-lt v.running v.limit u.running u.limit v.positive u.positive
        (rw (← u.active_eq, ← u.max_eq, ← v.active_eq, ← v.max_eq) h) in
    rw (u.active_eq, u.max_eq, v.active_eq, v.max_eq)
      (le-ratio_lt u.running u.limit v.running v.limit u.positive v.positive (omega (arith, less)))

NotLess-trans :
    (x y z : Candidate)
    → IsCounted x
    → IsCounted y
    → IsCounted z
    → NotLess x y
    → NotLess y z
    → NotLess x z
NotLess-trans x y z u v w p q =
    rw (u.active_eq, u.max_eq, w.active_eq, w.max_eq)
      (le-ratio_lt u.running u.limit w.running w.limit u.positive w.positive (
        cross_trans u.running v.running w.running u.limit v.limit w.limit v.positive
          (NotLess-cross x y u v p) (NotLess-cross y z v w q)))

least-NotLess :
    (x best : Candidate) (cs : List Candidate)
    → IsCounted x
    → IsCounted best
    → All IsCounted cs
    → NotLess x best
    → NotLess x (least best cs)
least-NotLess x best [] u v a h = h
least-NotLess x best (c ∷ cs) u v a h = elim (Bool-cases (load_lt c best)) [
  | inl less ↦
      rw (less, least)
        (least-NotLess x c cs u a.0 a.1
          (NotLess-trans x best c u v a.0 h (NotLess-of-lt best c v a.0 less)))
  | inr not_less ↦ rw (not_less, least) (least-NotLess x best cs u v a.1 h)
]

NotLess-refl : (x : Candidate) → IsCounted x → NotLess x x
NotLess-refl x u =
    rw (u.active_eq, u.max_eq)
      (le-ratio_lt u.running u.limit u.running u.limit u.positive u.positive (omega arith))

least-less :
    (best c : Candidate) (cs : List Candidate)
    → load_lt c best ≡ true
    → least best (c ∷ cs) ≡ least c cs
least-less best c cs h = rw (h, least) refl

least-not_less :
    (best c : Candidate) (cs : List Candidate)
    → load_lt c best ≡ false
    → least best (c ∷ cs) ≡ least best cs
least-not_less best c cs h = rw (h, least) refl

least-All-NotLess :
    (best : Candidate) (cs : List Candidate)
    → IsCounted best
    → All IsCounted cs
    → All (λ c. NotLess c (least best cs)) cs
least-All-NotLess best [] v a = tt
least-All-NotLess best (c ∷ cs) v a = elim (Bool-cases (load_lt c best)) [
  | inl less ↦
      subst (λ z. All (λ c'. NotLess c' z) (c ∷ cs)) (sym (least-less best c cs less))
        (least-NotLess c c cs a.0 a.0 a.1 (NotLess-refl c a.0), least-All-NotLess c cs a.0 a.1)
  | inr not_less ↦
      subst (λ z. All (λ c'. NotLess c' z) (c ∷ cs)) (sym (least-not_less best c cs not_less))
        (least-NotLess c best cs a.0 v a.1 not_less, least-All-NotLess best cs v a.1)
]

-- No job was released twice: the running counts are not negative.
abbrev pub IsNonnegative : Pool → Type 0
IsNonnegative p =
    (addr : String) (s : BackendState)
    → lookup addr p.state ≡ some s
    → (n : ℕ) × (s.active_jobs ≡ pos n)

room_positive : (n : ℕ) (max : ℤ) → leb_ℤ max (pos n) ≡ false → (m : ℕ) × (max ≡ pos m) × (0 < m)
room_positive n (pos m) h = (m, refl, ground arith)
room_positive n (negsuc m) h = absurd (ground arith)

-- For `a` of `m` slots and `b` of `n` slots taken, that a / m is not above b / n.
pub record IsNoMoreLoaded (a m b n : ℤ) : Type 0 where
  pub taken : ℕ
  pub slots : ℕ
  pub other_taken : ℕ
  pub other_slots : ℕ
  pub counts : (a ≡ pos taken) × (m ≡ pos slots) × (b ≡ pos other_taken) × (n ≡ pos other_slots)
  pub le : taken * other_slots ≤ other_taken * slots

module _ (p : Pool) (arch : String) (selector : Dict String) (now : ℕ) (nn : IsNonnegative p) where
  IsCandidate-IsCounted :
      (bs : List Backend) (c : Candidate) → IsCandidate p arch selector now bs c → IsCounted c
  IsCandidate-IsCounted bs c (b, m, v) =
      let (n, e) = nn b.addr v.state v.tracked in
      let (limit, e', positive) = room_positive n c.max_jobs (rw e at v.has_room) in
      record {
        running = n;
        limit = limit;
        active_eq = v.counted ∙ e;
        max_eq = e';
        positive = positive;
      }

  select-candidates :
      ((select p arch selector now ≡ err no_available_backend)
        × (candidates p arch selector now p.backends ≡ []))
      ⊎ ((b : Backend) × (c : Candidate) × (select p arch selector now ≡ ok b)
          × Memᴰ b p.backends
          × IsEligible p arch selector now b c
          × All (λ c'. NotLess c' c) (candidates p arch selector now p.backends))
  unfolding select
  select-candidates =
      choose (candidates p arch selector now p.backends) refl
        (select_from-Outcomes p arch selector now p.backends)
        (candidates-IsCandidate p arch selector now p.backends)
    where
      choose :
          (cs : List Candidate)
          → candidates p arch selector now p.backends ≡ cs
          → Outcomes p arch selector now cs (select_from p arch selector now p.backends none)
          → All (IsCandidate p arch selector now p.backends) cs
          → ((select p arch selector now ≡ err no_available_backend) × (cs ≡ []))
            ⊎ ((b : Backend) × (c : Candidate) × (select p arch selector now ≡ ok b)
                × Memᴰ b p.backends
                × IsEligible p arch selector now b c
                × All (λ c'. NotLess c' c) cs)
      choose [] e o a = inl (rw (o, select) refl, refl)
      choose (c ∷ cs) e o a =
          let (b, m, v) =
            least-All p arch selector now (IsCandidate p arch selector now p.backends) c cs a.0
              a.1 in
          let first = IsCandidate-IsCounted p.backends c a.0 in
          let others = All-map _ _ cs (IsCandidate-IsCounted p.backends) a.1 in
          inr (
            b,
            least c cs,
            rw (o, select, v.same) refl,
            m,
            v,
            (
              least-NotLess c c cs first first others (NotLess-refl c first),
              least-All-NotLess c cs first others,
            ),
          )

  Memᴰ-candidates :
      (b : Backend) (c : Candidate) (bs : List Backend)
      → Memᴰ b bs
      → consider p arch selector now b ≡ some c
      → Memᴰ c (candidates p arch selector now bs)
  unfolding candidates
  Memᴰ-candidates b c [] m e = elim m [ ]
  Memᴰ-candidates b c (x ∷ bs) (Memᴰ.head h) e =
      let here : consider p arch selector now x ≡ some c =
        subst (λ y. consider p arch selector now y ≡ some c) h e in
      rw (here, candidates) (Memᴰ.head refl)
  Memᴰ-candidates b c (x ∷ bs) (Memᴰ.tail m) e =
      elim (Option-cases (consider p arch selector now x)) [
        | inl out ↦ rw (out, candidates) (Memᴰ-candidates b c bs m e)
        | inr (y, found) ↦ rw (found, candidates) (Memᴰ.tail (Memᴰ-candidates b c bs m e))
      ]

  All-Memᴰ :
      (P : Candidate → Type 0) (cs : List Candidate) (c : Candidate) → All P cs → Memᴰ c cs → P c
  All-Memᴰ P [] c a m = elim m [ ]
  All-Memᴰ P (x ∷ cs) c a (Memᴰ.head e) = subst P (sym e) a.0
  All-Memᴰ P (x ∷ cs) c a (Memᴰ.tail m) = All-Memᴰ P cs c a.1 m

  -- Where no running count is negative, `Select` fails and no backend of the pool may take the job,
  -- or it returns one that may, and no backend of the pool that may take the job has a smaller share
  -- of its slots taken. Which backends may take a job is said without the code's filters.
  pub select-least :
      ((select p arch selector now ≡ err no_available_backend)
        × ((b : Backend) → Memᴰ b p.backends → Serves p arch selector now b → ⊥))
      ⊎ ((b : Backend) × (v : Serves p arch selector now b) × (select p arch selector now ≡ ok b)
          × Memᴰ b p.backends
          × ((other : Backend)
              → Memᴰ other p.backends
              → (w : Serves p arch selector now other)
              → IsNoMoreLoaded v.state.active_jobs v.max_jobs w.state.active_jobs w.max_jobs))
  select-least = elim select-candidates [
    | inl (fails, none_left) ↦ inl (
      fails,
      λ b m v.
          let c : Candidate = record {
            backend = b;
            active = v.state.active_jobs;
            max_jobs = effective_max p.default_max_jobs b;
          } in
          no_member c (
            subst (λ cs. Memᴰ c cs) none_left
              (Memᴰ-candidates b c p.backends m (Serves-consider p arch selector now b v))),
    )
    | inr (b, c, chosen, m, v, least_of) ↦
        let (u, active, max) = IsEligible-Serves p arch selector now b c v in
        inr (
          b,
          u,
          chosen,
          m,
          λ other n w.
              let same = Serves-consider p arch selector now other w in
              let c' : Candidate = record {
                backend = other;
                active = w.state.active_jobs;
                max_jobs = effective_max p.default_max_jobs other;
              } in
              let not_less =
                All-Memᴰ _ (candidates p arch selector now p.backends) c' least_of
                  (Memᴰ-candidates other c' p.backends n same) in
              let x = IsCandidate-IsCounted p.backends c (b, m, v) in
              let y =
                IsCandidate-IsCounted p.backends c'
                  (other, n, consider-IsEligible p arch selector now other c' same) in
              record {
                taken = x.running;
                slots = x.limit;
                other_taken = y.running;
                other_slots = y.limit;
                counts = (
                  active ∙ x.active_eq,
                  max ∙ x.max_eq,
                  y.active_eq,
                  IsLimit-effective_max p other w.max_jobs w.limit ∙ y.max_eq,
                );
                le = NotLess-cross c' c y x not_less;
              },
        )
  ]
    where
      no_member : (c : Candidate) → Memᴰ c [] → ⊥
      no_member c m = elim m [ ]
