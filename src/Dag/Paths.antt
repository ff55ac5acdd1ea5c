-- ===== src/Dag/Paths.antt =====
-- The current path of `DetectCycle` in pkg/service/dag/dag.go, and the nodes that are not visited.
use melange.Prelude.{
  ℕ, zero, suc, ◌+◌, ◌≤◌, ◌≡◌, refl, true, false, List, [], ◌∷◌, Option, some, String, arith,
  if◌then◌else◌, ◌==◌, ==_iff, string_eq, contains, length, nat_beq, nat_beq_iff, Bool-cases, inl,
  inr,
}
use melange.Prelude.Maps.{Dict, lookup, has_key}
use melange.Types.{Node}
use melange.Dag.Cycle.{Dfs, set_state, set_parent, walk_back}

-- The number of nodes that are not visited.
abbrev pub white : Dict Node → (String → ℕ) → ℕ
white [] state = 0
white ((k, n) ∷ m) state = (if nat_beq (state k) 0 then 1 else 0) + white m state

-- Each name of a path has the next one as its parent.
abbrev pub Chain : (String → Option String) → List String → Type 0
Chain parent [] = Unit
Chain parent (a ∷ []) = Unit
Chain parent (a ∷ b ∷ path) = (parent a ≡ some b) × Chain parent (b ∷ path)

-- `path` is the current path, the last name first: its names are those in state 1.
pub record Inv (m : Dict Node) (path : List String) (s : Dfs) : Type 0 where
  pub chain : Chain s.parent path
  pub grey : (j : String) → s.state j ≡ 1 → contains path j ≡ true
  pub on_path : (j : String) → contains path j ≡ true → s.state j ≡ 1
  pub room : length path + white m s.state ≤ length m

white_mono :
    (m : Dict Node) (f g : String → ℕ) → ((j : String) → f j ≡ 0 → g j ≡ 0) → white m f ≤ white m g
white_mono [] f g h = omega arith
white_mono ((k, n) ∷ m) f g h =
    ground (arith, white_mono m f g h, h k, nat_beq_iff (f k) 0, nat_beq_iff (g k) 0)

white_drop :
    (m : Dict Node) (f g : String → ℕ) (k : String)
    → ((j : String) → f j ≡ 0 → g j ≡ 0)
    → has_key m k ≡ true
    → f k ≡ 1
    → g k ≡ 0
    → suc (white m f) ≤ white m g
unfolding lookup
white_drop [] f g k h key now before = absurd (ground arith)
white_drop ((j, n) ∷ m) f g k h key now before = elim (Bool-cases (j == k)) [
  | inl here ↦
      let same : j ≡ k = (==_iff {A = String} j k).0 here in
      let now_j : f j ≡ 1 = rw same now in
      let before_j : g j ≡ 0 = rw same before in
      rw (now_j, before_j) (omega (arith, white_mono m f g h))
  | inr there ↦ ground (
    arith,
    white_drop m f g k h (ground arith) now before,
    h j,
    nat_beq_iff (f j) 0,
    nat_beq_iff (g j) 0,
  )
]

pub white_start : (m : Dict Node) → white m (λ _. 0) ≤ length m
white_start [] = omega arith
white_start (x ∷ m) = omega (arith, white_start m)

pub Chain-set_parent :
    (s : Dfs) (k p : String) (path : List String)
    → contains path k ≡ false
    → Chain s.parent path
    → Chain (set_parent s k p).parent path
unfolding contains
Chain-set_parent s k p [] h c = tt
Chain-set_parent s k p (a ∷ []) h c = tt
Chain-set_parent s k p (a ∷ b ∷ path) h c =
    let other : (k == a) ≡ false =
      ground (arith, ==_iff {A = String} k a, ==_iff {A = String} a k) in
    (rw other c.0, Chain-set_parent s k p (b ∷ path) (ground arith) c.1)

pub walk_back-some :
    (fuel : ℕ) (parent : String → Option String) (dep cur : String) (path acc : List String)
    → Chain parent (cur ∷ path)
    → contains (cur ∷ path) dep ≡ true
    → length (cur ∷ path) ≤ fuel
    → (l : List String) × (walk_back fuel parent dep cur acc ≡ some l)
unfolding walk_back contains
walk_back-some zero parent dep cur path acc c h le = absurd (omega arith)
walk_back-some (suc fuel) parent dep cur [] acc c h le =
    let here : (cur == dep) ≡ true = ground arith in (acc, rw (here, walk_back) refl)
walk_back-some (suc fuel) parent dep cur (p ∷ path) acc c h le = elim (Bool-cases (cur == dep)) [
  | inl here ↦ (acc, rw (here, walk_back) refl)
  | inr there ↦
      let (l, e) =
        walk_back-some fuel parent dep p path (p ∷ acc) c.1 (ground arith) (omega (arith, le)) in
      (l, rw (there, c.0, walk_back) e)
]

pub off_path :
    (m : Dict Node) (path : List String) (s : Dfs) (dep : String)
    → Inv m path s
    → s.state dep ≡ 0
    → contains path dep ≡ false
off_path m path s dep v fresh = elim (Bool-cases (contains path dep)) [
  | inl on ↦ absurd (omega (arith, v.on_path dep on))
  | inr off ↦ off
]

pub Inv-set_parent :
    (m : Dict Node) (path : List String) (s : Dfs) (dep p : String)
    → s.state dep ≡ 0
    → Inv m path s
    → Inv m path (set_parent s dep p)
Inv-set_parent m path s dep p fresh v = record {
  chain = Chain-set_parent s dep p path (off_path m path s dep v fresh) v.chain;
  grey = v.grey;
  on_path = v.on_path;
  room = v.room;
}

pub Inv-pop :
    (m : Dict Node) (name : String) (path : List String) (s : Dfs)
    → contains path name ≡ false
    → Inv m (name ∷ path) s
    → Inv m path (set_state s name 2) × (white m (set_state s name 2).state ≤ white m s.state)
unfolding contains
Inv-pop m name path s off v =
    let fewer : white m (set_state s name 2).state ≤ white m s.state =
      white_mono m (set_state s name 2).state s.state (λ j e. ground arith) in
    (
      record {
        chain = tail path v.chain;
        grey = λ j e. ground (arith, v.grey j);
        on_path = λ j h. ground (arith, v.on_path j, ==_iff {A = String} name j);
        room = omega (arith, v.room, fewer);
      },
      fewer,
    )
  where
    tail : (rest : List String) → Chain s.parent (name ∷ rest) → Chain s.parent rest
    tail [] c = tt
    tail (b ∷ rest) c = c.1

pub Inv-push :
    (m : Dict Node) (name : String) (path : List String) (s : Dfs)
    → has_key m name ≡ true
    → s.state name ≡ 0
    → Chain s.parent (name ∷ path)
    → Inv m path s
    → Inv m (name ∷ path) (set_state s name 1)
      × (suc (white m (set_state s name 1).state) ≤ white m s.state)
unfolding contains
Inv-push m name path s key fresh c v =
    let fewer : suc (white m (set_state s name 1).state) ≤ white m s.state =
      white_drop m (set_state s name 1).state s.state name (λ j e. ground arith) key
        (ground (arith, ==_iff {A = String} name name)) fresh in
    (
      record {
        chain = c;
        grey = λ j e. ground (arith, v.grey j);
        on_path = λ j h. ground (arith, v.on_path j);
        room = omega (arith, v.room, fewer);
      },
      fewer,
    )
