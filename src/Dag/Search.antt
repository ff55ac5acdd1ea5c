-- ===== src/Dag/Search.antt =====
-- The fuel of `DetectCycle` in pkg/service/dag/dag.go is enough.
use melange.Prelude.{
  ℕ, zero, suc, ◌≤◌, ◌≡◌, refl, Bool, true, false, List, [], ◌∷◌, Option, none, some, String, arith,
  ==_iff, string_eq, contains, length, nat_beq, nat_beq_iff, Option-cases, Bool-cases, inl, inr,
}
use melange.Prelude.Maps.{Dict, lookup, has_key}
use melange.Types.{Node}
use melange.Dag.Cycle.{Dfs, set_state, set_parent, visit_deps, dfs, search_all, detect_cycle}
use melange.Dag.Paths.{
  white, Chain, Inv, walk_back-some, off_path, Inv-set_parent, Inv-pop, Inv-push, Chain-set_parent,
  white_start,
}

-- A search from a node ends, and when it finds no cycle it leaves the path as it was.
abbrev Ends : Dict Node → List String → ℕ → Option (Bool × Dfs) → Type 0
Ends m path before r =
    (found : Bool) × (s : Dfs) × (r ≡ some (found, s))
    × (found ≡ false → Inv m path s × (white m s.state ≤ before))

-- What the recursive call promises at a node that is not visited.
abbrev Searches : Dict Node → ℕ → List String → (String → Dfs → Option (Bool × Dfs)) → Type 0
Searches m depth path rec =
    (dep : String) (s : Dfs)
    → Inv m path s
    → Chain s.parent (dep ∷ path)
    → has_key m dep ≡ true
    → s.state dep ≡ 0
    → white m s.state ≤ depth
    → Ends m path (white m s.state) (rec dep s)

visit_deps-Ends :
    (fuel depth : ℕ) (m : Dict Node) (rec : String → Dfs → Option (Bool × Dfs)) (name : String)
    (path : List String)
    → length m ≤ fuel
    → Searches m depth (name ∷ path) rec
    → contains path name ≡ false
    → (deps : List String) (s : Dfs) → Inv m (name ∷ path) s
    → white m s.state ≤ depth
    → Ends m path (white m s.state) (visit_deps fuel m rec name deps s)
unfolding visit_deps
visit_deps-Ends fuel depth m rec name path enough searches off [] s v le =
    (false, set_state s name 2, refl, λ _. Inv-pop m name path s off v)
visit_deps-Ends fuel depth m rec name path enough searches off (dep ∷ deps) s v le =
    let skip = visit_deps-Ends fuel depth m rec name path enough searches off deps s v le in
    elim (Bool-cases (has_key m dep)) [
      | inr outside ↦ rw (outside, visit_deps) skip
      | inl inside ↦ elim (Bool-cases (nat_beq (s.state dep) 1)) [
        | inl grey ↦
            let (l, e) =
              walk_back-some fuel s.parent dep name path (dep ∷ name ∷ []) v.chain
                (v.grey dep ((nat_beq_iff _ _).0 grey)) (omega (arith, v.room)) in
            (true, record s { cycle_path = l }, rw (inside, grey, e, visit_deps) refl, λ f. cc)
        | inr not_grey ↦ elim (Bool-cases (nat_beq (s.state dep) 0)) [
          | inr black ↦ rw (inside, not_grey, black, visit_deps) skip
          | inl fresh ↦
              let zero_dep : s.state dep ≡ 0 = (nat_beq_iff _ _).0 fresh in
              let (found, s', e, after) =
                searches dep (set_parent s dep name)
                  (Inv-set_parent m (name ∷ path) s dep name zero_dep v)
                  (
                    ground (arith, ==_iff {A = String} dep dep),
                    Chain-set_parent s dep name (name ∷ path)
                        (off_path m (name ∷ path) s dep v zero_dep) v.chain,
                  )
                  inside zero_dep le in
              elim (Bool-cases found) [
                | inl cyclic ↦
                    (true, s', rw (inside, not_grey, fresh, e, cyclic, visit_deps) refl, λ f. cc)
                | inr none_here ↦
                    let (v', less) = after none_here in
                    let (found', t, e', after') =
                      visit_deps-Ends fuel depth m rec name path enough searches off deps s' v'
                        (omega (arith, less, le)) in
                    (
                      found',
                      t,
                      rw (inside, not_grey, fresh, e, none_here, visit_deps) e',
                      λ f. let (w, less') = after' f in (w, omega (arith, less, less')),
                    )
              ]
        ]
      ]
    ]

dfs-Ends :
    (fuel : ℕ) (m : Dict Node)
    → length m ≤ fuel
    → (depth : ℕ) (path : List String) → Searches m depth path (λ dep. dfs fuel depth m dep)
unfolding dfs
dfs-Ends fuel m enough zero path name s v c key fresh le =
    absurd (omega (arith, (Inv-push m name path s key fresh c v).1))
dfs-Ends fuel m enough (suc depth) path name s v c key fresh le =
    let (pushed, fewer) = Inv-push m name path s key fresh c v in
    elim (Option-cases (lookup name m)) [
      | inl miss ↦ absurd (ground arith)
      | inr (n, found) ↦
          let (cyclic, t, e, after) =
            visit_deps-Ends fuel depth m (λ dep. dfs fuel depth m dep) name path enough
              (dfs-Ends fuel m enough depth (name ∷ path)) (off_path m path s name v fresh)
              n.dependencies (set_state s name 1) pushed (omega (arith, fewer, le)) in
          (
            cyclic,
            t,
            rw (found, dfs) e,
            λ f. let (w, less) = after f in (w, omega (arith, less, fewer)),
          )
    ]

search_all-some :
    (m : Dict Node) (names : List String) (s : Dfs)
    → ((k : String) → contains names k ≡ true → has_key m k ≡ true)
    → Inv m [] s
    → (c : Option (List String)) × (search_all (suc (length m)) m names s ≡ some c)
unfolding search_all contains
search_all-some m [] s keys v = (none, refl)
search_all-some m (name ∷ names) s keys v =
    let others : (k : String) → contains names k ≡ true → has_key m k ≡ true =
      λ k h. keys k (ground arith) in
    elim (Bool-cases (nat_beq (s.state name) 0)) [
      | inr seen ↦ rw (seen, search_all) (search_all-some m names s others v)
      | inl fresh ↦
          let (found, t, e, after) =
            dfs-Ends (suc (length m)) m (omega arith) (suc (length m)) [] name s v tt
              (keys name (ground (arith, ==_iff {A = String} name name)))
              ((nat_beq_iff _ _).0 fresh) (omega (arith, v.room)) in
          elim (Bool-cases found) [
            | inl cyclic ↦ (some t.cycle_path, rw (fresh, e, cyclic, search_all) refl)
            | inr none_here ↦
                let (c, rest) = search_all-some m names t others (after none_here).0 in
                (c, rw (fresh, e, none_here, search_all) rest)
          ]
    ]

-- For names of nodes the search ends, and says whether it found a cycle.
pub detect_cycle-some :
    (m : Dict Node) (names : List String)
    → ((k : String) → contains names k ≡ true → has_key m k ≡ true)
    → (c : Option (List String)) × (detect_cycle m names ≡ some c)
unfolding detect_cycle contains
detect_cycle-some m names keys =
    search_all-some m names (record { state = λ _. 0; parent = λ _. none; cycle_path = [] }) keys
      (record {
        chain = tt;
        grey = λ j e. absurd (omega (arith, e));
        on_path = λ j h. absurd (ground arith);
        room = omega (arith, white_start m);
      })
