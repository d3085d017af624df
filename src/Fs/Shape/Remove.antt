-- ===== src/Fs/Shape/Remove.antt =====
-- The lists of siblings after a node was taken out of one of them.
use hypnos.Base.{
  ℕ, ◌≡◌, ◌≢◌, sym, ◌∙◌, Bool, true, false, none, some, List, arith, ◌==◌, length, length-set,
  get_elem?, get_elem?_of_lt, lt_of_get_elem?, set, if◌then◌else◌, eq_of_some, Bool-cases,
  Option-cases, inl, inr,
}
use native.Mathlib.Decide.{ℕ_discrete}
use hypnos.Fs.{FsNode}
use hypnos.Fs.Shape.{has, Chain, Child, Shape, IsLoose, Below}
use hypnos.Fs.Shape.Cut.{Cuts}
use hypnos.Fs.Shape.Link.{get_elem?-set}

-- The nodes after a cut: `f` is what becomes of the node `q` that pointed to `i`.
abbrev pub removed : List FsNode → ℕ → ℕ → FsNode → FsNode → List FsNode
removed ns i q f n' = set (set ns q f) i (record n' { parent = none; sibling = none })

pub length-removed :
    (ns : List FsNode) (i q : ℕ) (f n' : FsNode) → length (removed ns i q f n') ≡ length ns
length-removed ns i q f n' =
    length-set (set ns q f) i (record n' { parent = none; sibling = none }) ∙ length-set ns q f

module _ (ns : List FsNode) (i q : ℕ) (n qn f n' : FsNode) (prev head : ℕ → Bool)
    (at_i : get_elem? ns i ≡ some n) (at_q : get_elem? ns q ≡ some qn)
    (again : get_elem? (set ns q f) i ≡ some n')
    (f_sibling : f.sibling ≡ (if prev q then n.sibling else qn.sibling))
    (f_child : f.child ≡ (if head q then n.sibling else qn.child)) (f_parent : f.parent ≡ qn.parent)
    (off : (x : ℕ) → x ≢ q → (prev x ≡ false) × (head x ≡ false)) where
  pub removed-Cuts :
      (j : ℕ) (m : FsNode)
      → get_elem? ns j ≡ some m
      → (m' : FsNode) × Cuts ns (removed ns i q f n') i n prev head j m m'
  removed-Cuts j m h =
      let v : FsNode = record n' { parent = none; sibling = none } in
      let first = get_elem?-set ns q j f qn at_q in
      let first_i = get_elem?-set ns q i f qn at_q in
      let second = get_elem?-set (set ns q f) i j v n' again in
      elim (ℕ_discrete i j) [
        | yes e ↦ elim (ℕ_discrete q j) [
          | yes e' ↦ (
            v,
            record {
              found = ground (arith, second);
              sibling = ground arith;
              child = ground (arith, first_i, f_child);
              parent = ground arith;
            },
          )
          | no ne' ↦ (
            v,
            record {
              found = ground (arith, second);
              sibling = ground arith;
              child = ground (arith, first_i, off j);
              parent = ground arith;
            },
          )
        ]
        | no ne ↦ elim (ℕ_discrete q j) [
          | yes e' ↦ (
            f,
            record {
              found = ground (arith, first, second);
              sibling = ground (arith, f_sibling);
              child = ground (arith, f_child);
              parent = ground (arith, f_parent);
            },
          )
          | no ne' ↦ (
            m,
            record {
              found = ground (arith, first, second);
              sibling = ground (arith, off j);
              child = ground (arith, off j);
              parent = ground arith;
            },
          )
        ]
      ]

-- A node is a child of at most one directory.
pub sole_owner :
    (ns : List FsNode) (kids : ℕ → List ℕ)
    → Shape ns kids
    → (p i : ℕ) → has i (kids p) ≡ true
    → (x : ℕ) → x ≢ p
    → has i (kids x) ≡ false
sole_owner ns kids sh p i mine x ne = elim (Bool-cases (has i (kids x))) [
  | inl h ↦
      let (m, e, q) = sh.owned x i h in
      let (m2, e2, q2) = sh.owned p i mine in
      let same : m ≡ m2 = eq_of_some (sym e ∙ e2) in absurd (ne (eq_of_some (sym q ∙ (rw same q2))))
  | inr h ↦ h
]

module _ (ns ms : List FsNode) (i p : ℕ) (n pn : FsNode) (prev head : ℕ → Bool)
    (same_length : length ms ≡ length ns) (at_p : get_elem? ns p ≡ some pn)
    (cuts : (j : ℕ) (m : FsNode)
      → get_elem? ns j ≡ some m
      → (m' : FsNode) × Cuts ns ms i n prev head j m m')
    (kids : ℕ → List ℕ) (zs : List ℕ) (sh : Shape ns kids) (mine : has i (kids p) ≡ true)
    (less : (y : ℕ) → has y zs ≡ true → has y (kids p) ≡ true) (gone : has i zs ≡ false)
    (chain_p : (m' : FsNode) → Cuts ns ms i n prev head p pn m' → Chain ms m'.child zs)
    (chain_x : (x : ℕ) (m m' : FsNode)
      → x ≢ p
      → get_elem? ns x ≡ some m
      → Cuts ns ms i n prev head x m m'
      → Chain ms m'.child (kids x)) where
  only_p : (x : ℕ) → x ≢ p → has i (kids x) ≡ false
  only_p = sole_owner ns kids sh p i mine

  was_there :
      (x : ℕ) (m' : FsNode) → get_elem? ms x ≡ some m' → (m : FsNode) × (get_elem? ns x ≡ some m)
  was_there x m' h = get_elem?_of_lt ns x (omega (arith, lt_of_get_elem? ms x m' h, same_length))

  was_absent : (x : ℕ) → get_elem? ms x ≡ none → get_elem? ns x ≡ none
  was_absent x h = elim (Option-cases (get_elem? ns x)) [
    | inl e ↦ e
    | inr (m, e) ↦ let (m', k) = cuts x m e in absurd (cc (h, k.found))
  ]

  chains_at :
      (x : ℕ) (m' : FsNode)
      → get_elem? ms x ≡ some m'
      → Chain ms m'.child (if x == p then zs else kids x)
  chains_at x m' h =
      let (m, e) = was_there x m' h in
      let (m2, k) = cuts x m e in
      let same : m2 ≡ m' = eq_of_some (sym k.found ∙ h) in
      elim (ℕ_discrete x p) [
        | yes f ↦
            let here : m ≡ pn = eq_of_some (sym e ∙ (rw f at_p)) in
            let t : (x == p) ≡ true = ground arith in
            rw (t, ← same) (chain_p m2 (rw (← here, ← f) k))
        | no ne ↦ let t : (x == p) ≡ false = ground arith in rw (t, ← same) (chain_x x m m2 ne e k)
      ]

  still_has :
      (x y : ℕ) → has y (if x == p then zs else kids x) ≡ true → (has y (kids x) ≡ true) × (y ≢ i)
  still_has x y h = elim (ℕ_discrete x p) [
    | yes e ↦ (ground (arith, less y), λ q. ground (arith, gone))
    | no ne ↦ (ground arith, λ q. ground (arith, only_p x))
  ]

  owned_at : (x y : ℕ) → has y (if x == p then zs else kids x) ≡ true → Child ms x y
  owned_at x y h =
      let (old, ne) = still_has x y h in
      let (m, e, q) = sh.owned x y old in
      let (m', k) = cuts y m e in
      let t : (y == i) ≡ false = ground arith in
      let par : m'.parent ≡ m.parent = ground (arith, k.parent) in (m', k.found, par ∙ q)

  parents_at : (x : ℕ) (m' : FsNode) → get_elem? ms x ≡ some m' → Below m'.parent (length ms)
  parents_at x m' h =
      let (m, e) = was_there x m' h in
      let (m2, k) = cuts x m e in
      let same : m2 ≡ m' = eq_of_some (sym k.found ∙ h) in
      elim (Bool-cases (x == i)) [
        | inl f ↦ let c : m'.parent ≡ none = ground (arith, k.parent) in rw c tt
        | inr f ↦
            let c : m'.parent ≡ m.parent = ground (arith, k.parent) in
            rw (c, same_length) (sh.parents x m e)
      ]

  -- The list of the directory becomes the shorter one; all others stay.
  Shape-removed : Shape ms (λ x. if x == p then zs else kids x)
  Shape-removed = record {
    chains = chains_at;
    owned = owned_at;
    parents = parents_at;
    absent = λ x h. elim (Bool-cases (x == p)) [
      | inl f ↦ absurd (ground (arith, was_absent x h))
      | inr f ↦ rw f (sh.absent x (was_absent x h))
    ];
  }

  removed-IsLoose : IsLoose (λ x. if x == p then zs else kids x) i
  removed-IsLoose x = elim (ℕ_discrete x p) [
    | yes e ↦ ground (arith, gone)
    | no ne ↦ ground (arith, only_p x ne)
  ]

  pub removed_lem : (kids' : ℕ → List ℕ) × Shape ms kids' × IsLoose kids' i
  removed_lem = (_, Shape-removed, removed-IsLoose)
