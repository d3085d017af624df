-- ===== src/Fs/Shape/Link.antt =====
-- Linking a loose node into a directory as its first child.
use hypnos.Base.{
  length-set, get_elem?_of_lt, ℕ, ◌≡◌, refl, sym, ◌∙◌, true, none, some, List, ◌∷◌, arith, ◌==◌,
  length, get_elem?, set, if◌then◌else◌, Bool-cases, Option-cases, inl, inr, lt_of_get_elem?,
  get_elem?-set_self, get_elem?-set_ne, eq_of_some, ◌&&◌,
}
use native.Mathlib.Decide.{ℕ_discrete}
use hypnos.Fs.{FsNode, Ptr}
use hypnos.Fs.Shape.{
  Below, Below-grow, has, Chain, Child, Shape, IsLoose, Chain-frame, SameSiblings,
}

pub get_elem?-set :
    (ns : List FsNode) (i j : ℕ) (v w : FsNode)
    → get_elem? ns i ≡ some w
    → get_elem? (set ns i v) j ≡ (if i == j then some v else get_elem? ns j)
get_elem?-set ns i j v w h = elim (ℕ_discrete i j) [
  | yes e ↦ ground (arith, get_elem?-set_self ns i v (lt_of_get_elem? ns i w h))
  | no ne ↦ ground (arith, get_elem?-set_ne ns i j v ne)
]

-- The nodes after `link d i`, where `n` and `dn` stood at `i` and `d`.
abbrev pub linked : List FsNode → ℕ → ℕ → FsNode → FsNode → FsNode → List FsNode
linked ns d i n dn d' =
    set (set ns i (record n { parent = some d; sibling = dn.child })) d
      (record d' { child = some i })

module _ (ns : List FsNode) (d i : ℕ) (n dn d' : FsNode) (at_i : get_elem? ns i ≡ some n)
    (at_d : get_elem? ns d ≡ some dn)
    (again : get_elem? (set ns i (record n { parent = some d; sibling = dn.child })) d
      ≡ some d') where
  -- What `link` does to the pointers of each node.
  record Links (j : ℕ) (m m' : FsNode) : Type 0 where
    found : get_elem? (linked ns d i n dn d') j ≡ some m'
    sibling : m'.sibling ≡ (if j == i then dn.child else m.sibling)
    parent : m'.parent ≡ (if j == i then some d else m.parent)
    child : m'.child ≡ (if j == d then some i else m.child)

  links : (j : ℕ) (m : FsNode) → get_elem? ns j ≡ some m → (m' : FsNode) × Links j m m'
  links j m h =
      let n1 : FsNode = record n { parent = some d; sibling = dn.child } in
      let v : FsNode = record d' { child = some i } in
      let first = get_elem?-set ns i j n1 n at_i in
      let first_d = get_elem?-set ns i d n1 n at_i in
      let second = get_elem?-set (set ns i n1) d j v d' again in
      elim (ℕ_discrete d j) [
        | yes e ↦ (
          v,
          record {
            found = ground (arith, second);
            sibling = ground (arith, first_d);
            parent = ground (arith, first_d);
            child = ground arith;
          },
        )
        | no ne ↦ elim (ℕ_discrete i j) [
          | yes e ↦ (
            n1,
            record {
              found = ground (arith, first, second);
              sibling = ground arith;
              parent = ground arith;
              child = ground arith;
            },
          )
          | no ne' ↦ (
            m,
            record {
              found = ground (arith, first, second);
              sibling = ground arith;
              parent = ground arith;
              child = ground arith;
            },
          )
        ]
      ]

  unlinked : (j : ℕ) → get_elem? (linked ns d i n dn d') j ≡ none → get_elem? ns j ≡ none
  unlinked j h = elim (Option-cases (get_elem? ns j)) [
    | inl e ↦ e
    | inr (m, e) ↦ let (m', l) = links j m e in absurd (cc (h, l.found))
  ]

  pub length-linked : length (linked ns d i n dn d') ≡ length ns
  length-linked =
      let n1 : FsNode = record n { parent = some d; sibling = dn.child } in
      length-set (set ns i n1) d (record d' { child = some i }) ∙ length-set ns i n1

  still_there :
      (x : ℕ) (m' : FsNode)
      → get_elem? (linked ns d i n dn d') x ≡ some m'
      → get_elem? ns x ≡ none
      → ⊥
  still_there x m' h e =
      let lt = lt_of_get_elem? (linked ns d i n dn d') x m' h in
      let (m, f) = get_elem?_of_lt ns x (omega (arith, length-linked)) in cc (e, f)

  same_siblings : SameSiblings i ns (linked ns d i n dn d')
  same_siblings j m ne h = let (m', l) = links j m h in (m', l.found, ground (arith, l.sibling))

  module _ (kids : ℕ → List ℕ) (sh : Shape ns kids) (loose : IsLoose kids i) where
    kept : (p : Ptr) (x : ℕ) → Chain ns p (kids x) → Chain (linked ns d i n dn d') p (kids x)
    kept p x c = Chain-frame ns (linked ns d i n dn d') i p (kids x) same_siblings (loose x) c

    front : Chain (linked ns d i n dn d') (some i) (i ∷ kids d)
    front =
        let (m', l) = links i n at_i in
        let e : m'.sibling ≡ dn.child = ground (arith, l.sibling) in
        (refl, (m', l.found, rw e (kept dn.child d (sh.chains d dn at_d))))

    Chain-at :
        (x : ℕ) (m' : FsNode)
        → get_elem? (linked ns d i n dn d') x ≡ some m'
        → Chain (linked ns d i n dn d') m'.child (if x == d then i ∷ kids d else kids x)
    Chain-at x m' h = elim (Option-cases (get_elem? ns x)) [
      | inl e ↦ absurd (still_there x m' h e)
      | inr (m, e) ↦
          let (m2, l) = links x m e in
          let same : m2 ≡ m' = eq_of_some (sym l.found ∙ h) in
          elim (Bool-cases (x == d)) [
            | inl f ↦ let c : m'.child ≡ some i = ground (arith, l.child) in rw (f, c) front
            | inr f ↦
                let c : m'.child ≡ m.child = ground (arith, l.child) in
                rw (f, c) (kept m.child x (sh.chains x m e))
          ]
    ]

    owner_of :
        (x j : ℕ)
        → has j (if x == d then i ∷ kids d else kids x) ≡ true
        → Child (linked ns d i n dn d') x j
    owner_of x j h = elim (Bool-cases ((x == d) && (j == i))) [
      | inl f ↦
          let (m', l) = links i n at_i in (m', ground (arith, l.found), ground (arith, l.parent))
      | inr f ↦
          let old : has j (kids x) ≡ true = ground arith in
          let (m, e, q) = sh.owned x j old in
          let (m', l) = links j m e in (m', l.found, ground (arith, l.parent, loose x))
    ]

    parents_at :
        (x : ℕ) (m' : FsNode)
        → get_elem? (linked ns d i n dn d') x ≡ some m'
        → Below m'.parent (length (linked ns d i n dn d'))
    parents_at x m' h = elim (Option-cases (get_elem? ns x)) [
      | inl e ↦ absurd (still_there x m' h e)
      | inr (m, e) ↦
          let (m2, l) = links x m e in
          let same : m2 ≡ m' = eq_of_some (sym l.found ∙ h) in
          elim (Bool-cases (x == i)) [
            | inl f ↦
                let c : m'.parent ≡ some d = ground (arith, l.parent) in
                rw c (omega (arith, lt_of_get_elem? ns d dn at_d, length-linked))
            | inr f ↦
                let c : m'.parent ≡ m.parent = ground (arith, l.parent) in
                rw c (
                  Below-grow m.parent (length ns) _ (omega (arith, length-linked))
                    (sh.parents x m e))
          ]
    ]

    -- The linked node becomes the first child of the directory; all other lists stay.
    pub Shape-linked : Shape (linked ns d i n dn d') (λ x. if x == d then i ∷ kids d else kids x)
    Shape-linked = record {
      chains = Chain-at;
      owned = owner_of;
      parents = parents_at;
      absent = λ x h. elim (Bool-cases (x == d)) [
        | inl f ↦ absurd (ground (arith, unlinked x h))
        | inr f ↦ rw f (sh.absent x (unlinked x h))
      ];
    }
