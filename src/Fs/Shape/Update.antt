-- ===== src/Fs/Shape/Update.antt =====
-- Writing to a node without touching its links.
use hypnos.Base.{
  ℕ, ◌≡◌, refl, sym, ◌∙◌, none, some, List, [], ◌∷◌, arith, length, length-set, get_elem?,
  get_elem?_of_lt, lt_of_get_elem?, set, eq_of_some, Option-cases, inl, inr,
}
use native.Mathlib.Decide.{ℕ_discrete}
use hypnos.Fs.{Fs, FsNode, Ptr}
use hypnos.Fs.Monad.{store}
use hypnos.Fs.Shape.{Chain, Shape, Below}
use hypnos.Fs.Shape.Link.{get_elem?-set}
use hypnos.Fs.Nodes.Make.{IsNode-grow}
use hypnos.Fs.Valid.{Returns, returns, IsValid}

-- Two nodes with the same links.
pub record SameLinks (m m' : FsNode) : Type 0 where
  pub parent : m'.parent ≡ m.parent
  pub child : m'.child ≡ m.child
  pub sibling : m'.sibling ≡ m.sibling

module _ (ns : List FsNode) (i : ℕ) (n f : FsNode) (at_i : get_elem? ns i ≡ some n)
    (links : SameLinks n f) where
  updated :
      (j : ℕ) (m : FsNode)
      → get_elem? ns j ≡ some m
      → (m' : FsNode) × (get_elem? (set ns i f) j ≡ some m') × SameLinks m m'
  updated j m h = elim (ℕ_discrete i j) [
    | yes e ↦
        let same : n ≡ m = eq_of_some (sym at_i ∙ (rw e h)) in
        (f, ground (arith, get_elem?-set ns i j f n at_i), rw (← same) links)
    | no ne ↦ (
      m,
      ground (arith, get_elem?-set ns i j f n at_i),
      record { parent = refl; child = refl; sibling = refl },
    )
  ]

  Chain-updated : (p : Ptr) (xs : List ℕ) → Chain ns p xs → Chain (set ns i f) p xs
  Chain-updated p [] c = c
  Chain-updated p (x ∷ xs) (e, (m, em, rest)) =
      let (m', em', l) = updated x m em in
      (e, (m', em', rw l.sibling (Chain-updated m.sibling xs rest)))

  before :
      (j : ℕ) (m' : FsNode)
      → get_elem? (set ns i f) j ≡ some m'
      → (m : FsNode) × (get_elem? ns j ≡ some m) × SameLinks m m'
  before j m' h =
      let lt = lt_of_get_elem? (set ns i f) j m' h in
      let (m, e) = get_elem?_of_lt ns j (omega (arith, length-set ns i f)) in
      let (m2, e2, l) = updated j m e in
      let same : m2 ≡ m' = eq_of_some (sym e2 ∙ h) in (m, e, rw same at l)

  absent_before : (j : ℕ) → get_elem? (set ns i f) j ≡ none → get_elem? ns j ≡ none
  absent_before j h = elim (Option-cases (get_elem? ns j)) [
    | inl e ↦ e
    | inr (m, e) ↦ let (m', e', l) = updated j m e in absurd (cc (h, e'))
  ]

  parents_at :
      (kids : ℕ → List ℕ)
      → Shape ns kids
      → (j : ℕ) (m' : FsNode) → get_elem? (set ns i f) j ≡ some m'
      → Below m'.parent (length (set ns i f))
  parents_at kids sh j m' h =
      let (m, e, l) = before j m' h in rw (l.parent, length-set ns i f) (sh.parents j m e)

  pub Shape-updated : (kids : ℕ → List ℕ) → Shape ns kids → Shape (set ns i f) kids
  Shape-updated kids sh = record {
    chains = λ d m' h.
        let (m, e, l) = before d m' h in
        rw l.child (Chain-updated m.child (kids d) (sh.chains d m e));
    owned = λ d j h.
        let (m, e, q) = sh.owned d j h in let (m', e', l) = updated j m e in (m', e', l.parent ∙ q);
    absent = λ d h. sh.absent d (absent_before d h);
    parents = parents_at kids sh;
  }

-- The state after such a write is well formed, with the same children.
pub valid-updated :
    {kids : ℕ → List ℕ} {s : Fs} (v : IsValid kids s) (i : ℕ) (n f : FsNode)
    → get_elem? s.nodes i ≡ some n
    → SameLinks n f
    → IsValid kids (record s { nodes = set s.nodes i f })
valid-updated {kids} {s} v i n f at_i links =
    let s' : Fs = record s { nodes = set s.nodes i f } in
    let e : length s'.nodes ≡ length s.nodes = length-set s.nodes i f in
    record {
      shape = Shape-updated s.nodes i n f at_i links kids v.shape;
      root_in = IsNode-grow s s' s.root (omega (arith, e)) v.root_in;
      cwd_in = IsNode-grow s s' s.cwd (omega (arith, e)) v.cwd_in;
      keyed = v.keyed;
    }

-- Writing a node with the same links keeps the filesystem well formed, with the same children.
pub store-Returns :
    {kids : ℕ → List ℕ} {s : Fs} (v : IsValid kids s) (i : ℕ) (n f : FsNode)
    → get_elem? s.nodes i ≡ some n
    → SameLinks n f
    → Returns (λ u s'. IsValid kids s' × (length s'.nodes ≡ length s.nodes)) (store i f s)
unfolding store
store-Returns {kids} {s} v i n f at_i links =
    returns (valid-updated v i n f at_i links, length-set s.nodes i f)
