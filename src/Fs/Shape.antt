-- ===== src/Fs/Shape.antt =====
-- The lists of siblings in the store: which nodes are the children of which.
pub mod Count
pub mod Link
pub mod Cut
pub mod Remove
pub mod Update
use mathlib.Core.Path.{ap₂}
use hypnos.Base.{
  eq_of_some, sym, ◌∙◌, ℕ, zero, suc, ◌+◌, ◌<◌, ◌≤◌, ◌≡◌, ◌≢◌, refl, ap, Bool, true, false, ◌||◌,
  Option, none, some, List, [], ◌∷◌, arith, ◌==◌, length, get_elem?, All, if◌then◌else◌,
}
use hypnos.Base.Int.{is_zero}
use hypnos.CStr.{CString, kstrcmp}
use hypnos.Fs.{FsNode, Ptr}

abbrev pub has : ℕ → List ℕ → Bool
has i [] = false
has i (j ∷ js) = (i == j) || has i js

-- From `p` the `sibling` pointers lead through the nodes of the list, in order, to a null pointer.
abbrev pub Chain : List FsNode → Ptr → List ℕ → Type 0
Chain ns p [] = p ≡ none
Chain ns p (i ∷ is) =
    (p ≡ some i) × ((n : FsNode) × (get_elem? ns i ≡ some n) × Chain ns n.sibling is)

-- The node at `i` has the directory `d` for its parent.
abbrev pub Child : List FsNode → ℕ → ℕ → Type 0
Child ns d i = (n : FsNode) × (get_elem? ns i ≡ some n) × (n.parent ≡ some d)

-- A pointer that is null or below `size`.
abbrev pub Below : Ptr → ℕ → Type 0
Below none size = Unit {0}
Below (some i) size = i < size

pub Below-grow : (p : Ptr) (a b : ℕ) → a ≤ b → Below p a → Below p b
Below-grow none a b le h = h
Below-grow (some i) a b le h = omega arith

-- `kids d` are the children of node `d`, first to last; every child points back to its parent, so
-- that no node is a child twice, and every parent exists or is null.
pub record Shape (ns : List FsNode) (kids : ℕ → List ℕ) : Type 0 where
  pub chains : (d : ℕ) (n : FsNode) → get_elem? ns d ≡ some n → Chain ns n.child (kids d)
  pub owned : (d i : ℕ) → has i (kids d) ≡ true → Child ns d i
  pub absent : (d : ℕ) → get_elem? ns d ≡ none → kids d ≡ []
  pub parents : (d : ℕ) (n : FsNode) → get_elem? ns d ≡ some n → Below n.parent (length ns)

-- Node `i` is nobody's child.
abbrev pub IsLoose : (ℕ → List ℕ) → ℕ → Type 0
IsLoose kids i = (d : ℕ) → has i (kids d) ≡ false

-- The first node of a list that has the name.
unfoldable pub find_child : List FsNode → List ℕ → CString → Ptr
find_child ns [] name = none
find_child ns (i ∷ is) name = elim (get_elem? ns i) [
  | none ↦ find_child ns is name
  | some n ↦ if is_zero (kstrcmp n.name name) then some i else find_child ns is name
]

-- Two stores with the same siblings off the node `i`.
abbrev pub SameSiblings : ℕ → List FsNode → List FsNode → Type 0
SameSiblings i ns ms =
    (j : ℕ) (n : FsNode)
    → j ≢ i
    → get_elem? ns j ≡ some n
    → (m : FsNode) × (get_elem? ms j ≡ some m) × (m.sibling ≡ n.sibling)

pub Chain-frame :
    (ns ms : List FsNode) (i : ℕ) (p : Ptr) (is : List ℕ)
    → SameSiblings i ns ms
    → has i is ≡ false
    → Chain ns p is
    → Chain ms p is
Chain-frame ns ms i p [] same out c = c
Chain-frame ns ms i p (j ∷ is) same out (e, (n, en, rest)) =
    let (m, em, es) = same j n (ground arith) en in
    (e, (m, em, Chain-frame ns ms i m.sibling is same (ground arith) (rw es rest)))

-- The nodes of a chain are determined by its start.
pub Chain-unique :
    (ns : List FsNode) (p : Ptr) (xs ys : List ℕ) → Chain ns p xs → Chain ns p ys → xs ≡ ys
Chain-unique ns p [] [] c d = refl
Chain-unique ns p [] (y ∷ ys) c d = absurd (cc (c, d.0))
Chain-unique ns p (x ∷ xs) [] c d = absurd (cc (d, c.0))
Chain-unique ns p (x ∷ xs) (y ∷ ys) (e, (n, en, c)) (f, (m, em, d)) =
    let same_node : x ≡ y = eq_of_some (sym e ∙ f) in
    let same_fields : n ≡ m = eq_of_some (sym en ∙ (rw same_node em)) in
    let d' : Chain ns n.sibling ys = rw same_fields d in
    ap₂ ◌∷◌ same_node (Chain-unique ns n.sibling xs ys c d')
