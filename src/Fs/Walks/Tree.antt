-- ===== src/Fs/Walks/Tree.antt =====
-- `fs_tree_cwd` on a tree: the calls of the callback are the nodes below the current directory.
use mathlib.Core.Path.{subst}
use hypnos.Base.{
  sym, ℕ, zero, suc, ◌+◌, ◌<◌, ◌≤◌, ◌≡◌, refl, sym, Bool, true, false, none, some, List, [], ◌∷◌,
  ◌++◌, arith, length, get_elem?, get_elem?_of_lt, Bool-cases, inl, inr, if◌then◌else◌,
}
use hypnos.CStr.{CString}
use hypnos.Fs.{Fs, FsNode, Ptr}
use hypnos.Fs.Monad.{FsM}
use hypnos.Fs.Shape.{Chain}
use hypnos.Fs.Valid.{Returns, returns, bind, mono, IsNode, IsValid}
use hypnos.Fs.Valid.Lookup.{load_ok}
use hypnos.Fs.Walks.{tree_below, tree_walk, tree_in, tree_cwd}

-- The order of a list of children: below `bound`, each before the next.
abbrev pub Descends : (ℕ → ℕ) → ℕ → List ℕ → Type 0
Descends order bound [] = Unit {0}
Descends order bound (i ∷ is) = (order i < bound) × Descends order (order i) is

-- There is no way around: the nodes can be numbered below their count so that the children of a node
-- come before it, and each before the one in front of it.
pub record IsTree (order : ℕ → ℕ) (kids : ℕ → List ℕ) (size : ℕ) : Type 0 where
  pub descends : (d : ℕ) → Descends order (order d) (kids d)
  pub bounded : (d : ℕ) → d < size → order d < size

-- A call of the callback: the name, the kind and the depth.
abbrev pub Entry : Type 0
Entry = CString × Bool × ℕ

-- The lines of the nodes of a list and of all nodes below them, in the order of a book's contents.
pub data Lists (ns : List FsNode) (kids : ℕ → List ℕ) : List ℕ → ℕ → List Entry → Type 0 where
  lists_nil : {depth : ℕ} → Lists ns kids [] depth []
  lists_cons :
      {i depth : ℕ} {is : List ℕ} {n : FsNode} {sub rest : List Entry}
      → get_elem? ns i ≡ some n
      → Lists ns kids (if n.is_dir then kids i else []) (depth + 1) sub
      → Lists ns kids is depth rest
      → Lists ns kids (i ∷ is) depth ((n.name, n.is_dir, depth) ∷ sub ++ rest)

Descends-first :
    (order : ℕ → ℕ) (a b : ℕ) (is : List ℕ) → a ≤ b → Descends order a is → Descends order b is
Descends-first order a b [] le h = h
Descends-first order a b (i ∷ is) le h = (omega (arith, h.0), h.1)

module _ {kids : ℕ → List ℕ} {s : Fs} (v : IsValid kids s) (order : ℕ → ℕ)
    (tree : IsTree order kids (length s.nodes)) where
  -- The walk over a list whose order is below the fuel.
  abbrev Walks : List ℕ → ℕ → List Entry → Fs → Type 0
  Walks is depth out s' = (s' ≡ s) × Lists s.nodes kids is depth out

  below-Lists :
      (p : Ptr) (xs : List ℕ) (is_dir : Bool) (depth : ℕ) (again : Ptr → FsM (List Entry))
      → Chain s.nodes p xs
      → ((q : Ptr) → Chain s.nodes q xs → Returns (Walks xs depth) (again q s))
      → Returns (Walks (if is_dir then xs else []) depth) (tree_below again p is_dir s)
  unfolding tree_below
  below-Lists none [] true depth again c h = returns (refl, lists_nil)
  below-Lists none [] false depth again c h = returns (refl, lists_nil)
  below-Lists none (x ∷ xs) is_dir depth again c h = absurd (cc c.0)
  below-Lists (some c) xs true depth again ch h = h (some c) ch
  below-Lists (some c) xs false depth again ch h = returns (refl, lists_nil)

  tree_walk-Lists :
      (fuel bound : ℕ) (p : Ptr) (is : List ℕ) (depth : ℕ)
      → bound < fuel
      → Chain s.nodes p is
      → Descends order bound is
      → Returns (Walks is depth) (tree_walk fuel p depth s)
  unfolding tree_walk tree_below
  tree_walk-Lists zero bound p is depth lt c h = absurd (omega arith)
  tree_walk-Lists (suc fuel) bound p [] depth lt c h = rw c (returns (refl, lists_nil))
  tree_walk-Lists (suc fuel) bound p (i ∷ is) depth lt (e, (n, at_i, c)) h =
      rw (e, tree_walk, load_ok s i n at_i)
        (bind
          (below-Lists n.child (kids i) n.is_dir (depth + 1) (λ q. tree_walk fuel q (depth + 1))
            (v.shape.chains i n at_i)
            (λ q c'.
              tree_walk-Lists fuel (order i) q (kids i) (depth + 1) (omega (arith, h.0)) c'
                (tree.descends i)))
          λ sub s1 g. rw g.0 (
            bind (tree_walk-Lists fuel (order i) n.sibling is depth (omega (arith, h.0)) c h.1)
              λ rest s2 g'. returns (g'.0, lists_cons at_i g.1 g'.1)))

  cwd_lt : (d : ℕ) → s.cwd ≡ some d → d < length s.nodes
  cwd_lt d cwd = subst (λ p. IsNode s p) cwd v.cwd_in

  -- What the walk from the directory `d` gives.
  abbrev pub Below : ℕ → List Entry → Fs → Type 0
  Below d out s' =
      (s' ≡ s)
      × ((n : FsNode) × ((get_elem? s.nodes d ≡ some n)
            × Lists s.nodes kids (if n.is_dir then kids d else []) 0 out))

  tree_in-Below : (d : ℕ) → d < length s.nodes → Returns (Below d) (tree_in (some d) s)
  unfolding tree_in
  tree_in-Below d lt =
      let (n, at_d) = get_elem?_of_lt s.nodes d lt in
      rw (load_ok s d n at_d) (elim (Bool-cases n.is_dir) [
        | inl q ↦ rw q (
            mono
              (tree_walk-Lists (length s.nodes + 1) (order d) n.child (kids d) 0
                (omega (arith, tree.bounded d lt)) (v.shape.chains d n at_d) (tree.descends d))
              λ out s' g. (g.0, (n, (at_d, rw q g.1))))
        | inr q ↦ rw q (returns (refl, (n, (at_d, rw q lists_nil))))
      ])

  -- In a well-formed filesystem without loops `fs_tree_cwd` ends without a fault, changes nothing, and
  -- calls back with every node below the current directory, each directory followed by its nodes, one
  -- level deeper.
  pub tree_cwd-Lists : (d : ℕ) → s.cwd ≡ some d → Returns (Below d) (tree_cwd s)
  unfolding tree_cwd
  tree_cwd-Lists d cwd =
      subst (λ p. Returns (Below d) (tree_in p s)) (sym cwd) (tree_in-Below d (cwd_lt d cwd))
