-- ===== src/Fs/Shape/Cut.antt =====
-- Taking a node out of a list of siblings.
use hypnos.Base.{
  ℕ, ◌≡◌, refl, sym, ◌∙◌, Bool, true, false, none, some, List, [], ◌∷◌, arith, ◌==◌, get_elem?,
  if◌then◌else◌, eq_of_some,
}
use hypnos.Fs.{FsNode, Ptr}
use hypnos.Fs.Shape.{has, Chain}
use hypnos.Fs.Shape.Count.{NoRepeat}

-- `j` stands just before `i` in the first list; the second is the list without `i`.
pub data Split (i : ℕ) : List ℕ → ℕ → List ℕ → Type 0 where
  here : {j : ℕ} {post : List ℕ} → Split i (j ∷ i ∷ post) j (j ∷ post)
  there : {x j : ℕ} {xs zs : List ℕ} → Split i xs j zs → Split i (x ∷ xs) j (x ∷ zs)

pub Split-has : {i j : ℕ} {xs zs : List ℕ} → Split i xs j zs → (has i xs ≡ true) × (has j xs ≡ true)
Split-has here = (ground arith, ground arith)
Split-has (there s) = (ground (arith, (Split-has s).0), ground (arith, (Split-has s).1))

pub Split-less :
    {i j : ℕ} {xs zs : List ℕ} → Split i xs j zs → (y : ℕ) → has y zs ≡ true → has y xs ≡ true
Split-less here y h = ground arith
Split-less (there s) y h = ground (arith, Split-less s y)

pub Split-gone : {i j : ℕ} {xs zs : List ℕ} → Split i xs j zs → NoRepeat xs → has i zs ≡ false
Split-gone here u = ground (arith, u.0, u.1.0)
Split-gone (there s) u = ground (arith, Split-has s, u.0, Split-gone s u.1)

-- What a cut of node `i`, which stood as `n` in the store `ns`, makes of each node: `prev` tells the
-- node whose `sibling`, and `head` the one whose `child` pointed to it.
pub record Cuts (ns ms : List FsNode) (i : ℕ) (n : FsNode) (prev head : ℕ → Bool) (j : ℕ)
    (m m' : FsNode) : Type 0 where
  pub found : get_elem? ms j ≡ some m'
  pub sibling : m'.sibling ≡ (if j == i then none else if prev j then n.sibling else m.sibling)
  pub child : m'.child ≡ (if head j then n.sibling else m.child)
  pub parent : m'.parent ≡ (if j == i then none else m.parent)

-- The nodes of a list all fail a test.
abbrev pub Avoids : (ℕ → Bool) → List ℕ → Type 0
Avoids prev [] = Unit
Avoids prev (x ∷ xs) = (prev x ≡ false) × Avoids prev xs

module _ (ns ms : List FsNode) (i : ℕ) (n : FsNode) (prev head : ℕ → Bool)
    (at_i : get_elem? ns i ≡ some n)
    (cuts : (j : ℕ) (m : FsNode)
      → get_elem? ns j ≡ some m
      → (m' : FsNode) × Cuts ns ms i n prev head j m m') where
  pub Chain-kept :
      (q : Ptr) (xs : List ℕ) → has i xs ≡ false → Avoids prev xs → Chain ns q xs → Chain ms q xs
  Chain-kept q [] out av c = c
  Chain-kept q (x ∷ xs) out av (e, (m, em, rest)) =
      let (m', k) = cuts x m em in
      let same : m'.sibling ≡ m.sibling = ground (arith, k.sibling, av.0) in
      (e, (m', k.found, rw same (Chain-kept m.sibling xs (ground arith) av.1 rest)))

module _ (ns ms : List FsNode) (i j : ℕ) (n : FsNode) (head : ℕ → Bool)
    (at_i : get_elem? ns i ≡ some n)
    (cuts : (x : ℕ) (m : FsNode)
      → get_elem? ns x ≡ some m
      → (m' : FsNode) × Cuts ns ms i n (λ y. y == j) head x m m') where
  pub Avoids-has : (xs : List ℕ) → has j xs ≡ false → Avoids (λ y. y == j) xs
  Avoids-has [] h = tt
  Avoids-has (x ∷ xs) h = (ground arith, Avoids-has xs (ground arith))

  pub Chain-cut :
      (q : Ptr) {xs zs : List ℕ} → Split i xs j zs → NoRepeat xs → Chain ns q xs → Chain ms q zs
  Chain-cut q (here {post}) u (e, (mj, ej, (f, (ni, ei, rest)))) =
      let (m', k) = cuts j mj ej in
      let same : n ≡ ni = eq_of_some (sym at_i ∙ ei) in
      let s : m'.sibling ≡ ni.sibling = ground (arith, k.sibling, u.0) in
      (
        e,
        (
          m',
          k.found,
          rw s (
              Chain-kept ns ms i n (λ y. y == j) head at_i cuts ni.sibling post
                (ground (arith, u.1.0)) (Avoids-has post (ground (arith, u.0))) rest),
        ),
      )
  Chain-cut q (there {x} s) u (e, (m, em, rest)) =
      let (m', k) = cuts x m em in
      let h = Split-has s in
      let same : m'.sibling ≡ m.sibling = ground (arith, k.sibling, h.0, h.1, u.0) in
      (e, (m', k.found, rw same (Chain-cut m.sibling s u.1 rest)))

pub Avoids-none : (xs : List ℕ) → Avoids (λ y. false) xs
Avoids-none [] = tt
Avoids-none (x ∷ xs) = (refl, Avoids-none xs)
