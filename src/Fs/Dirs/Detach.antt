-- ===== src/Fs/Dirs/Detach.antt =====
-- `fs_detach_from_parent` takes a node out of the list of its directory.
pub mod Walk
use hypnos.Base.{
  ℕ, ◌≡◌, ◌≢◌, refl, sym, ◌∙◌, true, false, some, List, ◌∷◌, arith, ◌==◌, length, get_elem?, set,
  eq_of_some,
}
use hypnos.Fs.{FsNode, Ptr}
use hypnos.Fs.Shape.{has, Chain, Shape, IsLoose}
use hypnos.Fs.Shape.Count.{Chain-NoRepeat}
use hypnos.Fs.Shape.Cut.{
  Split, Split-less, Split-has, Split-gone, Cuts, Chain-kept, Chain-cut, Avoids-has, Avoids-none,
}
use hypnos.Fs.Shape.Remove.{removed, length-removed, removed-Cuts, sole_owner, removed_lem}

-- After a node was taken out: it is nobody's child, and the nodes are as many as before.
abbrev pub Removed : ℕ → List FsNode → List FsNode → Type 0
Removed i ns ms = ((kids : ℕ → List ℕ) × Shape ms kids × IsLoose kids i) × (length ms ≡ length ns)

module _ (ns : List FsNode) (kids : ℕ → List ℕ) (sh : Shape ns kids) (i p : ℕ) (n pn n' : FsNode)
    (at_i : get_elem? ns i ≡ some n) (at_p : get_elem? ns p ≡ some pn) where
  -- The node is the first of its list.
  pub removed_first :
      (zs : List ℕ)
      → kids p ≡ i ∷ zs
      → get_elem? (set ns p (record pn { child = n.sibling })) i ≡ some n'
      → Removed i ns (removed ns i p (record pn { child = n.sibling }) n')
  removed_first zs e again =
      let f : FsNode = record pn { child = n.sibling } in
      let ms = removed ns i p f n' in
      let cuts =
        removed-Cuts ns i p n pn f n' (λ y. false) (λ y. y == p) at_i at_p again refl (ground arith)
          refl (λ x ne. (refl, ground arith)) in
      let c : Chain ns pn.child (i ∷ zs) = rw e at (sh.chains p pn at_p) in
      let u = Chain-NoRepeat ns pn.child (i ∷ zs) c in
      let (ec, (ni, ei, behind)) = c in
      let same : ni ≡ n = eq_of_some (sym ei ∙ at_i) in
      let rest : Chain ns n.sibling zs = rw same at behind in
      let mine : has i (kids p) ≡ true = rw e (ground arith) in
      let keep =
        λ (q : Ptr) (xs : List ℕ). Chain-kept ns ms i n (λ y. false) (λ y. y == p) at_i cuts q xs in
      let less : (y : ℕ) → has y zs ≡ true → has y (kids p) ≡ true = λ y h. rw e (ground arith) in
      let first : (m' : FsNode)
          → Cuts ns ms i n (λ y. false) (λ y. y == p) p pn m'
          → Chain ms m'.child zs =
        λ m' k.
          let s : m'.child ≡ n.sibling = ground (arith, k.child) in
          rw s (keep n.sibling zs u.0 (Avoids-none zs) rest) in
      let others : (x : ℕ) (m m' : FsNode)
          → x ≢ p
          → get_elem? ns x ≡ some m
          → Cuts ns ms i n (λ y. false) (λ y. y == p) x m m'
          → Chain ms m'.child (kids x) =
        λ x m m' ne h k.
          let s : m'.child ≡ m.child = ground (arith, k.child) in
          rw s (
            keep m.child (kids x) (sole_owner ns kids sh p i mine x ne) (Avoids-none (kids x))
              (sh.chains x m h)) in
      (
        removed_lem ns ms i p n pn (λ y. false) (λ y. y == p) (length-removed ns i p f n') at_p cuts
            kids zs sh mine less u.0 first others,
        length-removed ns i p f n',
      )

  -- The node stands behind the node `j`.
  pub removed_later :
      (j : ℕ) (jn : FsNode) (zs : List ℕ)
      → get_elem? ns j ≡ some jn
      → Split i (kids p) j zs
      → get_elem? (set ns j (record jn { sibling = n.sibling })) i ≡ some n'
      → Removed i ns (removed ns i j (record jn { sibling = n.sibling }) n')
  removed_later j jn zs at_j split again =
      let f : FsNode = record jn { sibling = n.sibling } in
      let ms = removed ns i j f n' in
      let cuts =
        removed-Cuts ns i j n jn f n' (λ y. y == j) (λ y. false) at_i at_j again (ground arith) refl
          refl (λ x ne. (ground arith, refl)) in
      let c = sh.chains p pn at_p in
      let u = Chain-NoRepeat ns pn.child (kids p) c in
      let (mine, j_in) = Split-has split in
      let gone = Split-gone split u in
      let first : (m' : FsNode)
          → Cuts ns ms i n (λ y. y == j) (λ y. false) p pn m'
          → Chain ms m'.child zs =
        λ m' k.
          let s : m'.child ≡ pn.child = ground (arith, k.child) in
          rw s (Chain-cut ns ms i j n (λ y. false) at_i cuts pn.child split u c) in
      let others : (x : ℕ) (m m' : FsNode)
          → x ≢ p
          → get_elem? ns x ≡ some m
          → Cuts ns ms i n (λ y. y == j) (λ y. false) x m m'
          → Chain ms m'.child (kids x) =
        λ x m m' ne h k.
          let s : m'.child ≡ m.child = ground (arith, k.child) in
          rw s (
            Chain-kept ns ms i n (λ y. y == j) (λ y. false) at_i cuts m.child (kids x)
              (sole_owner ns kids sh p i mine x ne)
              (Avoids-has ns ms i j n (λ y. false) at_i cuts (kids x)
                (sole_owner ns kids sh p j j_in x ne))
              (sh.chains x m h)) in
      (
        removed_lem ns ms i p n pn (λ y. y == j) (λ y. false) (length-removed ns i j f n') at_p cuts
            kids zs sh mine (Split-less split) gone first others,
        length-removed ns i j f n',
      )
