-- ===== src/Fs/Dirs/Detach/Walk.antt =====
-- The loop of `fs_detach_from_parent` ends, whether it finds the node or not.
use hypnos.Base.{
  ℕ, zero, suc, ◌+◌, ◌<◌, ◌≡◌, refl, sym, ◌∙◌, false, none, some, List, [], ◌∷◌, arith, ◌==◌,
  length, length-set, get_elem?, get_elem?_of_lt, lt_of_get_elem?, set, eq_of_some, Bool-cases,
  Option-cases, inl, inr, ==_iff,
}
use hypnos.Fs.{Fs, FsNode}
use hypnos.Fs.Monad.{store}
use hypnos.Fs.Shape.{has, Chain, IsLoose}
use hypnos.Fs.Shape.Count.{length-Chain}
use hypnos.Fs.Shape.Cut.{Split, here, there}
use hypnos.Fs.Shape.Remove.{removed}
use hypnos.Fs.Dirs.{
  cut, write_slot, read_slot, detach_from, detach_next, detach_below, detach, child_of, sibling_of,
}
use hypnos.Fs.Dirs.Detach.{Removed, removed_first, removed_later}
use hypnos.Fs.Nodes.Make.{IsNode-grow}
use hypnos.Fs.Valid.{Returns, returns, IsValid}
use hypnos.Fs.Valid.Lookup.{load_ok}

-- The filesystem is well formed, has as many nodes as before, and the node is nobody's child.
abbrev pub Detached : ℕ → Fs → Fs → Type 0
Detached i s s' =
    ((kids : ℕ → List ℕ) × IsValid kids s' × IsLoose kids i) × (length s'.nodes ≡ length s.nodes)

module _ {kids : ℕ → List ℕ} {s : Fs} (v : IsValid kids s) (i : ℕ) where
  Detached-of : (ms : List FsNode) → Removed i s.nodes ms → Detached i s (record s { nodes = ms })
  Detached-of ms ((kids', sh, loose), e) =
      let s' : Fs = record s { nodes = ms } in
      (
        (
          kids',
          record {
            shape = sh;
            root_in = IsNode-grow s s' s.root (omega (arith, e)) v.root_in;
            cwd_in = IsNode-grow s s' s.cwd (omega (arith, e)) v.cwd_in;
            keyed = v.keyed;
          },
          loose,
        ),
        e,
      )

  there_still :
      (q : ℕ) (f : FsNode)
      → i < length s.nodes
      → (n' : FsNode) × (get_elem? (set s.nodes q f) i ≡ some n')
  there_still q f h = get_elem?_of_lt (set s.nodes q f) i (omega (arith, length-set s.nodes q f))

  module _ (p : ℕ) (n pn : FsNode) (at_i : get_elem? s.nodes i ≡ some n)
      (at_p : get_elem? s.nodes p ≡ some pn) where
    cut_first :
        (zs : List ℕ) → kids p ≡ i ∷ zs → Returns (λ u s'. Detached i s s') (cut (child_of p) i s)
    unfolding cut write_slot store
    cut_first zs e =
        let f : FsNode = record pn { child = n.sibling } in
        let (n', again) = there_still p f (lt_of_get_elem? s.nodes i n at_i) in
        let r = removed_first s.nodes kids v.shape i p n pn n' at_i at_p zs e again in
        rw
          (
            load_ok s i n at_i,
            load_ok s p pn at_p,
            load_ok (record s { nodes = set s.nodes p f }) i n' again,
          )
          (returns (Detached-of (removed s.nodes i p f n') r))

    cut_later :
        (j : ℕ) (jn : FsNode) (zs : List ℕ)
        → get_elem? s.nodes j ≡ some jn
        → Split i (kids p) j zs
        → Returns (λ u s'. Detached i s s') (cut (sibling_of j) i s)
    unfolding cut write_slot store
    cut_later j jn zs at_j split =
        let f : FsNode = record jn { sibling = n.sibling } in
        let (n', again) = there_still j f (lt_of_get_elem? s.nodes i n at_i) in
        let r = removed_later s.nodes kids v.shape i p n pn n' at_i at_p j jn zs at_j split again in
        rw
          (
            load_ok s i n at_i,
            load_ok s j jn at_j,
            load_ok (record s { nodes = set s.nodes j f }) i n' again,
          )
          (returns (Detached-of (removed s.nodes i j f n') r))

    module _ (loose : has i (kids p) ≡ false → IsLoose kids i) where
      walk :
          (fuel j : ℕ) (jn : FsNode) (xs : List ℕ)
          → get_elem? s.nodes j ≡ some jn
          → Chain s.nodes jn.sibling xs
          → length xs < fuel
          → (has i xs ≡ false → has i (kids p) ≡ false)
          → ((y : ℕ) (zs : List ℕ)
              → Split i (j ∷ xs) y zs
              → (zs' : List ℕ) × Split i (kids p) y zs')
          → Returns (λ u s'. Detached i s s') (detach_from fuel i (sibling_of j) s)
      unfolding detach_from read_slot detach_next
      walk zero j jn xs at_j c h out split = absurd (omega arith)
      walk (suc fuel) j jn [] at_j c h out split =
          rw (load_ok s j jn at_j, c) (returns ((kids, v, loose (out refl)), refl))
      walk (suc fuel) j jn (x ∷ xs) at_j (e, (m, em, rest)) h out split =
          elim (Bool-cases (x == i)) [
            | inl f ↦
                let same : x ≡ i = (==_iff x i).0 f in
                let (zs, sp) = split j (j ∷ xs) (rw same here) in
                rw (load_ok s j jn at_j, e, f) (cut_later j jn zs at_j sp)
            | inr f ↦
                rw (load_ok s j jn at_j, e, f)
                  (walk fuel x m xs em rest (omega arith) (λ q. out (ground arith))
                    λ y zs q. split y (j ∷ zs) (there q))
          ]

      walk_from :
          (fuel : ℕ) (xs : List ℕ)
          → kids p ≡ xs
          → Chain s.nodes pn.child xs
          → length xs < fuel
          → Returns (λ u s'. Detached i s s') (detach_from fuel i (child_of p) s)
      unfolding detach_from read_slot detach_next
      walk_from zero xs same c h = absurd (omega arith)
      walk_from (suc fuel) [] same c h =
          rw (load_ok s p pn at_p, c) (returns ((kids, v, loose (rw same refl)), refl))
      walk_from (suc fuel) (x ∷ xs) same (e, (m, em, rest)) h = elim (Bool-cases (x == i)) [
        | inl f ↦
            let first : x ≡ i = (==_iff x i).0 f in
            rw (load_ok s p pn at_p, e, f) (cut_first xs (rw (← first) same))
        | inr f ↦
            rw (load_ok s p pn at_p, e, f)
              (walk fuel x m xs em rest (omega arith) (λ q. rw same (ground arith))
                λ y zs q. (zs, rw same q))
      ]

  IsLoose-off :
      (p : ℕ) (n : FsNode)
      → get_elem? s.nodes i ≡ some n
      → n.parent ≡ some p
      → has i (kids p) ≡ false
      → IsLoose kids i
  IsLoose-off p n at_i par h d = elim (Bool-cases (has i (kids d))) [
    | inl f ↦
        let (m, e, q) = v.shape.owned d i f in
        let same : m ≡ n = eq_of_some (sym e ∙ at_i) in
        let home : p ≡ d = eq_of_some (sym par ∙ (rw same at q)) in absurd (cc (f, rw home at h))
    | inr f ↦ f
  ]

  orphan-IsLoose : (n : FsNode) → get_elem? s.nodes i ≡ some n → n.parent ≡ none → IsLoose kids i
  orphan-IsLoose n at_i par d = elim (Bool-cases (has i (kids d))) [
    | inl f ↦
        let (m, e, q) = v.shape.owned d i f in
        let same : m ≡ n = eq_of_some (sym e ∙ at_i) in absurd (cc (par, rw same at q))
    | inr f ↦ f
  ]

  -- In a well-formed filesystem detaching a node ends without a fault; afterwards the filesystem is
  -- well formed, with as many nodes, and the node is nobody's child.
  pub detach-Detached : i < length s.nodes → Returns (λ u s'. Detached i s s') (detach i s)
  unfolding detach detach_below
  detach-Detached h =
      let (n, at_i) = get_elem?_of_lt s.nodes i h in
      elim (Option-cases n.parent) [
        | inl e ↦ rw (load_ok s i n at_i, e) (returns ((kids, v, orphan-IsLoose n at_i e), refl))
        | inr (p, e) ↦
            let below : p < length s.nodes = rw e at (v.shape.parents i n at_i) in
            let (pn, at_p) = get_elem?_of_lt s.nodes p below in
            let c = v.shape.chains p pn at_p in
            rw (load_ok s i n at_i, e)
              (walk_from p n pn at_i at_p (IsLoose-off p n at_i e) (length s.nodes + 1) (kids p)
                refl c (omega (arith, length-Chain s.nodes pn.child (kids p) c)))
      ]
