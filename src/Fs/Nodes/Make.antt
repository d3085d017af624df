-- ===== src/Fs/Nodes/Make.antt =====
-- Making a node and linking it keep the filesystem well formed.
use hypnos.Base.{
  ℕ, ◌+◌, ◌<◌, ◌≤◌, ◌≡◌, refl, ap, sym, ◌∙◌, Bool, Option, none, some, List, [], ◌∷◌, ◌++◌, arith,
  ◌==◌, length, length-append, get_elem?, get_elem?_of_lt, get_elem?-append_left, get_elem?_last,
  lt_of_get_elem?, set, Bool-cases, Option-cases, inl, inr, if◌then◌else◌, eq_of_some, length-set,
}
use native.Mathlib.Decide.{dec_lt}
use hypnos.CStr.{CString}
use hypnos.Fs.{Fs, FsNode, Ptr}
use hypnos.Fs.Monad.{store, alloc, push_node}
use hypnos.Fs.Nodes.{fresh, place, new_node, link, sizeof_node}
use mathlib.Core.Path.{subst}
use hypnos.Fs.Shape.{Below, Below-grow, has, Chain, Shape, IsLoose, Chain-frame}
use hypnos.Fs.Shape.Link.{linked, Shape-linked, length-linked}
use hypnos.Fs.Valid.{mono, Returns, returns, bind, IsNode, IsValid}
use hypnos.Fs.Valid.Lookup.{load_ok}

pub IsNode-grow :
    (s s' : Fs) (p : Ptr) → length s.nodes ≤ length s'.nodes → IsNode s p → IsNode s' p
IsNode-grow s s' none le h = h
IsNode-grow s s' (some i) le h = omega arith

module _ (ns : List FsNode) (f : FsNode) (blank : f.child ≡ none) (orphan : f.parent ≡ none)
    (kids : ℕ → List ℕ) (sh : Shape ns kids) where
  last-IsLoose : IsLoose kids (length ns)
  last-IsLoose d = elim (Bool-cases (has (length ns) (kids d))) [
    | inl h ↦
        let (n, e, q) = sh.owned d (length ns) h in
        absurd (omega (arith, lt_of_get_elem? ns (length ns) n e))
    | inr h ↦ h
  ]

  older : (j : ℕ) (n : FsNode) → get_elem? ns j ≡ some n → get_elem? (ns ++ (f ∷ [])) j ≡ some n
  older j n h = get_elem?-append_left ns (f ∷ []) j (lt_of_get_elem? ns j n h) ∙ h

  gone : (j : ℕ) → get_elem? (ns ++ (f ∷ [])) j ≡ none → get_elem? ns j ≡ none
  gone j h = elim (Option-cases (get_elem? ns j)) [
    | inl e ↦ e
    | inr (n, e) ↦ absurd (cc (h, older j n e))
  ]

  nothing_there : get_elem? ns (length ns) ≡ none
  nothing_there = elim (Option-cases (get_elem? ns (length ns))) [
    | inl e ↦ e
    | inr (n, e) ↦ absurd (omega (arith, lt_of_get_elem? ns (length ns) n e))
  ]

  Chain-at :
      (d : ℕ) (n : FsNode)
      → get_elem? (ns ++ (f ∷ [])) d ≡ some n
      → Chain (ns ++ (f ∷ [])) n.child (kids d)
  Chain-at d n h = elim (dec_lt d (length ns)) [
    | yes lt ↦
        let e = sym (get_elem?-append_left ns (f ∷ []) d lt) ∙ h in
        Chain-frame ns (ns ++ (f ∷ [])) (length ns) n.child (kids d)
          (λ j m ne q. (m, older j m q, refl)) (last-IsLoose d) (sh.chains d n e)
    | no ge ↦
        let lt = lt_of_get_elem? (ns ++ (f ∷ [])) d n h in
        let last : d ≡ length ns = omega (arith, length-append ns (f ∷ [])) in
        let same : f ≡ n = eq_of_some (sym (get_elem?_last ns f) ∙ (rw (← last) h)) in
        rw (← same, last, sh.absent (length ns) nothing_there) blank
  ]

  parents_at :
      (d : ℕ) (n : FsNode)
      → get_elem? (ns ++ (f ∷ [])) d ≡ some n
      → Below n.parent (length (ns ++ (f ∷ [])))
  parents_at d n h = elim (dec_lt d (length ns)) [
    | yes lt ↦
        Below-grow n.parent (length ns) _ (omega (arith, length-append ns (f ∷ [])))
          (sh.parents d n (sym (get_elem?-append_left ns (f ∷ []) d lt) ∙ h))
    | no ge ↦
        let lt = lt_of_get_elem? (ns ++ (f ∷ [])) d n h in
        let last : d ≡ length ns = omega (arith, length-append ns (f ∷ [])) in
        let same : f ≡ n = eq_of_some (sym (get_elem?_last ns f) ∙ (rw (← last) h)) in
        let free : n.parent ≡ none = ap (λ x. x.parent) (sym same) ∙ orphan in
        subst (λ p. Below p (length (ns ++ (f ∷ [])))) (sym free) tt
  ]

  -- A fresh node at the end of the store is nobody's child and has no children.
  pub Shape-push : Shape (ns ++ (f ∷ [])) kids
  Shape-push = record {
    chains = Chain-at;
    owned = λ d i h. let (n, e, q) = sh.owned d i h in (n, older i n e, q);
    absent = λ d h. sh.absent d (gone d h);
    parents = parents_at;
  }

-- The result of `fs_new_node`: null, or a new node that is nobody's child.
abbrev pub Made : (ℕ → List ℕ) → Fs → Option ℕ → Fs → Type 0
Made kids s none s' = IsValid kids s' × (length s.nodes ≤ length s'.nodes)
Made kids s (some i) s' =
    IsValid kids s' × (length s.nodes ≤ length s'.nodes) × (i < length s'.nodes) × IsLoose kids i

module _ {kids : ℕ → List ℕ} {s : Fs} (v : IsValid kids s) where
  pub alloc-Returns :
      (size : ℕ) → Returns (λ p s'. IsValid kids s' × (s'.nodes ≡ s.nodes)) (alloc size s)
  unfolding alloc
  alloc-Returns size =
      returns
        (record { shape = v.shape; root_in = v.root_in; cwd_in = v.cwd_in; keyed = v.keyed }, refl)

  pushed :
      (name : CString) (is_dir : Bool) (block : ℕ)
      → Returns (Made kids s) (place name is_dir (some block) s)
  unfolding place push_node
  pushed name is_dir block =
      let f : FsNode = fresh name is_dir in
      let s' : Fs = record s { nodes = s.nodes ++ (f ∷ []) } in
      let more : length s'.nodes ≡ length s.nodes + 1 = length-append s.nodes (f ∷ []) in
      returns (
        record {
          shape = Shape-push s.nodes f refl refl kids v.shape;
          root_in = IsNode-grow s s' s.root (omega arith) v.root_in;
          cwd_in = IsNode-grow s s' s.cwd (omega arith) v.cwd_in;
          keyed = v.keyed;
        },
        omega arith,
        omega arith,
        last-IsLoose s.nodes f refl refl kids v.shape,
      )

  place-Made :
      (name : CString) (is_dir : Bool) (block : Option ℕ)
      → Returns (Made kids s) (place name is_dir block s)
  unfolding place
  place-Made name is_dir none = returns {a = none} (v, omega arith)
  place-Made name is_dir (some b) = pushed name is_dir b

  -- `link` puts a loose node in front of the children of a directory.
  pub link-Returns :
      (d i : ℕ)
      → d < length s.nodes
      → i < length s.nodes
      → IsLoose kids i
      → Returns
          (λ u s'.
            IsValid (λ x. if x == d then i ∷ kids d else kids x) s'
            × (length s'.nodes ≡ length s.nodes))
          (link d i s)
  unfolding link store
  link-Returns d i hd hi loose =
      let (n, en) = get_elem?_of_lt s.nodes i hi in
      let (dn, ed) = get_elem?_of_lt s.nodes d hd in
      let n1 : FsNode = record n { parent = some d; sibling = dn.child } in
      let s1 : Fs = record s { nodes = set s.nodes i n1 } in
      let (d', ed') = get_elem?_of_lt s1.nodes d (omega (arith, length-set s.nodes i n1)) in
      let s2 : Fs = record s { nodes = linked s.nodes d i n dn d' } in
      let size : length s2.nodes ≡ length s.nodes = length-linked s.nodes d i n dn d' en ed ed' in
      rw (load_ok s i n en, load_ok s d dn ed, load_ok s1 d d' ed')
        (returns (
          record {
            shape = Shape-linked s.nodes d i n dn d' en ed ed' kids v.shape loose;
            root_in = IsNode-grow s s2 s.root (omega arith) v.root_in;
            cwd_in = IsNode-grow s s2 s.cwd (omega arith) v.cwd_in;
            keyed = v.keyed;
          },
          size,
        ))

Made-back :
    (kids : ℕ → List ℕ) (s s' : Fs)
    → length s'.nodes ≡ length s.nodes
    → (r : Option ℕ) (t : Fs) → Made kids s' r t
    → Made kids s r t
Made-back kids s s' e none t m = (m.0, omega arith)
Made-back kids s s' e (some i) t m = (m.0, omega arith, m.2, m.3)

module _ {kids : ℕ → List ℕ} {s : Fs} (v : IsValid kids s) where
  -- In a well-formed filesystem `fs_new_node` returns, without a fault, null or a node that is nobody's
  -- child, and the filesystem stays well formed with the same children and all its nodes.
  pub new_node-Made :
      (name : CString) (is_dir : Bool) → Returns (Made kids s) (new_node name is_dir s)
  unfolding new_node
  new_node-Made name is_dir =
      bind (alloc-Returns v sizeof_node)
        λ p s' q. mono (place-Made q.0 name is_dir p) (Made-back kids s s' (ap length q.1))
