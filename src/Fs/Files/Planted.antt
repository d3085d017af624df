-- ===== src/Fs/Files/Planted.antt =====
-- `fs_mkdir` and `fs_touch` keep the directories a tree.
use mathlib.Core.Path.{subst}
use native.Mathlib.Decide.{ℕ_discrete}
use hypnos.Base.{
  ℕ, ◌+◌, ◌<◌, ◌≤◌, ◌≡◌, ◌≢◌, ap, sym, ◌∙◌, Bool, true, false, ◌||◌, Option, none, some, List, [],
  ◌∷◌, arith, length, leb, ◌==◌, get_elem?, get_elem?_of_lt, Bool-cases, Option-cases, inl, inr,
  if◌then◌else◌, lt_of_get_elem?,
}
use hypnos.CStr.{CString, kstrlen}
use hypnos.Fs.{err, Fs, Ptr, max_path_len}
use hypnos.Fs.Monad.{pure, ◌>>=◌}
use hypnos.Fs.Files.{
  is_blank, or_empty, attach, add_node, mkdir_in, touch_in, mkdir, touch, chdir, chdir_to, set_cwd,
}
use hypnos.Fs.Files.Create.{find-then, target-then}
use hypnos.Fs.Nodes.{find_in_dir}
use hypnos.Fs.Nodes.Fresh.{Fresh, new_node-Fresh}
use hypnos.Fs.Nodes.Make.{Made, new_node-Made, link-Returns}
use hypnos.Fs.Resolve.Follow.{resolve-Found}
use hypnos.Fs.Shape.{has, IsLoose}
use hypnos.Fs.Valid.Lookup.{load_ok}
use hypnos.Fs.Valid.{Returns, returns, bind, both, IsNode, IsNullOrNode, IsValid}
use hypnos.Fs.Walks.Tree.{Descends, IsTree}

module _ (order : ℕ → ℕ) (kids : ℕ → List ℕ) (d i : ℕ) where
  -- The new node takes the place of its directory, which moves up with all that come after.
  shift : ℕ → ℕ
  shift b = if leb (order d) b then b + 1 else b

  renumbered : ℕ → ℕ
  renumbered x = if x == i then order d else shift (order x)

  shift-Descends :
      (b : ℕ) (is : List ℕ)
      → has i is ≡ false
      → Descends order b is
      → Descends renumbered (shift b) is
  unfolding shift renumbered
  shift-Descends b [] out h = tt
  shift-Descends b (x ∷ is) out h =
      let ne : (x == i) ≡ false = ground arith in
      rw ne (ground arith, shift-Descends (order x) is (ground arith) h.1)

  below-Descends :
      (b : ℕ) (is : List ℕ)
      → has i is ≡ false
      → b ≤ order d
      → Descends order b is
      → Descends renumbered b is
  unfolding shift renumbered
  below-Descends b [] out le h = tt
  below-Descends b (x ∷ is) out le h =
      let ne : (x == i) ≡ false = ground arith in
      rw ne (ground arith, shift-Descends (order x) is (ground arith) h.1)

  renumbered_new : renumbered i ≡ order d
  unfolding renumbered
  renumbered_new = ground arith

  renumbered_old : (x : ℕ) → x ≢ i → renumbered x ≡ shift (order x)
  unfolding renumbered
  renumbered_old x ne = ground arith

  linked-IsTree :
      (size : ℕ)
      → IsTree order kids size
      → d < size
      → i ≡ size
      → IsLoose kids i
      → kids i ≡ []
      → IsTree renumbered (λ x. if x == d then i ∷ kids d else kids x) (size + 1)
  unfolding shift
  linked-IsTree size t lt last loose leaf = record {
    descends = λ x. elim (ℕ_discrete x d) [
      | yes e ↦
          let here : (x == d) ≡ true = ground arith in
          let up : renumbered x ≡ shift (order x) = renumbered_old x (λ q. omega arith) in
          rw (here, up, renumbered_new)
            (
              ground (arith, ap order e),
              below-Descends (order d) (kids d) (loose d) (omega arith) (t.descends d),
            )
      | no ne ↦
          let other : (x == d) ≡ false = ground arith in
          elim (ℕ_discrete x i) [
            | yes e ↦ let none_there : kids x ≡ [] = ap kids e ∙ leaf in rw (other, none_there) tt
            | no ne' ↦
                rw (other, renumbered_old x ne')
                  (shift-Descends (order x) (kids x) (loose x) (t.descends x))
          ]
    ];
    bounded = λ x h. elim (ℕ_discrete x i) [
      | yes e ↦ rw e (rw renumbered_new (omega (arith, t.bounded d lt)))
      | no ne ↦ rw (renumbered_old x ne) (ground (arith, t.bounded x (omega arith)))
    ];
  }

-- A well-formed state without loops.
abbrev pub Planted : Fs → Type 0
Planted s =
    (kids : ℕ → List ℕ) × ((order : ℕ → ℕ) × (IsValid kids s × IsTree order kids (length s.nodes)))

module _ {kids : ℕ → List ℕ} {s : Fs} (v : IsValid kids s) (order : ℕ → ℕ)
    (tree : IsTree order kids (length s.nodes)) where
  same_tree : Planted s
  same_tree = (kids, (order, (v, tree)))

  no_kids : (i : ℕ) → i ≡ length s.nodes → kids i ≡ []
  no_kids i new = elim (Option-cases (get_elem? s.nodes i)) [
    | inl e ↦ v.shape.absent i e
    | inr (n, e) ↦ absurd (omega (arith, lt_of_get_elem? s.nodes i n e))
  ]

  attach-Planted :
      (p : ℕ) (last : CString) (is_dir : Bool) (r : Option ℕ) (t : Fs)
      → p < length s.nodes
      → Made kids s r t × Fresh last is_dir s r t
      → Returns (λ a t'. Planted t') (attach p r t)
  unfolding attach
  attach-Planted p last is_dir none t h m =
      returns (kids, (order, (m.0.0, subst (λ ns. IsTree order kids (length ns)) (sym m.1) tree)))
  attach-Planted p last is_dir (some i) t h ((w, le, hi, loose), (c, (new, (at_i, more)))) =
      bind (link-Returns w p i (omega arith) hi loose) λ u t' q. returns (
        _,
        (
          renumbered order kids p i,
          (
            q.0,
            subst
                (λ size.
                  IsTree (renumbered order kids p i) (λ x. if x == p then i ∷ kids p else kids x)
                    size)
                (sym (q.1 ∙ more))
                (linked-IsTree order kids p i (length s.nodes) tree h new loose (no_kids i new)),
          ),
        ),
      )

  add_node-Planted :
      (p : Ptr) (last : CString) (is_dir : Bool)
      → IsNode s p
      → Returns (λ a t. Planted t) (add_node p last is_dir s)
  unfolding add_node
  add_node-Planted none last is_dir h = absurd h
  add_node-Planted (some p) last is_dir h =
      bind (both (new_node-Made v last is_dir) (new_node-Fresh s last is_dir))
        λ r t m. attach-Planted p last is_dir r t h m

  mkdir_in-Planted :
      (p : Ptr) (last : CString) (old : Ptr)
      → IsNode s p
      → Returns (λ a t. Planted t) (mkdir_in p last old s)
  unfolding mkdir_in
  mkdir_in-Planted p last none h = add_node-Planted p last true h
  mkdir_in-Planted p last (some i) h = returns same_tree

  touch_in-Planted :
      (p : Ptr) (last : CString) (old : Ptr)
      → IsNode s p
      → IsNullOrNode s old
      → Returns (λ a t. Planted t) (touch_in p last old s)
  unfolding touch_in
  touch_in-Planted p last none h ho = add_node-Planted p last false h
  touch_in-Planted p last (some i) h ho =
      let (n, e) = get_elem?_of_lt s.nodes i ho in
      rw (load_ok s i n e) (elim (Bool-cases n.is_dir) [
        | inl d ↦ rw d (returns same_tree)
        | inr d ↦ rw d (returns same_tree)
      ])

  -- On a well-formed filesystem without loops `fs_mkdir` returns, without a fault or an end-less loop,
  -- and leaves it well formed and without loops, whatever the path.
  pub mkdir-Planted : (path : Option CString) → Returns (λ a t. Planted t) (mkdir path s)
  unfolding mkdir
  mkdir-Planted path =
      elim (Bool-cases (is_blank path || leb max_path_len (kstrlen (or_empty path)))) [
        | inl e ↦ rw e (returns same_tree)
        | inr e ↦ rw e (
            target-then v path (pure err) (λ p last. find_in_dir p last >>= mkdir_in p last)
              (returns same_tree)
              λ p last h.
                find-then v p last (mkdir_in p last) h (λ old ho. mkdir_in-Planted p last old h))
      ]

  -- The same of `fs_touch`.
  pub touch-Planted : (path : Option CString) → Returns (λ a t. Planted t) (touch path s)
  unfolding touch
  touch-Planted path =
      elim (Bool-cases (is_blank path || leb max_path_len (kstrlen (or_empty path)))) [
        | inl e ↦ rw e (returns same_tree)
        | inr e ↦ rw e (
            target-then v path (pure err) (λ p last. find_in_dir p last >>= touch_in p last)
              (returns same_tree)
              λ p last h.
                find-then v p last (touch_in p last) h (λ old ho. touch_in-Planted p last old h ho))
      ]

  chdir_to-Planted : (p : Ptr) → IsNullOrNode s p → Returns (λ a t. Planted t) (chdir_to p s)
  unfolding chdir_to set_cwd
  chdir_to-Planted none h = returns same_tree
  chdir_to-Planted (some i) h =
      let (n, e) = get_elem?_of_lt s.nodes i h in
      let moved : IsValid kids (record s { cwd = some i }) = record {
        shape = v.shape;
        root_in = v.root_in;
        cwd_in = h;
        keyed = v.keyed;
      } in
      rw (load_ok s i n e) (elim (Bool-cases n.is_dir) [
        | inl q ↦ rw q (returns (kids, (order, (moved, tree))))
        | inr q ↦ rw q (returns same_tree)
      ])

  -- The same of `fs_chdir`.
  pub chdir-Planted : (path : Option CString) → Returns (λ a t. Planted t) (chdir path s)
  unfolding chdir
  chdir-Planted path = elim (Bool-cases (is_blank path)) [
    | inl e ↦ rw e (returns same_tree)
    | inr e ↦ rw e (bind (resolve-Found v path false) λ r s' q. rw q.0 (chdir_to-Planted r.0 q.1))
  ]
