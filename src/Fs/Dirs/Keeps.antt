-- ===== src/Fs/Dirs/Keeps.antt =====
-- `fs_unlink`, `fs_rmdir`, `fs_rename` and `fs_copy` return on every well-formed filesystem and keep it
-- well formed.
use hypnos.Base.{
  ℕ, ◌<◌, refl, false, not, Option, none, some, List, arith, ◌||◌, length, get_elem?_of_lt,
  Bool-cases, inl, inr,
}
use hypnos.CStr.{CString}
use hypnos.Fs.{Fs, Ptr, ok, err}
use hypnos.Fs.Monad.{pure, ◌>>=◌}
use hypnos.Fs.Nodes.{find_in_dir}
use hypnos.Fs.Dirs.{
  same, has_parent, has_child, unlink_node, unlink, rmdir_node, rmdir, move_node, rename_in,
  rename_node, rename, detach,
}
use hypnos.Fs.Dirs.Detach.Walk.{detach-Detached}
use hypnos.Fs.Files.{is_blank, is_null}
use hypnos.Fs.Files.Create.{same as as_before, find-then, target-then}
use hypnos.Fs.Nodes.Make.{link-Returns}
use hypnos.Fs.Resolve.Follow.{resolve-Found}
use hypnos.Fs.Shape.Update.{store-Returns}
use hypnos.Fs.Valid.{Returns, returns, bind, IsNode, IsNullOrNode, IsValid, Grown}
use hypnos.Fs.Valid.Lookup.{load_ok}

module _ {kids : ℕ → List ℕ} {s : Fs} (v : IsValid kids s) where
  detach-ok :
      (i : ℕ) → i < length s.nodes → Returns (λ a s'. Grown s s') ((detach i >>= λ u. pure ok) s)
  detach-ok i h = bind (detach-Detached v i h) λ u t q. returns ((q.0.0, q.0.1), omega (arith, q.1))

  unlink_node-Keeps : (p : Ptr) → IsNullOrNode s p → Returns (λ a s'. Grown s s') (unlink_node p s)
  unfolding unlink_node
  unlink_node-Keeps none h = returns (as_before v)
  unlink_node-Keeps (some i) h =
      let (n, e) = get_elem?_of_lt s.nodes i h in
      rw (load_ok s i n e) (elim (Bool-cases (n.is_dir || not (has_parent n))) [
        | inl q ↦ rw q (returns (as_before v))
        | inr q ↦ rw q (detach-ok i h)
      ])

  -- On a well-formed filesystem `fs_unlink` returns, without a fault or an end-less loop, and leaves
  -- the filesystem well formed with all its nodes, whatever the path.
  pub unlink-Keeps : (path : Option CString) → Returns (λ a s'. Grown s s') (unlink path s)
  unfolding unlink
  unlink-Keeps path = elim (Bool-cases (is_blank path)) [
    | inl e ↦ rw e (returns (as_before v))
    | inr e ↦ rw e (bind (resolve-Found v path false) λ r t q. rw q.0 (unlink_node-Keeps r.0 q.1))
  ]

  rmdir_node-Keeps : (p : Ptr) → IsNullOrNode s p → Returns (λ a s'. Grown s s') (rmdir_node p s)
  unfolding rmdir_node
  rmdir_node-Keeps none h = returns (as_before v)
  rmdir_node-Keeps (some i) h =
      let (n, e) = get_elem?_of_lt s.nodes i h in
      rw (load_ok s i n e)
        (elim (Bool-cases (not n.is_dir || (has_child n || same (some i) s.root))) [
          | inl q ↦ rw q (returns (as_before v))
          | inr q ↦ rw q (detach-ok i h)
        ])

  -- On a well-formed filesystem `fs_rmdir` returns, without a fault or an end-less loop, and leaves the
  -- filesystem well formed with all its nodes, whatever the path.
  pub rmdir-Keeps : (path : Option CString) → Returns (λ a s'. Grown s s') (rmdir path s)
  unfolding rmdir
  rmdir-Keeps path = elim (Bool-cases (is_blank path)) [
    | inl e ↦ rw e (returns (as_before v))
    | inr e ↦ rw e (bind (resolve-Found v path false) λ r t q. rw q.0 (rmdir_node-Keeps r.0 q.1))
  ]

  move_node-Keeps :
      (i p : ℕ) (last : CString)
      → i < length s.nodes
      → p < length s.nodes
      → Returns (λ a s'. Grown s s') (move_node i p last s)
  unfolding move_node
  move_node-Keeps i p last hi hp = bind (detach-Detached v i hi) λ u t q.
      let (n, e) = get_elem?_of_lt t.nodes i (omega (arith, q.1)) in
      rw (load_ok t i n e) (
        bind (store-Returns q.0.1 i n _ e (record { parent = refl; child = refl; sibling = refl }))
          λ u' t' q'.
            bind (link-Returns q'.0 p i (omega (arith, q.1, q'.1)) (omega (arith, q.1, q'.1)) q.0.2)
              λ u'' t'' q''. returns ((_, q''.0), omega (arith, q.1, q'.1, q''.1)))

  rename_in-Keeps :
      (i : ℕ) (p : Ptr) (last : CString) (old : Ptr)
      → i < length s.nodes
      → IsNode s p
      → Returns (λ a s'. Grown s s') (rename_in i p last old s)
  unfolding rename_in
  rename_in-Keeps i none last old hi h = absurd h
  rename_in-Keeps i (some p) last (some o) hi h = returns (as_before v)
  rename_in-Keeps i (some p) last none hi h = elim (Bool-cases (same (some i) s.root)) [
    | inl q ↦ rw q (returns (as_before v))
    | inr q ↦ rw q (move_node-Keeps i p last hi h)
  ]

  rename_node-Keeps :
      (p : Ptr) (newpath : Option CString)
      → IsNullOrNode s p
      → Returns (λ a s'. Grown s s') (rename_node p newpath s)
  unfolding rename_node
  rename_node-Keeps none newpath h = returns (as_before v)
  rename_node-Keeps (some i) newpath h =
      target-then v newpath (pure err) (λ p last. find_in_dir p last >>= rename_in i p last)
        (returns (as_before v))
        λ p last hp.
          find-then v p last (rename_in i p last) hp (λ old ho. rename_in-Keeps i p last old h hp)

  -- On a well-formed filesystem `fs_rename` returns, without a fault or an end-less loop, and leaves
  -- the filesystem well formed with all its nodes, whatever the paths.
  pub rename-Keeps : (old new : Option CString) → Returns (λ a s'. Grown s s') (rename old new s)
  unfolding rename
  rename-Keeps old new = elim (Bool-cases (is_null old || is_null new)) [
    | inl e ↦ rw e (returns (as_before v))
    | inr e ↦
        rw e (bind (resolve-Found v old false) λ r t q. rw q.0 (rename_node-Keeps r.0 new q.1))
  ]
