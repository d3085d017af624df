-- ===== src/Fs/Files/Reads.antt =====
-- `fs_read` and `fs_chdir` return on every well-formed filesystem and keep it well formed.
use hypnos.Base.{
  ℕ, ◌+◌, ap, Option, none, some, List, arith, length, take, get_elem?_of_lt, Bool-cases, inl, inr,
  false,
}
use hypnos.CStr.{CString}
use hypnos.Crypto.{decrypt, encrypt}
use hypnos.Fs.{Fs, Ptr}
use hypnos.Fs.Files.{
  is_blank, stored, read_out, read_bytes, read_node, read, chdir_to, chdir, set_cwd,
}
use hypnos.Fs.Files.Create.{same}
use hypnos.Fs.Files.Contents.{apply-some, further}
use hypnos.Fs.Nodes.Make.{alloc-Returns}
use hypnos.Fs.Resolve.Follow.{resolve-Found}
use hypnos.Fs.Valid.{Returns, returns, bind, IsNullOrNode, IsValid, Grown}
use hypnos.Fs.Valid.Lookup.{load_ok}

module _ {kids : ℕ → List ℕ} {s : Fs} (v : IsValid kids s) where
  read_out-Keeps :
      (size : ℕ) (bytes : List ℕ) (buf : Option ℕ)
      → Returns (λ a s'. Grown s s') (read_out size bytes buf s)
  unfolding read_out encrypt decrypt
  read_out-Keeps size bytes none = returns (same v)
  read_out-Keeps size bytes (some buf) =
      let (out, e) = apply-some v (take size bytes) in rw e (returns (same v))

module _ {kids : ℕ → List ℕ} {s : Fs} (v : IsValid kids s) where
  read_bytes-Keeps :
      (size : ℕ) (bytes : Option (List ℕ)) → Returns (λ a s'. Grown s s') (read_bytes size bytes s)
  unfolding read_bytes
  read_bytes-Keeps size none = returns (same v)
  read_bytes-Keeps size (some bytes) =
      bind (alloc-Returns v (size + 1))
        λ buf t q. further s t (omega (arith, ap length q.1)) (read_out-Keeps q.0 size bytes buf)

  read_node-Keeps : (p : Ptr) → IsNullOrNode s p → Returns (λ a s'. Grown s s') (read_node p s)
  unfolding read_node
  read_node-Keeps none h = returns (same v)
  read_node-Keeps (some i) h =
      let (n, e) = get_elem?_of_lt s.nodes i h in
      rw (load_ok s i n e) (read_bytes-Keeps n.size (stored n))

  -- On a well-formed filesystem `fs_read` returns, without a fault or an end-less loop, and leaves the
  -- filesystem well formed with all its nodes, whatever the path.
  pub read-Keeps : (path : Option CString) → Returns (λ a s'. Grown s s') (read path s)
  unfolding read
  read-Keeps path = bind (resolve-Found v path false) λ r s' q. rw q.0 (read_node-Keeps r.0 q.1)

  chdir_to-Keeps : (p : Ptr) → IsNullOrNode s p → Returns (λ a s'. Grown s s') (chdir_to p s)
  unfolding chdir_to set_cwd
  chdir_to-Keeps none h = returns (same v)
  chdir_to-Keeps (some i) h =
      let (n, e) = get_elem?_of_lt s.nodes i h in
      let moved : IsValid kids (record s { cwd = some i }) = record {
        shape = v.shape;
        root_in = v.root_in;
        cwd_in = h;
        keyed = v.keyed;
      } in
      rw (load_ok s i n e) (elim (Bool-cases n.is_dir) [
        | inl q ↦ rw q (returns ((kids, moved), omega arith))
        | inr q ↦ rw q (returns (same v))
      ])

  -- On a well-formed filesystem `fs_chdir` returns, without a fault or an end-less loop, and leaves the
  -- filesystem well formed with all its nodes, whatever the path.
  pub chdir-Keeps : (path : Option CString) → Returns (λ a s'. Grown s s') (chdir path s)
  unfolding chdir
  chdir-Keeps path = elim (Bool-cases (is_blank path)) [
    | inl e ↦ rw e (returns (same v))
    | inr e ↦ rw e (bind (resolve-Found v path false) λ r s' q. rw q.0 (chdir_to-Keeps r.0 q.1))
  ]
