-- ===== src/Fs/Dirs/Copies.antt =====
-- `fs_copy` returns on every well-formed filesystem and keeps it well formed.
use hypnos.Base.{
  ℕ, ◌+◌, ◌<◌, refl, ap, false, Option, none, some, List, arith, ◌||◌, ◌==◌, length,
  get_elem?_of_lt, Bool-cases, inl, inr,
}
use hypnos.CStr.{CString}
use hypnos.Fs.{Fs, FsNode, Ptr, err}
use hypnos.Fs.Monad.{pure, ◌>>=◌}
use hypnos.Fs.Nodes.{find_in_dir}
use hypnos.Fs.Dirs.{copy_buffer, copy_bytes, copy_to, copy_in, copy_node, copy}
use hypnos.Fs.Files.{is_null}
use hypnos.Fs.Files.Create.{same, find-then, target-then}
use hypnos.Fs.Files.Contents.{further}
use hypnos.Fs.Nodes.Make.{Made, new_node-Made, link-Returns, alloc-Returns}
use hypnos.Fs.Resolve.Follow.{resolve-Found}
use hypnos.Fs.Shape.Update.{store-Returns}
use hypnos.Fs.Valid.{Returns, returns, bind, IsNode, IsNullOrNode, IsValid, Grown}
use hypnos.Fs.Valid.Lookup.{load_ok}

module _ {kids : ℕ → List ℕ} {s : Fs} (v : IsValid kids s) where
  copy_buffer-Keeps :
      (i : ℕ) (src : FsNode) (bytes : List ℕ) (buf : Option ℕ)
      → i < length s.nodes
      → Returns (λ a s'. Grown s s') (copy_buffer i src bytes buf s)
  unfolding copy_buffer
  copy_buffer-Keeps i src bytes none h = returns (same v)
  copy_buffer-Keeps i src bytes (some buf) h =
      let (n, e) = get_elem?_of_lt s.nodes i h in
      rw (load_ok s i n e) (
        bind (store-Returns v i n _ e (record { parent = refl; child = refl; sibling = refl }))
          λ u t q. returns ((kids, q.0), omega (arith, q.1)))

module _ {kids : ℕ → List ℕ} {s : Fs} (v : IsValid kids s) where
  copy_bytes-Keeps :
      (i : ℕ) (src : FsNode) (bytes : Option (List ℕ))
      → i < length s.nodes
      → Returns (λ a s'. Grown s s') (copy_bytes i src bytes s)
  unfolding copy_bytes
  copy_bytes-Keeps i src none h = returns (same v)
  copy_bytes-Keeps i src (some bytes) h = elim (Bool-cases (src.size == 0)) [
    | inl e ↦ rw e (returns (same v))
    | inr e ↦ rw e (
        bind (alloc-Returns v (src.size + 1)) λ buf t q.
          let le = ap length q.1 in
          further s t (omega (arith, le))
            (copy_buffer-Keeps q.0 i src bytes buf (omega (arith, le))))
  ]

module _ {kids : ℕ → List ℕ} {s : Fs} (v : IsValid kids s) where
  copy_to-Keeps :
      (i p : ℕ) (r : Option ℕ) (t : Fs)
      → i < length s.nodes
      → p < length s.nodes
      → Made kids s r t
      → Returns (λ a s'. Grown s s') (copy_to i p r t)
  unfolding copy_to
  copy_to-Keeps i p none t hi hp m = returns ((kids, m.0), m.1)
  copy_to-Keeps i p (some k) t hi hp (w, le, hk, loose) =
      bind (link-Returns w p k (omega arith) hk loose) λ u t' q.
        let (src, e) = get_elem?_of_lt t'.nodes i (omega (arith, q.1)) in
        rw (load_ok t' i src e) (
          further s t' (omega (arith, q.1))
            (copy_bytes-Keeps q.0 k src src.contents (omega (arith, q.1))))

  copy_in-Keeps :
      (i : ℕ) (p : Ptr) (last : CString) (old : Ptr)
      → i < length s.nodes
      → IsNode s p
      → Returns (λ a s'. Grown s s') (copy_in i p last old s)
  unfolding copy_in
  copy_in-Keeps i none last old hi h = absurd h
  copy_in-Keeps i (some p) last (some o) hi h = returns (same v)
  copy_in-Keeps i (some p) last none hi h =
      bind (new_node-Made v last false) λ r t m. copy_to-Keeps i p r t hi h m

  copy_node-Keeps :
      (p : Ptr) (dst : Option CString)
      → IsNullOrNode s p
      → Returns (λ a s'. Grown s s') (copy_node p dst s)
  unfolding copy_node
  copy_node-Keeps none dst h = returns (same v)
  copy_node-Keeps (some i) dst h =
      let (n, e) = get_elem?_of_lt s.nodes i h in
      rw (load_ok s i n e) (elim (Bool-cases n.is_dir) [
        | inl q ↦ rw q (returns (same v))
        | inr q ↦ rw q (
            target-then v dst (pure err) (λ p last. find_in_dir p last >>= copy_in i p last)
              (returns (same v))
              λ p last hp.
                find-then v p last (copy_in i p last) hp
                  (λ old ho. copy_in-Keeps i p last old h hp))
      ])

  -- On a well-formed filesystem `fs_copy` returns, without a fault or an end-less loop, and leaves the
  -- filesystem well formed with all its nodes, whatever the paths.
  pub copy-Keeps : (src dst : Option CString) → Returns (λ a s'. Grown s s') (copy src dst s)
  unfolding copy
  copy-Keeps src dst = elim (Bool-cases (is_null src || is_null dst)) [
    | inl e ↦ rw e (returns (same v))
    | inr e ↦ rw e (bind (resolve-Found v src false) λ r t q. rw q.0 (copy_node-Keeps r.0 dst q.1))
  ]
