-- ===== src/Fs/Files/Contents.antt =====
-- `fs_write`, `fs_write_cwd`, `fs_read` and `fs_chdir` return on every well-formed filesystem and keep
-- it well formed.
use hypnos.Base.{
  ℕ, ◌+◌, ◌<◌, ◌≤◌, ◌≡◌, refl, false, Option, none, some, List, arith, ◌||◌, length, get_elem?,
  get_elem?_of_lt, Bool-cases, inl, inr, ap,
}
use hypnos.CStr.{CString, kstrlen}
use hypnos.Crypto.{encrypt}
use hypnos.Crypto.Laws.{decrypt-encrypt}
use hypnos.Fs.{Fs, FsNode, Ptr, ok, err}
use hypnos.Fs.Monad.{pure, ◌>>=◌, store}
use hypnos.Fs.Nodes.{find_in_dir}
use hypnos.Fs.Nodes.Make.{Made, new_node-Made, link-Returns, alloc-Returns}
use hypnos.Fs.Files.{
  is_blank, is_null, or_empty, fill, set_contents, write_target, write, link_in_cwd, cwd_target,
  write_in, write_cwd,
}
use hypnos.Fs.Files.Create.{same, find-then, target-then, touch-Keeps}
use hypnos.Fs.Shape.Update.{SameLinks, store-Returns}
use hypnos.Fs.Valid.{Returns, returns, bind, mono, IsNode, IsNullOrNode, IsValid, Grown}
use hypnos.Fs.Valid.Lookup.{load_ok, find_in_dir-Returns}

-- A call that keeps the filesystem well formed after one that did.
pub further :
    {A : Type 0} {o : Option (A × Fs)} (s t : Fs)
    → length s.nodes ≤ length t.nodes
    → Returns (λ a s'. Grown t s') o
    → Returns (λ a s'. Grown s s') o
further s t le r = mono r λ a s' g. (g.0, omega (arith, g.1))

module _ {kids : ℕ → List ℕ} {s : Fs} (v : IsValid kids s) where
  store-Keeps :
      {A : Type 0} (i : ℕ) (n f : FsNode) (a : A)
      → get_elem? s.nodes i ≡ some n
      → SameLinks n f
      → Returns (λ b s'. Grown s s') ((store i f >>= λ u. pure a) s)
  store-Keeps i n f a at_i l =
      bind (store-Returns v i n f at_i l) λ u s' q. returns ((kids, q.0), omega (arith, q.1))

  -- Both directions of the cipher succeed, as a key is set.
  pub apply-some : (bytes : List ℕ) → (out : List ℕ) × (encrypt s.key bytes ≡ some out)
  apply-some bytes = let e = decrypt-encrypt s.key bytes v.keyed in (e.cipher, e.made)

  fill-Keeps :
      (i : ℕ) (bytes : CString) (buf : Option ℕ)
      → i < length s.nodes
      → Returns (λ a s'. Grown s s') (fill i bytes buf s)
  unfolding fill
  fill-Keeps i bytes none h = returns (same v)
  fill-Keeps i bytes (some buf) h =
      let (out, e) = apply-some bytes in
      let (n, at_i) = get_elem?_of_lt s.nodes i h in
      rw (e, load_ok s i n at_i)
        (store-Keeps i n _ ok at_i (record { parent = refl; child = refl; sibling = refl }))

module _ {kids : ℕ → List ℕ} {s : Fs} (v : IsValid kids s) where
  pub set_contents-Keeps :
      (p : Ptr) (bytes : CString)
      → IsNullOrNode s p
      → Returns (λ a s'. Grown s s') (set_contents p bytes s)
  unfolding set_contents
  set_contents-Keeps none bytes h = returns (same v)
  set_contents-Keeps (some i) bytes h =
      let (n, at_i) = get_elem?_of_lt s.nodes i h in
      rw (load_ok s i n at_i) (elim (Bool-cases n.is_dir) [
        | inl d ↦ rw d (returns (same v))
        | inr d ↦ rw d (
            bind (alloc-Returns v (kstrlen bytes + 1)) λ buf t q.
              let e = ap length q.1 in
              further s t (omega (arith, e)) (fill-Keeps q.0 i bytes buf (omega (arith, e))))
      ])

module _ {kids : ℕ → List ℕ} {s : Fs} (v : IsValid kids s) where
  write_target-Keeps :
      (path : Option CString) (d : ℕ) (last : CString) (old : Ptr)
      → d < length s.nodes
      → IsNullOrNode s old
      → Returns (λ p s'. Grown s s' × IsNullOrNode s' p) (write_target path (some d) last old s)
  unfolding write_target
  write_target-Keeps path d last (some i) h ho = returns (same v, ho)
  write_target-Keeps path d last none h ho = bind (touch-Keeps v path) (elim [
    | ok ↦ λ t g.
        mono (find_in_dir-Returns g.0.1 d last (omega (arith, g.1))) λ p t' q. rw q.0 (g, q.1)
    | err ↦ λ t g. returns {a = none} (g, tt)
  ])

  -- On a well-formed filesystem `fs_write` returns, without a fault or an end-less loop, and leaves the
  -- filesystem well formed with all its nodes, whatever the path and the text.
  pub write-Keeps :
      (path bytes : Option CString) → Returns (λ a s'. Grown s s') (write path bytes s)
  unfolding write
  write-Keeps path bytes = elim (Bool-cases (is_null path || is_null bytes)) [
    | inl e ↦ rw e (returns (same v))
    | inr e ↦ rw e (
        target-then v path (pure err)
          (λ p last. find_in_dir p last >>= λ old.
            write_target path p last old >>= λ node. set_contents node (or_empty bytes))
          (returns (same v))
          (elim [
            | none ↦ λ last h. absurd h
            | some d ↦ λ last h. find-then v (some d) last _ h λ old ho.
                bind (write_target-Keeps path d last old h ho) λ node t g.
                  further s t g.0.1 (set_contents-Keeps g.0.0.1 node (or_empty bytes) g.1)
          ]))
  ]

  -- The new node of `fs_write_cwd`, linked into the current directory.
  cwd_link-Keeps :
      (d : ℕ) (r : Option ℕ) (t : Fs)
      → d < length s.nodes
      → Made kids s r t
      → Returns (λ p s'. Grown s s' × IsNullOrNode s' p) (link_in_cwd d r t)
  unfolding link_in_cwd
  cwd_link-Keeps d none t h m = returns (((kids, m.0), m.1), tt)
  cwd_link-Keeps d (some i) t h (w, le, hi, loose) =
      bind (link-Returns w d i (omega arith) hi loose)
        λ u s' q. returns (((_, q.0), omega (arith, q.1)), omega (arith, q.1))

  cwd_target-Keeps :
      (d : ℕ) (name : CString) (old : Ptr)
      → d < length s.nodes
      → IsNullOrNode s old
      → Returns (λ p s'. Grown s s' × IsNullOrNode s' p) (cwd_target d name old s)
  unfolding cwd_target
  cwd_target-Keeps d name (some i) h ho = returns (same v, ho)
  cwd_target-Keeps d name none h ho =
      bind (new_node-Made v name false) λ r t m. cwd_link-Keeps d r t h m

  write_in-Keeps :
      (p : Ptr) (name bytes : CString)
      → IsNode s p
      → Returns (λ a s'. Grown s s') (write_in p name bytes s)
  unfolding write_in
  write_in-Keeps none name bytes h = absurd h
  write_in-Keeps (some d) name bytes h =
      let (n, e) = get_elem?_of_lt s.nodes d h in
      rw (load_ok s d n e) (elim (Bool-cases n.is_dir) [
        | inl q ↦ rw q (
            find-then v (some d) name _ h λ old ho.
              bind (cwd_target-Keeps d name old h ho)
                λ node t g. further s t g.0.1 (set_contents-Keeps g.0.0.1 node bytes g.1))
        | inr q ↦ rw q (returns (same v))
      ])

  -- On a well-formed filesystem `fs_write_cwd` returns, without a fault or an end-less loop, and leaves
  -- the filesystem well formed with all its nodes, whatever the name and the text.
  pub write_cwd-Keeps :
      (name bytes : Option CString) → Returns (λ a s'. Grown s s') (write_cwd name bytes s)
  unfolding write_cwd
  write_cwd-Keeps name bytes = elim (Bool-cases (is_blank name || is_null bytes)) [
    | inl e ↦ rw e (returns (same v))
    | inr e ↦ rw e (write_in-Keeps s.cwd (or_empty name) (or_empty bytes) v.cwd_in)
  ]
