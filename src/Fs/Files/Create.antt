-- ===== src/Fs/Files/Create.antt =====
-- `fs_mkdir` and `fs_touch` return on every well-formed filesystem and keep it well formed.
use hypnos.Base.{
  ℕ, ◌<◌, ◌≡◌, refl, Bool, true, false, Option, none, some, List, [], ◌∷◌, arith, ◌||◌, leb, length,
  get_elem?_of_lt, Bool-cases, inl, inr, if◌then◌else◌,
}
use hypnos.CStr.{CString, kstrlen}
use hypnos.Fs.{Fs, Ptr, err, max_path_len}
use hypnos.Fs.Monad.{FsM, pure, ◌>>=◌}
use hypnos.Fs.Nodes.{find_in_dir}
use hypnos.Fs.Nodes.Make.{Made, new_node-Made, link-Returns}
use hypnos.Fs.Files.{is_blank, or_empty, usable, attach, add_node, mkdir_in, touch_in, mkdir, touch}
use hypnos.Fs.Resolve.{resolve}
use hypnos.Fs.Resolve.Follow.{resolve-Found}
use hypnos.Fs.Valid.{Returns, returns, bind, IsNode, IsNullOrNode, IsValid, Grown}
use hypnos.Fs.Valid.Lookup.{load_ok, find_in_dir-Returns}

module _ {kids : ℕ → List ℕ} {s : Fs} (v : IsValid kids s) where
  pub same : Grown s s
  same = ((kids, v), omega arith)

  -- If the call goes on, the directory exists.
  pub usable-Returns :
      (p : Ptr) (last : CString)
      → IsNullOrNode s p
      → Returns (λ go s'. (s' ≡ s) × (go ≡ true → IsNode s p)) (usable p last s)
  unfolding usable
  usable-Returns none last h = returns (refl, λ e. cc)
  usable-Returns (some p) [] h =
      let (n, e) = get_elem?_of_lt s.nodes p h in rw (load_ok s p n e) (returns (refl, λ q. h))
  usable-Returns (some p) (c ∷ last) h =
      let (n, e) = get_elem?_of_lt s.nodes p h in rw (load_ok s p n e) (returns (refl, λ q. h))

  attach-Keeps :
      (t : Fs) (p : ℕ) (r : Option ℕ)
      → p < length s.nodes
      → Made kids s r t
      → Returns (λ a s'. Grown s s') (attach p r t)
  unfolding attach
  attach-Keeps t p none h m = returns ((kids, m.0), m.1)
  attach-Keeps t p (some i) h (w, le, hi, loose) =
      bind (link-Returns w p i (omega arith) hi loose)
        λ u s' q. returns ((_, q.0), omega (arith, q.1))

  pub add_node-Keeps :
      (p : Ptr) (last : CString) (is_dir : Bool)
      → IsNode s p
      → Returns (λ a s'. Grown s s') (add_node p last is_dir s)
  unfolding add_node
  add_node-Keeps none last is_dir h = absurd h
  add_node-Keeps (some p) last is_dir h =
      bind (new_node-Made v last is_dir) λ r t m. attach-Keeps t p r h m

  mkdir_in-Keeps :
      (p : Ptr) (last : CString) (old : Ptr)
      → IsNode s p
      → Returns (λ a s'. Grown s s') (mkdir_in p last old s)
  unfolding mkdir_in
  mkdir_in-Keeps p last none h = add_node-Keeps p last true h
  mkdir_in-Keeps p last (some i) h = returns same

  touch_in-Keeps :
      (p : Ptr) (last : CString) (old : Ptr)
      → IsNode s p
      → IsNullOrNode s old
      → Returns (λ a s'. Grown s s') (touch_in p last old s)
  unfolding touch_in
  touch_in-Keeps p last none h ho = add_node-Keeps p last false h
  touch_in-Keeps p last (some i) h ho =
      let (n, e) = get_elem?_of_lt s.nodes i ho in
      rw (load_ok s i n e)
        (elim (Bool-cases n.is_dir) [ inl d ↦ rw d (returns same) | inr d ↦ rw d (returns same) ])

  pub find-then :
      {A : Type 0} {P : A → Fs → Type 0} (p : Ptr) (last : CString) (f : Ptr → FsM A)
      → IsNode s p
      → ((old : Ptr) → IsNullOrNode s old → Returns P (f old s))
      → Returns P ((find_in_dir p last >>= f) s)
  find-then none last f h next = absurd h
  find-then (some p) last f h next =
      bind (find_in_dir-Returns v p last h) λ old s' q. rw q.0 (next old q.1)

  -- The beginning that the calls share: follow the path, test the directory, and go on.
  pub target-then :
      {A : Type 0} {P : A → Fs → Type 0} (path : Option CString) (stop : FsM A)
      (f : Ptr → CString → FsM A)
      → Returns P (stop s)
      → ((p : Ptr) (last : CString) → IsNode s p → Returns P (f p last s))
      → Returns P
          ((resolve path true >>= λ r. usable r.0 r.1 >>= λ go. if go then f r.0 r.1 else stop) s)
  target-then path stop f hs next = bind (resolve-Found v path true) λ r s' q. rw q.0 (
      bind (usable-Returns r.0 r.1 q.1)
        (elim [ true ↦ λ s'' u. rw u.0 (next r.0 r.1 (u.1 refl)) | false ↦ λ s'' u. rw u.0 hs ]))

  -- On a well-formed filesystem `fs_mkdir` returns, without a fault or an end-less loop, and leaves
  -- the filesystem well formed with all its nodes, whatever the path.
  pub mkdir-Keeps : (path : Option CString) → Returns (λ a s'. Grown s s') (mkdir path s)
  unfolding mkdir
  mkdir-Keeps path =
      elim (Bool-cases (is_blank path || leb max_path_len (kstrlen (or_empty path)))) [
        | inl e ↦ rw e (returns same)
        | inr e ↦ rw e (
            target-then path (pure err) (λ p last. find_in_dir p last >>= mkdir_in p last)
              (returns same)
              λ p last h.
                find-then p last (mkdir_in p last) h (λ old ho. mkdir_in-Keeps p last old h))
      ]

  -- On a well-formed filesystem `fs_touch` returns, without a fault or an end-less loop, and leaves
  -- the filesystem well formed with all its nodes, whatever the path.
  pub touch-Keeps : (path : Option CString) → Returns (λ a s'. Grown s s') (touch path s)
  unfolding touch
  touch-Keeps path =
      elim (Bool-cases (is_blank path || leb max_path_len (kstrlen (or_empty path)))) [
        | inl e ↦ rw e (returns same)
        | inr e ↦ rw e (
            target-then path (pure err) (λ p last. find_in_dir p last >>= touch_in p last)
              (returns same)
              λ p last h.
                find-then p last (touch_in p last) h (λ old ho. touch_in-Keeps p last old h ho))
      ]
