-- ===== src/Fs/Files/Held.antt =====
-- A file of the current directory that was written with `fs_write_cwd` and is read with `fs_read`.
use hypnos.Base.{
  ap, sym, ◌∙◌, eq_of_some, ℕ, ◌+◌, ◌<◌, ◌%◌, ◌^◌, ◌≡◌, refl, false, ◌==◌, Option, none, some, List,
  [], ◌∷◌, arith, length, take, take_all, set, length-set, Option-cases, inl, inr, get_elem?,
  get_elem?-set_ne, get_elem?-set_self, lt_of_get_elem?,
}
use hypnos.CStr.{CString, IsCString, kstrlen}
use hypnos.CStr.Laws.{kstrlen-eq-length}
use hypnos.Crypto.{encrypt, decrypt}
use hypnos.Crypto.Laws.{decrypt-encrypt}
use native.Mathlib.Decide.{ℕ_discrete}
use hypnos.Fs.{Fs, FsNode, Status, ok}
use hypnos.Fs.Monad.{alloc, store}
use hypnos.Fs.Files.{
  set_contents, fill, read, read_node, read_bytes, read_out, stored, up_to_zero, store,
}
use hypnos.Fs.Resolve.Names.{IsName, resolve-name}
use hypnos.Fs.Shape.{find_child}
use hypnos.Fs.Shape.Link.{get_elem?-set}
use hypnos.Fs.Shape.Update.{valid-updated}
use hypnos.Fs.Valid.{Returns, returns, IsValid}
use hypnos.Fs.Valid.Lookup.{load_ok}
use hypnos.Mm.Kmalloc.{Kheap, kmalloc}

-- The file `name` of the current directory `d` is the node `i`, which is not a directory.
pub record IsFile (kids : ℕ → List ℕ) (s : Fs) (d i : ℕ) (n : FsNode) (name : CString)
    : Type 0 where
  pub valid : IsValid kids s
  pub cwd : s.cwd ≡ some d
  pub exists : d < length s.nodes
  pub found : find_child s.nodes (kids d) name ≡ some i
  pub node : get_elem? s.nodes i ≡ some n
  pub file : n.is_dir ≡ false

-- The node holds the text, encrypted.
pub record Holds (s : Fs) (n : FsNode) (bytes : CString) : Type 0 where
  pub cipher : List ℕ
  pub made : encrypt s.key bytes ≡ some cipher
  pub contents : n.contents ≡ some cipher
  pub size : n.size ≡ kstrlen bytes % 2 ^ 32

up_to_zero_all : (s : CString) → IsCString s → up_to_zero s ≡ s
unfolding up_to_zero
up_to_zero_all [] h = refl
up_to_zero_all (c ∷ s) h = ground (arith, up_to_zero_all s h.1, h.0)

-- The bytes of a text, in front of a buffer for them, are read back.
module _ (s : Fs) (n : FsNode) (bytes : CString) (key : 0 < length s.key)
    (some_bytes : 0 < length bytes) (small : length bytes < 2 ^ 32) (text : IsCString bytes)
    (h : Holds s n bytes) where
  same_size : n.size ≡ length bytes
  same_size = omega (arith, h.size, kstrlen-eq-length bytes, small)

  stored-cipher : n.is_dir ≡ false → stored n ≡ some h.cipher
  stored-cipher file =
      let e : (n.size == 0) ≡ false = ground (arith, same_size) in rw (file, e, h.contents) refl

  plain : decrypt s.key (take n.size h.cipher) ≡ some bytes
  plain =
      let e = decrypt-encrypt s.key bytes key in
      let same : e.cipher ≡ h.cipher = eq_of_some (sym e.made ∙ h.made) in
      let len : length h.cipher ≡ n.size = ap length (sym same) ∙ (e.same_length ∙ sym same_size) in
      rw (take_all n.size h.cipher (omega (arith, len)), ← same) e.back

  read_bytes-Holds :
      (buf : ℕ) (heap : Kheap)
      → kmalloc (length bytes + 1) s.kheap ≡ (some buf, heap)
      → n.is_dir ≡ false
      → read_bytes n.size (stored n) s ≡ some (some bytes, record s { kheap = heap })
  unfolding read_bytes alloc read_out
  read_bytes-Holds buf heap room file =
      rw (stored-cipher file, same_size, room, ← same_size, plain, up_to_zero_all bytes text) refl

-- A file that holds a text is read back, in front of a heap with room for it.
pub read-Holds :
    {kids : ℕ → List ℕ} {s : Fs} {d i : ℕ} {n : FsNode} {name : CString}
    → IsFile kids s d i n name
    → IsName name
    → (bytes : CString) → 0 < length bytes
    → length bytes < 2 ^ 32
    → IsCString bytes
    → Holds s n bytes
    → (buf : ℕ) (heap : Kheap) → kmalloc (length bytes + 1) s.kheap ≡ (some buf, heap)
    → read (some name) s ≡ some (some bytes, record s { kheap = heap })
unfolding read read_node
read-Holds {kids} {s} {d} {i} {n} {name} f is_name bytes pos small text h buf heap room =
    rw (resolve-name f.valid d i f.cwd f.exists name is_name f.found, load_ok s i n f.node)
      (read_bytes-Holds s n bytes f.valid.keyed pos small text h buf heap room f.file)

-- A store with the same names finds the same children.
find_child-updated :
    (ns : List FsNode) (i : ℕ) (n f : FsNode)
    → get_elem? ns i ≡ some n
    → f.name ≡ n.name
    → (is : List ℕ) (name : CString) → find_child (set ns i f) is name ≡ find_child ns is name
unfolding find_child
find_child-updated ns i n f at_i same [] name = refl
find_child-updated ns i n f at_i same (j ∷ is) name = elim (ℕ_discrete i j) [
  | yes e ↦
      let at_j : get_elem? ns j ≡ some n = rw (← e) at_i in
      let now : get_elem? (set ns i f) j ≡ some f = ground (arith, get_elem?-set ns i j f n at_i) in
      rw (find_child, now, at_j, same, find_child-updated ns i n f at_i same is name) refl
  | no ne ↦
      rw (find_child, get_elem?-set_ne ns i j f ne)
        (elim (Option-cases (get_elem? ns j)) [
          | inl e ↦ rw (e, find_child) (find_child-updated ns i n f at_i same is name)
          | inr (m, e) ↦ rw (e, find_child, find_child-updated ns i n f at_i same is name) refl
        ])
]

-- The state after a text was put into a file.
abbrev pub Written : (ℕ → List ℕ) → ℕ → ℕ → CString → CString → Status → Fs → Type 0
Written kids d i name bytes st s =
    st ≡ ok → (n : FsNode) × (IsFile kids s d i n name × Holds s n bytes)

fill-Written :
    {kids : ℕ → List ℕ} {s : Fs} {d i : ℕ} {n : FsNode} {name : CString}
    → IsFile kids s d i n name
    → (bytes : CString) (buf : Option ℕ)
    → Returns (Written kids d i name bytes) (fill i bytes buf s)
unfolding fill store
fill-Written f bytes none = returns λ e. absurd (cc e)
fill-Written {kids} {s} {d} {i} {n} {name} f bytes (some buf) =
    let e = decrypt-encrypt s.key bytes f.valid.keyed in
    let n' : FsNode = record n { contents = some e.cipher; size = kstrlen bytes % 2 ^ 32 } in
    let s' : Fs = record s { nodes = set s.nodes i n' } in
    let v =
      valid-updated f.valid i n n' f.node
        (record { parent = refl; child = refl; sibling = refl }) in
    rw (e.made, load_ok s i n f.node)
      (returns λ q. (
        n',
        (
          record {
            valid = v;
            cwd = f.cwd;
            exists = omega (arith, length-set s.nodes i n', f.exists);
            found = find_child-updated s.nodes i n n' f.node refl (kids d) name ∙ f.found;
            node = get_elem?-set_self s.nodes i n' (lt_of_get_elem? s.nodes i n f.node);
            file = f.file;
          },
          record { cipher = e.cipher; made = e.made; contents = refl; size = refl },
        ),
      ))

-- Putting a text into a file: if the call succeeds, the file holds the text.
pub set_contents-Written :
    {kids : ℕ → List ℕ} {s : Fs} {d i : ℕ} {n : FsNode} {name : CString}
    → IsFile kids s d i n name
    → (bytes : CString) → Returns (Written kids d i name bytes) (set_contents (some i) bytes s)
unfolding set_contents alloc
set_contents-Written {kids} {s} {d} {i} {n} {name} f bytes =
    let r = kmalloc (kstrlen bytes + 1) s.kheap in
    let v = f.valid in
    let g : IsFile kids (record s { kheap = r.1 }) d i n name = record {
      valid = record { shape = v.shape; root_in = v.root_in; cwd_in = v.cwd_in; keyed = v.keyed };
      cwd = f.cwd;
      exists = f.exists;
      found = f.found;
      node = f.node;
      file = f.file;
    } in
    rw (load_ok s i n f.node, f.file) (fill-Written g bytes r.0)
