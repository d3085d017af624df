-- ===== src/Fs/Nodes/Fresh.antt =====
-- What `fs_new_node` and linking write besides the links.
use hypnos.Base.{
  length-append, ◌+◌, ◌∷◌, [], sym, ◌∙◌, ℕ, ◌<◌, ◌≡◌, ◌≢◌, refl, Bool, Option, none, some, length,
  get_elem?, get_elem?_of_lt, get_elem?_last, get_elem?-set_self, get_elem?-set_ne, lt_of_get_elem?,
  set,
}
use hypnos.CStr.{CString}
use hypnos.Fs.{Fs, FsNode}
use hypnos.Fs.Monad.{alloc, push_node, store}
use hypnos.Fs.Nodes.{fresh, new_node, place, link, sizeof_node}
use hypnos.Fs.Valid.{Returns, returns}
use hypnos.Fs.Valid.Lookup.{load_ok}
use hypnos.Mm.Kmalloc.{kmalloc}

-- The new node is the last of the store.
abbrev pub Fresh : CString → Bool → Fs → Option ℕ → Fs → Type 0
Fresh name is_dir s none t = t.nodes ≡ s.nodes
Fresh name is_dir s (some i) t =
    (t.cwd ≡ s.cwd)
    × ((i ≡ length s.nodes)
        × ((get_elem? t.nodes i ≡ some (fresh name is_dir))
            × (length t.nodes ≡ length s.nodes + 1)))

place-Fresh :
    (s : Fs) (name : CString) (is_dir : Bool) (block : Option ℕ)
    → Returns (Fresh name is_dir s) (place name is_dir block s)
unfolding place push_node
place-Fresh s name is_dir none = returns {a = none} refl
place-Fresh s name is_dir (some b) = returns (
  refl,
  (
    refl,
    (get_elem?_last s.nodes (fresh name is_dir), length-append s.nodes (fresh name is_dir ∷ [])),
  ),
)

pub new_node-Fresh :
    (s : Fs) (name : CString) (is_dir : Bool)
    → Returns (Fresh name is_dir s) (new_node name is_dir s)
unfolding new_node alloc
new_node-Fresh s name is_dir =
    place-Fresh (record s { kheap = (kmalloc sizeof_node s.kheap).1 }) name is_dir
      (kmalloc sizeof_node s.kheap).0

-- Linking changes neither the name of the node nor the current directory.
abbrev pub Linked : ℕ → FsNode → Fs → Fs → Type 0
Linked i n s t =
    (t.cwd ≡ s.cwd)
    × ((m : FsNode) × ((get_elem? t.nodes i ≡ some m)
          × ((m.name ≡ n.name) × (m.is_dir ≡ n.is_dir))))

pub link-Linked :
    (s : Fs) (d i : ℕ) (n : FsNode)
    → d < length s.nodes
    → get_elem? s.nodes i ≡ some n
    → d ≢ i
    → Returns (λ u t. Linked i n s t) (link d i s)
unfolding link store
link-Linked s d i n hd at_i ne =
    let (dn, at_d) = get_elem?_of_lt s.nodes d hd in
    let n1 : FsNode = record n { parent = some d; sibling = dn.child } in
    let s1 : Fs = record s { nodes = set s.nodes i n1 } in
    let now : get_elem? s1.nodes i ≡ some n1 =
      get_elem?-set_self s.nodes i n1 (lt_of_get_elem? s.nodes i n at_i) in
    let same : get_elem? s1.nodes d ≡ some dn =
      get_elem?-set_ne s.nodes i d n1 (λ e. ne (sym e)) ∙ at_d in
    rw (load_ok s i n at_i, load_ok s d dn at_d, load_ok s1 d dn same)
      (returns (refl, (n1, (get_elem?-set_ne s1.nodes d i _ ne ∙ now, (refl, refl)))))
