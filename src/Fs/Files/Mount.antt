-- ===== src/Fs/Files/Mount.antt =====
-- `fs_init` on the heap of the start makes a well-formed filesystem.
use hypnos.Base.{
  ℕ, zero, suc, ◌<◌, ◌≡◌, refl, ap, sym, true, some, List, [], ◌∷◌, get_elem?, arith, length,
  eq_of_some,
}
use hypnos.Crypto.{Key}
use hypnos.Mm.Kmalloc.{Kheap, kheap_start, kmalloc, kmalloc_init}
use hypnos.Fs.{Fs, FsNode, unmounted}
use hypnos.Fs.Monad.{load, store, alloc, push_node}
use hypnos.Fs.Nodes.{new_node, fresh, sizeof_node}
use hypnos.Fs.Files.{init, set_root, set_cwd, own_parent}
use hypnos.Fs.Shape.{Below, Chain}
use hypnos.Fs.Valid.{Returns, returns, mono, IsValid}

abbrev root_node : FsNode
root_node = record (fresh (b'/' ∷ []) true) { parent = some 0 }

abbrev pub no_kids : ℕ → List ℕ
no_kids d = []

module _ (k : Key) (h h' : Kheap) (buf : ℕ) (room : kmalloc sizeof_node h ≡ (some buf, h')) where
  abbrev mounted : Fs
  mounted = record {
    nodes = root_node ∷ [];
    root = some 0;
    cwd = some 0;
    snaps = [];
    kheap = h';
    key = k;
  }

  chains_ok :
      (d : ℕ) (n : FsNode)
      → get_elem? mounted.nodes d ≡ some n
      → Chain mounted.nodes n.child (no_kids d)
  chains_ok zero n e = ap (λ x. x.child) (sym (eq_of_some e))
  chains_ok (suc d) n e = absurd (cc e)

  parents_ok : (d : ℕ) (n : FsNode) → get_elem? mounted.nodes d ≡ some n → Below n.parent 1
  parents_ok zero n e =
      let same : n.parent ≡ some 0 = ap (λ x. x.parent) (sym (eq_of_some e)) in
      rw same (omega arith)
  parents_ok (suc d) n e = absurd (cc e)

  -- Under a key that is not empty, with room for a node, `fs_init` returns a well-formed filesystem in
  -- which no node has children.
  pub init-Alone :
      0 < length k
      → Returns (λ u s. IsValid no_kids s × (0 < length s.nodes)) (init (unmounted h k))
  unfolding init set_root set_cwd own_parent new_node alloc push_node load store
  init-Alone key = rw room (
      returns {s = mounted} (
        record {
          shape = record {
            chains = chains_ok;
            owned = λ d i e. absurd (cc e);
            absent = λ d e. refl;
            parents = parents_ok;
          };
          root_in = omega arith;
          cwd_in = omega arith;
          keyed = key;
        },
        omega arith,
      ))

  pub init_in-IsValid :
      0 < length k → Returns (λ u s. (kids : ℕ → List ℕ) × IsValid kids s) (init (unmounted h k))
  init_in-IsValid key = mono (init-Alone key) λ u s g. (no_kids, g.0)

pub first_room : kmalloc sizeof_node kmalloc_init ≡ (some kheap_start, record { heap_offset = 56 })
unfolding kmalloc kmalloc_init
first_room = refl

-- The same on the heap of the start.
pub init-IsValid :
    (k : Key)
    → 0 < length k
    → Returns (λ u s. (kids : ℕ → List ℕ) × IsValid kids s) (init (unmounted kmalloc_init k))
init-IsValid k key =
    init_in-IsValid k kmalloc_init (record { heap_offset = 56 }) kheap_start first_room key
