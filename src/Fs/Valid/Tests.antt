-- ===== src/Fs/Valid/Tests.antt =====
-- The theorems on well-formed filesystems, at one with a root only.
use hypnos.Base.{
  ap, sym, eq_of_some, ℕ, zero, suc, ◌≡◌, refl, true, some, none, List, [], ◌∷◌, get_elem?, arith,
}
use hypnos.CStr.{CString}
use hypnos.Mm.Kmalloc.{kmalloc_init}
use hypnos.Fs.{Fs, FsNode}
use hypnos.Fs.Valid.Lookup.{find_in_dir_lem}
use hypnos.Fs.Shape.{Below, find_child, Chain}
use hypnos.Fs.Valid.{IsValid, Returns}
use hypnos.Fs.Resolve.{resolve, next_component}
use hypnos.Fs.Resolve.Components.{IsComponent, next_component-IsComponent}
use hypnos.Fs.Resolve.Follow.{Found, resolve-Found}
use hypnos.Fs.Nodes.{find_in_dir}

abbrev pub root_node : FsNode
root_node = record {
  name = [];
  is_dir = true;
  contents = none;
  size = 0;
  parent = some 0;
  child = none;
  sibling = none;
}

abbrev pub root_only : Fs
root_only = record {
  nodes = root_node ∷ [];
  root = some 0;
  cwd = some 0;
  snaps = [];
  kheap = kmalloc_init;
  key = b'k' ∷ [];
}

abbrev pub no_kids : ℕ → List ℕ
no_kids d = []

chains_ok :
    (d : ℕ) (n : FsNode)
    → get_elem? root_only.nodes d ≡ some n
    → Chain root_only.nodes n.child (no_kids d)
chains_ok zero n e = ap (λ x. x.child) (sym (eq_of_some e))
chains_ok (suc d) n e = absurd (cc e)

parents_ok : (d : ℕ) (n : FsNode) → get_elem? root_only.nodes d ≡ some n → Below n.parent 1
parents_ok zero n e =
    let same : n.parent ≡ some 0 = ap (λ x. x.parent) (sym (eq_of_some e)) in rw same (omega arith)
parents_ok (suc d) n e = absurd (cc e)

pub root_only-IsValid : IsValid no_kids root_only
root_only-IsValid = record {
  shape = record {
    chains = chains_ok;
    owned = λ d i e. absurd (cc e);
    absent = λ d e. refl;
    parents = parents_ok;
  };
  root_in = omega arith;
  cwd_in = omega arith;
  keyed = omega arith;
}

abbrev path : CString
path = b'/' ∷ b'a' ∷ []

resolve-Found_example : Returns (Found root_only) (resolve (some path) true root_only)
resolve-Found_example = resolve-Found root_only-IsValid (some path) true

next_component-IsComponent_example : IsComponent path (b'a' ∷ []) []
unfolding next_component
next_component-IsComponent_example = next_component-IsComponent path (b'a' ∷ []) [] refl

find_in_dir_lem_example :
    find_in_dir (some 0) path root_only ≡ some (find_child root_only.nodes [] path, root_only)
find_in_dir_lem_example = find_in_dir_lem root_only-IsValid 0 path (omega arith)
