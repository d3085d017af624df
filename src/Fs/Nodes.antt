-- ===== src/Fs/Nodes.antt =====
-- Making a node, linking it into a directory, and finding it there.
pub mod Fresh
pub mod Make
use hypnos.Base.{◌+◌, ℕ, zero, suc, Bool, Option, none, some, length, if◌then◌else◌}
use hypnos.Base.Int.{is_zero}
use hypnos.CStr.{CString, kstrcmp, kstrncpy}
use hypnos.Fs.{FsNode, Ptr, max_name_len}
use hypnos.Fs.Monad.{FsM, pure, fault, ◌>>=◌, ◌>>◌, get, load, store, alloc, push_node}

-- sizeof(fs_node_t) on i386
abbrev pub sizeof_node : ℕ
sizeof_node = 56

abbrev pub fresh : CString → Bool → FsNode
fresh name is_dir = record {
  name = kstrncpy name max_name_len;
  is_dir = is_dir;
  contents = none;
  size = 0;
  parent = none;
  child = none;
  sibling = none;
}

place : CString → Bool → Option ℕ → FsM (Option ℕ)
place name is_dir none = pure none
place name is_dir (some block) = do i ← push_node (fresh name is_dir); pure (some i)

-- `fs_new_node`
unfoldable pub new_node : CString → Bool → FsM (Option ℕ)
unfolding place
new_node name is_dir = do block ← alloc sizeof_node; place name is_dir block

-- The loop of `fs_find_in_dir` from `cur` on. A chain of siblings that is longer than the store
-- passes a node twice and so has no end: the fuel is the number of nodes and one.
unfoldable pub find_from : ℕ → Ptr → CString → FsM Ptr
find_from zero cur name = fault
find_from (suc fuel) none name = pure none
find_from (suc fuel) (some i) name = do
  n ← load (some i)
  let rest = find_from fuel n.sibling name
  if is_zero (kstrcmp n.name name) then pure (some i) else rest

-- `fs_find_in_dir`
unfoldable pub find_in_dir : Ptr → CString → FsM Ptr
find_in_dir dir name = do d ← load dir; s ← get; find_from (length s.nodes + 1) d.child name

-- The three assignments that make node `i` the first child of `dir`.
unfoldable pub link : ℕ → ℕ → FsM (Unit {0})
link dir i = do
  n ← load (some i)
  d ← load (some dir)
  store i (record n { parent = some dir; sibling = d.child })
  d' ← load (some dir)
  store dir (record d' { child = some i })
