-- ===== src/Fs.antt =====
-- kernel/fs/fs.c: the RAM filesystem. The nodes lie in a store, in the order of their allocation;
-- a `fs_node_t*` is an index into it or null. No node is ever given back. A call may fault (a null
-- or dangling pointer, a loop that would not end), and then it has no result.
pub mod Monad
pub mod Nodes
pub mod Resolve
pub mod Files
pub mod Dirs
pub mod Snaps
pub mod Walks
pub mod Shape
pub mod Valid
pub mod Calls
mod Tests
use hypnos.Base.{ℕ, Bool, Option, none, some, List, []}
use hypnos.CStr.{CString}
use hypnos.Crypto.{Key}
use hypnos.Mm.Kmalloc.{Kheap}

-- A pointer to a node; `none` is NULL.
abbrev pub Ptr : Type 0
Ptr = Option ℕ

-- MAX_NAME_LEN
abbrev pub max_name_len : ℕ
max_name_len = 32

-- MAX_PATH_LEN
abbrev pub max_path_len : ℕ
max_path_len = 128

-- MAX_SNAP_NAME
abbrev pub max_snap_name : ℕ
max_snap_name = 32

-- `struct fs_node`. `contents` is the buffer behind `data` without its final 0; no buffer is written
-- to after the call that made it.
pub record FsNode : Type 0 where
  pub name : CString
  pub is_dir : Bool
  pub contents : Option (List ℕ)
  pub size : ℕ
  pub parent : Ptr
  pub child : Ptr
  pub sibling : Ptr

-- `struct snap`, whose list only ever grows at its head.
pub record Snap : Type 0 where
  pub name : CString
  pub root_copy : Ptr

-- `fs_root`, `fs_cwd` and `snap_head`, with the nodes, the kernel heap and the cipher's key.
pub record Fs : Type 0 where
  pub nodes : List FsNode
  pub root : Ptr
  pub cwd : Ptr
  pub snaps : List Snap
  pub kheap : Kheap
  pub key : Key

-- The `int` that most calls return: 0 or -1.
pub data Status : Type 0 where
  ok err : Status

-- The variables before `fs_init`.
abbrev pub unmounted : Kheap → Key → Fs
unmounted h k = record { nodes = []; root = none; cwd = none; snaps = []; kheap = h; key = k }
