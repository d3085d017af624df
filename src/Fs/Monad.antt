-- ===== src/Fs/Monad.antt =====
-- Calls of the filesystem as functions on its state: `none` is a fault or a loop without end.
use hypnos.Base.{ℕ, Option, none, some, [], ◌∷◌, ◌++◌, get_elem?, set, length}
use hypnos.Fs.{Fs, FsNode, Ptr}
use hypnos.Mm.Kmalloc.{kmalloc}

abbrev pub FsM : Type 0 → Type 0
FsM A = Fs → Option (A × Fs)

abbrev pub pure : {A : Type 0} → A → FsM A
pure a s = some (a, s)

abbrev pub fault : {A : Type 0} → FsM A
fault s = none

abbrev pub and_then : {A B : Type 0} → Option (A × Fs) → (A → FsM B) → Option (B × Fs)
and_then none f = none
and_then (some (a, s)) f = f a s

infixl 5 ◌>>=◌ ◌>>◌
abbrev pub ◌>>=◌ : {A B : Type 0} → FsM A → (A → FsM B) → FsM B
◌>>=◌ m f s = and_then (m s) f

abbrev pub ◌>>◌ : {B : Type 0} → FsM (Unit {0}) → FsM B → FsM B
m >> k = m >>= λ _. k

abbrev pub get : FsM Fs
get s = some (s, s)

-- A value, or a fault.
abbrev pub from_option : {A : Type 0} → Option A → FsM A
from_option none s = none
from_option (some a) s = some (a, s)

-- `*p`
abbrev pub node_at : Fs → Ptr → Option FsNode
node_at s none = none
node_at s (some i) = get_elem? s.nodes i

unfoldable pub load : Ptr → FsM FsNode
load p s = from_option (node_at s p) s

-- A write through the pointer `some i`; the caller has read the node.
unfoldable pub store : ℕ → FsNode → FsM (Unit {0})
store i n s = some (tt, record s { nodes = set s.nodes i n })

-- `kmalloc`: whether there was room.
unfoldable pub alloc : ℕ → FsM (Option ℕ)
alloc size s = let (p, h) = kmalloc size s.kheap in some (p, record s { kheap = h })

-- A fresh node in a block that `kmalloc` gave.
unfoldable pub push_node : FsNode → FsM ℕ
push_node n s = some (length s.nodes, record s { nodes = s.nodes ++ (n ∷ []) })
