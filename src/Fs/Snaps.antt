-- ===== src/Fs/Snaps.antt =====
-- Snapshots: `fs_clone_tree`, `fs_snap_create`, `fs_snap_restore`, `fs_snap_list`.
use hypnos.Base.{
  ℕ, zero, suc, ◌+◌, ◌||◌, Option, none, some, List, [], ◌∷◌, map, ◌==◌, leb, length, take,
  if◌then◌else◌,
}
use hypnos.Base.Int.{is_zero}
use hypnos.CStr.{CString, kstrcmp, kstrlen, kstrncpy}
use hypnos.Fs.{Fs, FsNode, Snap, Ptr, Status, ok, err, max_snap_name}
use hypnos.Fs.Monad.{FsM, pure, fault, ◌>>=◌, ◌>>◌, get, load, store, alloc}
use hypnos.Fs.Nodes.{new_node}
use hypnos.Fs.Files.{is_blank, or_empty}

clone_buffer : ℕ → ℕ → List ℕ → Option ℕ → FsM (Unit {0})
clone_buffer i size bytes none = pure tt
clone_buffer i size bytes (some buf) = do
  c ← load (some i)
  store i (record c { contents = some (take size bytes) })

-- The copy of a file's data, left out when the heap is full.
clone_bytes : ℕ → FsNode → Option (List ℕ) → FsM (Unit {0})
unfolding clone_buffer
clone_bytes i n none = pure tt
clone_bytes i n (some bytes) =
    if n.is_dir || (n.size == 0)
    then pure tt
    else (do buf ← alloc (n.size + 1); clone_buffer i n.size bytes buf)

-- `copy->child = …` and `copy->sibling = …`, which are skipped for a null pointer.
clone_child : (Ptr → FsM Ptr) → ℕ → Ptr → FsM (Unit {0})
clone_child again i none = pure tt
clone_child again i (some p) = do
  q ← again (some p)
  c ← load (some i)
  store i (record c { child = q })

clone_sibling : (Ptr → FsM Ptr) → ℕ → Ptr → FsM (Unit {0})
clone_sibling again i none = pure tt
clone_sibling again i (some p) = do
  q ← again (some p)
  c ← load (some i)
  store i (record c { sibling = q })

clone_into : (Ptr → Ptr → FsM Ptr) → FsNode → Ptr → Option ℕ → FsM Ptr
unfolding clone_bytes clone_child clone_sibling
clone_into again n parent none = pure none
clone_into again n parent (some i) = do
  c ← load (some i)
  store i (record c { parent = parent; size = n.size })
  clone_bytes i n n.contents
  clone_child (λ p. again p (some i)) i n.child
  clone_sibling (λ p. again p parent) i n.sibling
  pure (some i)

-- `fs_clone_tree`. Each call goes one link down or along, so that on a tree the number of nodes and
-- one is enough fuel.
unfoldable pub clone_tree : ℕ → Ptr → Ptr → FsM Ptr
unfolding clone_into
clone_tree zero p parent = fault
clone_tree (suc fuel) none parent = pure none
clone_tree (suc fuel) (some i) parent = do
  n ← load (some i)
  copy ← new_node n.name n.is_dir
  clone_into (clone_tree fuel) n parent copy

-- The first snapshot of that name.
unfoldable pub find_snap : CString → List Snap → Option Snap
find_snap name [] = none
find_snap name (s ∷ snaps) = if is_zero (kstrcmp s.name name) then some s else find_snap name snaps

-- sizeof(snap_t) on i386
abbrev sizeof_snap : ℕ
sizeof_snap = 40

push_snap : CString → Ptr → Option ℕ → FsM Status
push_snap name p none s = some (err, s)
push_snap name p (some block) s = some (
  ok,
  record s { snaps = (record { name = kstrncpy name max_snap_name; root_copy = p }) ∷ s.snaps },
)

take_snap : CString → Ptr → FsM Status
unfolding push_snap
take_snap name none = pure err
take_snap name (some i) = do
  c ← load (some i)
  store i (record c { parent = some i })
  block ← alloc sizeof_snap
  push_snap name (some i) block

unless_taken : CString → Option Snap → FsM Status
unfolding take_snap
unless_taken name (some old) = pure err
unless_taken name none = do
  s ← get
  copy ← clone_tree (length s.nodes + 1) s.root none
  take_snap name copy

-- `fs_snap_create`
unfoldable pub snap_create : Option CString → FsM Status
unfolding unless_taken
snap_create name =
    if is_blank name || leb max_snap_name (kstrlen (or_empty name))
    then pure err
    else (do s ← get; unless_taken (or_empty name) (find_snap (or_empty name) s.snaps))

switch_to : Option Snap → FsM Status
switch_to none s = some (err, s)
switch_to (some c) s = some (ok, record s { root = c.root_copy; cwd = c.root_copy })

-- `fs_snap_restore`
unfoldable pub snap_restore : Option CString → FsM Status
unfolding switch_to
snap_restore name =
    if is_blank name then pure err else (do s ← get; switch_to (find_snap (or_empty name) s.snaps))

-- The calls of the callback of `fs_snap_list`.
unfoldable pub snap_list : Fs → List CString
snap_list s = map (λ c. c.name) s.snaps
