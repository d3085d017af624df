-- ===== src/Fs/Dirs.antt =====
-- The current directory and the operations that move, remove and copy nodes: `fs_getcwd`, `fs_list`,
-- `fs_unlink`, `fs_rmdir`, `fs_rename`, `fs_copy`.
pub mod Detach
pub mod Keeps
pub mod Copies
pub mod Listing
use hypnos.Base.{
  ℕ, zero, suc, ◌+◌, Bool, true, false, not, ◌||◌, Option, none, some, List, [], ◌∷◌, ◌++◌, ◌==◌,
  leb, length, take, if◌then◌else◌,
}
use hypnos.CStr.{CString, kstrlen, kstrncpy}
use hypnos.Fs.{FsNode, Ptr, Status, ok, err, max_path_len, max_name_len}
use hypnos.Fs.Monad.{FsM, pure, fault, ◌>>=◌, ◌>>◌, get, load, store, alloc}
use hypnos.Fs.Nodes.{new_node, find_in_dir, link}
use hypnos.Fs.Resolve.{resolve, slash}
use hypnos.Fs.Files.{is_blank, is_null, usable}

-- Equality of pointers.
abbrev pub same : Ptr → Ptr → Bool
same none none = true
same none (some j) = false
same (some i) none = false
same (some i) (some j) = i == j

-- The loop of `fs_getcwd`. `tmp` is the string built so far and `pos` its length; each round but the
-- last adds a byte at least, and stops at `sizeof(tmp)`, so that 128 rounds are enough.
getcwd_from : ℕ → Ptr → CString → FsM CString
getcwd_from zero n tmp = fault
getcwd_from (suc fuel) none tmp = pure tmp
getcwd_from (suc fuel) (some i) tmp = do
  s ← get
  if same (some i) s.root then pure tmp else do
    n ← load (some i)
    let rest = getcwd_from fuel n.parent (slash ∷ n.name ++ tmp)
    if leb max_path_len (length tmp + kstrlen n.name + 1) then pure tmp else rest

or_root : CString → CString
or_root [] = slash ∷ []
or_root (c ∷ s) = c ∷ s

-- `fs_getcwd`
unfoldable pub getcwd : FsM CString
unfolding getcwd_from or_root
getcwd = do
  s ← get
  if same s.cwd s.root
      then pure (slash ∷ [])
      else do tmp ← getcwd_from 129 s.cwd []; pure (or_root tmp)

-- The calls of the callback of `fs_list`, from `cur` on.
list_from : ℕ → Ptr → FsM (List (CString × Bool))
list_from zero cur = fault
list_from (suc fuel) none = pure []
list_from (suc fuel) (some i) = do
  n ← load (some i)
  rest ← list_from fuel n.sibling
  pure ((n.name, n.is_dir) ∷ rest)

-- `fs_list`
unfoldable pub list : FsM (List (CString × Bool))
unfolding list_from
list = do s ← get; d ← load s.cwd; list_from (length s.nodes + 1) d.child

-- Where `curp` of `fs_detach_from_parent` points: to the `child` field of a node or to the `sibling`
-- field of one.
pub data Slot : Type 0 where
  child_of : ℕ → Slot
  sibling_of : ℕ → Slot

unfoldable pub read_slot : Slot → FsM Ptr
read_slot (child_of i) = do n ← load (some i); pure n.child
read_slot (sibling_of i) = do n ← load (some i); pure n.sibling

unfoldable pub write_slot : Slot → Ptr → FsM (Unit {0})
write_slot (child_of i) p = do n ← load (some i); store i (record n { child = p })
write_slot (sibling_of i) p = do n ← load (some i); store i (record n { sibling = p })

-- The assignments that take node `i` out of the list at `slot`.
unfoldable pub cut : Slot → ℕ → FsM (Unit {0})
unfolding write_slot
cut slot i = do
  n ← load (some i)
  write_slot slot n.sibling
  n' ← load (some i)
  store i (record n' { parent = none; sibling = none })

detach_next : (Slot → FsM (Unit {0})) → Slot → ℕ → Ptr → FsM (Unit {0})
unfolding cut
detach_next again slot i none = pure tt
detach_next again slot i (some j) = if j == i then cut slot i else again (sibling_of j)

-- The loop of `fs_detach_from_parent`, with `curp` at `slot`.
unfoldable pub detach_from : ℕ → ℕ → Slot → FsM (Unit {0})
unfolding read_slot detach_next
detach_from zero i slot = fault
detach_from (suc fuel) i slot = do cur ← read_slot slot; detach_next (detach_from fuel i) slot i cur

detach_below : ℕ → Ptr → FsM (Unit {0})
detach_below i none = pure tt
detach_below i (some p) = do s ← get; detach_from (length s.nodes + 1) i (child_of p)

-- `fs_detach_from_parent`
unfoldable pub detach : ℕ → FsM (Unit {0})
unfolding detach_below
detach i = do n ← load (some i); detach_below i n.parent

abbrev has_parent : FsNode → Bool
has_parent n = elim n.parent [ none ↦ false | some p ↦ true ]

unlink_node : Ptr → FsM Status
unlink_node none = pure err
unlink_node (some i) = do
  n ← load (some i)
  if n.is_dir || not (has_parent n) then pure err else do detach i; pure ok

-- `fs_unlink`
unfoldable pub unlink : Option CString → FsM Status
unfolding unlink_node
unlink path =
    if is_blank path then pure err else do (node, last) ← resolve path false; unlink_node node

abbrev has_child : FsNode → Bool
has_child n = elim n.child [ none ↦ false | some c ↦ true ]

rmdir_node : Ptr → FsM Status
rmdir_node none = pure err
rmdir_node (some i) = do
  n ← load (some i)
  s ← get
  if not n.is_dir || (has_child n || same (some i) s.root) then pure err else do detach i; pure ok

-- `fs_rmdir`
unfoldable pub rmdir : Option CString → FsM Status
unfolding rmdir_node
rmdir path =
    if is_blank path then pure err else do (node, last) ← resolve path false; rmdir_node node

-- The end of `fs_rename`: the node `i` moves to the directory `p` under the name `last`.
move_node : ℕ → ℕ → CString → FsM Status
move_node i p last = do
  detach i
  n ← load (some i)
  store i (record n { name = kstrncpy last max_name_len })
  link p i
  pure ok

rename_in : ℕ → Ptr → CString → Ptr → FsM Status
unfolding move_node
rename_in i none last old = fault
rename_in i (some p) last (some old) = pure err
rename_in i (some p) last none = do
  s ← get
  if same (some i) s.root then pure err else move_node i p last

rename_node : Ptr → Option CString → FsM Status
unfolding rename_in
rename_node none newpath = pure err
rename_node (some i) newpath = do
  (parent, last) ← resolve newpath true
  go ← usable parent last
  if go then (do old ← find_in_dir parent last; rename_in i parent last old) else pure err

-- `fs_rename`
unfoldable pub rename : Option CString → Option CString → FsM Status
unfolding rename_node
rename oldpath newpath =
    if is_null oldpath || is_null newpath
    then pure err
    else do (src, none_name) ← resolve oldpath false; rename_node src newpath

copy_buffer : ℕ → FsNode → List ℕ → Option ℕ → FsM Status
copy_buffer i src bytes none = pure err
copy_buffer i src bytes (some buf) = do
  n ← load (some i)
  store i (record n { contents = some (take src.size bytes); size = src.size })
  pure ok

copy_bytes : ℕ → FsNode → Option (List ℕ) → FsM Status
unfolding copy_buffer
copy_bytes i src none = pure ok
copy_bytes i src (some bytes) =
    if src.size == 0 then pure ok else do buf ← alloc (src.size + 1); copy_buffer i src bytes buf

copy_to : ℕ → ℕ → Option ℕ → FsM Status
unfolding copy_bytes
copy_to i p none = pure err
copy_to i p (some k) = do link p k; src ← load (some i); copy_bytes k src src.contents

copy_in : ℕ → Ptr → CString → Ptr → FsM Status
unfolding copy_to
copy_in i none last old = fault
copy_in i (some p) last (some old) = pure err
copy_in i (some p) last none = do n ← new_node last false; copy_to i p n

copy_node : Ptr → Option CString → FsM Status
unfolding copy_in
copy_node none dst_path = pure err
copy_node (some i) dst_path = do
  src ← load (some i)
  if src.is_dir then pure err else do
    (parent, last) ← resolve dst_path true
    go ← usable parent last
    if go then (do old ← find_in_dir parent last; copy_in i parent last old) else pure err

-- `fs_copy`
unfoldable pub copy : Option CString → Option CString → FsM Status
unfolding copy_node
copy src_path dst_path =
    if is_null src_path || is_null dst_path
    then pure err
    else do (src, none_name) ← resolve src_path false; copy_node src dst_path
