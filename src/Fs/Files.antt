-- ===== src/Fs/Files.antt =====
-- Making, writing and reading nodes: `fs_init`, `fs_mkdir`, `fs_touch`, `fs_write`, `fs_write_cwd`, `fs_read`,
-- `fs_chdir`. A null argument is `none`.
pub mod Create
pub mod Contents
pub mod Reads
pub mod Mount
pub mod Existing
pub mod Held
pub mod Planted
pub mod Again
mod Tests
use hypnos.Base.{
  take, ℕ, ◌+◌, Bool, true, false, ◌||◌, Option, none, some, List, [], ◌∷◌, ◌==◌, leb,
  if◌then◌else◌, ◌%◌, ◌^◌,
}
use hypnos.CStr.{CString, kstrlen}
use hypnos.Crypto.{encrypt, decrypt}
use hypnos.Fs.{FsNode, Ptr, Status, ok, err, max_path_len}
use hypnos.Fs.Monad.{FsM, pure, fault, ◌>>=◌, ◌>>◌, get, from_option, load, store, alloc}
use hypnos.Fs.Nodes.{new_node, find_in_dir, link}
use hypnos.Fs.Resolve.{resolve}

-- `!s || !*s`
abbrev pub is_blank : Option CString → Bool
is_blank none = true
is_blank (some []) = true
is_blank (some (c ∷ s)) = false

abbrev pub or_empty : Option CString → CString
or_empty none = []
or_empty (some s) = s

set_root : Ptr → FsM (Unit {0})
set_root p s = some (tt, record s { root = p })

set_cwd : Ptr → FsM (Unit {0})
set_cwd p s = some (tt, record s { cwd = p })

-- `fs_root->parent = fs_root`; the root is a null pointer when the heap is full.
own_parent : Ptr → FsM (Unit {0})
own_parent none = fault
own_parent (some i) = do n ← load (some i); store i (record n { parent = some i })

-- `fs_init`
unfoldable pub init : FsM (Unit {0})
unfolding set_root set_cwd own_parent
init = do p ← new_node (b'/' ∷ []) true; set_root p; own_parent p; set_cwd p

-- `parent && parent->is_dir && last[0]`: whether a call goes on.
unfoldable pub usable : Ptr → CString → FsM Bool
usable none last = pure false
usable (some p) [] = do d ← load (some p); pure false
usable (some p) (c ∷ last) = do d ← load (some p); pure d.is_dir

-- The allocation and linking that end `fs_mkdir` and `fs_touch`.
attach : ℕ → Option ℕ → FsM Status
attach p none = pure err
attach p (some i) = do link p i; pure ok

unfoldable pub add_node : Ptr → CString → Bool → FsM Status
unfolding attach
add_node none last is_dir = fault
add_node (some p) last is_dir = do n ← new_node last is_dir; attach p n

mkdir_in : Ptr → CString → Ptr → FsM Status
mkdir_in parent last none = add_node parent last true
mkdir_in parent last (some old) = pure err

-- `fs_mkdir`
unfoldable pub mkdir : Option CString → FsM Status
unfolding mkdir_in
mkdir path = if is_blank path || leb max_path_len (kstrlen (or_empty path)) then pure err else do
  (parent, last) ← resolve path true
  go ← usable parent last
  if go then (do old ← find_in_dir parent last; mkdir_in parent last old) else pure err

touch_in : Ptr → CString → Ptr → FsM Status
touch_in parent last none = add_node parent last false
touch_in parent last (some old) = do n ← load (some old); if n.is_dir then pure err else pure ok

-- `fs_touch`
unfoldable pub touch : Option CString → FsM Status
unfolding touch_in
touch path = if is_blank path || leb max_path_len (kstrlen (or_empty path)) then pure err else do
  (parent, last) ← resolve path true
  go ← usable parent last
  if go then (do old ← find_in_dir parent last; touch_in parent last old) else pure err

-- The new buffer of a file: `size` is the `uint32_t` of the length.
fill : ℕ → CString → Option ℕ → FsM Status
fill i bytes none = pure err
fill i bytes (some buf) = do
  s ← get
  cipher ← from_option (encrypt s.key bytes)
  n ← load (some i)
  store i (record n { contents = some cipher; size = kstrlen bytes % 2 ^ 32 })
  pure ok

-- The end of `fs_write` and `fs_write_cwd`, from the test of `node->is_dir` on.
unfoldable pub set_contents : Ptr → CString → FsM Status
unfolding fill
set_contents none bytes = pure err
set_contents (some i) bytes = do
  n ← load (some i)
  if n.is_dir then pure err else do buf ← alloc (kstrlen bytes + 1); fill i bytes buf

-- The node to write to, made by `fs_touch` if it is not there.
write_target : Option CString → Ptr → CString → Ptr → FsM Ptr
write_target path parent last (some i) = pure (some i)
write_target path parent last none = do
  r ← touch path
  elim r [ ok ↦ find_in_dir parent last | err ↦ pure none ]

abbrev pub is_null : Option CString → Bool
is_null none = true
is_null (some s) = false

-- `fs_write`
unfoldable pub write : Option CString → Option CString → FsM Status
unfolding write_target
write path bytes = if is_null path || is_null bytes then pure err else do
  (parent, last) ← resolve path true
  go ← usable parent last
  if go
      then (do
        old ← find_in_dir parent last
        node ← write_target path parent last old
        set_contents node (or_empty bytes))
      else pure err

-- The new node, linked into the current directory.
link_in_cwd : ℕ → Option ℕ → FsM Ptr
link_in_cwd d none = pure none
link_in_cwd d (some i) = do link d i; pure (some i)

-- The node of that name in the current directory, made if it is not there.
cwd_target : ℕ → CString → Ptr → FsM Ptr
unfolding link_in_cwd
cwd_target d name (some i) = pure (some i)
cwd_target d name none = do n ← new_node name false; link_in_cwd d n

write_in : Ptr → CString → CString → FsM Status
unfolding cwd_target
write_in none name bytes = pure err
write_in (some d) name bytes = do
  c ← load (some d)
  if c.is_dir
      then (do
        old ← find_in_dir (some d) name
        node ← cwd_target d name old
        set_contents node bytes)
      else pure err

-- `fs_write_cwd`
unfoldable pub write_cwd : Option CString → Option CString → FsM Status
unfolding write_in
write_cwd name bytes =
    if is_blank name || is_null bytes
    then pure err
    else do s ← get; write_in s.cwd (or_empty name) (or_empty bytes)

-- The bytes that a file holds, as `fs_read` finds them: none for a directory and for a file that
-- was never written or is empty.
abbrev pub stored : FsNode → Option (List ℕ)
stored n = if n.is_dir || (n.size == 0) then none else n.contents

-- The C string that the bytes of a buffer begin with.
unfoldable pub up_to_zero : List ℕ → CString
up_to_zero [] = []
up_to_zero (c ∷ s) = let rest = up_to_zero s in if c == 0 then [] else c ∷ rest

read_out : ℕ → List ℕ → Option ℕ → FsM (Option CString)
read_out size bytes none = pure none
read_out size bytes (some buf) = do
  s ← get
  plain ← from_option (decrypt s.key (take size bytes))
  pure (some (up_to_zero plain))

read_bytes : ℕ → Option (List ℕ) → FsM (Option CString)
unfolding read_out
read_bytes size none = pure none
read_bytes size (some bytes) = do buf ← alloc (size + 1); read_out size bytes buf

read_node : Ptr → FsM (Option CString)
unfolding read_bytes
read_node none = pure none
read_node (some i) = do n ← load (some i); read_bytes n.size (stored n)

-- `fs_read`
unfoldable pub read : Option CString → FsM (Option CString)
unfolding read_node
read path = do (node, last) ← resolve path false; read_node node

chdir_to : Ptr → FsM Status
unfolding set_cwd
chdir_to none = pure err
chdir_to (some i) = do
  n ← load (some i)
  if n.is_dir then (do set_cwd (some i); pure ok) else pure err

-- `fs_chdir`
unfoldable pub chdir : Option CString → FsM Status
unfolding chdir_to
chdir path = if is_blank path then pure err else do (node, last) ← resolve path false; chdir_to node
