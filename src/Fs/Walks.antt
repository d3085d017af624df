-- ===== src/Fs/Walks.antt =====
-- The walks over the tree: `fs_find` and `fs_tree_cwd`. They write nothing to the nodes.
pub mod Tree
use hypnos.Base.{
  ℕ, zero, suc, ◌+◌, Bool, ◌&&◌, Option, none, some, List, [], ◌∷◌, ◌++◌, ◌==◌, ltb, length, get_or,
  set, replicate, if◌then◌else◌,
}
use hypnos.CStr.{CString, kstrlen, kstrstr}
use hypnos.Fs.{Ptr, Status, ok, err, max_path_len}
use hypnos.Fs.Monad.{FsM, pure, fault, ◌>>=◌, get, load}
use hypnos.Fs.Files.{is_blank, or_empty, up_to_zero}
use hypnos.Fs.Resolve.{slash}

-- `pathbuf`, an array of MAX_PATH_LEN bytes.
abbrev pub PathBuf : Type 0
PathBuf = List ℕ

-- `pathbuf[i] = c`; a write behind the end of the array has no result.
unfoldable pub put : PathBuf → ℕ → ℕ → FsM PathBuf
put buf i c = if ltb i (length buf) then pure (set buf i c) else fault

-- The loop that copies a name to index `i`, bounded by MAX_PATH_LEN.
put_name : PathBuf → ℕ → CString → FsM PathBuf
put_name buf i [] = pure buf
put_name buf i (c ∷ name) =
    if ltb (i + 1) max_path_len
    then (do buf' ← put buf i c; put_name buf' (i + 1) name)
    else pure buf

-- The `/` in front of a name, left out when the buffer is full.
put_slash : PathBuf → ℕ → FsM (PathBuf × ℕ)
put_slash buf len =
    if ltb (len + 1) max_path_len
    then (do buf' ← put buf len slash; buf'' ← put buf' (len + 1) 0; pure (buf'', len + 1))
    else pure (buf, len)

-- The path of a node behind the path of its directory: the new buffer and length.
unfoldable pub extend : PathBuf → ℕ → CString → FsM (PathBuf × ℕ)
unfolding put put_name put_slash
extend buf len name =
    if (len == 1) && (get_or buf 0 0 == slash)
    then (do
      buf' ← put_name buf 1 name
      buf'' ← put buf' (len + kstrlen name) 0
      pure (buf'', len + kstrlen name))
    else (do
      (buf', len') ← put_slash buf len
      buf'' ← put_name buf' len' name
      buf''' ← put buf'' (len' + kstrlen name) 0
      pure (buf''', len' + kstrlen name))

abbrev hit : CString → CString → PathBuf → List CString
hit name needle buf = elim (kstrstr name needle) [ none ↦ [] | some at ↦ up_to_zero buf ∷ [] ]

find_below :
    (Ptr → PathBuf → FsM (List CString × PathBuf))
    → Ptr
    → Bool
    → PathBuf
    → FsM (List CString × PathBuf)
find_below again none is_dir buf = pure ([], buf)
find_below again (some c) is_dir buf = if is_dir then again (some c) buf else pure ([], buf)

-- `fs_find_walk`: the paths that it prints, in order, and the buffer that it leaves. A call goes down
-- a link and a round goes along one; on a tree the number of nodes and one is enough fuel.
unfoldable pub find_walk : ℕ → CString → ℕ → Ptr → PathBuf → FsM (List CString × PathBuf)
unfolding extend find_below
find_walk zero needle len p buf = fault
find_walk (suc fuel) needle len none buf = pure ([], buf)
find_walk (suc fuel) needle len (some i) buf = do
  n ← load (some i)
  (buf', len') ← extend buf len n.name
  (below, buf'') ← find_below (find_walk fuel needle len') n.child n.is_dir buf'
  buf''' ← put buf'' len 0
  (rest, buf4) ← find_walk fuel needle len n.sibling buf'''
  pure (hit n.name needle buf' ++ (below ++ rest), buf4)

find_from_root : CString → Ptr → FsM (Status × List CString)
find_from_root needle none = pure (err, [])
find_from_root needle (some r) = do
  s ← get
  n ← load (some r)
  (out, buf) ← find_walk (length s.nodes + 1) needle 1 n.child (slash ∷ replicate 127 0)
  pure (ok, out)

-- `fs_find`: the result and the lines printed.
unfoldable pub find : Option CString → FsM (Status × List CString)
unfolding find_from_root
find name =
    if is_blank name then pure (err, []) else (do s ← get; find_from_root (or_empty name) s.root)

tree_below : (Ptr → FsM (List (CString × Bool × ℕ))) → Ptr → Bool → FsM (List (CString × Bool × ℕ))
tree_below again none is_dir = pure []
tree_below again (some c) is_dir = if is_dir then again (some c) else pure []

-- `fs_tree_walk`: the calls of the callback, in order.
unfoldable pub tree_walk : ℕ → Ptr → ℕ → FsM (List (CString × Bool × ℕ))
unfolding tree_below
tree_walk zero p depth = fault
tree_walk (suc fuel) none depth = pure []
tree_walk (suc fuel) (some i) depth = do
  n ← load (some i)
  below ← tree_below (λ c. tree_walk fuel c (depth + 1)) n.child n.is_dir
  rest ← tree_walk fuel n.sibling depth
  pure ((n.name, n.is_dir, depth) ∷ below ++ rest)

tree_in : Ptr → FsM (List (CString × Bool × ℕ))
tree_in none = pure []
tree_in (some d) = do
  s ← get
  n ← load (some d)
  if n.is_dir then tree_walk (length s.nodes + 1) n.child 0 else pure []

-- `fs_tree_cwd`
unfoldable pub tree_cwd : FsM (List (CString × Bool × ℕ))
unfolding tree_in
tree_cwd = do s ← get; tree_in s.cwd
