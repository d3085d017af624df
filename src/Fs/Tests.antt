-- ===== src/Fs/Tests.antt =====
-- Runs of the filesystem from `fs_init` on.
use Prim.Native.Char.{code}
use hypnos.Base.{ℕ, ◌≡◌, refl, String, Bool, true, false, Option, none, some, List, [], ◌∷◌}
use hypnos.CStr.{CString, kstrcmp, kstrlen, kstrncpy, kstrstr}
use hypnos.Crypto.{encrypt, decrypt, apply}
use hypnos.Mm.Kmalloc.{kmalloc_init, kmalloc}
use hypnos.Fs.{Status, ok, err, unmounted}
use hypnos.Fs.Monad.{FsM, pure, ◌>>=◌, ◌>>◌, load, store, alloc, push_node}
use hypnos.Fs.Nodes.{new_node, find_from, find_in_dir, link}
use hypnos.Fs.Resolve.{next_component, resolve_from, resolve}
use hypnos.Fs.Files.{
  init, usable, add_node, mkdir, touch, set_contents, write, write_cwd, up_to_zero, read, chdir,
}
use hypnos.Fs.Dirs.{getcwd, list, read_slot, detach_from, detach, unlink, rmdir, rename, copy}
use hypnos.Fs.Snaps.{clone_tree, find_snap, snap_create, snap_restore, snap_list}
use hypnos.Fs.Walks.{put, find_walk, find, tree_walk, tree_cwd}

abbrev codes : String → List ℕ
codes String.[] = []
codes (String.◌∷◌ c s) = code c ∷ codes s

abbrev text : String → Option CString
text s = some (codes s)

result : {A : Type 0} → FsM A → Option A
unfolding kmalloc_init
result m = elim (m (unmounted kmalloc_init (b'k' ∷ b'e' ∷ []))) [
  | none ↦ none
  | some (a, s) ↦ some a
]

-- The calls that the runs below share. Opening it opens the whole filesystem.
setup : FsM (Unit {0})
unfolding init mkdir chdir write write_cwd read new_node link load store alloc push_node kmalloc
    find_from find_in_dir next_component resolve_from resolve usable add_node touch set_contents
    up_to_zero kstrcmp kstrlen kstrncpy kstrstr encrypt decrypt apply getcwd list read_slot
    detach_from detach unlink rmdir rename copy clone_tree find_snap snap_create snap_restore
    snap_list put find_walk find tree_walk tree_cwd
setup = do
  init
  a ← mkdir (text "/bin")
  b ← chdir (text "bin/")
  c ← write (text "//bin/sh") (text "abc")
  d ← write_cwd (text "ls") (text "dir")
  pure tt

run_read : result (setup >> read (text "sh")) ≡ some (text "abc")
unfolding result setup
run_read = refl

run_cwd : result (setup >> getcwd) ≡ some (codes "/bin")
unfolding result setup
run_cwd = refl

run_list : result (setup >> list) ≡ some ((codes "ls", false) ∷ (codes "sh", false) ∷ [])
unfolding result setup
run_list = refl

run_find : result (setup >> find (text "s")) ≡ some (ok, codes "/bin/ls" ∷ codes "/bin/sh" ∷ [])
unfolding result setup
run_find = refl

run_tree :
    result (do setup; a ← chdir (text "/"); tree_cwd)
    ≡ some ((codes "bin", true, 0) ∷ (codes "ls", false, 1) ∷ (codes "sh", false, 1) ∷ [])
unfolding result setup
run_tree = refl

-- A snapshot is taken, a file is removed, and the snapshot brings it back.
run_snap :
    result {A = Option CString × Option CString} (do
      setup
      a ← snap_create (text "one")
      b ← unlink (text "/bin/sh")
      c ← read (text "/bin/sh")
      d ← snap_restore (text "one")
      e ← read (text "/bin/sh")
      pure (c, e))
    ≡ some (none, text "abc")
unfolding result setup
run_snap = refl

-- A directory that is renamed into itself drops out of the tree.
run_self_rename :
    result {A = Status × Option CString × List (CString × Bool)} (do
      setup
      a ← rename (text "/bin") (text "/bin/x")
      b ← read (text "/bin/sh")
      c ← chdir (text "/")
      l ← list
      pure (a, b, l))
    ≡ some (ok, none, [])
unfolding result setup
run_self_rename = refl

run_copy :
    result {A = Status × Status × Status × Option CString} (do
      setup
      a ← copy (text "sh") (text "/csh")
      b ← rename (text "/csh") (text "/bin/csh")
      c ← rmdir (text "/bin")
      d ← read (text "csh")
      pure (a, b, c, d))
    ≡ some (ok, ok, err, text "abc")
unfolding result setup
run_copy = refl
