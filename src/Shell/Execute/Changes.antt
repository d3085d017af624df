-- ===== src/Shell/Execute/Changes.antt =====
-- The commands that change the filesystem or the user.
use hypnos.Base.{ℕ, Option, none, some, [], ◌∷◌, if◌then◌else◌, codes, String}
use hypnos.Base.Int.{is_zero}
use hypnos.CStr.{CString, kstrcmp}
use hypnos.Fs.{Status, ok, err}
use hypnos.Fs.Monad.{FsM}
use hypnos.Fs.Files.{mkdir, touch, write, read, chdir}
use hypnos.Fs.Dirs.{getcwd, unlink, rmdir, rename, copy}
use hypnos.Fs.Snaps.{snap_create, snap_restore}
use hypnos.Kernel.{KernelM, pure, ◌>>=◌, ◌>>◌, on_fs, call, note, require, login, say, print}
use hypnos.Security.{perm_read, perm_write, perm_snap}
use hypnos.Shell.Command.{name_and_text, two_words}
use hypnos.Shell.Execute.Paths.{path_above}
use hypnos.Shell.Execute.Show.{cmd_pwd}

module _ {D : Type 0} where
  unfoldable pub chdir_done : String → Status → KernelM D (Unit {0})
  chdir_done bad ok = cmd_pwd
  chdir_done bad err = print bad

  -- The branch of `cmd_cd` for "..", whose path is that above the current directory.
  unfoldable pub cd_up : KernelM D (Unit {0})
  unfolding chdir_done
  cd_up = do
    cwd ← on_fs getcwd
    r ← on_fs (chdir (some (path_above cwd)))
    chdir_done "cd: error.\n" r

  -- `cmd_cd`
  unfoldable pub cmd_cd : CString → KernelM D (Unit {0})
  unfolding chdir_done
  cmd_cd [] = print "Usage: cd <path>\n"
  cmd_cd (c ∷ path) =
      if is_zero (kstrcmp (c ∷ path) (codes ".."))
      then cd_up
      else (do r ← on_fs (chdir (some (c ∷ path))); chdir_done "cd: no such directory.\n" r)

  -- The message and the entry of the log for a result.
  unfoldable pub report : String → String → String → String → Status → KernelM D (Unit {0})
  unfolding call
  report good good_log bad bad_log ok = do print good; note (codes good_log)
  report good good_log bad bad_log err = do print bad; note (codes bad_log)

  -- A call of the filesystem that needs a permission, and its report.
  unfoldable pub guarded :
      ℕ → String → FsM Status → (Status → KernelM D (Unit {0})) → KernelM D (Unit {0})
  guarded perm action m after = do
    may ← require perm action
    if may then (do r ← on_fs m; after r) else pure tt

  -- The branch of `mkdir`
  unfoldable pub do_mkdir : CString → KernelM D (Unit {0})
  unfolding guarded report
  do_mkdir name =
      guarded perm_write "create directory" (mkdir (some name))
        (report "Directory created.\n" "fs: mkdir" "mkdir: error.\n" "fs: mkdir error")

  unfoldable pub touched : Status → KernelM D (Unit {0})
  touched ok = print "Created/updated file.\n"
  touched err = print "touch: error.\n"

  -- `cmd_touch`
  unfoldable pub cmd_touch : CString → KernelM D (Unit {0})
  unfolding touched
  cmd_touch [] = print "Usage: touch <name>\n"
  cmd_touch (c ∷ arg) = do r ← on_fs (touch (some (c ∷ arg))); touched r

  unfoldable pub show_file : Option CString → KernelM D (Unit {0})
  show_file none = do print "cat: no such file or empty.\n"; note (codes "fs: read fail")
  show_file (some text) = do say text; print "\n"; note (codes "fs: read")

  -- The branch of `cat`
  unfoldable pub do_cat : CString → KernelM D (Unit {0})
  unfolding show_file
  do_cat name = do
    may ← require perm_read "read file"
    if may then (do text ← on_fs (read (some name)); show_file text) else pure tt

  -- The branch of `snap-create`
  unfoldable pub do_snap_create : CString → KernelM D (Unit {0})
  unfolding guarded report
  do_snap_create name = guarded perm_snap "snapshot create" (snap_create (some name)) (
      report "Snapshot created.\n" "fs: snapshot create" "snap-create: error.\n"
        "fs: snapshot create error")

  -- The branch of `snap-restore`
  unfoldable pub do_snap_restore : CString → KernelM D (Unit {0})
  unfolding guarded report
  do_snap_restore name = guarded perm_snap "snapshot restore" (snap_restore (some name)) (
      report "Snapshot restored.\n" "fs: snapshot restore" "snap-restore: error.\n"
        "fs: snapshot restore error")

  -- `cmd_login`, and the entry of the log behind it
  unfoldable pub do_login : CString → KernelM D (Unit {0})
  do_login [] = do print "Usage: login <username>\n"; note (codes "security: login")
  do_login (c ∷ name) = do login (c ∷ name); note (codes "security: login")

  unfoldable pub write_file : CString × CString → KernelM D (Unit {0})
  unfolding guarded report
  write_file ([], text) = print "Usage: write <name> <text>\n"
  write_file (c ∷ name, []) = print "Usage: write <name> <text>\n"
  write_file (c ∷ name, d ∷ text) =
      guarded perm_write "write file" (write (some (c ∷ name)) (some (d ∷ text)))
        (report "File written.\n" "fs: write" "write: error.\n" "fs: write error")

  -- The branch of `write`
  unfoldable pub do_write : CString → KernelM D (Unit {0})
  unfolding write_file
  do_write arg = write_file (name_and_text arg)

  -- The branch of `rm`
  unfoldable pub do_rm : CString → KernelM D (Unit {0})
  unfolding guarded report
  do_rm [] = print "Usage: rm <file>\n"
  do_rm (c ∷ p) =
      guarded perm_write "remove file" (unlink (some (c ∷ p)))
        (report "Removed file.\n" "fs: unlink" "rm: error.\n" "fs: unlink error")

  -- The branch of `rmdir`
  unfoldable pub do_rmdir : CString → KernelM D (Unit {0})
  unfolding guarded report
  do_rmdir [] = print "Usage: rmdir <dir>\n"
  do_rmdir (c ∷ p) = guarded perm_write "remove directory" (rmdir (some (c ∷ p))) (
      report "Directory removed.\n" "fs: rmdir" "rmdir: error (non-empty or not found).\n"
        "fs: rmdir error")

  unfoldable pub move_file : CString × CString → KernelM D (Unit {0})
  unfolding guarded report
  move_file ([], b) = print "Usage: mv <old> <new>\n"
  move_file (c ∷ a, []) = print "Usage: mv <old> <new>\n"
  move_file (c ∷ a, d ∷ b) =
      guarded perm_write "rename/move" (rename (some (c ∷ a)) (some (d ∷ b)))
        (report "Renamed/moved.\n" "fs: rename" "mv: error.\n" "fs: rename error")

  -- The branch of `mv`
  unfoldable pub do_mv : CString → KernelM D (Unit {0})
  unfolding move_file
  do_mv arg = move_file (two_words arg)

  unfoldable pub copy_file : CString × CString → KernelM D (Unit {0})
  unfolding guarded report
  copy_file ([], b) = print "Usage: cp <src> <dest>\n"
  copy_file (c ∷ a, []) = print "Usage: cp <src> <dest>\n"
  copy_file (c ∷ a, d ∷ b) =
      guarded perm_read "copy file" (copy (some (c ∷ a)) (some (d ∷ b)))
        (report "Copied.\n" "fs: copy" "cp: error.\n" "fs: copy error")

  -- The branch of `cp`
  unfoldable pub do_cp : CString → KernelM D (Unit {0})
  unfolding copy_file
  do_cp arg = copy_file (two_words arg)
