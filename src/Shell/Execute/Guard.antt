-- ===== src/Shell/Execute/Guard.antt =====
-- The permissions that the commands of the shell ask for.
use hypnos.Base.{ℕ, ◌<◌, ◌≡◌, refl, false, Option, some, [], ◌∷◌, arith, String, codes}
use hypnos.CStr.{CString}
use hypnos.Fs.{Status}
use hypnos.Fs.Monad.{FsM}
use hypnos.Fs.Files.{write, mkdir}
use hypnos.Fs.Dirs.{rename, copy, unlink, rmdir}
use hypnos.Fs.Snaps.{snap_create, snap_restore}
use hypnos.Kernel.{Kernel, KernelM, Call, write_text, call, note, require}
use hypnos.Security.{perm_read, perm_write, perm_snap, sec_check_perm}
use hypnos.Shell.Command.{Command, two_words, name_and_text, skip_spaces}
use hypnos.Shell.Execute.{run}
use hypnos.Shell.Execute.Changes.{
  guarded, report, do_mkdir, do_cat, do_snap_create, do_snap_restore, write_file, do_write, do_rm,
  do_rmdir, move_file, do_mv, copy_file, do_cp,
}

-- The permission that a command asks for; 0 is none.
unfoldable pub needs : Command → ℕ
needs (Command.mkdir arg) = perm_write
needs (Command.write arg) = perm_write
needs (Command.rm arg) = perm_write
needs (Command.rmdir arg) = perm_write
needs (Command.mv arg) = perm_write
needs (Command.cat arg) = perm_read
needs (Command.cp arg) = perm_read
needs (Command.snap_create arg) = perm_snap
needs (Command.snap_restore arg) = perm_snap
needs c = 0

module _ {D : Type 0} where
  -- The parts of the state that only the screen and the log stand beside.
  pub record SameBut (k after : Kernel D) : Type 0 where
    pub fs : after.fs ≡ k.fs
    pub sec : after.sec ≡ k.sec
    pub root : after.root ≡ k.root
    pub editor : after.editor ≡ k.editor
    pub input : after.input ≡ k.input

  -- The call returns, and all that it changes is the log and the screen.
  pub data Denied (k : Kernel D) : Option (Unit {0} × Kernel D) → Type 0 where
    denied : {after : Kernel D} → SameBut k after → Denied k (some (tt, after))

  module _ (k : Kernel D) where
    usage : (c : Call) → Denied k (call c k)
    unfolding call
    usage c = denied (record { fs = refl; sec = refl; root = refl; editor = refl; input = refl })

    guarded-Denied :
        (perm : ℕ) (action : String) (m : FsM Status) (after : Status → KernelM D (Unit {0}))
        → sec_check_perm perm k.sec ≡ false
        → Denied k (guarded perm action m after k)
    unfolding guarded require call note
    guarded-Denied perm action m after h =
        rw h (denied (record { fs = refl; sec = refl; root = refl; editor = refl; input = refl }))

    cat-Denied :
        (name : CString) → sec_check_perm perm_read k.sec ≡ false → Denied k (do_cat name k)
    unfolding do_cat require call note
    cat-Denied name h =
        rw h (denied (record { fs = refl; sec = refl; root = refl; editor = refl; input = refl }))

    write_file-Denied :
        (p : CString × CString)
        → sec_check_perm perm_write k.sec ≡ false
        → Denied k (write_file p k)
    unfolding write_file
    write_file-Denied ([], text) h = usage (write_text (codes "Usage: write <name> <text>\n"))
    write_file-Denied (c ∷ name, []) h = usage (write_text (codes "Usage: write <name> <text>\n"))
    write_file-Denied (c ∷ name, d ∷ text) h =
        guarded-Denied perm_write "write file" (write (some (c ∷ name)) (some (d ∷ text)))
          (report "File written.\n" "fs: write" "write: error.\n" "fs: write error") h

    move_file-Denied :
        (p : CString × CString) → sec_check_perm perm_write k.sec ≡ false → Denied k (move_file p k)
    unfolding move_file
    move_file-Denied ([], b) h = usage (write_text (codes "Usage: mv <old> <new>\n"))
    move_file-Denied (c ∷ a, []) h = usage (write_text (codes "Usage: mv <old> <new>\n"))
    move_file-Denied (c ∷ a, d ∷ b) h =
        guarded-Denied perm_write "rename/move" (rename (some (c ∷ a)) (some (d ∷ b)))
          (report "Renamed/moved.\n" "fs: rename" "mv: error.\n" "fs: rename error") h

    copy_file-Denied :
        (p : CString × CString) → sec_check_perm perm_read k.sec ≡ false → Denied k (copy_file p k)
    unfolding copy_file
    copy_file-Denied ([], b) h = usage (write_text (codes "Usage: cp <src> <dest>\n"))
    copy_file-Denied (c ∷ a, []) h = usage (write_text (codes "Usage: cp <src> <dest>\n"))
    copy_file-Denied (c ∷ a, d ∷ b) h =
        guarded-Denied perm_read "copy file" (copy (some (c ∷ a)) (some (d ∷ b)))
          (report "Copied.\n" "fs: copy" "cp: error.\n" "fs: copy error") h

    rm-Denied : (p : CString) → sec_check_perm perm_write k.sec ≡ false → Denied k (do_rm p k)
    unfolding do_rm
    rm-Denied [] h = usage (write_text (codes "Usage: rm <file>\n"))
    rm-Denied (c ∷ p) h =
        guarded-Denied perm_write "remove file" (unlink (some (c ∷ p)))
          (report "Removed file.\n" "fs: unlink" "rm: error.\n" "fs: unlink error") h

    rmdir-Denied : (p : CString) → sec_check_perm perm_write k.sec ≡ false → Denied k (do_rmdir p k)
    unfolding do_rmdir
    rmdir-Denied [] h = usage (write_text (codes "Usage: rmdir <dir>\n"))
    rmdir-Denied (c ∷ p) h =
        guarded-Denied perm_write "remove directory" (rmdir (some (c ∷ p)))
          (report "Directory removed.\n" "fs: rmdir" "rmdir: error (non-empty or not found).\n"
            "fs: rmdir error")
          h

    -- When the current user lacks the permission that a command asks for, which is the write permission
    -- for `mkdir`, `write`, `rm`, `rmdir` and `mv`, the read permission for `cat` and `cp`, and the
    -- snapshot permission for `snap-create` and `snap-restore`, the command returns and changes neither
    -- the filesystem nor the accounts, the root disk, the editor or the input line, whatever its
    -- arguments.
    pub run-Denied :
        (c : Command) → 0 < needs c → sec_check_perm (needs c) k.sec ≡ false → Denied k (run c k)
    unfolding run needs do_mkdir do_snap_create do_snap_restore do_write do_mv do_cp
    run-Denied (Command.mkdir arg) n h =
        guarded-Denied perm_write "create directory" (mkdir (some (skip_spaces arg)))
          (report "Directory created.\n" "fs: mkdir" "mkdir: error.\n" "fs: mkdir error") h
    run-Denied (Command.write arg) n h = write_file-Denied (name_and_text arg) h
    run-Denied (Command.rm arg) n h = rm-Denied (skip_spaces arg) h
    run-Denied (Command.rmdir arg) n h = rmdir-Denied (skip_spaces arg) h
    run-Denied (Command.mv arg) n h = move_file-Denied (two_words arg) h
    run-Denied (Command.cat arg) n h = cat-Denied (skip_spaces arg) h
    run-Denied (Command.cp arg) n h = copy_file-Denied (two_words arg) h
    run-Denied (Command.snap_create arg) n h =
        guarded-Denied perm_snap "snapshot create" (snap_create (some (skip_spaces arg)))
          (report "Snapshot created.\n" "fs: snapshot create" "snap-create: error.\n"
            "fs: snapshot create error")
          h
    run-Denied (Command.snap_restore arg) n h =
        guarded-Denied perm_snap "snapshot restore" (snap_restore (some (skip_spaces arg)))
          (report "Snapshot restored.\n" "fs: snapshot restore" "snap-restore: error.\n"
            "fs: snapshot restore error")
          h
    run-Denied c n h = absurd (omega arith)
