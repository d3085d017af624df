-- ===== src/Shell/Execute/Changing.antt =====
-- The commands that change the filesystem or the user return and keep the filesystem well formed.
use hypnos.Base.{ℕ, Option, none, some, [], ◌∷◌, String, codes}
use hypnos.CStr.{CString}
use hypnos.Fs.{Status, ok, err}
use hypnos.Fs.Monad.{FsM}
use hypnos.Fs.Dirs.Copies.{copy-Keeps}
use hypnos.Fs.Dirs.Keeps.{unlink-Keeps, rmdir-Keeps, rename-Keeps}
use hypnos.Fs.Files.{chdir}
use hypnos.Fs.Files.Contents.{write-Keeps}
use hypnos.Fs.Files.Create.{mkdir-Keeps, touch-Keeps}
use hypnos.Fs.Files.Reads.{read-Keeps, chdir-Keeps}
use hypnos.Fs.Valid.{Keeps}
use hypnos.Kernel.{write_text, on_fs}
use hypnos.Kernel.Kept.{
  Sound, Sound-pure, Sound-bind, Sound-then, Sound-on_fs, Sound-if, Sound-call, Sound-print,
  Sound-note, Sound-require, Sound-login,
}
use hypnos.Security.{perm_read}
use hypnos.Shell.Execute.Changes.{
  chdir_done, cd_up, cmd_cd, report, guarded, do_mkdir, touched, cmd_touch, show_file, do_cat,
  do_login, write_file, do_rm, do_rmdir, move_file, copy_file,
}
use hypnos.Shell.Execute.Paths.{path_above}
use hypnos.Shell.Execute.Showing.{Sound-getcwd, Sound-pwd}

module _ {D : Type 0} {R : D → Type 0} where
  Sound-chdir_done : (bad : String) (r : Status) → Sound R (chdir_done bad r)
  unfolding chdir_done
  Sound-chdir_done bad ok = Sound-pwd
  Sound-chdir_done bad err = Sound-print bad

  Sound-chdir : (path : CString) → Sound R (on_fs (chdir (some path)))
  Sound-chdir path = Sound-on_fs (chdir (some path)) λ kids s v. chdir-Keeps v (some path)

  Sound-cd_up : Sound R cd_up
  unfolding cd_up
  Sound-cd_up = Sound-bind _ _ Sound-getcwd λ cwd.
      Sound-bind _ (chdir_done "cd: error.\n") (Sound-chdir (path_above cwd))
        (Sound-chdir_done "cd: error.\n")

  pub Sound-cd : (path : CString) → Sound R (cmd_cd path)
  unfolding cmd_cd
  Sound-cd [] = Sound-print "Usage: cd <path>\n"
  Sound-cd (c ∷ path) = Sound-if _ _ _ Sound-cd_up (
      Sound-bind _ (chdir_done "cd: no such directory.\n") (Sound-chdir (c ∷ path))
        (Sound-chdir_done "cd: no such directory.\n"))

  Sound-report :
      (good good_log bad bad_log : String) (r : Status)
      → Sound R (report good good_log bad bad_log r)
  unfolding report
  Sound-report good good_log bad bad_log ok =
      Sound-then _ _ (Sound-print good) (Sound-note (codes good_log))
  Sound-report good good_log bad bad_log err =
      Sound-then _ _ (Sound-print bad) (Sound-note (codes bad_log))

  Sound-guarded :
      (perm : ℕ) (action : String) (m : FsM Status) (g gl b bl : String)
      → Keeps m
      → Sound R (guarded perm action m (report g gl b bl))
  unfolding guarded
  Sound-guarded perm action m g gl b bl h = Sound-bind _ _ (Sound-require perm action) λ may.
      Sound-if may _ _ (Sound-bind _ (report g gl b bl) (Sound-on_fs m h) (Sound-report g gl b bl))
        (Sound-pure tt)

  pub Sound-mkdir : (name : CString) → Sound R (do_mkdir name)
  unfolding do_mkdir
  Sound-mkdir name = Sound-guarded _ _ _ _ _ _ _ λ kids s v. mkdir-Keeps v (some name)

  Sound-touched : (r : Status) → Sound R (touched r)
  unfolding touched
  Sound-touched ok = Sound-print "Created/updated file.\n"
  Sound-touched err = Sound-print "touch: error.\n"

  pub Sound-touch : (arg : CString) → Sound R (cmd_touch arg)
  unfolding cmd_touch
  Sound-touch [] = Sound-print "Usage: touch <name>\n"
  Sound-touch (c ∷ arg) =
      Sound-bind _ touched (Sound-on_fs _ λ kids s v. touch-Keeps v (some (c ∷ arg))) Sound-touched

  Sound-show_file : (r : Option CString) → Sound R (show_file r)
  unfolding show_file
  Sound-show_file none =
      Sound-then _ _ (Sound-print "cat: no such file or empty.\n")
        (Sound-note (codes "fs: read fail"))
  Sound-show_file (some text) =
      Sound-then _ _ (Sound-call (write_text text))
        (Sound-then _ _ (Sound-print "\n") (Sound-note (codes "fs: read")))

  pub Sound-cat : (name : CString) → Sound R (do_cat name)
  unfolding do_cat
  Sound-cat name = Sound-bind _ _ (Sound-require perm_read "read file") λ may.
      Sound-if may _ _
        (Sound-bind _ show_file (Sound-on_fs _ λ kids s v. read-Keeps v (some name))
          Sound-show_file)
        (Sound-pure tt)

  pub Sound-do_login : (name : CString) → Sound R (do_login name)
  unfolding do_login
  Sound-do_login [] =
      Sound-then _ _ (Sound-print "Usage: login <username>\n")
        (Sound-note (codes "security: login"))
  Sound-do_login (c ∷ name) =
      Sound-then _ _ (Sound-login (c ∷ name)) (Sound-note (codes "security: login"))

  pub Sound-write : (p : CString × CString) → Sound R (write_file p)
  unfolding write_file
  Sound-write ([], text) = Sound-print "Usage: write <name> <text>\n"
  Sound-write (c ∷ name, []) = Sound-print "Usage: write <name> <text>\n"
  Sound-write (c ∷ name, d ∷ text) =
      Sound-guarded _ _ _ _ _ _ _ λ kids s v. write-Keeps v (some (c ∷ name)) (some (d ∷ text))

  pub Sound-rm : (p : CString) → Sound R (do_rm p)
  unfolding do_rm
  Sound-rm [] = Sound-print "Usage: rm <file>\n"
  Sound-rm (c ∷ p) = Sound-guarded _ _ _ _ _ _ _ λ kids s v. unlink-Keeps v (some (c ∷ p))

  pub Sound-rmdir : (p : CString) → Sound R (do_rmdir p)
  unfolding do_rmdir
  Sound-rmdir [] = Sound-print "Usage: rmdir <dir>\n"
  Sound-rmdir (c ∷ p) = Sound-guarded _ _ _ _ _ _ _ λ kids s v. rmdir-Keeps v (some (c ∷ p))

  pub Sound-mv : (p : CString × CString) → Sound R (move_file p)
  unfolding move_file
  Sound-mv ([], b) = Sound-print "Usage: mv <old> <new>\n"
  Sound-mv (c ∷ a, []) = Sound-print "Usage: mv <old> <new>\n"
  Sound-mv (c ∷ a, d ∷ b) =
      Sound-guarded _ _ _ _ _ _ _ λ kids s v. rename-Keeps v (some (c ∷ a)) (some (d ∷ b))

  pub Sound-cp : (p : CString × CString) → Sound R (copy_file p)
  unfolding copy_file
  Sound-cp ([], b) = Sound-print "Usage: cp <src> <dest>\n"
  Sound-cp (c ∷ a, []) = Sound-print "Usage: cp <src> <dest>\n"
  Sound-cp (c ∷ a, d ∷ b) =
      Sound-guarded _ _ _ _ _ _ _ λ kids s v. copy-Keeps v (some (c ∷ a)) (some (d ∷ b))
