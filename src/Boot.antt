-- ===== src/Boot.antt =====
-- kernel/fs_bootstrap.c: the directories and files of the first start.
pub mod Keeps
use hypnos.Base.{ℕ, Option, none, some, List, [], ◌∷◌, codes, String, ◌++◌}
use hypnos.CStr.{CString}
use hypnos.Fs.Monad.{FsM, pure, ◌>>=◌, ◌>>◌}
use hypnos.Fs.Files.{mkdir, write, read, chdir}
use hypnos.Fs.Dirs.{getcwd}

-- A call of which the result is not used.
abbrev pub go_to : String → FsM (Unit {0})
go_to path = chdir (some (codes path)) >>= λ r. pure tt

abbrev pub make_dir : String → FsM (Unit {0})
make_dir path = mkdir (some (codes path)) >>= λ r. pure tt

abbrev pub put_file : String → CString → FsM (Unit {0})
put_file path text = write (some (codes path)) (some text) >>= λ r. pure tt

-- The texts of the files
unfoldable pub motd : CString
motd =
    codes "Welcome to Hypnos OS!\n"
    ++ (codes "This is a demo filesystem stored on an 8GB virtual disk.\n"
        ++ codes
            "Commands: ls, cd, pwd, mkdir, touch, write, cat, edit, snap-*, log, whoami, users ...\n")

unfoldable pub root_readme : CString
root_readme =
    codes "Hypnos root README\n"
    ++ (codes "-------------------\n"
        ++ (codes "This directory is meant for the 'root' user.\n"
            ++ (codes "Try creating files here, editing them, and rebooting to\n"
                ++ codes "confirm that the filesystem is persistent on disk.\n")))

unfoldable pub student_readme : CString
student_readme =
    codes "Hypnos student README\n"
    ++ (codes "----------------------\n"
        ++ (codes "Welcome! You can practice shell commands here.\n"
            ++ codes "Try: 'ls', 'pwd', 'mkdir demo', 'cd demo', 'edit notes.txt'.\n"))

-- The directories
unfoldable pub make_dirs : FsM (Unit {0})
make_dirs = do
  make_dir "bin"
  make_dir "home"
  make_dir "etc"
  make_dir "var"
  go_to "/var"
  make_dir "log"
  go_to "/"
  go_to "/home"
  make_dir "root"
  make_dir "student"
  go_to "/"

-- The files
unfoldable pub put_files : FsM (Unit {0})
put_files = do
  go_to "/etc"
  put_file "motd" motd
  go_to "/"
  go_to "/home/root"
  put_file "readme.txt" root_readme
  go_to "/"
  go_to "/home/student"
  put_file "readme.txt" student_readme
  go_to "/"
  go_to "/"
  put_file ".hypnos_root_initialized" (codes "1")

-- The layout, unless the sentinel was read.
unfoldable pub unless_initialized : Option CString → FsM (Unit {0})
unfolding make_dirs put_files
unless_initialized (some sentinel) = pure tt
unless_initialized none = do make_dirs; put_files

-- `fs_bootstrap`; the path of a directory has at most 127 bytes, so that `saved_cwd` holds it.
unfoldable pub fs_bootstrap : FsM (Unit {0})
unfolding unless_initialized
fs_bootstrap = do
  saved_cwd ← getcwd
  go_to "/"
  sentinel ← read (some (codes ".hypnos_root_initialized"))
  unless_initialized sentinel
  r ← chdir (some saved_cwd)
  pure tt
