-- ===== src/Boot/Keeps.antt =====
-- The first start returns and keeps the filesystem well formed.
use hypnos.Base.{some, String, codes, Option}
use hypnos.Base.{none, some}
use hypnos.Fs.Dirs.Listing.{getcwd-Returns}
use hypnos.Fs.Valid.{Keeps, bind}
use hypnos.Boot.{
  go_to, make_dir, put_file, make_dirs, put_files, fs_bootstrap, unless_initialized, getcwd, motd,
  root_readme, student_readme,
}
use hypnos.CStr.{CString}
use hypnos.Fs.{Fs, unmounted}
use hypnos.Fs.Monad.{FsM, pure, ◌>>=◌, ◌>>◌}
use hypnos.Fs.Files.{init, read, chdir}
use hypnos.Fs.Files.Create.{same, mkdir-Keeps}
use hypnos.Fs.Files.Contents.{further, write-Keeps}
use hypnos.Fs.Files.Reads.{chdir-Keeps, read-Keeps}
use hypnos.Fs.Valid.{returns, bind, mono}

module _ {A B : Type 0} where
  Keeps-bind : (m : FsM A) (f : A → FsM B) → Keeps m → ((a : A) → Keeps (f a)) → Keeps (m >>= f)
  Keeps-bind m f hm hf kids s v = bind (hm kids s v) λ a t g. further s t g.1 (hf a g.0.0 t g.0.1)

Keeps-then : {B : Type 0} (m : FsM (Unit {0})) (n : FsM B) → Keeps m → Keeps n → Keeps (m >> n)
Keeps-then m n hm hn = Keeps-bind m (λ u. n) hm (λ u. hn)

Keeps-pure : {A : Type 0} (a : A) → Keeps (pure a)
Keeps-pure a kids s v = returns (same v)

go_to-Keeps : (path : String) → Keeps (go_to path)
go_to-Keeps path =
    Keeps-bind (chdir (some (codes path))) _ (λ kids s v. chdir-Keeps v (some (codes path)))
      λ r. Keeps-pure tt

make_dir-Keeps : (path : String) → Keeps (make_dir path)
make_dir-Keeps path =
    Keeps-bind (hypnos.Fs.Files.mkdir (some (codes path))) _
      (λ kids s v. mkdir-Keeps v (some (codes path))) λ r. Keeps-pure tt

put_file-Keeps : (path : String) (text : CString) → Keeps (put_file path text)
put_file-Keeps path text =
    Keeps-bind (hypnos.Fs.Files.write (some (codes path)) (some text)) _
      (λ kids s v. write-Keeps v (some (codes path)) (some text)) λ r. Keeps-pure tt

make_dirs-Keeps : Keeps make_dirs
unfolding make_dirs
make_dirs-Keeps = Keeps-then _ _ (make_dir-Keeps "bin") (
    Keeps-then _ _ (make_dir-Keeps "home") (
      Keeps-then _ _ (make_dir-Keeps "etc") (
        Keeps-then _ _ (make_dir-Keeps "var") (
          Keeps-then _ _ (go_to-Keeps "/var") (
            Keeps-then _ _ (make_dir-Keeps "log") (
              Keeps-then _ _ (go_to-Keeps "/") (
                Keeps-then _ _ (go_to-Keeps "/home") (
                  Keeps-then _ _ (make_dir-Keeps "root")
                    (Keeps-then _ _ (make_dir-Keeps "student") (go_to-Keeps "/"))))))))))

put_files-Keeps : Keeps put_files
unfolding put_files
put_files-Keeps = Keeps-then _ _ (go_to-Keeps "/etc") (
    Keeps-then _ _ (put_file-Keeps "motd" motd) (
      Keeps-then _ _ (go_to-Keeps "/") (
        Keeps-then _ _ (go_to-Keeps "/home/root") (
          Keeps-then _ _ (put_file-Keeps "readme.txt" root_readme) (
            Keeps-then _ _ (go_to-Keeps "/") (
              Keeps-then _ _ (go_to-Keeps "/home/student") (
                Keeps-then _ _ (put_file-Keeps "readme.txt" student_readme) (
                  Keeps-then _ _ (go_to-Keeps "/") (
                    Keeps-then _ _ (go_to-Keeps "/")
                      (put_file-Keeps ".hypnos_root_initialized" (codes "1")))))))))))

unless_initialized-Keeps : (sentinel : Option CString) → Keeps (unless_initialized sentinel)
unfolding unless_initialized
unless_initialized-Keeps none = Keeps-then make_dirs put_files make_dirs-Keeps put_files-Keeps
unless_initialized-Keeps (some sentinel) = Keeps-pure tt

getcwd-Keeps : Keeps getcwd
getcwd-Keeps kids s v = mono (getcwd-Returns v) λ r s' q. rw q (same v)

pub fs_bootstrap-Keeps : Keeps fs_bootstrap
unfolding fs_bootstrap
fs_bootstrap-Keeps = Keeps-bind getcwd _ getcwd-Keeps λ saved_cwd.
    Keeps-then _ _ (go_to-Keeps "/") (
      Keeps-bind (read (some (codes ".hypnos_root_initialized"))) _
        (λ kids s v. read-Keeps v (some (codes ".hypnos_root_initialized")))
        λ sentinel. Keeps-then _ _ (unless_initialized-Keeps sentinel) (
          Keeps-bind (chdir (some saved_cwd)) _ (λ kids s v. chdir-Keeps v (some saved_cwd))
            λ r. Keeps-pure tt))
