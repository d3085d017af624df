-- ===== src/Fs/Calls.antt =====
-- Sequences of calls of the filesystem.
pub mod Tests
pub mod Trees
use hypnos.Base.{ℕ, ◌≤◌, ◌<◌, ◌≡◌, refl, Option, none, some, List, [], ◌∷◌, length, arith}
use hypnos.Crypto.{set_key}
use hypnos.Crypto.Laws.{length-set_key}
use hypnos.CStr.{CString}
use hypnos.Mm.Kmalloc.{kmalloc_init}
use hypnos.Fs.{Fs, Status, unmounted}
use hypnos.Fs.Monad.{FsM, pure, ◌>>=◌, ◌>>◌}
use hypnos.Fs.Files.{init, mkdir, touch, write, write_cwd, read, chdir}
use hypnos.Fs.Files.Create.{same, mkdir-Keeps, touch-Keeps}
use hypnos.Fs.Files.Contents.{further, write-Keeps, write_cwd-Keeps}
use hypnos.Fs.Files.Mount.{init-IsValid}
use hypnos.Fs.Files.Reads.{read-Keeps, chdir-Keeps}
use hypnos.Fs.Dirs.{getcwd, list, unlink, rmdir, rename, copy}
use hypnos.Fs.Dirs.Copies.{copy-Keeps}
use hypnos.Fs.Dirs.Keeps.{unlink-Keeps, rmdir-Keeps, rename-Keeps}
use hypnos.Fs.Dirs.Listing.{getcwd-Returns, list-Returns}
use hypnos.Fs.Valid.{Returns, returns, bind, mono, IsValid, Grown}

-- A call of `fs.h` with its arguments, each of which may be null.
pub data FsCall : Type 0 where
  call_mkdir call_touch call_read call_chdir call_unlink call_rmdir : Option CString → FsCall
  call_write call_write_cwd call_rename call_copy : Option CString → Option CString → FsCall
  call_getcwd call_list : FsCall

-- The result of a call is dropped.
abbrev pub dropping : {A : Type 0} → FsM A → FsM (Unit {0})
dropping m = m >>= λ a. pure tt

unfoldable pub run_call : FsCall → FsM (Unit {0})
run_call (call_mkdir path) = dropping (mkdir path)
run_call (call_touch path) = dropping (touch path)
run_call (call_read path) = dropping (read path)
run_call (call_chdir path) = dropping (chdir path)
run_call (call_unlink path) = dropping (unlink path)
run_call (call_rmdir path) = dropping (rmdir path)
run_call (call_write path bytes) = dropping (write path bytes)
run_call (call_write_cwd name bytes) = dropping (write_cwd name bytes)
run_call (call_rename old new) = dropping (rename old new)
run_call (call_copy src dst) = dropping (copy src dst)
run_call call_getcwd = dropping getcwd
run_call call_list = dropping list

unfoldable pub run_calls : List FsCall → FsM (Unit {0})
run_calls [] = pure tt
run_calls (c ∷ cs) = do run_call c; run_calls cs

module _ {A : Type 0} (s : Fs) where
  dropped :
      {o : Option (A × Fs)}
      → Returns (λ a s'. Grown s s') o
      → Returns (λ u s'. Grown s s') (hypnos.Fs.Monad.and_then o (λ a. pure tt))
  dropped (returns g) = returns g

module _ {kids : ℕ → List ℕ} {s : Fs} (v : IsValid kids s) where
  run_call-Keeps : (c : FsCall) → Returns (λ u s'. Grown s s') (run_call c s)
  unfolding run_call
  run_call-Keeps (call_mkdir path) = dropped s (mkdir-Keeps v path)
  run_call-Keeps (call_touch path) = dropped s (touch-Keeps v path)
  run_call-Keeps (call_read path) = dropped s (read-Keeps v path)
  run_call-Keeps (call_chdir path) = dropped s (chdir-Keeps v path)
  run_call-Keeps (call_unlink path) = dropped s (unlink-Keeps v path)
  run_call-Keeps (call_rmdir path) = dropped s (rmdir-Keeps v path)
  run_call-Keeps (call_write path bytes) = dropped s (write-Keeps v path bytes)
  run_call-Keeps (call_write_cwd name bytes) = dropped s (write_cwd-Keeps v name bytes)
  run_call-Keeps (call_rename old new) = dropped s (rename-Keeps v old new)
  run_call-Keeps (call_copy src dst) = dropped s (copy-Keeps v src dst)
  run_call-Keeps call_getcwd = dropped s (mono (getcwd-Returns v) λ r s' q. rw q (same v))
  run_call-Keeps call_list = dropped s (mono (list-Returns v) λ r s' q. rw q (same v))

-- From a well-formed filesystem every sequence of the calls `fs_mkdir`, `fs_touch`, `fs_read`,
-- `fs_chdir`, `fs_unlink`, `fs_rmdir`, `fs_write`, `fs_write_cwd`, `fs_rename`, `fs_copy`,
-- `fs_getcwd` and `fs_list`, whatever the arguments, returns without a fault or an end-less loop, and leaves the
-- filesystem well formed with all its nodes.
pub run_calls-Keeps :
    (cs : List FsCall) {kids : ℕ → List ℕ} {s : Fs}
    → IsValid kids s
    → Returns (λ u s'. Grown s s') (run_calls cs s)
unfolding run_calls
run_calls-Keeps [] v = returns (same v)
run_calls-Keeps (c ∷ cs) {s} v =
    bind (run_call-Keeps v c) λ u t g. further s t g.1 (run_calls-Keeps cs g.0.1)

-- Whatever key is installed, `fs_init` on the heap of the start and then any sequence of these calls
-- returns without a fault or an end-less loop and leaves a well-formed filesystem.
pub run_calls-init :
    (key : List ℕ) (cs : List FsCall)
    → Returns
        (λ u s. (kids : ℕ → List ℕ) × IsValid kids s)
        ((init >> run_calls cs) (unmounted kmalloc_init (set_key key)))
run_calls-init key cs =
    bind (init-IsValid (set_key key) (length-set_key key).0)
      λ u s v. mono (run_calls-Keeps cs v.1) λ u' s' g. g.0
