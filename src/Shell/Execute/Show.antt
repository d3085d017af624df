-- ===== src/Shell/Execute/Show.antt =====
-- The commands that show the state: `ls`, `pwd`, `tree`, `whoami`, `users`, `uptime`, `log` and others.
use hypnos.Base.{
  ℕ, zero, suc, ◌+◌, Bool, true, false, Option, none, some, List, [], ◌∷◌, ◌==◌, if◌then◌else◌,
  length, String,
}
use hypnos.CStr.{CString}
use hypnos.Fs.{Status, ok, err}
use hypnos.Fs.Dirs.{getcwd, list}
use hypnos.Fs.Snaps.{snap_list}
use hypnos.Fs.Walks.{tree_cwd, find}
use hypnos.Kernel.{KernelM, pure, stuck, ◌>>=◌, ◌>>◌, gets, on_fs, call, say, print}
use hypnos.Log.{log_dump}
use hypnos.Security.{User, sec_list_users, sec_get_current_user, sec_get_current_username}
use hypnos.Syscall.{digits}

module _ {D : Type 0} where
  -- Each string on a line of its own.
  unfoldable pub say_lines : List CString → KernelM D (Unit {0})
  unfolding call
  say_lines [] = pure tt
  say_lines (s ∷ rest) = do say s; print "\n"; say_lines rest

  unfoldable pub slash_if : Bool → KernelM D (Unit {0})
  unfolding call
  slash_if true = print "/"
  slash_if false = pure tt

  -- `ls_printer`
  unfoldable pub ls_printer : List (CString × Bool) → KernelM D (Unit {0})
  unfolding slash_if call
  ls_printer [] = pure tt
  ls_printer ((name, is_dir) ∷ rest) = do
    print "  "
    say name
    slash_if is_dir
    print "\n"
    ls_printer rest

  -- `cmd_ls`
  unfoldable pub cmd_ls : KernelM D (Unit {0})
  unfolding ls_printer
  cmd_ls = do
    print "Listing "
    cwd ← on_fs getcwd
    say cwd
    print ":\n"
    entries ← on_fs list
    ls_printer entries

  -- `cmd_pwd`
  unfoldable pub cmd_pwd : KernelM D (Unit {0})
  cmd_pwd = do cwd ← on_fs getcwd; say cwd; print "\n"

  -- The loop of `tree_printer` that draws the depth.
  bars : ℕ → KernelM D (Unit {0})
  unfolding call
  bars zero = pure tt
  bars (suc depth) = do print "|   "; bars depth

  -- `tree_printer`
  unfoldable pub tree_printer : List (CString × Bool × ℕ) → KernelM D (Unit {0})
  unfolding bars slash_if call
  tree_printer [] = pure tt
  tree_printer ((name, is_dir, depth) ∷ rest) = do
    bars depth
    print "|-- "
    say name
    slash_if is_dir
    print "\n"
    tree_printer rest

  -- `cmd_tree`; `tree_count` is the number of entries.
  unfoldable pub cmd_tree : KernelM D (Unit {0})
  unfolding tree_printer
  cmd_tree = do
    print ".\n"
    entries ← on_fs tree_cwd
    tree_printer entries
    if length entries == 0 then print "  <empty>\n" else pure tt

  -- `cmd_whoami`
  unfoldable pub cmd_whoami : KernelM D (Unit {0})
  cmd_whoami = do
    print "Current user: "
    k ← gets (λ k. k)
    say (sec_get_current_username k.sec)
    print "\n"

  mark_current : ℕ → Option User → KernelM D (Unit {0})
  mark_current i none = stuck
  mark_current i (some u) = if i == u.id then print " (current)" else pure tt

  -- The loop of `cmd_users` from index `i` on; without a current user it reads a null pointer.
  users_from : ℕ → List User → KernelM D (Unit {0})
  unfolding mark_current call
  users_from i [] = pure tt
  users_from i (u ∷ rest) = do
    print "  "
    say u.name
    k ← gets (λ k. k)
    mark_current i (sec_get_current_user k.sec)
    print "\n"
    users_from (i + 1) rest

  -- `cmd_users`
  unfoldable pub cmd_users : KernelM D (Unit {0})
  unfolding users_from
  cmd_users = do k ← gets (λ k. k); print "Users:\n"; users_from 0 (sec_list_users 8 k.sec)

  -- `cmd_uptime`
  unfoldable pub cmd_uptime : KernelM D (Unit {0})
  cmd_uptime = do
    k ← gets (λ k. k)
    print "Uptime ticks: "
    say (if k.ticks == 0 then b'0' ∷ [] else digits 32 k.ticks [])
    print "\n"

  -- `cmd_log_show`, with the lines of `log_dump`
  unfoldable pub cmd_log_show : KernelM D (Unit {0})
  unfolding say_lines
  cmd_log_show = do
    k ← gets (λ k. k)
    print "=== Hypnos audit log ===\n"
    say_lines (log_dump k.log)
    print "=== end ===\n"

  unfoldable pub indented : List CString → KernelM D (Unit {0})
  unfolding call
  indented [] = pure tt
  indented (s ∷ rest) = do print "  "; say s; print "\n"; indented rest

  -- `cmd_snap_list`, with `snap_list_printer`
  unfoldable pub cmd_snap_list : KernelM D (Unit {0})
  unfolding indented
  cmd_snap_list = do k ← gets (λ k. k); print "Snapshots:\n"; indented (snap_list k.fs)

  -- `cmd_echo`
  unfoldable pub cmd_echo : CString → KernelM D (Unit {0})
  cmd_echo msg = do say msg; print "\n"

  find_result : Status → KernelM D (Unit {0})
  find_result ok = pure tt
  find_result err = print "find: error.\n"

  -- `find`, with the lines that `fs_find` prints
  unfoldable pub do_find : CString → KernelM D (Unit {0})
  unfolding find_result say_lines
  do_find [] = print "Usage: find <name>\n"
  do_find (c ∷ name) = do
    (r, lines) ← on_fs (find (some (c ∷ name)))
    say_lines lines
    find_result r

  -- The texts of `help` and `sysinfo`
  unfoldable pub say_all : List String → KernelM D (Unit {0})
  say_all [] = pure tt
  say_all (s ∷ rest) = do print s; say_all rest
