-- ===== src/Shell/Execute.antt =====
-- The commands of the shell: `shell_execute` and the functions that it calls.
pub mod Paths
pub mod Show
pub mod Changes
pub mod Guard
pub mod Returning
pub mod Showing
pub mod Changing
use hypnos.Base.{ℕ, Option, none, some, List, [], ◌∷◌, ◌==◌, codes, String, if◌then◌else◌}
use hypnos.CStr.{CString}
use hypnos.Editor.{editor_start}
use hypnos.Kernel.{
  Kernel, KernelM, Call, clear_screen, pure, stuck, ◌>>=◌, ◌>>◌, call, note, say, print,
}
use hypnos.Shell.Command.{Command, command_of, skip_spaces}
use hypnos.Shell.Disk.{cmd_diskread, cmd_diskwrite}
use Show.{
  cmd_ls, cmd_pwd, cmd_tree, cmd_whoami, cmd_users, cmd_uptime, cmd_log_show, cmd_snap_list,
  cmd_echo, do_find, say_all,
}
use Changes.{
  cd_up, cmd_cd, do_mkdir, cmd_touch, do_cat, do_snap_create, do_snap_restore, do_login, do_write,
  do_rm, do_rmdir, do_mv, do_cp,
}

-- The lines of `help`
unfoldable pub help_lines : List String
help_lines =
    "Available commands:\n" ∷ "  help          - show this message\n"
    ∷ "  clear         - clear the screen\n" ∷ "  uptime        - show ticks since boot\n"
    ∷ "  echo X        - print X\n" ∷ "  panic         - cause an exception\n"
    ∷ "  ls            - list directory\n" ∷ "  pwd           - print working directory\n"
    ∷ "  cd <path>     - change directory\n" ∷ "  mkdir <name>  - make directory\n"
    ∷ "  touch <name>  - create/update file\n" ∷ "  write f txt   - write text to file\n"
    ∷ "  cat <name>    - show file contents\n" ∷ "  rm <file>     - remove a file\n"
    ∷ "  rmdir <dir>   - remove an empty directory\n"
    ∷ "  mv <old> <new>- move/rename file or directory\n" ∷ "  cp <src> <dst>- copy a file\n"
    ∷ "  find <name>   - search files by name (partial match)\n"
    ∷ "  edit <file>   - simple text editor\n" ∷ "  snap-*        - snapshot commands\n"
    ∷ "  whoami/users  - security info\n" ∷ "  login <user>  - switch user\n"
    ∷ "  log           - show audit log\n" ∷ "  sysinfo       - show information about the system\n"
    ∷ "  exit          - shutdown the system\n" ∷ []

-- The lines of `sysinfo`
unfoldable pub sysinfo_lines : List String
sysinfo_lines =
    "Hypnos system info:\n" ∷ "  Logical RAM:  2 GB\n" ∷ "  Logical disk: 16 GB\n"
    ∷ "  Actual ramdisk size: 16 MB\n" ∷ []

module _ {D : Type 0} where
  -- The branch of `edit`
  unfoldable pub do_edit : CString → KernelM D (Unit {0})
  do_edit [] = print "Usage: edit <filename>\n"
  do_edit (c ∷ name) = editor_start (c ∷ name)

  -- The branches of `shell_execute`. `panic` divides by zero, `exit` stops the machine and `runuser`
  -- leaves for user mode: they do not return.
  unfoldable pub run : Command → KernelM D (Unit {0})
  unfolding do_edit
  run Command.help = say_all help_lines
  run Command.clear = call clear_screen
  run Command.sysinfo = say_all sysinfo_lines
  run Command.uptime = cmd_uptime
  run (Command.echo arg) = cmd_echo arg
  run (Command.diskread arg) = cmd_diskread arg
  run (Command.diskwrite arg) = cmd_diskwrite arg
  run Command.panic = do print "Triggering division by zero...\n"; stuck
  run Command.exit = do print "Shutting down Hypnos...\n"; stuck
  run Command.ls = cmd_ls
  run Command.pwd = cmd_pwd
  run Command.cd_up = cmd_cd (codes "..")
  run (Command.cd arg) = cmd_cd arg
  run Command.tree = cmd_tree
  run (Command.edit arg) = do_edit (skip_spaces arg)
  run (Command.mkdir arg) = do_mkdir (skip_spaces arg)
  run (Command.touch arg) = cmd_touch arg
  run Command.runuser = do
    print "Launching first user program in Ring 3...\n"
    note (codes "[SHELL] runuser invoked.")
    stuck
  run (Command.cat arg) = do_cat (skip_spaces arg)
  run Command.snap_list = cmd_snap_list
  run (Command.snap_create arg) = do_snap_create (skip_spaces arg)
  run (Command.snap_restore arg) = do_snap_restore (skip_spaces arg)
  run Command.whoami = cmd_whoami
  run Command.users = cmd_users
  run (Command.login arg) = do_login (skip_spaces arg)
  run Command.log = cmd_log_show
  run (Command.write arg) = do_write arg
  run (Command.rm arg) = do_rm (skip_spaces arg)
  run (Command.rmdir arg) = do_rmdir (skip_spaces arg)
  run (Command.mv arg) = do_mv arg
  run (Command.cp arg) = do_cp arg
  run (Command.find arg) = do_find (skip_spaces arg)
  run Command.unknown = print "Unknown command. Type 'help'.\n"

  -- `shell_execute`
  unfoldable pub shell_execute : CString → KernelM D (Unit {0})
  shell_execute [] = pure tt
  shell_execute (c ∷ cmd) = do
    note (codes "[SHELL] command")
    note (c ∷ cmd)
    run (command_of (c ∷ cmd))
