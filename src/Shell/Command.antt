-- ===== src/Shell/Command.antt =====
-- The words of the shell: which command a line is, and its arguments.
use hypnos.Base.{ℕ, zero, suc, Bool, [], ◌∷◌, String, ◌==◌, if◌then◌else◌, codes, drop}
use hypnos.Base.Int.{is_zero}
use hypnos.CStr.{CString, kstrcmp, kstrncmp}

-- The branches of `shell_execute`; an argument is the rest of the line behind the word and a space.
pub data Command : Type 0 where
  help clear sysinfo uptime panic exit ls pwd cd_up tree runuser snap_list whoami users log :
      Command
  echo diskread diskwrite cd edit mkdir touch cat snap_create snap_restore login write rm rmdir mv
        cp find :
      CString → Command
  unknown : Command

-- `!kstrcmp(cmd, word)`
unfoldable pub is_word : CString → String → Bool
unfolding kstrcmp codes
is_word cmd word = is_zero (kstrcmp cmd (codes word))

-- `!kstrncmp(cmd, word, n)`
unfoldable pub begins : CString → String → ℕ → Bool
unfolding kstrncmp codes
begins cmd word n = is_zero (kstrncmp cmd (codes word) n)

-- The chain of tests of `shell_execute`, in its order.
unfoldable pub command_of : CString → Command
unfolding is_word begins
command_of cmd =
    if is_word cmd "help"
    then Command.help
    else if is_word cmd "clear"
    then Command.clear
    else if is_word cmd "sysinfo"
    then Command.sysinfo
    else if is_word cmd "uptime"
    then Command.uptime
    else if begins cmd "echo " 5
    then Command.echo (drop 5 cmd)
    else if begins cmd "diskread " 9
    then Command.diskread (drop 9 cmd)
    else if begins cmd "diskwrite " 10
    then Command.diskwrite (drop 10 cmd)
    else if is_word cmd "panic"
    then Command.panic
    else if is_word cmd "exit"
    then Command.exit
    else if is_word cmd "ls"
    then Command.ls
    else if is_word cmd "pwd"
    then Command.pwd
    else if is_word cmd "cd.."
    then Command.cd_up
    else if begins cmd "cd " 3
    then Command.cd (drop 3 cmd)
    else if is_word cmd "tree"
    then Command.tree
    else if begins cmd "edit " 5
    then Command.edit (drop 5 cmd)
    else if begins cmd "mkdir " 6
    then Command.mkdir (drop 6 cmd)
    else if begins cmd "touch " 6
    then Command.touch (drop 6 cmd)
    else if is_word cmd "runuser"
    then Command.runuser
    else if begins cmd "cat " 4
    then Command.cat (drop 4 cmd)
    else if is_word cmd "snap-list"
    then Command.snap_list
    else if begins cmd "snap-create " 12
    then Command.snap_create (drop 12 cmd)
    else if begins cmd "snap-restore " 13
    then Command.snap_restore (drop 13 cmd)
    else if is_word cmd "whoami"
    then Command.whoami
    else if is_word cmd "users"
    then Command.users
    else if begins cmd "login " 6
    then Command.login (drop 6 cmd)
    else if is_word cmd "log"
    then Command.log
    else if begins cmd "write " 6
    then Command.write (drop 6 cmd)
    else if begins cmd "rm " 3
    then Command.rm (drop 3 cmd)
    else if begins cmd "rmdir " 6
    then Command.rmdir (drop 6 cmd)
    else if begins cmd "mv " 3
    then Command.mv (drop 3 cmd)
    else if begins cmd "cp " 3
    then Command.cp (drop 3 cmd)
    else if begins cmd "find " 5
    then Command.find (drop 5 cmd)
    else Command.unknown

-- `while (*p == ' ') p++;`
unfoldable pub skip_spaces : CString → CString
skip_spaces [] = []
skip_spaces (c ∷ s) = if c == b' ' then skip_spaces s else c ∷ s

-- The loop that copies a word to a buffer with room for `room` bytes: the word and the rest.
unfoldable pub word : ℕ → CString → CString × CString
word zero s = ([], s)
word (suc room) [] = ([], [])
word (suc room) (c ∷ s) =
    let (w, rest) = word room s in if c == b' ' then ([], c ∷ s) else (c ∷ w, rest)

-- The two arguments of `mv` and `cp`, cut to 63 bytes; what follows the second is not read.
unfoldable pub two_words : CString → CString × CString
unfolding skip_spaces word
two_words s =
    let (a, rest) = word 63 (skip_spaces s) in let (b, rest') = word 63 (skip_spaces rest) in (a, b)

-- The name and the text of `write`; the name is cut to 31 bytes.
unfoldable pub name_and_text : CString → CString × CString
unfolding skip_spaces word
name_and_text s = let (name, rest) = word 31 (skip_spaces s) in (name, skip_spaces rest)
