-- ===== src/Shell/Execute/Returning.antt =====
-- Commands return and keep the filesystem well formed.
use hypnos.Base.{List, ◌≡◌, Bool, true, false, [], ◌∷◌, codes, take, ◌-◌, ℕ}
use hypnos.Blockdev.{HasAnswers}
use hypnos.CStr.{CString}
use hypnos.Editor.{editor_start, editor_draw_status, editor_name_max}
use hypnos.Kernel.{write_text, clear_screen, set_color, draw_bar, Kernel}
use hypnos.Fs.Valid.{IsValid}
use hypnos.Kernel.Kept.{Kept, Sound, Sound-pure, Sound-then, Sound-call, Sound-print, Sound-note}
use hypnos.Shell.Command.{Command, command_of, skip_spaces, two_words, name_and_text}
use hypnos.Shell.Execute.{do_edit, run, shell_execute, help_lines, sysinfo_lines}
use hypnos.Shell.Execute.Changes.{do_write, do_mv, do_cp}
use hypnos.Shell.Execute.Changing.{
  Sound-cd, Sound-mkdir, Sound-touch, Sound-cat, Sound-do_login, Sound-write, Sound-rm, Sound-rmdir,
  Sound-mv, Sound-cp,
}
use hypnos.Shell.Execute.Showing.{
  Sound-say_all, Sound-ls, Sound-pwd, Sound-whoami, Sound-uptime, Sound-log, Sound-snap_list,
  Sound-echo, Sound-diskread, Sound-diskwrite,
}

-- The commands that stop the machine or leave for user mode, those that walk the whole tree, and
-- `users`, which needs a current user.
unfoldable pub is_special : Command → Bool
is_special Command.panic = true
is_special Command.exit = true
is_special Command.runuser = true
is_special Command.tree = true
is_special Command.users = true
is_special (Command.find arg) = true
is_special (Command.snap_create arg) = true
is_special (Command.snap_restore arg) = true
is_special c = false

module _ {D : Type 0} {R : D → Type 0} where
  Sound-draw_status : Sound R editor_draw_status
  unfolding editor_draw_status
  Sound-draw_status k kids v = Sound-call (draw_bar _) k kids v

  Sound-edit : (name : CString) → Sound R (do_edit name)
  unfolding do_edit editor_start
  Sound-edit [] = Sound-print "Usage: edit <filename>\n"
  Sound-edit (c ∷ name) = λ k kids v.
      let short = take (editor_name_max - 1) (c ∷ name) in
      Sound-then _ _ (Sound-call clear_screen)
        (Sound-then _ _ (Sound-call (set_color 11 0)) (
          Sound-then _ _ (Sound-print "Hypnos editor - editing: ") (
            Sound-then _ _ (Sound-call (write_text short)) (
              Sound-then _ _ (Sound-print "\n\n")
                (Sound-then _ _ (Sound-call (set_color 7 0)) Sound-draw_status)))))
        (record k { editor = record { buf = []; name = short; active = true } }) kids v

  Sound-run : (c : Command) → is_special c ≡ false → Sound R (run c)
  unfolding run is_special do_write do_mv do_cp
  Sound-run Command.help h = Sound-say_all help_lines
  Sound-run Command.clear h = Sound-call clear_screen
  Sound-run Command.sysinfo h = Sound-say_all sysinfo_lines
  Sound-run Command.uptime h = Sound-uptime
  Sound-run (Command.echo arg) h = Sound-echo arg
  Sound-run (Command.diskread arg) h = Sound-diskread arg
  Sound-run (Command.diskwrite arg) h = Sound-diskwrite arg
  Sound-run Command.ls h = Sound-ls
  Sound-run Command.pwd h = Sound-pwd
  Sound-run Command.cd_up h = Sound-cd (codes "..")
  Sound-run (Command.cd arg) h = Sound-cd arg
  Sound-run (Command.edit arg) h = Sound-edit (skip_spaces arg)
  Sound-run (Command.mkdir arg) h = Sound-mkdir (skip_spaces arg)
  Sound-run (Command.touch arg) h = Sound-touch arg
  Sound-run (Command.cat arg) h = Sound-cat (skip_spaces arg)
  Sound-run Command.snap_list h = Sound-snap_list
  Sound-run Command.whoami h = Sound-whoami
  Sound-run (Command.login arg) h = Sound-do_login (skip_spaces arg)
  Sound-run Command.log h = Sound-log
  Sound-run (Command.write arg) h = Sound-write (name_and_text arg)
  Sound-run (Command.rm arg) h = Sound-rm (skip_spaces arg)
  Sound-run (Command.rmdir arg) h = Sound-rmdir (skip_spaces arg)
  Sound-run (Command.mv arg) h = Sound-mv (two_words arg)
  Sound-run (Command.cp arg) h = Sound-cp (two_words arg)
  Sound-run Command.unknown h = Sound-print "Unknown command. Type 'help'.\n"
  Sound-run c h = absurd (cc h)

  Sound-shell_execute :
      (cmd : CString) → is_special (command_of cmd) ≡ false → Sound R (shell_execute cmd)
  unfolding shell_execute
  Sound-shell_execute [] h = Sound-pure tt
  Sound-shell_execute (c ∷ cmd) h =
      Sound-then _ _ (Sound-note (codes "[SHELL] command"))
        (Sound-then _ _ (Sound-note (c ∷ cmd)) (Sound-run (command_of (c ∷ cmd)) h))

  -- From a state with a well-formed filesystem, where every call of the root device returns, if there
  -- is one, every line, whatever its arguments and the user, except for the commands `panic`, `exit`,
  -- `runuser`, `tree`, `users`, `find`, `snap-create` and `snap-restore`, returns, leaves the filesystem
  -- well formed with all its nodes, and keeps the root device answering.
  pub shell_execute-Kept :
      (cmd : CString) (k : Kernel D) {kids : ℕ → List ℕ}
      → is_special (command_of cmd) ≡ false
      → IsValid kids k.fs
      → HasAnswers R k.root
      → Kept R k.fs (shell_execute cmd k)
  shell_execute-Kept cmd k {kids} h v r = Sound-shell_execute cmd h k kids (v, r)
