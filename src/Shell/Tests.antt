-- ===== src/Shell/Tests.antt =====
-- The theorems on the shell and the editor, at a filesystem with a root only and a user who may read.
use hypnos.Base.{eq_of_some, refl, true, false, none, some, [], ◌∷◌, arith, codes, replicate, ◌≡◌}
use hypnos.Editor.{editor_handle_key}
use hypnos.Editor.Keys
use hypnos.Fs.Valid.Tests.{root_only, root_only-IsValid}
use hypnos.Kernel.{Kernel, ◌>>◌}
use hypnos.Timer.Ticks.{tick, Ticked, tick-Ticked}
use hypnos.Blockdev.{Answers, HasAnswers}
use hypnos.Blockdev.Ram.{ramdisk_device, ramdisk-Answers}
use hypnos.Ramdisk.{Disk}
use mathlib.Core.Path.{subst}
use hypnos.CStr.{kstrcmp, kstrncmp}
use hypnos.Kernel.Kept.{Kept}
use hypnos.Shell.Execute.{shell_execute}
use hypnos.Shell.Command.{command_of, is_word, begins}
use hypnos.Shell.Execute.Returning.{is_special, shell_execute-Kept}
use hypnos.Security.{sec_get_current_user, Security, perm_read, sec_check_perm}
use hypnos.Shell.Command.{Command}
use hypnos.Shell.Execute.{run}
use hypnos.Shell.Execute.Guard.{needs, Denied, run-Denied}
use hypnos.Shell.Line.Editing.{Edited, press-Edited}

abbrev guest : Security
guest = record {
  users = (record { id = 0; name = codes "guest"; perms = perm_read }) ∷ [];
  current = some 0;
}

-- A kernel without a disk, where the editor is active or not.
abbrev kernel : Kernel (Unit {0})
kernel = record {
  fs = root_only;
  sec = guest;
  log = record { log_buf = replicate 128 []; log_head = 0; log_count = 0 };
  root = record { device = none; disk = tt };
  editor = record { buf = []; name = codes "a"; active = false };
  input = [];
  counter = 0;
  ticks = 0;
  out = [];
}

abbrev editing : Kernel (Unit {0})
editing = record kernel { editor = record { buf = []; name = codes "a"; active = true } }

run-Denied_example : Denied kernel (run (Command.rm (codes "a")) kernel)
unfolding needs sec_check_perm sec_get_current_user
run-Denied_example = run-Denied kernel (Command.rm (codes "a")) (omega arith) refl

press-SavedText_example :
    hypnos.Editor.Keys.SavedText editing
      (codes "hi")
      ((hypnos.Editor.Keys.press (codes "hi") >> editor_handle_key 27) editing)
unfolding codes
press-SavedText_example =
    hypnos.Editor.Keys.press-SavedText (codes "hi") editing root_only-IsValid refl refl
      (refl, (refl, tt)) (omega arith) (omega arith)

press-Edited_example :
    Edited kernel (codes "ls") (hypnos.Shell.Line.Editing.press (codes "ls") kernel)
unfolding codes
press-Edited_example =
    press-Edited (codes "ls") kernel refl ((λ e. omega arith), ((λ e. omega arith), tt))
      (omega arith)

tick-Ticked_example :
    (after : Kernel (Unit {0})) × ((tick 250 kernel ≡ some (tt, after)) × Ticked 250 kernel after)
tick-Ticked_example = tick-Ticked 250 kernel root_only-IsValid (omega arith)

-- The kernel with an empty RAM disk of 1024 bytes as its root device.
abbrev with_disk : Kernel Disk
with_disk = record {
  fs = root_only;
  sec = guest;
  log = record { log_buf = replicate 128 []; log_head = 0; log_count = 0 };
  root = record {
    device = some (ramdisk_device 1024);
    disk = record { bytes = replicate 1024 0; size_bytes = 1024; num_sectors = 2 };
  };
  editor = record { buf = []; name = codes "a"; active = false };
  input = [];
  counter = 0;
  ticks = 0;
  out = [];
}

with_disk-HasAnswers : HasAnswers (λ d. Unit {0}) with_disk.root
with_disk-HasAnswers = (λ dev e. subst (Answers _) (eq_of_some e) (ramdisk-Answers 1024), tt)

shell_execute-Kept_example :
    Kept (λ d. Unit {0}) with_disk.fs (shell_execute (codes "diskwrite 1 hi") with_disk)
unfolding command_of is_word begins kstrcmp kstrncmp codes is_special
shell_execute-Kept_example =
    shell_execute-Kept (codes "diskwrite 1 hi") with_disk refl root_only-IsValid
      with_disk-HasAnswers
