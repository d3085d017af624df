-- ===== src/Shell/Bar.antt =====
-- The status bar and the prompt of the shell.
use hypnos.Base.{ℕ, ◌/◌, ◌+◌, [], ◌∷◌, ◌==◌, leb, if◌then◌else◌, codes}
use hypnos.CStr.{CString}
use hypnos.Editor.{fit, pad}
use hypnos.Fs.Dirs.{getcwd}
use hypnos.Kernel.{
  KernelM, set_color, draw_bar, pure, ◌>>=◌, ◌>>◌, gets, modify, on_fs, call, say, print,
}
use hypnos.Security.{sec_get_current_username}
use hypnos.Syscall.{digits}

-- `ui_itoa`; its loop is that of the system calls, with room for 15 digits.
unfoldable pub ui_itoa : ℕ → CString
ui_itoa v = if v == 0 then b'0' ∷ [] else digits 15 v []

-- The 79 bytes of the status bar.
unfoldable pub bar_line : ℕ → CString → CString → CString
unfolding fit pad ui_itoa
bar_line sec user cwd =
    let l1 = fit (fit [] (codes " user: ")) user in
    let l2 = fit (fit (fit l1 (codes " | uptime: ")) (ui_itoa sec)) (b's' ∷ []) in
    pad (fit (fit (fit l2 (codes " | fs: RAM-FS")) (codes " | cwd: ")) cwd)

module _ {D : Type 0} where
  -- `shell_draw_status_bar`
  unfoldable pub shell_draw_status_bar : KernelM D (Unit {0})
  unfolding call
  shell_draw_status_bar = do
    cwd ← on_fs getcwd
    k ← gets (λ k. k)
    call (draw_bar (bar_line (k.ticks / 100) (sec_get_current_username k.sec) cwd))

  -- `shell_print_prompt`
  unfoldable pub shell_print_prompt : KernelM D (Unit {0})
  unfolding shell_draw_status_bar call
  shell_print_prompt = do
    shell_draw_status_bar
    cwd ← on_fs getcwd
    call (set_color 10 0)
    k ← gets (λ k. k)
    say (sec_get_current_username k.sec)
    print "@hypnos"
    call (set_color 5 0)
    say cwd
    call (set_color 10 0)
    print ">"
    call (set_color 7 0)

  -- `shell_tick`: the bar is drawn on every hundredth tick.
  unfoldable pub shell_tick : KernelM D (Unit {0})
  shell_tick = do
    modify (λ k. record k { counter = k.counter + 1 })
    k ← gets (λ k. k)
    if leb 100 k.counter
        then (do modify (λ k. record k { counter = 0 }); shell_draw_status_bar)
        else pure tt
