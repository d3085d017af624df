-- ===== src/Timer.antt =====
-- kernel/arch/i386/drivers/timer.c: the ticks of the timer, which drive the shell.
pub mod Ticks
use hypnos.Base.{ℕ, ◌+◌, ◌/◌, ◌%◌, ◌^◌, List, [], ◌∷◌, Option}
use hypnos.Base.Int.{pos}
use hypnos.Cpu.Irq.{irq_register_handler}
use hypnos.Kernel.{Kernel, KernelM, ◌>>◌, modify}
use hypnos.Shell.Bar.{shell_tick}

-- `timer_install`: the bytes that it sends, and the handlers with that of the timer, `callback`, for
-- interrupt 0.
unfoldable pub timer_install : {H : Type 0} → H → List (Option H) → List (ℕ × ℕ) × List (Option H)
unfolding irq_register_handler
timer_install callback handlers =
    let divisor = 1193180 / 100 in
    (
      (0x43, 0x36) ∷ (0x40, divisor % 2 ^ 8) ∷ (0x40, divisor / 2 ^ 8 % 2 ^ 8) ∷ [],
      irq_register_handler (pos 0) callback handlers,
    )

module _ {D : Type 0} where
  -- `timer_get_ticks`
  unfoldable pub timer_get_ticks : Kernel D → ℕ
  timer_get_ticks k = k.ticks

  -- `timer_get_seconds`
  unfoldable pub timer_get_seconds : Kernel D → ℕ
  timer_get_seconds k = k.ticks / 100

  -- `timer_callback`
  unfoldable pub timer_callback : KernelM D (Unit {0})
  timer_callback = do modify (λ k. record k { ticks = (k.ticks + 1) % 2 ^ 32 }); shell_tick
