-- ===== src/Cpu/Irq/Dispatch.antt =====
-- Which handler an interrupt calls, and how it is acknowledged.
use hypnos.Base.{
  ℕ, ◌<◌, ◌≡◌, refl, true, false, Option, some, none, List, arith, length, get_or-set_self,
  get_or-set_ne, ltb, if◌then◌else◌, ◌==◌,
}
use hypnos.Base.Int.{pos}
use native.Mathlib.Decide.{ℕ_discrete}
use hypnos.Cpu.Irq.{irq_handler_c, irq_register_handler}

module _ {H : Type 0} where
  -- After a handler is registered for one of the 16 interrupts, that interrupt calls it, every other
  -- calls what it called before, and what is sent to the controllers does not change.
  pub irq_handler_c-register :
      (irq n : ℕ) (h : H) (handlers : List (Option H))
      → irq < 16
      → length handlers ≡ 16
      → irq_handler_c n (irq_register_handler (pos irq) h handlers)
        ≡ (if n == irq then some h else (irq_handler_c n handlers).0, (irq_handler_c n handlers).1)
  unfolding irq_handler_c irq_register_handler
  irq_handler_c-register irq n h handlers lt size =
      let t : ltb irq 16 ≡ true = ground arith in
      elim (ℕ_discrete n irq) [
        | yes e ↦
            let s : (irq == irq) ≡ true = ground arith in
            rw (e, t, s, get_or-set_self handlers irq (some h) none (omega arith)) refl
        | no ne ↦
            let s : (n == irq) ≡ false = ground arith in
            rw (t, s, get_or-set_ne handlers irq n (some h) none (λ e. ne (ground arith))) refl
      ]
