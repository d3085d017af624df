-- ===== src/Cpu/Idt/Wanted.antt =====
-- The gates that the boot installs, one by one.
use hypnos.Base.{
  ℕ, ◌-◌, ◌^◌, ◌≤◌, ◌<◌, ◌≡◌, ◌≢◌, ◌⊎◌, inl, inr, Option, none, some, true, false, ◌==◌, ltb,
  if◌then◌else◌, Bool-cases, ==_iff, sym, ◌∙◌, arith, length,
}
use native.Mathlib.Decide.{dec_lt}
use hypnos.Cpu.Idt.{IdtEntry, Idt, set_gates, isr_install, irq_gates, idt_init, syscall_gate}
use hypnos.Cpu.Idt.Gates.{
  gate, LeadsTo, set_gate-LeadsTo, set_gate-other, length-set_gates, set_gates-other,
  set_gates-LeadsTo,
}

module _ (isr irq : ℕ → ℕ) (sys : ℕ) where
  -- The address and the flags that the gate of a number should have: the first 32 are those of the
  -- exceptions, the next 16 those of the hardware, and 0x80, open to programs, that of the system calls.
  unfoldable pub wanted : ℕ → Option (ℕ × ℕ)
  wanted n =
      if ltb n 32
      then some (isr n, 0x8E)
      else if ltb n 48
      then some (irq (n - 32), 0x8E)
      else if n == 128
      then some (sys, 0xEE)
      else none

  -- The gate `e'` is as wanted, or is still `e` where none is.
  abbrev pub IsWanted : Option (ℕ × ℕ) → IdtEntry → IdtEntry → Type 0
  IsWanted none e e' = e' ≡ e
  IsWanted (some (base, flags)) e e' = LeadsTo e' base flags

  module _ (idt : Idt) (size : length idt ≡ 256) where
    cleared : Idt
    cleared = set_gates (λ n. 0) 0 32 idt

    length-cleared : length cleared ≡ 256
    unfolding cleared
    length-cleared = length-set_gates (λ n. 0) 0 32 idt ∙ size

    length-idt_init : length (idt_init isr idt) ≡ 256
    unfolding idt_init isr_install cleared
    length-idt_init = length-set_gates isr 0 32 cleared ∙ length-cleared

    length-irq_gates : length (irq_gates irq (idt_init isr idt)) ≡ 256
    unfolding irq_gates
    length-irq_gates =
        length-set_gates (λ n. irq (n - 32)) 32 16 (idt_init isr idt) ∙ length-idt_init

    idt_init-other : (n : ℕ) → 32 ≤ n → gate (idt_init isr idt) n ≡ gate idt n
    unfolding idt_init isr_install cleared
    idt_init-other n h =
        set_gates-other isr 0 32 cleared n (omega arith) (inr (omega arith))
        ∙ set_gates-other (λ m. 0) 0 32 idt n (omega arith) (inr (omega arith))

    syscall_gate-other :
        (n : ℕ)
        → n ≢ 128
        → gate (syscall_gate sys (irq_gates irq (idt_init isr idt))) n
          ≡ gate (irq_gates irq (idt_init isr idt)) n
    unfolding syscall_gate
    syscall_gate-other n ne =
        set_gate-other 128 sys 8 0xEE (irq_gates irq (idt_init isr idt)) n (omega arith)
          (λ e. ne (sym e))

    irq_gates-other :
        (n : ℕ)
        → n < 32 ⊎ 48 ≤ n
        → gate (irq_gates irq (idt_init isr idt)) n ≡ gate (idt_init isr idt) n
    unfolding irq_gates
    irq_gates-other n h =
        set_gates-other (λ m. irq (m - 32)) 32 16 (idt_init isr idt) n (omega arith) h

    exception : (n : ℕ) → n < 32 → isr n < 2 ^ 32 → LeadsTo (gate (idt_init isr idt) n) (isr n) 0x8E
    unfolding idt_init isr_install cleared
    exception n h b =
        set_gates-LeadsTo isr 0 32 cleared n (omega arith) length-cleared (omega arith)
          (omega arith) b

    hardware :
        (n : ℕ)
        → 32 ≤ n
        → n < 48
        → irq (n - 32) < 2 ^ 32
        → LeadsTo (gate (irq_gates irq (idt_init isr idt)) n) (irq (n - 32)) 0x8E
    unfolding irq_gates
    hardware n lo hi b =
        set_gates-LeadsTo (λ m. irq (m - 32)) 32 16 (idt_init isr idt) n (omega arith)
          length-idt_init lo hi b

    system :
        sys < 2 ^ 32
        → LeadsTo (gate (syscall_gate sys (irq_gates irq (idt_init isr idt))) 128) sys 0xEE
    unfolding syscall_gate
    system b =
        set_gate-LeadsTo 128 sys 0xEE (irq_gates irq (idt_init isr idt)) length-irq_gates
          (omega arith) b

    -- On a table of 256 gates, after `idt_init`, the gates of `irq_install` and that of `syscall_init`,
    -- with entry points below 2 ^ 32, the gates 0 to 31 lead to the entries of the exceptions, 32 to 47 to
    -- those of the hardware, both closed to programs, 128 to that of the system calls, open to programs,
    -- and every other is as it was.
    pub syscall_gate-IsWanted :
        (n : ℕ)
        → ((m : ℕ) → isr m < 2 ^ 32)
        → ((m : ℕ) → irq m < 2 ^ 32)
        → sys < 2 ^ 32
        → IsWanted
            (wanted n)
            (gate idt n)
            (gate (syscall_gate sys (irq_gates irq (idt_init isr idt))) n)
    unfolding wanted
    syscall_gate-IsWanted n hi hq hs = elim (dec_lt n 32) [
      | yes a ↦
          let t : ltb n 32 ≡ true = ground arith in
          rw (t, syscall_gate-other n (λ e. omega arith), irq_gates-other n (inl a))
            (exception n a (hi n))
      | no a ↦ elim (dec_lt n 48) [
        | yes b ↦
            let t : ltb n 32 ≡ false = ground arith in
            let u : ltb n 48 ≡ true = ground arith in
            rw (t, u, syscall_gate-other n (λ e. omega arith))
              (hardware n (omega arith) b (hq (n - 32)))
        | no b ↦
            let t : ltb n 32 ≡ false = ground arith in
            let u : ltb n 48 ≡ false = ground arith in
            elim (Bool-cases (n == 128)) [
              | inl e ↦ let same : n ≡ 128 = (==_iff n 128).0 e in rw same (system hs)
              | inr e ↦
                  rw
                    (
                      t,
                      u,
                      e,
                      syscall_gate-other n (λ q. ground arith),
                      irq_gates-other n (inr (omega arith)),
                    )
                    (idt_init-other n (omega arith))
            ]
      ]
    ]
