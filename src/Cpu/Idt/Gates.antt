-- ===== src/Cpu/Idt/Gates.antt =====
-- Where the gates of the interrupt table lead.
use hypnos.Base.{
  ℕ, zero, suc, ◌+◌, ◌*◌, ◌%◌, ◌/◌, ◌^◌, ◌≤◌, ◌<◌, ◌≡◌, ◌≢◌, ◌⊎◌, inl, inr, refl, ◌∙◌, arith,
  length, length-set, get_or, get_or-set_self, get_or-set_ne,
}
use native.Mathlib.Decide.{ℕ_discrete}
use hypnos.Cpu.Idt.{IdtEntry, Idt, idt_set_gate, set_gates}

abbrev zero_gate : IdtEntry
zero_gate = record { base_lo = 0; sel = 0; always0 = 0; flags = 0; base_hi = 0 }

-- The gate of a number below 256.
abbrev pub gate : Idt → ℕ → IdtEntry
gate idt n = get_or idt n zero_gate

-- The address that the processor reads in a gate.
unfoldable pub target : IdtEntry → ℕ
target e = e.base_lo + e.base_hi * 2 ^ 16

-- The gate leads to the address, in the kernel's code segment, with these flags.
pub record LeadsTo (e : IdtEntry) (base flags : ℕ) : Type 0 where
  pub address : target e ≡ base
  pub segment : e.sel ≡ 8
  pub kind : e.flags ≡ flags

pub length-idt_set_gate :
    (num base sel flags : ℕ) (idt : Idt) → length (idt_set_gate num base sel flags idt) ≡ length idt
unfolding idt_set_gate
length-idt_set_gate num base sel flags idt = length-set idt (num % 2 ^ 8) _

pub set_gate-LeadsTo :
    (num base flags : ℕ) (idt : Idt)
    → length idt ≡ 256
    → num < 256
    → base < 2 ^ 32
    → LeadsTo (gate (idt_set_gate num base 8 flags idt) num) base flags
unfolding idt_set_gate target
set_gate-LeadsTo num base flags idt size h b =
    let small : num % 2 ^ 8 ≡ num = omega arith in
    rw
      (
        small,
        get_or-set_self idt num
            (record {
              base_lo = base % 2 ^ 16;
              sel = 8;
              always0 = 0;
              flags = flags;
              base_hi = base / 2 ^ 16 % 2 ^ 16;
            })
            zero_gate (omega arith),
      )
      (record { address = omega arith; segment = refl; kind = refl })

pub set_gate-other :
    (num base sel flags : ℕ) (idt : Idt) (j : ℕ)
    → num < 256
    → num ≢ j
    → gate (idt_set_gate num base sel flags idt) j ≡ gate idt j
unfolding idt_set_gate
set_gate-other num base sel flags idt j h ne =
    let small : num % 2 ^ 8 ≡ num = omega arith in rw small (get_or-set_ne idt num j _ zero_gate ne)

pub length-set_gates :
    (entry : ℕ → ℕ) (num count : ℕ) (idt : Idt)
    → length (set_gates entry num count idt) ≡ length idt
unfolding set_gates
length-set_gates entry num zero idt = refl
length-set_gates entry num (suc count) idt =
    length-set_gates entry (num + 1) count (idt_set_gate num (entry num) 8 0x8E idt)
    ∙ length-idt_set_gate num (entry num) 8 0x8E idt

pub set_gates-other :
    (entry : ℕ → ℕ) (num count : ℕ) (idt : Idt) (j : ℕ)
    → num + count ≤ 256
    → j < num ⊎ num + count ≤ j
    → gate (set_gates entry num count idt) j ≡ gate idt j
unfolding set_gates
set_gates-other entry num zero idt j h out = refl
set_gates-other entry num (suc count) idt j h out =
    set_gates-other entry (num + 1) count (idt_set_gate num (entry num) 8 0x8E idt) j (omega arith)
      (elim out [ inl a ↦ inl (omega arith) | inr b ↦ inr (omega arith) ])
    ∙ set_gate-other num (entry num) 8 0x8E idt j (omega arith) (λ e. omega arith)

pub set_gates-LeadsTo :
    (entry : ℕ → ℕ) (num count : ℕ) (idt : Idt) (j : ℕ)
    → num + count ≤ 256
    → length idt ≡ 256
    → num ≤ j
    → j < num + count
    → entry j < 2 ^ 32
    → LeadsTo (gate (set_gates entry num count idt) j) (entry j) 0x8E
unfolding set_gates
set_gates-LeadsTo entry num zero idt j h size lo hi b = absurd (omega arith)
set_gates-LeadsTo entry num (suc count) idt j h size lo hi b =
    let idt1 = idt_set_gate num (entry num) 8 0x8E idt in
    let size1 = length-idt_set_gate num (entry num) 8 0x8E idt in
    elim (ℕ_discrete num j) [
      | yes e ↦
          rw (set_gates-other entry (num + 1) count idt1 j (omega arith) (inl (omega arith)), e)
            (set_gate-LeadsTo j (entry j) 0x8E idt size (omega arith) b)
      | no ne ↦
          set_gates-LeadsTo entry (num + 1) count idt1 j (omega arith) (size1 ∙ size) (omega arith)
            (omega arith) b
    ]
