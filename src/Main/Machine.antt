-- ===== src/Main/Machine.antt =====
-- The state of all parts while the kernel starts, and calls on it.
use hypnos.Base.{ℕ, Option, none, some, List, [], get_elem?}
use hypnos.CStr.{CString}
use hypnos.Cpu.Gdt.{Gdt, Tss}
use hypnos.Cpu.Idt.{Idt, IdtEntry}
use hypnos.Kernel.{Kernel, KernelM}
use hypnos.Mm.Physmem.{Bitmap}
use hypnos.Paging.{Paging}
use hypnos.Sched.{Sched, Task}

-- The functions that the drivers register.
pub data Handler : Type 0 where
  timer_callback keyboard_callback : Handler

-- What the linker and the hardware decide: addresses, the masks of the interrupt controllers, the control
-- register and the readings of the timer.
pub record Layout : Type 0 where
  pub tss : ℕ
  pub tss_stack : ℕ
  pub isr : ℕ → ℕ
  pub irq : ℕ → ℕ
  pub isr80_syscall : ℕ
  pub page_tables : ℕ
  pub page_directory : ℕ
  pub kernel_end : ℕ
  pub shell_thread : ℕ
  pub mask1 : ℕ
  pub mask2 : ℕ
  pub cr0 : ℕ
  pub reading : ℕ → ℕ
  pub halts : ℕ

-- `sent` are the bytes that went to the ports, and `control` is what was written to cr3 and cr0.
pub record Machine (D : Type 0) : Type 0 where
  pub kernel : Kernel D
  pub gdt : Gdt
  pub task_segment : Option Tss
  pub idt : Idt
  pub paging : Paging
  pub control : Option (ℕ × ℕ)
  pub frames : Bitmap
  pub handlers : List (Option Handler)
  pub sent : List (ℕ × ℕ)
  pub sched : Sched

abbrev pub MachineM : Type 0 → Type 0 → Type 0
MachineM D A = Machine D → Option (A × Machine D)

abbrev pub no_entry : IdtEntry
no_entry = record { base_lo = 0; sel = 0; always0 = 0; flags = 0; base_hi = 0 }

abbrev pub task_name : List Task → ℕ → CString
task_name tasks t = elim (get_elem? tasks t) [ none ↦ [] | some task ↦ task.name ]

module _ {D : Type 0} where
  abbrev pub pure : {A : Type 0} → A → MachineM D A
  pure a m = some (a, m)

  abbrev pub and_then :
      {A B : Type 0} → Option (A × Machine D) → (A → MachineM D B) → Option (B × Machine D)
  and_then none f = none
  and_then (some (a, m)) f = f a m

  infixl 5 ◌>>=◌ ◌>>◌
  abbrev pub ◌>>=◌ : {A B : Type 0} → MachineM D A → (A → MachineM D B) → MachineM D B
  ◌>>=◌ m f s = and_then (m s) f

  abbrev pub ◌>>◌ : {B : Type 0} → MachineM D (Unit {0}) → MachineM D B → MachineM D B
  m >> n = m >>= λ _. n

  abbrev pub get : MachineM D (Machine D)
  get m = some (m, m)

  abbrev pub modify : (Machine D → Machine D) → MachineM D (Unit {0})
  modify f m = some (tt, f m)

  abbrev pub with_kernel : {A : Type 0} → Option (A × Kernel D) → Machine D → Option (A × Machine D)
  with_kernel none m = none
  with_kernel (some (a, k)) m = some (a, record m { kernel = k })

  -- A call on the parts that the shell drives.
  abbrev pub on_kernel : {A : Type 0} → KernelM D A → MachineM D A
  on_kernel c m = with_kernel (c m.kernel) m
