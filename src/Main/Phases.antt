-- ===== src/Main/Phases.antt =====
-- The phases of the start, one after the other: the state that each leaves. The log and the calls of
-- the console are left open.
use hypnos.Base.{
  ℕ, ◌≡◌, refl, none, some, List, [], ◌∷◌, ◌++◌, codes, get_or, ◌==◌, Bool-cases, inl, inr,
  replicate, false,
}
use hypnos.Base.Int.{pos}
use hypnos.Blockdev.{BlockDevice, blockdev_set_root}
use hypnos.Boot.{fs_bootstrap}
use hypnos.CStr.{CString}
use hypnos.Cpu.Gdt.{empty_gdt, gdt_init}
use hypnos.Cpu.Idt.{IdtEntry, empty_idt, idt_init, irq_gates, syscall_gate}
use hypnos.Cpu.Irq.{irq_install, irq_register_handler, no_handlers}
use hypnos.Crypto.{set_key}
use hypnos.Fs.{Fs, unmounted}
use hypnos.Fs.Files.{init}
use hypnos.Kernel.{Kernel, Call, write_text, call}
use hypnos.Log.{Log, unused}
use hypnos.Main.{put_chars, kprint_u32, show_gate}
use hypnos.Main.Machine.{Layout, Machine, MachineM, timer_callback, keyboard_callback, no_entry}
use hypnos.Main.Room.{first_heap}
use hypnos.Main.Start.{
  start_tables, start_memory, start_accounts, start_files, start_irqs, test_gate, start_drivers,
  start_tasks,
}
use hypnos.Mm.Kmalloc.{kmalloc, kmalloc_init}
use hypnos.Mm.Physmem.{phys_init, num_words}
use hypnos.Paging.{paging_init, paging_enable}
use hypnos.Sched.{Task, new_task, task_init, task_create, add_task, scheduler_start}
use hypnos.Security.{sec_init}
use hypnos.Syscall.{digits}
use hypnos.Timer.{timer_install}

module _ {D : Type 0} where
  -- The variables when the kernel is loaded, all of them zero, and a drive in any state.
  abbrev pub cold : D → Machine D
  cold d = record {
    kernel = record {
      fs = unmounted (record { heap_offset = 0 }) [];
      sec = record { users = []; current = none };
      log = unused;
      root = record { device = none; disk = d };
      editor = record { buf = []; name = []; active = false };
      input = [];
      counter = 0;
      ticks = 0;
      out = [];
    };
    gdt = empty_gdt;
    task_segment = none;
    idt = empty_idt;
    paging = record { directory = λ i. 0; tables = λ i j. 0 };
    control = none;
    frames = replicate num_words 0;
    handlers = no_handlers;
    sent = [];
    sched = task_init;
  }

  -- The call returns in a state of that form.
  abbrev Becomes : MachineM D (Unit {0}) → Machine D → (Log → List Call → Machine D) → Type 0
  Becomes c m next = (log : Log) × ((out : List Call) × (c m ≡ some (tt, next log out)))

  -- Printing a number returns.
  put_chars-out :
      (s : CString) (k : Kernel D)
      → (out : List Call) × (put_chars s k ≡ some (tt, record k { out = out }))
  unfolding put_chars call
  put_chars-out [] k = (k.out, refl)
  put_chars-out (c ∷ s) k = put_chars-out s _

  kprint_u32-out :
      (v : ℕ) (k : Kernel D)
      → (out : List Call) × (kprint_u32 v k ≡ some (tt, record k { out = out }))
  unfolding kprint_u32 call
  kprint_u32-out v k = elim (Bool-cases (v == 0)) [
    | inl e ↦ rw e (_, refl)
    | inr e ↦ let (out, p) = put_chars-out (digits 16 v []) k in (out, rw e p)
  ]

  show_gate-out :
      (e : IdtEntry) (k : Kernel D)
      → (out : List Call) × (show_gate e k ≡ some (tt, record k { out = out }))
  unfolding show_gate call
  show_gate-out e k =
      let (o1, p1) =
        kprint_u32-out e.flags (record k { out = write_text (codes "IRQ0 flags = ") ∷ k.out }) in
      let (o2, p2) =
        kprint_u32-out e.base_lo (record k { out = write_text (codes " base_lo = ") ∷ o1 }) in
      let (o3, p3) =
        kprint_u32-out e.base_hi (record k { out = write_text (codes " base_hi = ") ∷ o2 }) in
      (write_text (codes "\n") ∷ o3, rw (p1, p2, p3) refl)

  module _ (l : Layout) (ata0 : BlockDevice D) (d : D) where
    abbrev pub with_tables : Log → List Call → Machine D
    with_tables log out = record (cold d) {
      kernel = record (cold d).kernel { log = log; out = out };
      gdt = (gdt_init l.tss l.tss_stack empty_gdt).1;
      task_segment = some (gdt_init l.tss l.tss_stack empty_gdt).0;
      idt = idt_init l.isr empty_idt;
    }

    pub tables : Becomes (start_tables l) (cold d) with_tables
    unfolding start_tables
    tables = (_, (_, refl))

    abbrev pub with_memory : Log → List Call → Machine D
    with_memory log out = record (with_tables log out) {
      kernel = record (with_tables log out).kernel { fs = unmounted first_heap [] };
      paging = paging_init l.page_tables (cold d).paging;
      control = some (paging_enable l.page_directory l.cr0);
      frames = phys_init l.kernel_end;
    }

    pub memory :
        (log : Log) (out : List Call) → Becomes (start_memory l) (with_tables log out) with_memory
    unfolding start_memory kmalloc kmalloc_init
    memory log out = (_, (_, refl))

    abbrev pub with_accounts : Log → List Call → Machine D
    with_accounts log out = record (with_memory log out) {
      kernel = record (with_memory log out).kernel { sec = sec_init };
    }

    pub accounts :
        (log : Log) (out : List Call)
        → Becomes (start_accounts l) (with_memory log out) with_accounts
    unfolding start_accounts
    accounts log out = (_, (_, refl))

    -- The filesystem before and after the first start.
    module _ (s1 s2 : Fs) (u1 u2 : Unit {0})
        (mounted : init (unmounted first_heap (set_key (codes "hypnos-default-key")))
          ≡ some (u1, s1))
        (booted : fs_bootstrap s1 ≡ some (u2, s2)) where
      abbrev pub with_files : Log → List Call → Machine D
      with_files log out = record (with_accounts log out) {
        kernel = record (with_accounts log out).kernel {
          fs = s2;
          root = record { device = some ata0; disk = d };
        };
      }

      pub files :
          (log : Log) (out : List Call)
          → Becomes (start_files l ata0) (with_accounts log out) with_files
      unfolding start_files call blockdev_set_root
      files log out = rw (mounted, booted) (_, (_, refl))

      abbrev pub with_irqs : Log → List Call → Machine D
      with_irqs log out = record (with_files log out) {
        idt = irq_gates l.irq (idt_init l.isr empty_idt);
        sent = irq_install l.mask1 l.mask2;
      }

      pub irqs :
          (log : Log) (out : List Call) → Becomes (start_irqs l) (with_files log out) with_irqs
      unfolding start_irqs call
      irqs log out = (_, (_, refl))

      pub gate_test :
          (log : Log) (out : List Call) → Becomes test_gate (with_irqs log out) with_irqs
      unfolding test_gate
      gate_test log out =
          let e = get_or (irq_gates l.irq (idt_init l.isr empty_idt)) 32 no_entry in
          let (out', p) = show_gate-out e (with_irqs log out).kernel in (log, (out', rw p refl))

      abbrev pub with_drivers : Log → List Call → Machine D
      with_drivers log out = record (with_irqs log out) {
        idt = syscall_gate l.isr80_syscall (irq_gates l.irq (idt_init l.isr empty_idt));
        sent = irq_install l.mask1 l.mask2 ++ (timer_install timer_callback (cold d).handlers).0;
        handlers =
            irq_register_handler (pos 1) keyboard_callback
              (timer_install timer_callback (cold d).handlers).1;
      }

      pub drivers :
          (log : Log) (out : List Call) → Becomes (start_drivers l) (with_irqs log out) with_drivers
      unfolding start_drivers call
      drivers log out = (_, (_, refl))

      module _ (room : s2.kheap ≡ record { heap_offset = 1218 }) where
        abbrev pub shell_task : Task
        shell_task = record (new_task l.shell_thread (codes "shell") 0x1000516 1) { next = some 0 }

        abbrev pub with_tasks : Log → List Call → Machine D
        with_tasks log out = record (with_drivers log out) {
          kernel = record (with_drivers log out).kernel {
            fs = record s2 { kheap = record { heap_offset = 5398 } };
          };
          sched = record {
            tasks = shell_task ∷ [];
            current = some 0;
            task_head = some 0;
            next_id = 2;
          };
        }

        shell_created :
            task_create l.shell_thread (codes "shell") task_init (record { heap_offset = 1218 }) ≡ (
              some (
                some 0,
                record { tasks = shell_task ∷ []; current = none; task_head = some 0; next_id = 2 },
              ),
              record { heap_offset = 5398 },
            )
        unfolding task_create add_task task_init kmalloc
        shell_created = refl

        pub tasks :
            (log : Log) (out : List Call)
            → (log' : Log) × ((out' : List Call) × (start_tasks l (with_drivers log out)
                  ≡ some (some 0, with_tasks log' out')))
        unfolding start_tasks call task_init scheduler_start
        tasks log out = rw (room, shell_created) (_, (_, refl))
