-- ===== src/Main/Start.antt =====
-- kernel/kernel_main.c: `kernel_main`, over the state of all parts, with the messages that the parts
-- write to the audit log.
use hypnos.Base.{ℕ, Option, none, some, [], ◌∷◌, ◌++◌, String, codes, get_or}
use hypnos.Base.Int.{pos}
use hypnos.Blockdev.{BlockDevice, blockdev_set_root}
use hypnos.Boot.{fs_bootstrap}
use hypnos.CStr.{CString}
use hypnos.Cpu.Gdt.{gdt_init}
use hypnos.Cpu.Idt.{idt_init, irq_gates, syscall_gate}
use hypnos.Cpu.Irq.{irq_install, irq_register_handler}
use hypnos.Crypto.{set_key}
use hypnos.Fs.Files.{init}
use hypnos.Kernel.{Kernel, clear_screen, call, note, on_fs, say, print}
use hypnos.Log.{log_init}
use hypnos.Main.{sleep_timer, sleep_ticks, theme_default, print_ascii_banner, ok, banner, show_gate}
use hypnos.Mm.Kmalloc.{Kheap, kmalloc, kmalloc_init}
use hypnos.Mm.Physmem.{phys_init}
use hypnos.Paging.{paging_init, paging_enable}
use hypnos.Sched.{Sched, sizeof_task, task_init, task_create, scheduler_start}
use hypnos.Security.{sec_init, sec_get_current_username}
use hypnos.Timer.{timer_install}
use hypnos.Main.Machine.{
  timer_callback, keyboard_callback, Layout, MachineM, no_entry, task_name, pure, ◌>>=◌, ◌>>◌, get,
  modify, on_kernel,
}

module _ {D : Type 0} where
  -- `ok`, `log_event` and the pauses
  abbrev pub done : String → MachineM D (Unit {0})
  done msg = on_kernel (ok msg)

  abbrev pub log : String → MachineM D (Unit {0})
  log msg = on_kernel (note (codes msg))

  abbrev pub pause : Layout → MachineM D (Unit {0})
  pause l = on_kernel (sleep_ticks l.reading l.halts sleep_timer)

  abbrev pub with_heap : Kernel D → Kheap → Kernel D
  with_heap k h = record k { fs = record k.fs { kheap = h } }

  -- The screen, the log and the tables of the processor.
  unfoldable pub start_tables : Layout → MachineM D (Unit {0})
  unfolding call note ok sleep_ticks
  start_tables l = do
    on_kernel theme_default
    on_kernel (call clear_screen)
    modify (λ m. record m { kernel = record m.kernel { log = log_init m.kernel.log } })
    log "[BOOT] kernel_main entered"
    modify (λ m.
        let (tss, gdt) = gdt_init l.tss l.tss_stack m.gdt in
        record m { gdt = gdt; task_segment = some tss })
    done "GDT initialized."
    log "[BOOT] GDT initialized."
    pause l
    modify (λ m. record m { idt = idt_init l.isr m.idt })
    done "IDT initialized."
    pause l
    log "[BOOT] IDT initialized."
    pause l

  -- The heap test, with the bytes that it writes to its block.
  unfoldable pub heap_test : Option ℕ → MachineM D (Unit {0})
  unfolding call note
  heap_test none = log "[BOOT] Heap test FAILED (kmalloc returned NULL)."
  heap_test (some buf) = do
    on_kernel (print "Heap test: ")
    on_kernel (say (b'O' ∷ b'K' ∷ []))
    on_kernel (print "\n")
    log "[BOOT] Heap test OK."

  -- Paging, the frames and the heap.
  unfoldable pub start_memory : Layout → MachineM D (Unit {0})
  unfolding note ok sleep_ticks heap_test
  start_memory l = do
    modify (λ m. record m {
      paging = paging_init l.page_tables m.paging;
      control = some (paging_enable l.page_directory l.cr0);
    })
    done "Paging initialized and enabled."
    pause l
    log "[BOOT] Paging initialized and enabled."
    pause l
    modify (λ m. record m { frames = phys_init l.kernel_end })
    done "Physical memory manager initialized."
    pause l
    log "[BOOT] Physical memory manager initialized."
    pause l
    modify (λ m. record m { kernel = with_heap m.kernel kmalloc_init })
    done "Kernel heap initialized."
    pause l
    log "[BOOT] Kernel heap initialized."
    pause l
    m ← get
    let (buf, heap) = kmalloc 32 m.kernel.fs.kheap
    modify (λ m. record m { kernel = with_heap m.kernel heap })
    heap_test buf

  -- The accounts; `sec_init` logs three messages.
  unfoldable pub start_accounts : Layout → MachineM D (Unit {0})
  unfolding call note sleep_ticks
  start_accounts l = do
    modify (λ m. record m { kernel = record m.kernel { sec = sec_init } })
    log "security: added user"
    log "security: added user"
    log "security: created users root, guest; logged in as root"
    on_kernel (print "Security subsystem initialized. Current user: ")
    m ← get
    on_kernel (say (sec_get_current_username m.kernel.sec))
    on_kernel (print "\n")
    pause l
    log "[BOOT] Security subsystem initialized."
    pause l

  -- The disk and the filesystem. `ata0` is the device that `ata_pio_init` gives.
  unfoldable pub start_files : Layout → BlockDevice D → MachineM D (Unit {0})
  unfolding note ok sleep_ticks
  start_files l ata0 = do
    modify (λ m. record m {
      kernel = record m.kernel {
        fs = record m.kernel.fs { key = set_key (codes "hypnos-default-key") };
      };
    })
    done "Filesystem encryption key installed."
    pause l
    log "[BOOT] Filesystem encryption key installed."
    pause l
    modify (λ m. record m {
      kernel = record m.kernel { root = blockdev_set_root (some ata0) m.kernel.root };
    })
    on_kernel (on_fs init)
    done "Filesystem initialized."
    pause l
    log "[BOOT] Filesystem initialized on /dev/ata0 (8GB)."
    pause l
    on_kernel (on_fs fs_bootstrap)
    pause l

  -- The interrupt controllers.
  unfoldable pub start_irqs : Layout → MachineM D (Unit {0})
  unfolding note ok sleep_ticks
  start_irqs l = do
    modify (λ m. record m {
      sent = m.sent ++ irq_install l.mask1 l.mask2;
      idt = irq_gates l.irq m.idt;
    })
    done "PIC remapped, IRQs installed."
    pause l
    log "[BOOT] IRQs installed (PIC remapped)."
    pause l

  -- The test of the gate of the timer.
  unfoldable pub test_gate : MachineM D (Unit {0})
  test_gate = do m ← get; on_kernel (show_gate (get_or m.idt 32 no_entry))

  -- The drivers that interrupt, up to `sti`.
  unfoldable pub start_drivers : Layout → MachineM D (Unit {0})
  unfolding call note ok sleep_ticks
  start_drivers l = do
    modify (λ m.
        let (bytes, handlers) = timer_install timer_callback m.handlers in
        record m { sent = m.sent ++ bytes; handlers = handlers })
    done "Timer initialized (100 Hz)."
    pause l
    log "[BOOT] PIT timer initialized (100Hz)."
    pause l
    modify (λ m. record m { idt = syscall_gate l.isr80_syscall m.idt })
    done "Syscalls (INT 0x80) initialized."
    pause l
    modify (λ m. record m { handlers = irq_register_handler (pos 1) keyboard_callback m.handlers })
    done "Keyboard driver installed."
    pause l
    log "[BOOT] Keyboard driver installed."
    pause l
    on_kernel (print "Enabling interrupts...\n")
    log "[BOOT] Enabling interrupts (sti)."
    pause l

  -- `task_create`, with its messages; a search for the last task that does not return has no result.
  log_created : CString → Kheap → Option ℕ → MachineM D (Unit {0})
  unfolding note
  log_created name heap (some t) = do log "[SCHED] task created."; on_kernel (note name)
  log_created name heap none = elim (kmalloc sizeof_task heap).0 [
    | none ↦ log "[SCHED] task_create: kmalloc task FAILED."
    | some p ↦ log "[SCHED] task_create: kmalloc stack FAILED."
  ]

  create_task : CString → Kheap → Option (Option ℕ × Sched) × Kheap → MachineM D (Unit {0})
  unfolding log_created
  create_task name before (none, heap) m = none
  create_task name before (some (t, sched), heap) m =
      log_created name before t (record m { sched = sched; kernel = with_heap m.kernel heap })

  -- `scheduler_start`, with its messages: the task that it starts.
  log_started : Option ℕ → MachineM D (Option ℕ)
  unfolding note
  log_started none = do log "[SCHED] scheduler_start: no tasks (HALT)."; pure none
  log_started (some t) = do
    log "[SCHED] scheduler_start: starting with first task."
    m ← get
    on_kernel (note (task_name m.sched.tasks t))
    pure (some t)

  -- The tasks: the one that is started, none when the processor is halted.
  unfoldable pub start_tasks : Layout → MachineM D (Option ℕ)
  unfolding call note banner print_ascii_banner create_task log_started
  start_tasks l = do
    modify (λ m. record m { sched = task_init })
    log "[SCHED] task subsystem initialized."
    log "[BOOT] Task subsystem initialized."
    on_kernel (call clear_screen)
    on_kernel (call clear_screen)
    on_kernel print_ascii_banner
    on_kernel (banner "=== Hypnos kernel booted ===")
    on_kernel (banner "Starting Hypnos...")
    log "[BOOT] Hypnos banner displayed."
    m ← get
    create_task (codes "shell") m.kernel.fs.kheap
        (task_create l.shell_thread (codes "shell") m.sched m.kernel.fs.kheap)
    log "[BOOT] Initial tasks created."
    m ← get
    let (t, sched) = scheduler_start m.sched
    modify (λ m. record m { sched = sched })
    log_started t

  -- `kernel_main`: the task that it starts.
  unfoldable pub kernel_main : Layout → BlockDevice D → MachineM D (Option ℕ)
  kernel_main l ata0 = do
    start_tables l
    start_memory l
    start_accounts l
    start_files l ata0
    start_irqs l
    test_gate
    start_drivers l
    start_tasks l
