-- ===== src/Main/Started.antt =====
-- What `kernel_main` leaves when it starts the shell.
use hypnos.Base.{
  ℕ, ◌+◌, ◌*◌, ◌/◌, ◌%◌, ◌^◌, ◌<◌, ◌≤◌, ◌≡◌, refl, ap, sym, ◌∙◌, arith, some, List, [], ◌∷◌, codes,
  ltb, bit_or,
}
use hypnos.Blockdev.{BlockDevice}
use hypnos.Boot.{fs_bootstrap}
use hypnos.Boot.Keeps.{fs_bootstrap-Keeps}
use hypnos.Cpu.Gdt.Decode.{Segments, gdt_init-Segments}
use hypnos.Cpu.Idt.{empty_idt}
use hypnos.Cpu.Idt.Gates.{gate}
use hypnos.Cpu.Idt.Wanted.{wanted, IsWanted, syscall_gate-IsWanted}
use hypnos.Cpu.Irq.{irq_handler_c, irq_register_handler}
use hypnos.Crypto.{set_key}
use hypnos.Crypto.Laws.{length-set_key}
use hypnos.Fs.{Fs, unmounted}
use hypnos.Fs.Files.{init}
use hypnos.Fs.Files.Mount.{init_in-IsValid}
use hypnos.Fs.Monad.{and_then}
use hypnos.Fs.Valid.{outcome, IsValid}
use hypnos.Kernel.{Call}
use hypnos.Log.{Log}
use hypnos.Main.Machine.{Layout, Machine, timer_callback, keyboard_callback}
use hypnos.Main.Phases.{
  cold, tables, memory, accounts, files, irqs, gate_test, drivers, tasks, with_tasks, shell_task,
}
use hypnos.Main.Room.{first_heap, heap_of, boot_heap}
use hypnos.Main.Start.{kernel_main}
use hypnos.Mm.Kmalloc.{kmalloc, kheap_start}
use hypnos.Mm.Physmem.{page_size, max_frames}
use hypnos.Mm.Physmem.Init.{phys_init_lem}
use hypnos.Mm.Physmem.View.{IsBitmap, used}
use hypnos.Paging.{page_of, paging_enable}
use hypnos.Paging.Entries.{entry_of}
use hypnos.Paging.Identity.{paging_init-entry_of}
use hypnos.Sched.{Task}
use hypnos.Sched.Ring.{IsRing}
use hypnos.Security.{
  sec_init, sec_get_current_username, sec_get_current_user, sec_add_user, find_user, s_strncpy,
}
use hypnos.Timer.{timer_install}

-- The parts of a kernel that has started, seen at the gate `n`, the address `a` and the frame `g`.
pub record Started {D : Type 0} (l : Layout) (ata0 : BlockDevice D) (n a g : ℕ) (m : Machine D)
    : Type 0 where
  pub segments : Segments m.gdt l.tss ((l.tss + 104) % 2 ^ 32 % 2 ^ 20)
  pub gates :
      IsWanted l.isr l.irq l.isr80_syscall
        (wanted l.isr l.irq l.isr80_syscall n)
        (gate empty_idt n)
        (gate m.idt n)
  pub mapped :
      (m.paging.directory (a / 2 ^ 22) ≡ bit_or ((l.page_tables + a / 2 ^ 22 * 2 ^ 12) % 2 ^ 32) 7)
      × (entry_of m.paging.tables a ≡ page_of a + 7)
  pub unmapped : (j : ℕ) → 512 ≤ j → j < 1024 → m.paging.directory j ≡ 0
  pub enabled : m.control ≡ some (l.page_directory, bit_or l.cr0 (2 ^ 31))
  pub frames : IsBitmap m.frames × (used m.frames g ≡ ltb (g * page_size) l.kernel_end)
  pub timer : (irq_handler_c 0 m.handlers).0 ≡ some timer_callback
  pub keyboard : (irq_handler_c 1 m.handlers).0 ≡ some keyboard_callback
  pub mounted : (kids : ℕ → List ℕ) × IsValid kids m.kernel.fs
  pub disk : m.kernel.root.device ≡ some ata0
  pub user : sec_get_current_username m.kernel.sec ≡ codes "root"
  pub ring : IsRing m.sched
  pub shell :
      (t : Task) × (m.sched.tasks ≡ t ∷ [])
      × (t.name ≡ codes "shell")
      × (t.regs.eip ≡ l.shell_thread)

abbrev key : List ℕ
key = set_key (codes "hypnos-default-key")

-- The filesystem of the first start.
record Files (s1 s2 : Fs) : Type 0 where
  made : init (unmounted first_heap key) ≡ some (tt, s1)
  filled : fs_bootstrap s1 ≡ some (tt, s2)
  valid : (kids : ℕ → List ℕ) × IsValid kids s2
  room : s2.kheap ≡ record { heap_offset = 1218 }

one_room : kmalloc 56 first_heap ≡ (some (kheap_start + 32), record { heap_offset = 88 })
unfolding kmalloc
one_room = refl

room_of :
    (s1 s2 : Fs)
    → init (unmounted first_heap key) ≡ some (tt, s1)
    → fs_bootstrap s1 ≡ some (tt, s2)
    → s2.kheap ≡ record { heap_offset = 1218 }
room_of s1 s2 made filled =
    sym (ap heap_of (ap (λ o. and_then o (λ u. fs_bootstrap)) made ∙ filled)) ∙ boot_heap

boot-Files : (s1 : Fs) × ((s2 : Fs) × Files s1 s2)
boot-Files =
    let (u1, (s1, (e1, v1))) = outcome (
      init_in-IsValid key first_heap (record { heap_offset = 88 }) (kheap_start + 32) one_room
        (length-set_key (codes "hypnos-default-key")).0) in
    let (u2, (s2, (e2, g))) = outcome (fs_bootstrap-Keeps v1.0 s1 v1.1) in
    (s1, (s2, record { made = e1; filled = e2; valid = g.0; room = room_of s1 s2 e1 e2 }))

module _ {D : Type 0} (l : Layout) (ata0 : BlockDevice D) (d : D) where
  runs :
      (s1 s2 : Fs) (f : Files s1 s2)
      → (log : Log) × ((out : List Call) × (kernel_main l ata0 (cold d)
            ≡ some (some 0, with_tasks l ata0 d s1 s2 tt tt f.made f.filled f.room log out)))
  unfolding kernel_main
  runs s1 s2 f =
      let (g1, (o1, p1)) = tables l ata0 d in
      let (g2, (o2, p2)) = memory l ata0 d g1 o1 in
      let (g3, (o3, p3)) = accounts l ata0 d g2 o2 in
      let (g4, (o4, p4)) = files l ata0 d s1 s2 tt tt f.made f.filled g3 o3 in
      let (g5, (o5, p5)) = irqs l ata0 d s1 s2 tt tt f.made f.filled g4 o4 in
      let (g6, (o6, p6)) = gate_test l ata0 d s1 s2 tt tt f.made f.filled g5 o5 in
      let (g7, (o7, p7)) = drivers l ata0 d s1 s2 tt tt f.made f.filled g6 o6 in
      let (g8, (o8, p8)) = tasks l ata0 d s1 s2 tt tt f.made f.filled f.room g7 o7 in
      (g8, (o8, rw (p1, p2, p3, p4, p5, p6, p7) p8))

  module _ (n a g : ℕ) (tss : l.tss < 2 ^ 32) (isr : (i : ℕ) → l.isr i < 2 ^ 32)
      (irq : (i : ℕ) → l.irq i < 2 ^ 32) (sys : l.isr80_syscall < 2 ^ 32) (low : a < 2 ^ 31)
      (end : l.kernel_end ≤ max_frames * page_size) where
    at_end :
        (s1 s2 : Fs) (f : Files s1 s2) (log : Log) (out : List Call)
        → Started l ata0 n a g (with_tasks l ata0 d s1 s2 tt tt f.made f.filled f.room log out)
    unfolding sec_init sec_get_current_username codes irq_handler_c irq_register_handler
        timer_install sec_get_current_user sec_add_user find_user s_strncpy paging_enable
    at_end s1 s2 f log out = record {
      segments = gdt_init-Segments l.tss l.tss_stack tss;
      gates = syscall_gate-IsWanted l.isr l.irq l.isr80_syscall empty_idt refl n isr irq sys;
      mapped =
          let (entry, table, rest) =
            paging_init-entry_of l.page_tables (cold d).paging a 512 low (omega arith)
              (omega arith) in
          (table, entry);
      unmapped =
          λ j ge lt. (paging_init-entry_of l.page_tables (cold d).paging 0 j (omega arith) ge lt).2;
      enabled = refl;
      frames = phys_init_lem l.kernel_end g end;
      timer = refl;
      keyboard = refl;
      mounted = (
        f.valid.0,
        record {
          shape = f.valid.1.shape;
          root_in = f.valid.1.root_in;
          cwd_in = f.valid.1.cwd_in;
          keyed = f.valid.1.keyed;
        },
      );
      disk = refl;
      user = refl;
      ring = record {
        head = refl;
        inner = λ i h. absurd (omega arith);
        last = λ i e. let z : i ≡ 0 = omega arith in rw z refl;
      };
      shell = (shell_task l ata0 d s1 s2 tt tt f.made f.filled f.room, refl, refl, refl);
    }

    -- Whatever the drive and its device, and wherever the linker put the tables, `kernel_main` returns from
    -- its calls and starts the shell: the segments and the gates are in place, paging is
    -- turned on with the page directory, through whose tables every address below 2 GB is mapped to
    -- itself and no other address is mapped, the frames of the kernel are in use, the two drivers answer their interrupts, the
    -- filesystem is well formed, root is logged in, and the only task is the shell's. The addresses are below
    -- 2 ^ 32 and the kernel ends in the first 2 GB.
    pub kernel_main-Started :
        (m : Machine D) × ((kernel_main l ata0 (cold d) ≡ some (some 0, m))
          × Started l ata0 n a g m)
    kernel_main-Started =
        let (s1, (s2, f)) = boot-Files in
        let (log, (out, e)) = runs s1 s2 f in (_, (e, at_end s1 s2 f log out))
