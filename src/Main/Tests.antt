-- ===== src/Main/Tests.antt =====
-- The start at concrete addresses, and a pause of three ticks.
use hypnos.Base.{◌+◌, ◌%◌, ◌^◌, ◌≡◌, refl, some, none, false, arith}
use hypnos.Blockdev.{BlockDevice}
use hypnos.Kernel.{Kernel}
use hypnos.Main.{sleep_ticks}
use hypnos.Main.Machine.{Layout, Machine}
use hypnos.Main.Phases.{cold}
use hypnos.Main.Sleep.{sleep_ticks-Waits}
use hypnos.Main.Start.{kernel_main}
use hypnos.Main.Started.{Started, kernel_main-Started}

abbrev layout : Layout
layout = record {
  tss = 0x120000;
  tss_stack = 0x121000;
  isr = λ i. 0x100000;
  irq = λ i. 0x101000;
  isr80_syscall = 0x102000;
  page_tables = 0x200000;
  page_directory = 0x1FF000;
  kernel_end = 0x410000;
  shell_thread = 0x103000;
  mask1 = 0;
  mask2 = 0;
  cr0 = 0x11;
  reading = λ n. n;
  halts = 1;
}

-- A disk where every call fails.
abbrev no_disk : BlockDevice (Unit {0})
no_disk = record {
  num_sectors = 0;
  read = λ lba count d. some (none, d);
  write = λ lba count buffer d. some (false, d);
}

kernel_main-Started_example :
    (m : Machine (Unit {0})) × ((kernel_main layout no_disk (cold tt) ≡ some (some 0, m))
      × Started layout no_disk 33 0x401234 7 m)
kernel_main-Started_example =
    kernel_main-Started layout no_disk tt 33 0x401234 7 (omega arith) (λ i. omega arith)
      (λ i. omega arith) (omega arith) (omega arith) (omega arith)

-- The counter is about to wrap.
abbrev running : Kernel (Unit {0})
running = record (cold tt).kernel { ticks = 4294967294 }

sleep_ticks-Waits_example :
    sleep_ticks (λ n. (4294967294 + n) % 2 ^ 32) 10 3 running
    ≡ some (tt, record running { ticks = (4294967294 + 3) % 2 ^ 32 })
sleep_ticks-Waits_example =
    sleep_ticks-Waits (λ n. (4294967294 + n) % 2 ^ 32) (λ n. n) 10 3 4 running (omega arith)
      (omega arith) (omega arith) (omega arith) refl (λ n. omega arith) (λ n. refl) (omega arith)
      (omega arith)
