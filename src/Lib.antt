-- ===== src/Lib.antt =====
-- Hypnos, a small i386 kernel in C, with its RAM filesystem, memory managers, devices and shell.
--
-- The kernel is a set of C files with static state. Each part below is one state record and one
-- function for each operation, which take the state and give the result with the new state. The shell and
-- the editor keep the calls that they make of the console as a list; messages on the console and in the
-- audit log are left out of the other parts that only report with them.
--
-- Base: numbers, lists, Boolean tests and the bits of machine words that the parts share.
-- Mm/Kmalloc: kernel/arch/i386/mm/kmalloc.c, the bump allocator (`kmalloc` is `kmalloc`). Its 32-bit
--   sum is written with its wrap.
-- Mm/Physmem: kernel/arch/i386/mm/physmem.c, the bitmap of frames; `View` reads it as a set of frames.
-- Paging: kernel/arch/i386/mm/paging.c, the directory and the tables of the pages (`paging_init`).
-- Crypto: kernel/fs/crypto.c, the cipher of the file contents.
-- CStr: the string helpers of kernel/fs/fs.c. A C string is the list of its bytes before the final 0.
-- Fs: kernel/fs/fs.c, the RAM filesystem. `fs_mkdir` is `mkdir` and so on; Fs/Monad is the store of
--   nodes, Fs/Nodes the nodes and the lists of children, Fs/Resolve the paths, Fs/Files and Fs/Dirs
--   the calls on files and directories, Fs/Snaps the snapshots, Fs/Walks the search and the tree. It
--   uses CStr, Crypto and Mm/Kmalloc. Fs/Shape and Fs/Valid say what a well-formed filesystem is, and
--   Fs/Calls runs sequences of calls.
-- Blockdev: kernel/fs/blockdev.h and blockdev.c, a disk as a record of operations over the state of its
--   driver, whose calls may fail to return, and the root disk; Blockdev/Ram is the RAM disk as such a
--   record.
-- Ramdisk: kernel/fs/ramdisk.c, the block device in memory.
-- Log: kernel/log.c, the audit log.
-- Security: kernel/security.c, the accounts and permissions.
-- Console: kernel/console.h, the text screen with its cursor.
-- Keyboard: kernel/arch/i386/drivers/keyboard.c, the handler of the keys.
-- Syscall: kernel/syscall.c, the system calls, which print with Console; Syscall/Install is `syscall_init`.
-- Kernel: the record of the parts that the shell drives, with the calls of the console that it makes.
-- Editor: kernel/shell/editor.c, on Kernel (`editor_handle_key` and so on).
-- Shell: kernel/shell/shell.c, on Kernel and Editor. Shell/Line is the line of keys (`shell_keypress`),
--   Shell/Command the tests of `shell_execute`, Shell/Execute what each command does, Shell/Disk the two
--   commands of the root disk, Shell/Bar the status row, the prompt and `shell_tick`.
-- Cpu: kernel/arch/i386/cpu, the gates of the interrupt table (Cpu/Idt), the descriptors of the segments
--   (Cpu/Gdt), the handlers of the hardware (Cpu/Irq) and the messages of the exceptions (Cpu/Isr).
-- Timer: kernel/arch/i386/drivers/timer.c, the ticks, which drive the shell's bar.
-- Debugcon: kernel/arch/i386/drivers/debugcon.c, the bytes that go to the debug port.
-- Ata: kernel/arch/i386/drivers/ata_pio.c, over a record of the operations of a port, which stand for
--   the drive; Ata/Answering is its device (`ata_pio_init`), as Blockdev asks for it.
-- Boot: kernel/fs_bootstrap.c, the files of the first start (`fs_bootstrap`).
-- Main: kernel/kernel_main.c. Main/Machine is the state of all parts and what the linker and the hardware
--   decide, Main/Start is `kernel_main` in phases, which calls the parts, and Main itself its messages,
--   pauses and tasks.
-- User: kernel/user, the program of the user mode, and the way of its system calls through the entry of
--   the interrupt 0x80 (kernel/arch/i386/cpu/isr.S) to the handler.
-- Sched: kernel/sched/task.c, the ring of tasks, which are made with Mm/Kmalloc.
--
-- Fuel: the loops over the children of a directory take the number of nodes, which no list of
-- children exceeds; a path takes one round more than its length, and each round shortens it; the
-- search for the last task takes the number of tasks. A loop whose fuel ends gives no result, so that
-- a theorem that a call returns also says that the fuel was enough. The walks of the filesystem
-- and the copies of a tree take the number of nodes too.
--
-- The polling loops of the disk take their fuel as an argument, since only the drive ends them; a drive
-- that is ready needs one round.
--
-- Not modelled: all assembler but the number that the entry of the system calls passes on, with the interrupts that arrive between `sti` and the start of the shell;
-- kernel/user/map_user_pages.c, which is commented out as a whole. The loops that halt the processor (that
-- of shell_run, the ends of the exception handlers) and the loading of the tables are left out; the loop
-- of the user program is modelled for any number of rounds. A command that does not come back (panic, exit,
-- runuser) has no result. The start keeps the calls of the console of kernel_main itself: every C file has
-- its own copy of the cursor.
pub mod Base
pub mod Mm
pub mod Crypto
pub mod CStr
pub mod Fs
pub mod Log
pub mod Security
pub mod Ramdisk
pub mod Console
pub mod Keyboard
pub mod Syscall
pub mod Sched
pub mod Paging
pub mod Blockdev
pub mod Kernel
pub mod Editor
pub mod Shell
pub mod Cpu
pub mod Timer
pub mod Debugcon
pub mod Boot
pub mod Ata
pub mod Main
pub mod User
