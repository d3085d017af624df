-- ===== src/Shell.antt =====
-- kernel/shell/shell.c: the shell. The bar and the prompt, the line that is typed, the commands and
-- the tick of the timer.
pub mod Bar
pub mod Command
pub mod Disk
pub mod Execute
pub mod Line
mod Tests
