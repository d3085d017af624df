-- ===== src/Debugcon.antt =====
-- kernel/arch/i386/drivers/debugcon.c: the debug port. The bytes that go to it are pairs of a port and a
-- value.
use hypnos.Base.{ℕ, ◌%◌, ◌^◌, List, [], ◌∷◌, ◌==◌, if◌then◌else◌}
use hypnos.CStr.{CString}

-- DEBUGCON_PORT
abbrev pub debugcon_port : ℕ
debugcon_port = 0xE9

-- `debugcon_putc`
unfoldable pub debugcon_putc : ℕ → ℕ × ℕ
debugcon_putc c = (debugcon_port, c % 2 ^ 8)

-- `debugcon_write`, which sends a carriage return in front of a newline.
unfoldable pub debugcon_write : CString → List (ℕ × ℕ)
unfolding debugcon_putc
debugcon_write [] = []
debugcon_write (c ∷ s) =
    let rest = debugcon_putc c ∷ debugcon_write s in
    if c == b'\n' then debugcon_putc b'\r' ∷ rest else rest
