-- ===== src/Syscall/Tests.antt =====
-- The digits at a concrete number.
use hypnos.Base.{◌≡◌, [], arith}
use hypnos.Syscall.{digits}
use hypnos.Syscall.Decimal.{spells, spells-digits}

spells-digits_example : spells 0 (digits 16 4096 []) ≡ 4096
spells-digits_example = spells-digits 4096 (omega arith)
