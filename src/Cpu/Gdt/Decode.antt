-- ===== src/Cpu/Gdt/Decode.antt =====
-- The segments that the descriptors stand for.
use hypnos.Base.{ℕ, ◌+◌, ◌*◌, ◌/◌, ◌%◌, ◌^◌, ◌<◌, ◌≡◌, refl, arith, length, get_or, get_or-set_self}
use hypnos.Cpu.Gdt.{GdtEntry, Gdt, empty_gdt, descriptor, gdt_set_entry, write_tss, gdt_init}

-- A segment: where it begins, its last offset (in units of its granularity), its flags and its rights.
pub record IsSegment (e : GdtEntry) (base limit flags access : ℕ) : Type 0 where
  pub start : e.base_low + e.base_middle * 2 ^ 16 + e.base_high * 2 ^ 24 ≡ base
  pub last : e.limit_low + e.granularity % 16 * 2 ^ 16 ≡ limit
  pub kind : e.granularity / 16 ≡ flags
  pub rights : e.access ≡ access

abbrev null_entry : GdtEntry
null_entry = descriptor 0 0 0 0

-- The entry of a number in a table.
abbrev pub entry : Gdt → ℕ → GdtEntry
entry gdt n = get_or gdt n null_entry

-- The entry that `gdt_set_entry` writes to a table that has it is that of the segment at the base, if
-- it is below 2 ^ 32, with the low twenty bits of the limit and the high four bits of `gran`.
pub gdt_set_entry-IsSegment :
    (num base limit access gran : ℕ) (gdt : Gdt)
    → num < length gdt
    → base < 2 ^ 32
    → IsSegment
        (entry (gdt_set_entry num base limit access gran gdt) num)
        base
        (limit % 2 ^ 20)
        (gran / 16 % 16)
        access
unfolding gdt_set_entry
gdt_set_entry-IsSegment num base limit access gran gdt h b =
    rw (get_or-set_self gdt num (descriptor base limit access gran) null_entry h)
      (record { start = omega arith; last = omega arith; kind = omega arith; rights = refl })

-- The entries that `gdt_init` makes: four that cover the whole memory, for the kernel and for programs,
-- and that of the task state segment.
pub record Segments (gdt : Gdt) (tss limit : ℕ) : Type 0 where
  pub kernel_code : IsSegment (entry gdt 1) 0 0xFFFFF 12 0x9A
  pub kernel_data : IsSegment (entry gdt 2) 0 0xFFFFF 12 0x92
  pub user_code : IsSegment (entry gdt 3) 0 0xFFFFF 12 0xFA
  pub user_data : IsSegment (entry gdt 4) 0 0xFFFFF 12 0xF2
  pub task : IsSegment (entry gdt 5) tss limit 4 0x89

-- After `gdt_init` the code and data segments begin at 0 and cover 2 ^ 20 pages; the task state segment
-- begins at its address, and its last offset is not 103 but the low twenty bits of the address of its
-- end.
pub gdt_init-Segments :
    (tss stack : ℕ)
    → tss < 2 ^ 32
    → Segments (gdt_init tss stack empty_gdt).1 tss ((tss + 104) % 2 ^ 32 % 2 ^ 20)
unfolding gdt_init gdt_set_entry write_tss
gdt_init-Segments tss stack h = record {
  kernel_code = record { start = refl; last = refl; kind = refl; rights = refl };
  kernel_data = record { start = refl; last = refl; kind = refl; rights = refl };
  user_code = record { start = refl; last = refl; kind = refl; rights = refl };
  user_data = record { start = refl; last = refl; kind = refl; rights = refl };
  task = record { start = omega arith; last = omega arith; kind = omega arith; rights = refl };
}
