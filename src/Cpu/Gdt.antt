-- ===== src/Cpu/Gdt.antt =====
-- kernel/arch/i386/cpu/gdt.c: the segment descriptors and the task state segment. The addresses of the
-- segment and of its stack are parameters; loading the tables is left out.
pub mod Decode
use hypnos.Base.{ℕ, ◌+◌, ◌*◌, ◌/◌, ◌%◌, ◌^◌, List, set, replicate, bit_or}

-- `struct gdt_entry`
pub record GdtEntry : Type 0 where
  pub limit_low : ℕ
  pub base_low : ℕ
  pub base_middle : ℕ
  pub access : ℕ
  pub granularity : ℕ
  pub base_high : ℕ

-- `gdt`, 6 entries
abbrev pub Gdt : Type 0
Gdt = List GdtEntry

abbrev pub empty_gdt : Gdt
empty_gdt = replicate 6 (record {
  limit_low = 0;
  base_low = 0;
  base_middle = 0;
  access = 0;
  granularity = 0;
  base_high = 0;
})

-- The entry that `gdt_set_entry` writes: the high digits of the limit and those of `gran` share a byte.
abbrev pub descriptor : ℕ → ℕ → ℕ → ℕ → GdtEntry
descriptor base limit access gran = record {
  limit_low = limit % 2 ^ 16;
  base_low = base % 2 ^ 16;
  base_middle = base / 2 ^ 16 % 2 ^ 8;
  access = access;
  granularity = limit / 2 ^ 16 % 2 ^ 4 + gran / 2 ^ 4 % 2 ^ 4 * 2 ^ 4;
  base_high = base / 2 ^ 24 % 2 ^ 8;
}

-- `gdt_set_entry`
unfoldable pub gdt_set_entry : ℕ → ℕ → ℕ → ℕ → ℕ → Gdt → Gdt
gdt_set_entry num base limit access gran gdt = set gdt num (descriptor base limit access gran)

-- The fields of `struct tss_entry` that are not left zero.
pub record Tss : Type 0 where
  pub esp0 : ℕ
  pub ss0 : ℕ
  pub es : ℕ
  pub cs : ℕ
  pub ss : ℕ
  pub ds : ℕ
  pub fs : ℕ
  pub gs : ℕ
  pub iomap_base : ℕ

abbrev pub kernel_code_seg : ℕ
kernel_code_seg = 8

abbrev pub kernel_data_seg : ℕ
kernel_data_seg = 16

-- sizeof(struct tss_entry)
abbrev pub sizeof_tss : ℕ
sizeof_tss = 104

-- `write_tss`, where the segment lies at `base`
unfoldable pub write_tss : ℕ → ℕ → ℕ → ℕ → Gdt → Tss × Gdt
unfolding gdt_set_entry
write_tss base num ss0 esp0 gdt = (
  record {
    esp0 = esp0;
    ss0 = ss0;
    es = kernel_data_seg;
    cs = kernel_code_seg;
    ss = kernel_data_seg;
    ds = kernel_data_seg;
    fs = kernel_data_seg;
    gs = kernel_data_seg;
    iomap_base = sizeof_tss;
  },
  gdt_set_entry num base ((base + sizeof_tss) % 2 ^ 32) 0x89 0x40 gdt,
)

-- `tss_set_kernel_stack`
unfoldable pub tss_set_kernel_stack : ℕ → Tss → Tss
tss_set_kernel_stack stack_top tss = record tss { esp0 = stack_top }

-- `gdt_init`, where the segment lies at `tss` and its stack at `stack`
unfoldable pub gdt_init : ℕ → ℕ → Gdt → Tss × Gdt
unfolding gdt_set_entry write_tss
gdt_init tss stack gdt0 =
    let gdt1 = gdt_set_entry 0 0 0 0 0 gdt0 in
    let gdt2 = gdt_set_entry 1 0 0xFFFFFFFF 0x9A 0xCF gdt1 in
    let gdt3 = gdt_set_entry 2 0 0xFFFFFFFF 0x92 0xCF gdt2 in
    let gdt4 = gdt_set_entry 3 0 0xFFFFFFFF 0xFA 0xCF gdt3 in
    let gdt5 = gdt_set_entry 4 0 0xFFFFFFFF 0xF2 0xCF gdt4 in
    write_tss tss 5 kernel_data_seg ((stack + 4096) % 2 ^ 32) gdt5
