-- ===== src/Paging.antt =====
-- kernel/arch/i386/mm/paging.c: the page tables. A table is a function from the two indices of an
-- entry. The flushes of the translation cache and the messages are left out.
pub mod Entries
pub mod Pages
pub mod Identity
mod Tests
use hypnos.Base.{
  ℕ, zero, suc, ◌+◌, ◌-◌, ◌*◌, ◌/◌, ◌%◌, ◌^◌, Bool, ◌&&◌, Option, none, some, ◌==◌, ltb, leb,
  if◌then◌else◌, bit_or,
}

-- NUM_PAGE_TABLES
abbrev pub num_page_tables : ℕ
num_page_tables = 512

-- PAGE_PRESENT | PAGE_RW
abbrev pub page_present_rw : ℕ
page_present_rw = 3

-- PAGE_USER
abbrev pub page_user : ℕ
page_user = 4

-- `page_tables`
abbrev pub Tables : Type 0
Tables = ℕ → ℕ → ℕ

-- `get_pte`: the indices of the entry, with `pde_index` and `pte_index`.
unfoldable pub get_pte : ℕ → Option (ℕ × ℕ)
get_pte vaddr =
    if leb num_page_tables (vaddr / 2 ^ 22)
    then none
    else some (vaddr / 2 ^ 22, vaddr / 2 ^ 12 % 2 ^ 10)

-- *pte = v
abbrev pub put_pte : ℕ × ℕ → ℕ → Tables → Tables
put_pte e v t i j = if (i == e.0) && (j == e.1) then v else t i j

-- addr & ~0xFFF
abbrev pub page_of : ℕ → ℕ
page_of addr = addr - addr % 2 ^ 12

-- The body of the loop of `paging_set_user_for_range`.
unfoldable pub set_user : ℕ → Tables → Tables
unfolding get_pte
set_user addr t = elim (get_pte addr) [
  | none ↦ t
  | some e ↦ put_pte e (bit_or (t e.0 e.1) page_user) t
]

-- The loop from `addr` on; a page less is left in every round, so that 2 ^ 20 rounds are enough.
unfoldable pub set_user_from : ℕ → ℕ → ℕ → Tables → Tables
unfolding set_user
set_user_from zero addr e t = t
set_user_from (suc fuel) addr e t =
    let rest = set_user_from fuel ((addr + 2 ^ 12) % 2 ^ 32) e (set_user addr t) in
    if ltb addr e then rest else t

-- `paging_set_user_for_range`; the rounded end wraps in 32 bits.
unfoldable pub paging_set_user_for_range : ℕ → ℕ → Tables → Tables
paging_set_user_for_range start end t =
    if ltb end start
    then t
    else set_user_from (2 ^ 20) (page_of start) (page_of ((end + 4095) % 2 ^ 32)) t

-- `paging_map`; the entry is the frame with the low twelve bits of the flags.
unfoldable pub paging_map : ℕ → ℕ → ℕ → Tables → Tables
unfolding get_pte
paging_map vaddr paddr flags t = elim (get_pte vaddr) [
  | none ↦ t
  | some e ↦ put_pte e (bit_or (page_of paddr) (flags % 2 ^ 12)) t
]

-- `paging_unmap`
unfoldable pub paging_unmap : ℕ → Tables → Tables
unfolding get_pte
paging_unmap vaddr t = elim (get_pte vaddr) [ none ↦ t | some e ↦ put_pte e 0 t ]

-- `page_directory` and `page_tables`
pub record Paging : Type 0 where
  pub directory : ℕ → ℕ
  pub tables : Tables

-- PAGE_PRESENT | PAGE_RW | PAGE_USER
abbrev pub page_all : ℕ
page_all = 7

-- page_directory[i] = v
abbrev pub put_pde : ℕ → ℕ → (ℕ → ℕ) → ℕ → ℕ
put_pde i v d j = if i == j then v else d j

-- The two loops that clear the directory from entry `i` on.
unfoldable pub clear_from : ℕ → ℕ → (ℕ → ℕ) → ℕ → ℕ
clear_from zero i d = d
clear_from (suc rounds) i d = clear_from rounds (i + 1) (put_pde i 0 d)

-- The loop that fills table `t` from entry `i` on: the tables, and `addr` behind it.
unfoldable pub fill_from : ℕ → ℕ → ℕ → ℕ → Tables → Tables × ℕ
fill_from zero t i addr tables = (tables, addr)
fill_from (suc rounds) t i addr tables =
    fill_from rounds t (i + 1) ((addr + 2 ^ 12) % 2 ^ 32)
      (put_pte (t, i) (bit_or (page_of addr) page_present_rw) tables)

-- The loop over the tables from `t` on, where `page_tables` lies at `base`.
unfoldable pub tables_from : ℕ → ℕ → ℕ → ℕ → Paging → Paging
tables_from base zero t addr p = p
tables_from base (suc rounds) t addr p =
    let (filled, next) = fill_from 1024 t 0 addr p.tables in
    tables_from base rounds (t + 1) next (record {
      directory = put_pde t (bit_or ((base + t * 2 ^ 12) % 2 ^ 32) page_all) p.directory;
      tables = filled;
    })

-- `paging_init`, where `page_tables` lies at `base`
unfoldable pub paging_init : ℕ → Paging → Paging
paging_init base p =
    let cleared = record p { directory = clear_from 1024 0 p.directory } in
    let mapped = tables_from base num_page_tables 0 0 cleared in
    record {
      directory = clear_from (1024 - num_page_tables) num_page_tables mapped.directory;
      tables = paging_set_user_for_range 0 (2 ^ 31) mapped.tables;
    }

-- `paging_enable`: what it writes to cr3, where the directory lies at `directory_at`, and to cr0.
unfoldable pub paging_enable : ℕ → ℕ → ℕ × ℕ
paging_enable directory_at cr0 = (directory_at, bit_or cr0 (2 ^ 31))
