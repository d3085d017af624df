-- ===== src/Paging/Tests.antt =====
-- The mapping at a concrete page.
use hypnos.Base.{ℕ, ◌+◌, ◌*◌, ◌≡◌, ◌≢◌, ◌/◌, ◌%◌, ◌^◌, bit_or, arith}
use hypnos.Paging.{Paging, paging_init, Tables, page_of, paging_map}
use hypnos.Paging.Identity.{paging_init-entry_of}
use hypnos.Paging.Entries.{entry_of, paging_map_lem}

abbrev empty : Tables
empty i j = 0

paging_map_lem_example :
    (entry_of (paging_map 0x400000 0x5000 7 empty) 0x400000 ≡ bit_or (page_of 0x5000) (7 % 2 ^ 12))
    × ((a : ℕ)
        → a / 2 ^ 12 ≢ 0x400000 / 2 ^ 12
        → entry_of (paging_map 0x400000 0x5000 7 empty) a ≡ entry_of empty a)
paging_map_lem_example = paging_map_lem empty 0x400000 0x5000 7 (omega arith)

abbrev before : Paging
before = record { directory = λ i. 9; tables = empty }

paging_init-entry_of_example :
    (entry_of (paging_init 0x300000 before).tables 0x401234 ≡ page_of 0x401234 + 7)
    × ((paging_init 0x300000 before).directory (0x401234 / 2 ^ 22)
        ≡ bit_or ((0x300000 + 0x401234 / 2 ^ 22 * 2 ^ 12) % 2 ^ 32) 7)
    × ((paging_init 0x300000 before).directory 600 ≡ 0)
paging_init-entry_of_example =
    paging_init-entry_of 0x300000 before 0x401234 600 (omega arith) (omega arith) (omega arith)
