-- ===== src/Paging/Identity.antt =====
-- The tables that `paging_init` leaves.
use hypnos.Base.{
  ℕ, zero, suc, ◌+◌, ◌*◌, ◌/◌, ◌%◌, ◌^◌, ◌<◌, ◌≤◌, ◌≡◌, ap, ◌∙◌, ◌&&◌, ltb, leb, bit_or, arith,
  if◌then◌else◌,
}
use hypnos.Base.Bits.{bit_or-three, bit_or-four}
use hypnos.Paging.{
  Paging, Tables, page_of, paging_set_user_for_range, tables_from, clear_from, put_pde, paging_init,
}
use hypnos.Paging.Entries.{entry_of}
use hypnos.Paging.Pages.{page, own, set_user_from-page, Tabled, tables_from-Tabled}

clear_from_lem :
    (rounds i : ℕ) (d : ℕ → ℕ) (j : ℕ)
    → clear_from rounds i d j ≡ (if leb i j && ltb j (i + rounds) then 0 else d j)
unfolding clear_from
clear_from_lem zero i d j = ground arith
clear_from_lem (suc rounds) i d j = clear_from_lem rounds (i + 1) (put_pde i 0 d) j ∙ ground arith

-- Flags in the low bits of a frame.
frame_flags : (k : ℕ) → bit_or (own k) 4 ≡ k * 2 ^ 12 + 7
frame_flags k =
    let e : k * 2 ^ 12 ≡ k * 512 * 8 = omega arith in
    ap (λ m. bit_or (bit_or m 3) 4) e
    ∙ (ap (λ m. bit_or m 4) (bit_or-three (k * 512)) ∙ (bit_or-four (k * 512) ∙ omega arith))

range_page :
    (tables : Tables) (k : ℕ)
    → k < 2 ^ 19
    → page (paging_set_user_for_range 0 (2 ^ 31) tables) k ≡ bit_or (page tables k) 4
unfolding paging_set_user_for_range
range_page tables k h =
    set_user_from-page (2 ^ 20) 0 (2 ^ 19) tables (omega arith) (omega arith) k ∙ ground arith

entry_of-page : (t : Tables) (a : ℕ) → entry_of t a ≡ page t (a / 2 ^ 12)
entry_of-page t a =
    let e : a / 2 ^ 22 ≡ a / 2 ^ 12 / 2 ^ 10 = omega arith in ap (λ i. t i (a / 2 ^ 12 % 2 ^ 10)) e

module _ (base : ℕ) (p : Paging) where
  abbrev cleared : Paging
  cleared = record p { directory = clear_from 1024 0 p.directory }

  mapped : Tabled base 0 512 cleared (tables_from base 512 0 0 cleared)
  mapped = tables_from-Tabled base 512 0 cleared (omega arith)

  init-page : (k : ℕ) → k < 2 ^ 19 → page (paging_init base p).tables k ≡ k * 2 ^ 12 + 7
  unfolding paging_init
  init-page k h =
      range_page _ k h ∙ (ap (λ e. bit_or e 4) (mapped.pages k ∙ ground arith) ∙ frame_flags k)

  named :
      (j : ℕ)
      → j < 512
      → (if leb 512 j && ltb j 1024 then 0 else (tables_from base 512 0 0 cleared).directory j)
        ≡ bit_or ((base + j * 2 ^ 12) % 2 ^ 32) 7
  named j h = ground (arith, mapped.entries j)

  -- `paging_init` maps every address below 2 GB to itself, present, writable and for the user, through
  -- the page table that its directory entry names, and clears the directory entries from 512 on,
  -- whatever the tables held.
  pub paging_init-entry_of :
      (a j : ℕ)
      → a < 2 ^ 31
      → 512 ≤ j
      → j < 1024
      → (entry_of (paging_init base p).tables a ≡ page_of a + 7)
        × ((paging_init base p).directory (a / 2 ^ 22)
            ≡ bit_or ((base + a / 2 ^ 22 * 2 ^ 12) % 2 ^ 32) 7)
        × ((paging_init base p).directory j ≡ 0)
  unfolding paging_init
  paging_init-entry_of a j h ge lt = (
    entry_of-page (paging_init base p).tables a
        ∙ (init-page (a / 2 ^ 12) (omega arith) ∙ omega arith),
    clear_from_lem 512 512 _ (a / 2 ^ 22) ∙ named (a / 2 ^ 22) (omega arith),
    clear_from_lem 512 512 _ j ∙ ground arith,
  )
