-- ===== src/Paging/Entries.antt =====
-- The entry of a page after the operations on it.
use hypnos.Base.{
  ◌&&◌, false, leb, ℕ, ◌/◌, ◌%◌, ◌^◌, ◌<◌, ◌≡◌, ◌≢◌, some, bit_or, arith, ◌==◌, ==_refl, leb, false,
}
use hypnos.Paging.{Tables, page_of, get_pte, put_pte, paging_map}

-- The entry that the tables hold for an address below 2 GB.
abbrev pub entry_of : Tables → ℕ → ℕ
entry_of t a = t (a / 2 ^ 22) (a / 2 ^ 12 % 2 ^ 10)

get_pte_lem :
    (vaddr : ℕ) → vaddr < 2 ^ 31 → get_pte vaddr ≡ some (vaddr / 2 ^ 22, vaddr / 2 ^ 12 % 2 ^ 10)
unfolding get_pte
get_pte_lem vaddr lt = let e : leb 512 (vaddr / 2 ^ 22) ≡ false = ground arith in rw (get_pte, e)

put_pte_self :
    (t : Tables) (a v : ℕ) → entry_of (put_pte (a / 2 ^ 22, a / 2 ^ 12 % 2 ^ 10) v t) a ≡ v
put_pte_self t a v = rw (==_refl (a / 2 ^ 22), ==_refl (a / 2 ^ 12 % 2 ^ 10))

put_pte_ne :
    (t : Tables) (a b v : ℕ)
    → b / 2 ^ 12 ≢ a / 2 ^ 12
    → entry_of (put_pte (a / 2 ^ 22, a / 2 ^ 12 % 2 ^ 10) v t) b ≡ entry_of t b
put_pte_ne t a b v ne =
    let e : ((b / 2 ^ 22 == a / 2 ^ 22) && (b / 2 ^ 12 % 2 ^ 10 == a / 2 ^ 12 % 2 ^ 10)) ≡ false =
      ground arith in
    rw e

-- Mapping an address below 2 GB makes its entry the frame of `paddr` with the low twelve bits of the
-- flags, and keeps the entry of every address on another page.
pub paging_map_lem :
    (t : Tables) (vaddr paddr flags : ℕ)
    → vaddr < 2 ^ 31
    → (entry_of (paging_map vaddr paddr flags t) vaddr ≡ bit_or (page_of paddr) (flags % 2 ^ 12))
      × ((a : ℕ)
          → a / 2 ^ 12 ≢ vaddr / 2 ^ 12
          → entry_of (paging_map vaddr paddr flags t) a ≡ entry_of t a)
unfolding paging_map get_pte
paging_map_lem t vaddr paddr flags lt =
    let at = get_pte_lem vaddr lt in
    let v : ℕ = bit_or (page_of paddr) (flags % 2 ^ 12) in
    (
      rw (paging_map, at) (put_pte_self t vaddr v),
      λ a ne. rw (paging_map, at) (put_pte_ne t vaddr a v ne),
    )
