-- ===== src/Paging/Pages.antt =====
-- The tables page by page: what `paging_init` writes.
use native.Mathlib.Decide.{ℕ_discrete}
use hypnos.Base.{
  ℕ, zero, suc, ◌+◌, ◌*◌, ◌/◌, ◌%◌, ◌^◌, ◌<◌, ◌≤◌, ◌≡◌, ap, ◌∙◌, ◌&&◌, true, false, ltb, leb,
  bit_or, arith, ◌==◌, if◌then◌else◌, Bool-cases, inl, inr, ltb→lt, lt→ltb,
}
use hypnos.Paging.{
  Paging, Tables, page_of, get_pte, put_pte, set_user, set_user_from, fill_from, tables_from,
  put_pde, page_all,
}

-- The entry of page `k`.
abbrev pub page : Tables → ℕ → ℕ
page t k = t (k / 2 ^ 10) (k % 2 ^ 10)

-- The entry that maps page `k` to itself, for the kernel.
abbrev pub own : ℕ → ℕ
own k = bit_or (k * 2 ^ 12) 3

page-put_pte :
    (t i v k : ℕ) (tables : Tables)
    → i < 2 ^ 10
    → page (put_pte (t, i) v tables) k ≡ (if k == t * 2 ^ 10 + i then v else page tables k)
page-put_pte t i v k tables h = ground arith

next_addr :
    (t i : ℕ)
    → i < 2 ^ 10
    → t < 2 ^ 9
    → ((t * 2 ^ 10 + i) * 2 ^ 12 + 2 ^ 12) % 2 ^ 32 ≡ (t * 2 ^ 10 + (i + 1)) * 2 ^ 12
next_addr t i h ht = omega arith

fill_from-next :
    (rounds t i : ℕ) (tables : Tables)
    → i + rounds ≤ 2 ^ 10
    → t < 2 ^ 9
    → (fill_from rounds t i ((t * 2 ^ 10 + i) * 2 ^ 12) tables).1
      ≡ (t * 2 ^ 10 + i + rounds) * 2 ^ 12
unfolding fill_from
fill_from-next zero t i tables h ht = omega arith
fill_from-next (suc rounds) t i tables h ht =
    rw (fill_from, next_addr t i (omega arith) ht)
      (fill_from-next rounds t (i + 1) _ (omega arith) ht ∙ omega arith)

filled_one :
    (rounds t i k v : ℕ) (tables : Tables)
    → i < 2 ^ 10
    → v ≡ own (t * 2 ^ 10 + i)
    → (if leb (t * 2 ^ 10 + (i + 1)) k && ltb k (t * 2 ^ 10 + (i + 1) + rounds)
        then own k
        else page (put_pte (t, i) v tables) k)
      ≡ (if leb (t * 2 ^ 10 + i) k && ltb k (t * 2 ^ 10 + i + suc rounds)
          then own k
          else page tables k)
filled_one rounds t i k v tables h e = elim (ℕ_discrete k (t * 2 ^ 10 + i)) [
  | yes q ↦ ground (arith, page-put_pte t i v k tables h, ap own q)
  | no q ↦ ground (arith, page-put_pte t i v k tables h)
]

fill_from-page :
    (rounds t i : ℕ) (tables : Tables)
    → i + rounds ≤ 2 ^ 10
    → t < 2 ^ 9
    → (k : ℕ)
    → page (fill_from rounds t i ((t * 2 ^ 10 + i) * 2 ^ 12) tables).0 k
      ≡ (if leb (t * 2 ^ 10 + i) k && ltb k (t * 2 ^ 10 + i + rounds) then own k else page tables k)
unfolding fill_from
fill_from-page zero t i tables h ht k = ground arith
fill_from-page (suc rounds) t i tables h ht k =
    let v = bit_or (page_of ((t * 2 ^ 10 + i) * 2 ^ 12)) 3 in
    let e : page_of ((t * 2 ^ 10 + i) * 2 ^ 12) ≡ (t * 2 ^ 10 + i) * 2 ^ 12 = omega arith in
    rw (fill_from, next_addr t i (omega arith) ht)
      (fill_from-page rounds t (i + 1) (put_pte (t, i) v tables) (omega arith) ht k
        ∙ filled_one rounds t i k v tables (omega arith) (ap (λ a. bit_or a 3) e))

set_user-page :
    (p : ℕ) (tables : Tables)
    → p < 2 ^ 19
    → (k : ℕ)
    → page (set_user (p * 2 ^ 12) tables) k
      ≡ (if k == p then bit_or (page tables k) 4 else page tables k)
unfolding set_user get_pte
set_user-page p tables h k =
    let at : leb 512 (p * 2 ^ 12 / 2 ^ 22) ≡ false = ground arith in
    let t : p * 2 ^ 12 / 2 ^ 22 ≡ p / 2 ^ 10 = omega arith in
    let i : p * 2 ^ 12 / 2 ^ 12 ≡ p = omega arith in
    rw (set_user, get_pte, at, t, i)
      (page-put_pte (p / 2 ^ 10) (p % 2 ^ 10) (bit_or (page tables p) 4) k tables (omega arith)
        ∙ elim (ℕ_discrete k p) [ yes q ↦ rw q (ground arith) | no q ↦ ground arith ])

user_one :
    (p q k u w : ℕ)
    → p < q
    → u ≡ (if k == p then bit_or w 4 else w)
    → (if leb (p + 1) k && ltb k q then bit_or u 4 else u)
      ≡ (if leb p k && ltb k q then bit_or w 4 else w)
user_one p q k u w lt e = ground arith

pub set_user_from-page :
    (fuel p q : ℕ) (tables : Tables)
    → q ≤ 2 ^ 19
    → q ≤ p + fuel
    → (k : ℕ)
    → page (set_user_from fuel (p * 2 ^ 12) (q * 2 ^ 12) tables) k
      ≡ (if leb p k && ltb k q then bit_or (page tables k) 4 else page tables k)
unfolding set_user_from
set_user_from-page zero p q tables hq h k = ground arith
set_user_from-page (suc fuel) p q tables hq h k = elim (Bool-cases (ltb p q)) [
  | inl e ↦
      let lt : p < q = ltb→lt p q e in
      let e' : ltb (p * 2 ^ 12) (q * 2 ^ 12) ≡ true = lt→ltb _ _ (omega arith) in
      let next : (p * 2 ^ 12 + 2 ^ 12) % 2 ^ 32 ≡ (p + 1) * 2 ^ 12 = omega arith in
      rw (set_user_from, e', next)
        (set_user_from-page fuel (p + 1) q (set_user (p * 2 ^ 12) tables) hq (omega arith) k
          ∙ user_one p q k (page (set_user (p * 2 ^ 12) tables) k) (page tables k) lt
              (set_user-page p tables (omega arith) k))
  | inr e ↦
      let e' : ltb (p * 2 ^ 12) (q * 2 ^ 12) ≡ false = ground arith in
      rw (set_user_from, e') (ground arith)
]

table-next :
    (t : ℕ) (tables : Tables)
    → t < 2 ^ 9
    → (fill_from 1024 t 0 (t * 2 ^ 10 * 2 ^ 12) tables).1 ≡ (t + 1) * 2 ^ 10 * 2 ^ 12
table-next t tables h =
    let e : t * 2 ^ 10 * 2 ^ 12 ≡ (t * 2 ^ 10 + 0) * 2 ^ 12 = omega arith in
    ap (λ a. (fill_from 1024 t 0 a tables).1) e
    ∙ (fill_from-next 1024 t 0 tables (omega arith) h ∙ omega arith)

table-page :
    (t : ℕ) (tables : Tables)
    → t < 2 ^ 9
    → (k : ℕ)
    → page (fill_from 1024 t 0 (t * 2 ^ 10 * 2 ^ 12) tables).0 k
      ≡ (if leb (t * 2 ^ 10) k && ltb k ((t + 1) * 2 ^ 10) then own k else page tables k)
table-page t tables h k =
    let e : t * 2 ^ 10 * 2 ^ 12 ≡ (t * 2 ^ 10 + 0) * 2 ^ 12 = omega arith in
    ap (λ a. page (fill_from 1024 t 0 a tables).0 k) e
    ∙ (fill_from-page 1024 t 0 tables (omega arith) h k ∙ ground arith)

-- What the loop over the tables leaves.
pub record Tabled (base t rounds : ℕ) (p p' : Paging) : Type 0 where
  pub pages :
      (k : ℕ)
      → page p'.tables k
        ≡ (if leb (t * 2 ^ 10) k && ltb k ((t + rounds) * 2 ^ 10) then own k else page p.tables k)
  pub entries :
      (j : ℕ)
      → p'.directory j ≡ (
          if leb t j && ltb j (t + rounds)
          then bit_or ((base + j * 2 ^ 12) % 2 ^ 32) 7
          else p.directory j)

pub tables_from-Tabled :
    (base rounds t : ℕ) (p : Paging)
    → t + rounds ≤ 2 ^ 9
    → Tabled base t rounds p (tables_from base rounds t (t * 2 ^ 10 * 2 ^ 12) p)
unfolding tables_from
tables_from-Tabled base zero t p h = record {
  pages = λ k. ground arith;
  entries = λ j. ground arith;
}
tables_from-Tabled base (suc rounds) t p h =
    let one = table-page t p.tables (omega arith) in
    let p1 : Paging = record {
      directory = put_pde t (bit_or ((base + t * 2 ^ 12) % 2 ^ 32) page_all) p.directory;
      tables = (fill_from 1024 t 0 (t * 2 ^ 10 * 2 ^ 12) p.tables).0;
    } in
    let r = tables_from-Tabled base rounds (t + 1) p1 (omega arith) in
    rw (tables_from, table-next t p.tables (omega arith))
      (record {
        pages = λ k. r.pages k ∙ ground (arith, one k);
        entries = λ j. r.entries j ∙ (elim (ℕ_discrete t j) [
          | yes q ↦ ground (arith, ap (λ m. bit_or ((base + m * 2 ^ 12) % 2 ^ 32) 7) q)
          | no q ↦ ground arith
        ]);
      })
