-- ===== src/Syscall/Decimal.antt =====
-- The digits that are printed spell the number.
use hypnos.Base.{
  ℕ, zero, suc, ◌+◌, ◌-◌, ◌*◌, ◌/◌, ◌%◌, ◌^◌, ◌<◌, ◌≡◌, refl, [], ◌∷◌, arith, ◌∙◌, ap,
}
use native.Mathlib.Nat.{pow-suc}
use hypnos.CStr.{CString}
use hypnos.Syscall.{digits}

-- What a string of decimal digits spells, from the value `acc` of the digits before.
abbrev pub spells : ℕ → CString → ℕ
spells acc [] = acc
spells acc (d ∷ ds) = spells (acc * 10 + (d - b'0')) ds

div_lt : (a b : ℕ) → a < b * 10 → a / 10 < b
div_lt a b lt = omega arith

pow_suc : (room v : ℕ) → suc v < 10 ^ suc room → suc v < 10 ^ room * 10
pow_suc room v lt = omega (arith, pow-suc 10 room)

digits_from :
    (room v : ℕ) (buf : CString) → v < 10 ^ room → spells 0 (digits room v buf) ≡ spells v buf
unfolding digits
digits_from zero v buf lt = let z : v ≡ 0 = omega arith in rw z
digits_from (suc room) zero buf lt = refl
digits_from (suc room) (suc v) buf lt =
    let small : suc v / 10 < 10 ^ room = div_lt (suc v) (10 ^ room) (pow_suc room v lt) in
    let e : suc v / 10 * 10 + (b'0' + suc v % 10 - b'0') ≡ suc v = omega arith in
    digits_from room (suc v / 10) ((b'0' + suc v % 10) ∷ buf) small ∙ ap (λ a. spells a buf) e

-- For every 32-bit number the 16 bytes of the buffer are enough: the digits, read from the last that
-- is written, spell the number in base ten.
pub spells-digits : (v : ℕ) → v < 2 ^ 32 → spells 0 (digits 16 v []) ≡ v
spells-digits v lt = digits_from 16 v [] (omega arith)
