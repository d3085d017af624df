-- ===== src/Security/Perms.antt =====
-- The check of permissions looks at every bit of what is required.
use hypnos.Base.{
  eq_of_some, ℕ, zero, suc, ◌+◌, ◌/◌, min, ◌≡◌, ◌↔◌, ◌≤◌, refl, ap, sym, ◌∙◌, true, false, Option,
  none, some, bit_and, ==_iff, ◌==◌, arith,
}
use hypnos.Base.Bits.{bit, bit-bit_and}
use mathlib.Core.Path.{subst}
use hypnos.Security.{User, Security, sec_check_perm, sec_get_current_user}

-- Two numbers with the same bits are the same.
bits_equal : (fuel a b : ℕ) → a ≤ fuel → b ≤ fuel → ((k : ℕ) → bit a k ≡ bit b k) → a ≡ b
unfolding bit
bits_equal zero a b la lb same = omega arith
bits_equal (suc fuel) a b la lb same =
    let rest = bits_equal fuel (a / 2) (b / 2) (omega arith) (omega arith) (λ k. same (suc k)) in
    omega (arith, same 0, rest)

-- The user is logged in and has every permission whose bit is set in `required`.
pub Allowed : ℕ → Option User → Type 0
Allowed required o = (u : User) × (o ≡ some u) × ((k : ℕ) → bit required k ≤ bit u.perms k)

masked :
    (perms required : ℕ)
    → (bit_and perms required ≡ required) ↔ ((k : ℕ) → bit required k ≤ bit perms k)
masked perms required = (
  λ e k.
      let b : min (bit perms k) (bit required k) ≡ bit required k =
        sym (bit-bit_and perms required k) ∙ ap (λ w. bit w k) e in
      omega (arith, b),
  λ all.
      bits_equal (bit_and perms required + required) (bit_and perms required) required (omega arith)
        (omega arith) (λ k. bit-bit_and perms required k ∙ omega (arith, all k)),
)

masked_by :
    (required : ℕ) (o : Option User)
    → ((elim o [ none ↦ false | some u ↦ bit_and u.perms required == required ]) ≡ true)
      ↔ Allowed required o
unfolding Allowed
masked_by required none = (λ e. absurd (cc e), λ a. absurd (cc a.1))
masked_by required (some u) = (
  λ e. (u, refl, (masked u.perms required).0 ((==_iff (bit_and u.perms required) required).0 e)),
  λ a.
      let same : u ≡ a.0 = eq_of_some a.1 in
      (==_iff (bit_and u.perms required) required).1 (
        (masked u.perms required).1
          (λ k. subst (λ w. bit required k ≤ bit w.perms k) (sym same) (a.2 k))),
)

-- The check succeeds exactly when a user is logged in who has every permission whose bit is set in
-- the required mask.
pub sec_check_perm_iff :
    (required : ℕ) (s : Security)
    → (sec_check_perm required s ≡ true) ↔ Allowed required (sec_get_current_user s)
unfolding sec_check_perm Allowed
sec_check_perm_iff required s = masked_by required (sec_get_current_user s)
