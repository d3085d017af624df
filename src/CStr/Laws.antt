-- ===== src/CStr/Laws.antt =====
-- What the string helpers compute.
use mathlib.Core.Path.{ap₂}
use hypnos.Base.{
  ==_iff, ==_refl, ℕ, zero, suc, ◌-◌, ◌≤◌, ◌<◌, ◌≡◌, ◌↔◌, refl, ap, true, [], ◌∷◌, arith, ◌==◌, ltb,
  length, take, length-take, if◌then◌else◌, Bool-cases, inl, inr, take_all,
}
use hypnos.Base.Int.{sub_ℕ, is_zero, is_zero-sub_ℕ}
use hypnos.CStr.{CString, IsCString, kstrcmp, kstrlen, kstrncpy, copied}

kstrcmp_sound : (a b : CString) → IsCString a → IsCString b → is_zero (kstrcmp a b) ≡ true → a ≡ b
unfolding kstrcmp
kstrcmp_sound [] [] ha hb h = refl
kstrcmp_sound [] (b ∷ bs) ha hb h = absurd (omega (arith, (is_zero-sub_ℕ 0 b).0 h, hb.0))
kstrcmp_sound (a ∷ as') [] ha hb h = absurd (omega (arith, (is_zero-sub_ℕ a 0).0 h, ha.0))
kstrcmp_sound (a ∷ as') (b ∷ bs) ha hb h = elim (Bool-cases (a == b)) [
  | inl e ↦ ap₂ ◌∷◌ ((==_iff a b).0 e) (kstrcmp_sound as' bs ha.1 hb.1 (rw (e, kstrcmp) at h))
  | inr ne ↦
      let h' : is_zero (sub_ℕ a b) ≡ true = rw (ne, kstrcmp) at h in
      absurd (ground (arith, (is_zero-sub_ℕ a b).0 h'))
]

pub kstrcmp_refl : (a : CString) → is_zero (kstrcmp a a) ≡ true
unfolding kstrcmp
kstrcmp_refl [] = refl
kstrcmp_refl (a ∷ as') = rw (==_refl a, kstrcmp) (kstrcmp_refl as')

-- Two C strings compare as 0 exactly when they are equal.
pub kstrcmp-eq-zero :
    (a b : CString) → IsCString a → IsCString b → (is_zero (kstrcmp a b) ≡ true) ↔ (a ≡ b)
kstrcmp-eq-zero a b ha hb = (kstrcmp_sound a b ha hb, λ e. rw e (kstrcmp_refl b))

pub kstrlen-eq-length : (s : CString) → kstrlen s ≡ length s
unfolding kstrlen
kstrlen-eq-length [] = refl
kstrlen-eq-length (c ∷ s) = ap suc (kstrlen-eq-length s)

copied-take : (s : CString) (n : ℕ) → copied s n ≡ take n s
unfolding copied
copied-take s zero = refl
copied-take [] (suc n) = refl
copied-take (c ∷ s) (suc n) = ap (λ t. c ∷ t) (copied-take s n)

take-take : (s : CString) (m n : ℕ) → m ≤ n → take m (take n s) ≡ take m s
take-take s zero n h = refl
take-take s (suc m) zero h = absurd (omega arith)
take-take [] (suc m) (suc n) h = refl
take-take (c ∷ s) (suc m) (suc n) h = ap (λ t. c ∷ t) (take-take s m n (omega arith))

cut :
    (s : CString) (n : ℕ)
    → 0 < n
    → (if ltb (length (take n s)) n then take n s else take (n - 1) (take n s)) ≡ take (n - 1) s
cut s n h = ground (arith, length-take n s, take_all n s, take_all (n - 1) s, take-take s (n - 1) n)

-- A buffer of n bytes, n above 0, holds the first n - 1 bytes of the source after `kstrncpy`.
pub kstrncpy-take : (s : CString) (n : ℕ) → 0 < n → kstrncpy s n ≡ take (n - 1) s
unfolding kstrncpy
kstrncpy-take s n h = rw (copied-take, kstrlen-eq-length) (cut s n h)
