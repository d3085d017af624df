-- ===== src/Crypto/Laws.antt =====
-- Decrypting undoes encrypting, under every key that can be set.
use hypnos.Base.{
  ℕ, zero, suc, ◌+◌, ◌≤◌, ◌<◌, ◌%◌, ◌≡◌, refl, ap, some, List, [], ◌∷◌, arith, get_or, length, take,
}
use hypnos.Base.Bits.{xor_cancel}
use hypnos.Crypto.{
  Key, key_max, copy_key, or_fallback, set_key, apply_from, apply, encrypt, decrypt,
}

copy_key-take : (room : ℕ) (key : List ℕ) → copy_key room key ≡ take room key
unfolding copy_key
copy_key-take zero key = refl
copy_key-take (suc room) [] = refl
copy_key-take (suc room) (c ∷ key) = ap (λ t. c ∷ t) (copy_key-take room key)

length-copy_key : (room : ℕ) (key : List ℕ) → length (copy_key room key) ≤ room
unfolding copy_key
length-copy_key zero key = omega arith
length-copy_key (suc room) [] = omega arith
length-copy_key (suc room) (c ∷ key) = omega (arith, length-copy_key room key)

length-or_fallback :
    (k : Key) → length k ≤ 32 → (0 < length (or_fallback k)) × (length (or_fallback k) ≤ 32)
unfolding or_fallback
length-or_fallback [] h = omega arith
length-or_fallback (c ∷ k) h = omega arith

-- Whatever text is installed, the key has between 1 and 32 bytes.
pub length-set_key : (key : List ℕ) → (0 < length (set_key key)) × (length (set_key key) ≤ key_max)
unfolding set_key
length-set_key key = length-or_fallback (copy_key 32 key) (length-copy_key 32 key)

apply_from-apply_from :
    (k : Key) (i : ℕ) (bytes : List ℕ) → apply_from k i (apply_from k i bytes) ≡ bytes
unfolding apply_from
apply_from-apply_from k i [] = refl
apply_from-apply_from k i (b ∷ bytes) =
    ground (arith, xor_cancel b (get_or k (i % length k) 0), apply_from-apply_from k (i + 1) bytes)

length-apply_from :
    (k : Key) (i : ℕ) (bytes : List ℕ) → length (apply_from k i bytes) ≡ length bytes
unfolding apply_from
length-apply_from k i [] = refl
length-apply_from k i (b ∷ bytes) = ap suc (length-apply_from k (i + 1) bytes)

-- What `encrypt` gives: as many bytes, which decrypt to the original.
pub record Encrypted (k : Key) (bytes : List ℕ) : Type 0 where
  pub cipher : List ℕ
  pub made : encrypt k bytes ≡ some cipher
  pub same_length : length cipher ≡ length bytes
  pub back : decrypt k cipher ≡ some bytes

-- Under a key that is not empty, encryption succeeds, keeps the length, and decryption gives back the
-- original bytes.
pub decrypt-encrypt : (k : Key) (bytes : List ℕ) → 0 < length k → Encrypted k bytes
unfolding encrypt decrypt apply apply_from
decrypt-encrypt k [] h = record { cipher = []; made = refl; same_length = refl; back = refl }
decrypt-encrypt [] (b ∷ bytes) h = absurd (omega arith)
decrypt-encrypt (c ∷ k) (b ∷ bytes) h = record {
  cipher = apply_from (c ∷ k) 0 (b ∷ bytes);
  made = refl;
  same_length = length-apply_from (c ∷ k) 0 (b ∷ bytes);
  back = ap some (apply_from-apply_from (c ∷ k) 0 (b ∷ bytes));
}
