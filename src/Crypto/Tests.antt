-- ===== src/Crypto/Tests.antt =====
-- Runs of the cipher, and its theorems at the key that the kernel installs.
use hypnos.Base.{ℕ, ◌≡◌, refl, some, List, [], ◌∷◌, arith}
use hypnos.Crypto.{set_key, encrypt, apply}
use hypnos.Crypto.Laws.{Encrypted, decrypt-encrypt}

abbrev hypnos_key : List ℕ
hypnos_key = b'h' ∷ b'y' ∷ b'p' ∷ []

fallback_key : set_key [] ≡ 0x42 ∷ []
unfolding set_key
fallback_key = refl

encrypt_bytes : encrypt (b'a' ∷ b'b' ∷ []) (b'x' ∷ b'y' ∷ b'a' ∷ []) ≡ some (25 ∷ 27 ∷ 0 ∷ [])
unfolding encrypt apply
encrypt_bytes = refl

decrypt-encrypt_example : Encrypted hypnos_key (b'O' ∷ b'K' ∷ [])
decrypt-encrypt_example = decrypt-encrypt hypnos_key (b'O' ∷ b'K' ∷ []) (omega arith)
