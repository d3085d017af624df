-- ===== src/Crypto.antt =====
-- kernel/fs/crypto.c: the XOR cipher of file contents. The state is the part of `g_key` that
-- `g_key_len` counts, so that its length is `g_key_len`. A byte is a number.
pub mod Laws
mod Tests
use hypnos.Base.{ℕ, zero, suc, ◌+◌, ◌%◌, Option, none, some, List, [], ◌∷◌, bit_xor, length, get_or}

abbrev pub Key : Type 0
Key = List ℕ

-- sizeof(g_key)
abbrev pub key_max : ℕ
key_max = 32

-- The copying loop, with `key_max - g_key_len` rounds left. The list is the key's text.
copy_key : ℕ → List ℕ → Key
copy_key zero key = []
copy_key (suc room) [] = []
copy_key (suc room) (c ∷ key) = c ∷ copy_key room key

or_fallback : Key → Key
or_fallback [] = 0x42 ∷ []
or_fallback (c ∷ k) = c ∷ k

unfoldable pub set_key : List ℕ → Key
unfolding copy_key or_fallback
set_key key = or_fallback (copy_key key_max key)

-- The loop of `crypto_apply` from index `i` on.
apply_from : Key → ℕ → List ℕ → List ℕ
apply_from k i [] = []
apply_from k i (b ∷ bytes) = bit_xor b (get_or k (i % length k) 0) ∷ apply_from k (i + 1) bytes

-- With no key set, `i % g_key_len` divides by zero as soon as there is a byte: that is `none`.
unfoldable pub apply : Key → List ℕ → Option (List ℕ)
unfolding apply_from
apply k [] = some []
apply [] (b ∷ bytes) = none
apply (c ∷ k) (b ∷ bytes) = some (apply_from (c ∷ k) 0 (b ∷ bytes))

unfoldable pub encrypt : Key → List ℕ → Option (List ℕ)
encrypt k bytes = apply k bytes

unfoldable pub decrypt : Key → List ℕ → Option (List ℕ)
decrypt k bytes = apply k bytes
