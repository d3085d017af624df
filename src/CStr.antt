-- ===== src/CStr.antt =====
-- The string helpers at the top of kernel/fs/fs.c. A C string is the list of its bytes before the
-- terminating 0; `rest` of a string is a pointer into it. `kstrcmp` stands in shell.c too.
pub mod Laws
mod Tests
use hypnos.Base.{
  ℕ, zero, suc, ◌-◌, ◌≢◌, Bool, true, false, Option, none, some, List, [], ◌∷◌, ◌==◌, ltb,
  if◌then◌else◌, All, take, length, ◌<◌,
}
use hypnos.Base.Int.{ℤ, pos, sub_ℕ, is_zero}

abbrev pub CString : Type 0
CString = List ℕ

-- No byte of a C string is 0.
abbrev pub IsCString : CString → Type 0
IsCString s = All (λ c. 0 < c) s

unfoldable pub kstrcmp : CString → CString → ℤ
kstrcmp [] [] = pos 0
kstrcmp [] (b ∷ bs) = sub_ℕ 0 b
kstrcmp (a ∷ as') [] = sub_ℕ a 0
kstrcmp (a ∷ as') (b ∷ bs) = if a == b then kstrcmp as' bs else sub_ℕ a b

unfoldable pub kstrncmp : CString → CString → ℕ → ℤ
kstrncmp s t zero = pos 0
kstrncmp [] [] (suc n) = pos 0
kstrncmp [] (b ∷ bs) (suc n) = sub_ℕ 0 b
kstrncmp (a ∷ as') [] (suc n) = sub_ℕ a 0
kstrncmp (a ∷ as') (b ∷ bs) (suc n) = if a == b then kstrncmp as' bs n else sub_ℕ a b

unfoldable pub kstrlen : CString → ℕ
kstrlen [] = 0
kstrlen (c ∷ s) = suc (kstrlen s)

-- The bytes that the copying loop writes.
copied : CString → ℕ → CString
copied s zero = []
copied [] (suc n) = []
copied (c ∷ s) (suc n) = c ∷ copied s n

-- The string in a buffer of `n` bytes after the copy: a copy that fills it loses its last byte.
unfoldable pub kstrncpy : CString → ℕ → CString
unfolding copied kstrlen
kstrncpy src n = let out = copied src n in if ltb (kstrlen out) n then out else take (n - 1) out

-- `none` for the null pointer, otherwise the part of `hay` that begins with the needle. A null
-- argument gives a null result; every caller passes strings.
search_from : CString → CString → ℕ → Option CString
unfolding kstrncmp
search_from [] needle n = none
search_from (c ∷ hay) needle n =
    let rest = search_from hay needle n in
    if is_zero (kstrncmp (c ∷ hay) needle n) then some (c ∷ hay) else rest

unfoldable pub kstrstr : CString → CString → Option CString
unfolding search_from kstrlen
kstrstr hay needle = let n = kstrlen needle in if n == 0 then some hay else search_from hay needle n
