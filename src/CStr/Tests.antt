-- ===== src/CStr/Tests.antt =====
-- Runs of the string helpers, and their theorems at concrete strings.
use hypnos.Base.{◌≡◌, refl, none, some, [], ◌∷◌}
use hypnos.CStr.{CString, kstrstr}

abbrev bin : CString
bin = b'b' ∷ b'i' ∷ b'n' ∷ []

find_suffix : kstrstr bin (b'i' ∷ []) ≡ some (b'i' ∷ b'n' ∷ [])
unfolding kstrstr
find_suffix = refl

find_nothing : kstrstr bin (b'x' ∷ []) ≡ none
unfolding kstrstr
find_nothing = refl
