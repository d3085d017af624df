-- ===== src/Security.antt =====
-- kernel/security.c: the user accounts and their permissions. The messages on the console and in
-- the audit log are left out. A null name is `none`.
pub mod Accounts
pub mod Perms
mod Tests
use hypnos.Base.{
  codes, ℕ, zero, suc, ◌+◌, ◌-◌, Bool, true, false, not, ◌||◌, Option, none, some, List, [], ◌∷◌,
  ◌++◌, bit_and, bit_or, ◌==◌, ltb, leb, if◌then◌else◌, get_elem?, length, take,
}
use hypnos.Base.Int.{ℤ, pos, negsuc, sub_ℕ, is_zero}
use hypnos.CStr.{CString}

-- MAX_USERS
abbrev pub max_users : ℕ
max_users = 8

-- PERM_READ and the other permissions
abbrev pub perm_read : ℕ
perm_read = 1

abbrev pub perm_write : ℕ
perm_write = 2

abbrev pub perm_exec : ℕ
perm_exec = 4

abbrev pub perm_snap : ℕ
perm_snap = 8

abbrev pub perm_admin : ℕ
perm_admin = 16

-- `user_t`; the name is the string in its 16 bytes.
pub record User : Type 0 where
  pub id : ℕ
  pub name : CString
  pub perms : ℕ

-- The first `user_count` entries of `users`, and `current_user_idx`, `none` for -1.
pub record Security : Type 0 where
  pub users : List User
  pub current : Option ℕ

-- `s_strcmp` of two strings.
unfoldable pub s_strcmp : CString → CString → ℤ
s_strcmp [] [] = pos 0
s_strcmp [] (b ∷ bs) = sub_ℕ 0 b
s_strcmp (a ∷ as') [] = sub_ℕ a 0
s_strcmp (a ∷ as') (b ∷ bs) = if a == b then s_strcmp as' bs else sub_ℕ a b

-- The loop of `s_strncpy`, with `max_len - 1 - i` rounds left.
copy_name : CString → ℕ → CString
copy_name src zero = []
copy_name [] (suc room) = []
copy_name (c ∷ src) (suc room) = c ∷ copy_name src room

-- `s_strncpy` into the 16 bytes of a name.
unfoldable pub s_strncpy : CString → CString
unfolding copy_name
s_strncpy src = copy_name src 15

-- The loops over the users: the index of the first with that name.
unfoldable pub find_user : List User → CString → ℕ → Option ℕ
unfolding s_strcmp
find_user [] name i = none
find_user (u ∷ us) name i =
    let rest = find_user us name (i + 1) in if is_zero (s_strcmp u.name name) then some i else rest

append_user : CString → ℕ → Security → Option ℕ → ℤ × Security
append_user name perms s (some i) = (negsuc 0, s)
append_user name perms s none = (
  pos (length s.users),
  record s {
    users =
        s.users ++ ((record { id = length s.users; name = s_strncpy name; perms = perms }) ∷ []);
  },
)

-- `sec_add_user`
unfoldable pub sec_add_user : Option CString → ℕ → Security → ℤ × Security
unfolding append_user
sec_add_user none perms s = (negsuc 0, s)
sec_add_user (some []) perms s = (negsuc 0, s)
sec_add_user (some (c ∷ name)) perms s =
    if leb max_users (length s.users)
    then (negsuc 0, s)
    else append_user (c ∷ name) perms s (find_user s.users (c ∷ name) 0)

set_current : ℤ → Security → Security
set_current (pos n) s = record s { current = some 0 }
set_current (negsuc n) s = s

-- `sec_init`, whose names are "root" and "guest"
unfoldable pub sec_init : Security
unfolding set_current
sec_init =
    let all =
      bit_or (bit_or (bit_or (bit_or perm_read perm_write) perm_exec) perm_snap) perm_admin in
    let (root_id, s1) =
      sec_add_user (some (b'r' ∷ b'o' ∷ b'o' ∷ b't' ∷ [])) all
        (record { users = []; current = none }) in
    let (guest_id, s2) = sec_add_user (some (b'g' ∷ b'u' ∷ b'e' ∷ b's' ∷ b't' ∷ [])) perm_read s1 in
    set_current root_id s2

-- `sec_get_current_user`
unfoldable pub sec_get_current_user : Security → Option User
sec_get_current_user s = elim s.current [ none ↦ none | some i ↦ get_elem? s.users i ]

-- `sec_get_current_username`
unfoldable pub sec_get_current_username : Security → CString
sec_get_current_username s = elim (sec_get_current_user s) [
  | none ↦ codes "<none>"
  | some u ↦ u.name
]

log_in : Security → Option ℕ → ℤ × Security
log_in s none = (negsuc 0, s)
log_in s (some i) = (pos 0, record s { current = some i })

-- `sec_login`
unfoldable pub sec_login : Option CString → Security → ℤ × Security
unfolding log_in
sec_login none s = (negsuc 0, s)
sec_login (some []) s = (negsuc 0, s)
sec_login (some (c ∷ name)) s = log_in s (find_user s.users (c ∷ name) 0)

-- `sec_list_users` into an array of `max` entries: what it writes. A `max` below 1 is 0.
unfoldable pub sec_list_users : ℕ → Security → List User
sec_list_users max s =
    let n = if ltb (length s.users) max then length s.users else max in take n s.users

-- `sec_check_perm`
unfoldable pub sec_check_perm : ℕ → Security → Bool
sec_check_perm required s = elim (sec_get_current_user s) [
  | none ↦ false
  | some u ↦ bit_and u.perms required == required
]

-- `sec_require_perm`: 0 or -1
unfoldable pub sec_require_perm : ℕ → Security → ℤ
sec_require_perm required s = if sec_check_perm required s then pos 0 else negsuc 0
