-- ===== src/Security/Accounts.antt =====
-- The table of accounts is kept in order, and a login takes the first account of that name.
use hypnos.Base.{
  ℕ, zero, suc, ◌+◌, ◌<◌, ◌≤◌, ◌≡◌, refl, ap, sym, ◌∙◌, List, [], ◌∷◌, ◌++◌, Option, none, some,
  true, false, inl, inr, arith, leb, if◌then◌else◌, length, get_elem?, take, length-append,
  length-take, ◌⊎◌, Bool, eq_of_some,
}
use hypnos.Base.Int.{ℤ, pos, negsuc, is_zero}
use hypnos.CStr.{CString}
use mathlib.Core.Path.{subst}
use hypnos.Security.{
  User, Security, s_strcmp, find_user, sec_add_user, append_user, sec_login, log_in, s_strncpy,
  copy_name, max_users,
}

-- The current user is one of the table, whose number fits.
pub record IsSecurity (s : Security) : Type 0 where
  pub few : length s.users ≤ max_users
  pub ids : (i : ℕ) (u : User) → get_elem? s.users i ≡ some u → u.id ≡ i
  pub names : (i : ℕ) (u : User) → get_elem? s.users i ≡ some u → length u.name ≤ 15
  pub current_in : (i : ℕ) → s.current ≡ some i → i < length s.users

copy_name-take : (src : CString) (room : ℕ) → copy_name src room ≡ take room src
unfolding copy_name
copy_name-take src zero = refl
copy_name-take [] (suc room) = refl
copy_name-take (c ∷ src) (suc room) = ap (λ t. c ∷ t) (copy_name-take src room)

-- The name that is stored is the first 15 bytes.
s_strncpy-take : (src : CString) → s_strncpy src ≡ take 15 src
unfolding s_strncpy
s_strncpy-take src = copy_name-take src 15

last_of :
    (us : List User) (u : User) (i : ℕ) (w : User)
    → get_elem? (us ++ (u ∷ [])) i ≡ some w
    → (get_elem? us i ≡ some w) ⊎ ((i ≡ length us) × (w ≡ u))
last_of [] u zero w e = inr (refl, sym (eq_of_some e))
last_of [] u (suc i) w e = absurd (cc e)
last_of (v ∷ us) u zero w e = inl e
last_of (v ∷ us) u (suc i) w e = elim (last_of us u i w e) [
  | inl q ↦ inl q
  | inr (p, q) ↦ inr (ap suc p, q)
]

append_user-IsSecurity :
    (name : CString) (perms : ℕ) (s : Security) (o : Option ℕ)
    → IsSecurity s
    → length s.users < max_users
    → IsSecurity (append_user name perms s o).1
unfolding append_user
append_user-IsSecurity name perms s (some i) v lt = v
append_user-IsSecurity name perms s none v lt =
    let u : User = record { id = length s.users; name = s_strncpy name; perms = perms } in
    let short : length (s_strncpy name) ≤ 15 =
      omega (arith, ap length (s_strncpy-take name), length-take 15 name) in
    record {
      few = omega (arith, length-append s.users (u ∷ []));
      ids = λ i w e. elim (last_of s.users u i w e) [
        | inl q ↦ v.ids i w q
        | inr (p, q) ↦ ap (λ x. x.id) q ∙ sym p
      ];
      names = λ i w e. elim (last_of s.users u i w e) [
        | inl q ↦ v.names i w q
        | inr (p, q) ↦ omega (arith, ap (λ x. length x.name) q, short)
      ];
      current_in = λ i e. omega (arith, v.current_in i e, length-append s.users (u ∷ []));
    }

if-IsSecurity :
    (b : Bool) (x y : ℤ × Security)
    → (b ≡ true → IsSecurity x.1)
    → (b ≡ false → IsSecurity y.1)
    → IsSecurity (if b then x else y).1
if-IsSecurity true x y p q = p refl
if-IsSecurity false x y p q = q refl

-- Adding an account, whatever its name and its permissions, and whether it succeeds or not, keeps the
-- table: at most 8 users, each with its index as its number and a name of at most 15 bytes, and a
-- current user of the table.
pub sec_add_user-IsSecurity :
    (name : Option CString) (perms : ℕ) (s : Security)
    → IsSecurity s
    → IsSecurity (sec_add_user name perms s).1
unfolding sec_add_user
sec_add_user-IsSecurity none perms s v = v
sec_add_user-IsSecurity (some []) perms s v = v
sec_add_user-IsSecurity (some (c ∷ name)) perms s v =
    if-IsSecurity (leb max_users (length s.users)) (negsuc 0, s) _ (λ e. v)
      (λ e.
        append_user-IsSecurity (c ∷ name) perms s (find_user s.users (c ∷ name) 0) v (ground arith))

if_some :
    (b : Bool) (i j : ℕ) (r : Option ℕ)
    → (if b then some i else r) ≡ some j
    → ((b ≡ true) × (i ≡ j)) ⊎ ((b ≡ false) × (r ≡ some j))
if_some true i j r e = inl (refl, eq_of_some e)
if_some false i j r e = inr (refl, e)

if_none :
    (b : Bool) (i : ℕ) (r : Option ℕ) → (if b then some i else r) ≡ none → (b ≡ false) × (r ≡ none)
if_none true i r e = absurd (cc e)
if_none false i r e = (refl, e)

-- The names compare equal.
abbrev pub SameName : User → CString → Type 0
SameName u name = is_zero (s_strcmp u.name name) ≡ true

find_user-some :
    (us : List User) (name : CString) (i j : ℕ)
    → find_user us name i ≡ some j
    → (d : ℕ) × (j ≡ i + d) × (u : User) × (get_elem? us d ≡ some u) × SameName u name
unfolding find_user
find_user-some [] name i j e = absurd (cc e)
find_user-some (u ∷ us) name i j e =
    elim (if_some (is_zero (s_strcmp u.name name)) i j (find_user us name (i + 1)) e) [
      | inl (h, same) ↦ (0, omega (arith, same), u, refl, h)
      | inr (h, rest) ↦
          let (d, at, w, found, eq) = find_user-some us name (i + 1) j rest in
          (suc d, omega (arith, at), w, found, eq)
    ]

find_user-none :
    (us : List User) (name : CString) (i d : ℕ) (u : User)
    → find_user us name i ≡ none
    → get_elem? us d ≡ some u
    → is_zero (s_strcmp u.name name) ≡ false
unfolding find_user
find_user-none [] name i d u e at = absurd (cc at)
find_user-none (w ∷ us) name i zero u e at =
    let (h, rest) = if_none (is_zero (s_strcmp w.name name)) i (find_user us name (i + 1)) e in
    subst (λ x. is_zero (s_strcmp x.name name) ≡ false) (eq_of_some at) h
find_user-none (w ∷ us) name i (suc d) u e at =
    let (h, rest) = if_none (is_zero (s_strcmp w.name name)) i (find_user us name (i + 1)) e in
    find_user-none us name (i + 1) d u rest at

-- What a login does: it makes a user whose name compares equal the current one, or it fails, changes
-- nothing, and no user has such a name.
pub data Login (name : CString) (s : Security) : ℤ × Security → Type 0 where
  entered :
      {j : ℕ} {u : User}
      → get_elem? s.users j ≡ some u
      → SameName u name
      → Login name s (pos 0, record s { current = some j })
  refused :
      ((j : ℕ) (u : User) → get_elem? s.users j ≡ some u → is_zero (s_strcmp u.name name) ≡ false)
      → Login name s (negsuc 0, s)

log_in-Login :
    (name : CString) (s : Security) (o : Option ℕ)
    → find_user s.users name 0 ≡ o
    → Login name s (log_in s o)
unfolding log_in
log_in-Login name s none e = refused (λ j u at. find_user-none s.users name 0 j u e at)
log_in-Login name s (some j) e =
    let (d, same, u, at, eq) = find_user-some s.users name 0 j e in
    entered (subst (λ k. get_elem? s.users k ≡ some u) (sym (same ∙ omega arith)) at) eq

-- A login with a name that is not empty makes a user whose name compares equal the current user and
-- returns 0, or returns -1, changes nothing, and no user's name compares equal.
pub sec_login_outcome :
    (c : ℕ) (name : CString) (s : Security) → Login (c ∷ name) s (sec_login (some (c ∷ name)) s)
unfolding sec_login
sec_login_outcome c name s = log_in-Login (c ∷ name) s (find_user s.users (c ∷ name) 0) refl
