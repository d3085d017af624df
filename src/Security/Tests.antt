-- ===== src/Security/Tests.antt =====
-- The theorems on the accounts at a table of one user.
use hypnos.Base.{
  zero, suc, eq_of_some, get_elem?, length, sym, ap, ◌≤◌, ℕ, ◌≡◌, ◌↔◌, true, some, [], ◌∷◌, arith,
}
use hypnos.Security.{Security, User, sec_add_user, sec_login, sec_check_perm, sec_get_current_user}
use hypnos.Security.Accounts.{IsSecurity, sec_add_user-IsSecurity, Login, sec_login_outcome}
use hypnos.Security.Perms.{Allowed, sec_check_perm_iff}

abbrev ann : User
ann = record { id = 0; name = b'a' ∷ []; perms = 5 }

abbrev one_user : Security
one_user = record { users = ann ∷ []; current = some 0 }

ids_ok : (i : ℕ) (u : User) → get_elem? one_user.users i ≡ some u → u.id ≡ i
ids_ok zero u e = ap (λ x. x.id) (sym (eq_of_some e))
ids_ok (suc i) u e = absurd (cc e)

names_ok : (i : ℕ) (u : User) → get_elem? one_user.users i ≡ some u → length u.name ≤ 15
names_ok zero u e = omega (arith, ap (λ x. length x.name) (eq_of_some e))
names_ok (suc i) u e = absurd (cc e)

one_user-IsSecurity : IsSecurity one_user
one_user-IsSecurity = record {
  few = omega arith;
  ids = λ i u e. ids_ok i u e;
  names = λ i u e. names_ok i u e;
  current_in = λ i e. omega (arith, eq_of_some e);
}

sec_add_user-IsSecurity_example : IsSecurity (sec_add_user (some (b'b' ∷ [])) 1 one_user).1
sec_add_user-IsSecurity_example =
    sec_add_user-IsSecurity (some (b'b' ∷ [])) 1 one_user one_user-IsSecurity

sec_login_outcome_example : Login (b'a' ∷ []) one_user (sec_login (some (b'a' ∷ [])) one_user)
sec_login_outcome_example = sec_login_outcome b'a' [] one_user

sec_check_perm_iff_example :
    (sec_check_perm 4 one_user ≡ true) ↔ Allowed 4 (sec_get_current_user one_user)
sec_check_perm_iff_example = sec_check_perm_iff 4 one_user
