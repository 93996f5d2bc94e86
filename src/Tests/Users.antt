-- ===== src/Tests/Users.antt =====
-- The user table with one user.
use tpe_protos.Common.{ℕ, ◌≡◌, ◌↔◌, List, [], ◌∷◌, none, some, true, if◌then◌else◌, str_eq, arith}
use tpe_protos.Users.{auth_init, auth_add_user, auth_remove_user, auth_check_credentials}
use tpe_protos.Users.View.{
  IsValid, view, is_some, Adds, auth_init_lem, auth_add_user_lem, auth_remove_user_lem,
  auth_check_credentials_lem,
}

abbrev name : List ℕ
name = b'a' ∷ b'b' ∷ []

abbrev password : List ℕ
password = b'c' ∷ []

auth_add_user_lem_example :
    Adds name password true auth_init (auth_add_user true name password auth_init)
auth_add_user_lem_example =
    auth_add_user_lem true name password {t = auth_init} auth_init_lem.0 (ground arith)
      (ground arith)

auth_check_credentials_lem_example :
    (auth_check_credentials name password (auth_add_user true name password auth_init).0 ≡ true)
    ↔ (view (auth_add_user true name password auth_init).0 name ≡ some password)
auth_check_credentials_lem_example =
    auth_check_credentials_lem name password {t = (auth_add_user true name password auth_init).0}
      auth_add_user_lem_example.0

auth_remove_user_lem_example :
    let (t', removed) = auth_remove_user name (auth_add_user true name password auth_init).0 in
    IsValid t'
    × (removed ≡ is_some (view (auth_add_user true name password auth_init).0 name))
    × ((j : List ℕ)
        → view t' j
          ≡ (if str_eq name j then none else view (auth_add_user true name password auth_init).0 j))
auth_remove_user_lem_example =
    auth_remove_user_lem name {t = (auth_add_user true name password auth_init).0}
      auth_add_user_lem_example.0
