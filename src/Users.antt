-- ===== src/Users.antt =====
-- src/server/utils/auth_table.c: the users and their passwords, in a hash table of chains. A text is
-- the list of its characters in front of the zero, each a byte. Their list as text is in Admin.Print.
pub mod View
use tpe_protos.Common.{
  ℕ, ◌+◌, ◌*◌, ◌-◌, ◌%◌, ◌^◌, List, [], ◌∷◌, Bool, true, false, ◌&&◌, ltb, if◌then◌else◌, get_or,
  set, take, replicate, str_eq,
}

-- `struct user_entry`, whose `next` is the rest of the list.
pub record UserEntry : Type 0 where
  pub username : List ℕ
  pub password : List ℕ

abbrev pub Chain : Type 0
Chain = List UserEntry

abbrev pub Table : Type 0
Table = List Chain

abbrev pub hashmap_size : ℕ
hashmap_size = 1031

abbrev pub max_len : ℕ
max_len = 256

-- A `char` as an `unsigned long`: on the platforms built for, a `char` is signed.
sign_extend : ℕ → ℕ
sign_extend c = if ltb c 128 then c else 2 ^ 64 + c - 256

-- The loop of `hash`: `hash * 33 + c` in an `unsigned long`.
hash_from : ℕ → List ℕ → ℕ
unfolding sign_extend
hash_from h [] = h
hash_from h (c ∷ cs) = hash_from (((h * 2 ^ 5 % 2 ^ 64 + h) % 2 ^ 64 + sign_extend c) % 2 ^ 64) cs

unfoldable pub hash : List ℕ → ℕ
unfolding hash_from
hash str = hash_from 5381 str % hashmap_size

unfoldable pub auth_init : Table
auth_init = replicate hashmap_size []

-- Every chain is freed.
unfoldable pub auth_destroy : Table → Table
auth_destroy table = replicate hashmap_size []

-- The loop of `auth_add_user`: is the user name taken?
has_user : List ℕ → Chain → Bool
has_user username [] = false
has_user username (e ∷ chain) = if str_eq e.username username then true else has_user username chain

-- The two `strncpy`: names and passwords are cut to 255 characters.
abbrev new_user : List ℕ → List ℕ → UserEntry
new_user username password = record {
  username = take (max_len - 1) username;
  password = take (max_len - 1) password;
}

-- The table and the result; `allocated` tells whether `malloc` succeeds.
unfoldable pub auth_add_user : Bool → List ℕ → List ℕ → Table → Table × Bool
unfolding has_user
auth_add_user allocated username password table =
    let h = hash username in
    let chain = get_or table h [] in
    if has_user username chain
    then (table, false)
    else if allocated
    then (set table h (new_user username password ∷ chain), true)
    else (table, false)

-- The loop of `auth_remove_user`: the first entry of that name is unlinked.
unlink : List ℕ → Chain → Chain × Bool
unlink username [] = ([], false)
unlink username (e ∷ chain) =
    let (rest, found) = unlink username chain in
    if str_eq e.username username then (chain, true) else (e ∷ rest, found)

unfoldable pub auth_remove_user : List ℕ → Table → Table × Bool
unfolding unlink
auth_remove_user username table =
    let h = hash username in
    let (chain, found) = unlink username (get_or table h []) in (set table h chain, found)

-- The loop of `auth_check_credentials`.
has_credentials : List ℕ → List ℕ → Chain → Bool
has_credentials username password [] = false
has_credentials username password (e ∷ chain) =
    if str_eq e.username username && str_eq e.password password
    then true
    else has_credentials username password chain

unfoldable pub auth_check_credentials : List ℕ → List ℕ → Table → Bool
unfolding has_credentials
auth_check_credentials username password table =
    has_credentials username password (get_or table (hash username) [])
