-- ===== src/Args/Server.antt =====
-- `parse_args` of src/server/utils/args.c.
use tpe_protos.Common.{
  ℕ, Bool, true, false, List, [], ◌∷◌, ◌++◌, Option, none, some, ltb, ◌==◌, if◌then◌else◌, length,
  codes,
}
use tpe_protos.Args.{Start, exits, runs, port, log_level_from_string}

abbrev pub max_users : ℕ
max_users = 10

-- `struct users`
pub record User : Type 0 where
  pub name : List ℕ
  pub pass : List ℕ

-- `server_args`; the entries of `users` that are set, as many as `users_count` says.
pub record ServerArgs : Type 0 where
  pub socks_addr : List ℕ
  pub socks_port : ℕ
  pub mng_addr : List ℕ
  pub mng_port : ℕ
  pub disectors_enabled : Bool
  pub users : List User
  pub log_level : ℕ
  pub log_file : Option (List ℕ)

abbrev pub defaults : ServerArgs
defaults = record {
  socks_addr = codes "0.0.0.0";
  socks_port = 1080;
  mng_addr = codes "127.0.0.1";
  mng_port = 8080;
  disectors_enabled = true;
  users = [];
  log_level = 1;
  log_file = none;
}

-- The text in front of the first colon and the text behind it; `none`: the process exits with 1.
unfoldable pub user : List ℕ → Option User
user [] = none
user (c ∷ cs) =
    let rest = user cs in
    if c == b':'
    then some (record { name = []; pass = cs })
    else elim rest [ none ↦ none | some u ↦ some (record u { name = c ∷ u.name }) ]

-- An option is taken, or the process ends.
abbrev or_exit {ℓ} : {A : Type ℓ} → Option A → (A → Start ServerArgs) → Start ServerArgs
or_exit none f = exits 1
or_exit (some a) f = f a

-- One turn of the loop. The level is unsigned, so the test whether it is negative fails for every level.
unfoldable pub take_option : ℕ → List ℕ → ServerArgs → Start ServerArgs
take_option c optarg args =
    if c == b'h'
    then exits 1
    else if c == b'l'
    then runs (record args { socks_addr = optarg })
    else if c == b'L'
    then runs (record args { mng_addr = optarg })
    else if c == b'N'
    then runs (record args { disectors_enabled = false })
    else if c == b'p'
    then or_exit (port optarg) (λ n. runs (record args { socks_port = n }))
    else if c == b'P'
    then or_exit (port optarg) (λ n. runs (record args { mng_port = n }))
    else if c == b'u'
    then (if ltb (length args.users) max_users
        then or_exit (user optarg) (λ u. runs (record args { users = args.users ++ u ∷ [] }))
        else exits 1)
    else if c == b'v'
    then exits 0
    else if c == b'g'
    then runs (record args { log_level = log_level_from_string optarg })
    else if c == b'f'
    then runs (record args { log_file = some optarg })
    else exits 1

-- The loop, and the test of what is left over.
unfoldable pub take_options : List (ℕ × List ℕ) → List (List ℕ) → ServerArgs → Start ServerArgs
unfolding take_option
take_options [] [] args = runs args
take_options [] (operand ∷ operands) args = exits 1
take_options ((c, optarg) ∷ options) operands args = elim (take_option c optarg args) [
  | exits code ↦ exits code
  | runs args' ↦ take_options options operands args'
]

unfoldable pub parse_args : List (ℕ × List ℕ) → List (List ℕ) → Start ServerArgs
unfolding take_options
parse_args options operands = take_options options operands defaults
