-- ===== src/Args/Client.antt =====
-- `parse_args` of src/admin_client/args_admin.c.
use tpe_protos.Common.{ℕ, List, [], ◌∷◌, Option, none, some, ◌==◌, if◌then◌else◌, codes}
use tpe_protos.Args.{Start, exits, runs, port, log_level_from_string}

-- `admin_args`
pub record AdminArgs : Type 0 where
  pub host : List ℕ
  pub port : ℕ
  pub log_file : Option (List ℕ)
  pub log_level : ℕ

abbrev pub defaults : AdminArgs
defaults = record { host = codes "127.0.0.1"; port = 8080; log_file = none; log_level = 1 }

-- One turn of the loop.
unfoldable pub take_option : ℕ → List ℕ → AdminArgs → Start AdminArgs
take_option c optarg args =
    if c == b'h'
    then exits 1
    else if c == b'l'
    then runs (record args { host = optarg })
    else if c == b'p'
    then elim (port optarg) [ none ↦ exits 1 | some n ↦ runs (record args { port = n }) ]
    else if c == b'g'
    then runs (record args { log_level = log_level_from_string optarg })
    else if c == b'f'
    then runs (record args { log_file = some optarg })
    else exits 1

unfoldable pub take_options : List (ℕ × List ℕ) → List (List ℕ) → AdminArgs → Start AdminArgs
unfolding take_option
take_options [] [] args = runs args
take_options [] (operand ∷ operands) args = exits 1
take_options ((c, optarg) ∷ options) operands args = elim (take_option c optarg args) [
  | exits code ↦ exits code
  | runs args' ↦ take_options options operands args'
]

unfoldable pub parse_args : List (ℕ × List ℕ) → List (List ℕ) → Start AdminArgs
unfolding take_options
parse_args options operands = take_options options operands defaults
