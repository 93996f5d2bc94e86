-- ===== src/Admin/Command.antt =====
-- src/shared/s5admin_parser.c and include/s5admin_parser.h: a line of the administrator read as a
-- command. A line is a C string: the characters in front of its zero.
pub mod Words
pub mod Spec
pub mod Print
pub mod Range
use tpe_protos.Common.{
  ℕ, zero, suc, ◌+◌, Bool, ◌||◌, List, [], ◌∷◌, ◌++◌, Option, none, some, ltb, ◌==◌, if◌then◌else◌,
  take, drop, replicate, length, str_eq, codes,
}

abbrev pub args_len : ℕ
args_len = 256

-- `s5admin_command_t`
abbrev pub cmd_add_user : ℕ
cmd_add_user = 0

abbrev pub cmd_remove_user : ℕ
cmd_remove_user = 1

abbrev pub cmd_list_users : ℕ
cmd_list_users = 2

abbrev pub cmd_get_metrics : ℕ
cmd_get_metrics = 3

abbrev pub cmd_get_access_register : ℕ
cmd_get_access_register = 4

abbrev pub cmd_set_loglevel : ℕ
cmd_set_loglevel = 5

abbrev pub cmd_set_max_conn : ℕ
cmd_set_max_conn = 6

abbrev pub cmd_set_buff : ℕ
cmd_set_buff = 7

abbrev pub cmd_get_config : ℕ
cmd_get_config = 8

abbrev pub cmd_help : ℕ
cmd_help = 9

abbrev pub cmd_ping : ℕ
cmd_ping = 10

abbrev pub cmd_exit : ℕ
cmd_exit = 11

abbrev pub cmd_invalid : ℕ
cmd_invalid = 12

-- `s5admin_cmd_parsed_t`
pub record ParsedCommand : Type 0 where
  pub cmd : ℕ
  pub arg1 : List ℕ
  pub arg2 : List ℕ

-- `s5admin_cmd_info_t`
pub record CommandInfo : Type 0 where
  pub name : List ℕ
  pub expected_args : ℕ

abbrev info : List ℕ → ℕ → CommandInfo
info name expected_args = record { name = name; expected_args = expected_args }

-- `_commands`
unfoldable pub commands : List CommandInfo
commands =
    info (codes "ADD_USER") 2
    ∷ info (codes "REMOVE_USER") 1
    ∷ info (codes "LIST_USERS") 0
    ∷ info (codes "GET_METRICS") 0
    ∷ info (codes "GET_ACCESS_REGISTER") 0
    ∷ info (codes "SET_LOGLEVEL") 1
    ∷ info (codes "SET_MAX_CONN") 1
    ∷ info (codes "SET_BUFF") 1
    ∷ info (codes "GET_CONFIG") 0
    ∷ info (codes "HELP") 0
    ∷ info (codes "PING") 0
    ∷ info (codes "EXIT") 0
    ∷ []

-- The delimiters " \r\n".
abbrev pub is_delimiter : ℕ → Bool
is_delimiter c = c == 32 || (c == 13 || c == 10)

-- The characters up to a delimiter, and what stands behind it.
unfoldable pub token : List ℕ → List ℕ × List ℕ
token [] = ([], [])
token (c ∷ cs) = let (t, rest) = token cs in if is_delimiter c then ([], cs) else (c ∷ t, rest)

-- `strtok_r`: the next token and the line behind it.
unfoldable pub strtok : List ℕ → Option (List ℕ × List ℕ)
strtok [] = none
strtok (c ∷ cs) =
    let next = strtok cs in if is_delimiter c then next else some (c ∷ (token cs).0, (token cs).1)

-- `strcpy` of a text into an array, and `strncpy` of `args_len` characters, padded with zeros.
abbrev pub strcpy : List ℕ → List ℕ → List ℕ
strcpy dst text = text ++ 0 ∷ drop (length text + 1) dst

abbrev pub strncpy : List ℕ → List ℕ
strncpy text = take args_len (text ++ replicate args_len 0)

-- The labels `missing_args`, `too_many_args` and `invalid_argument`.
abbrev missing_args : ParsedCommand → ParsedCommand
missing_args p = record p { cmd = cmd_invalid; arg1 = strcpy p.arg1 (codes "missing argument") }

abbrev too_many_args : ParsedCommand → ParsedCommand
too_many_args p = record p { cmd = cmd_invalid; arg1 = strcpy p.arg1 (codes "too many arguments") }

abbrev invalid_argument : ParsedCommand → ParsedCommand
invalid_argument p = record p {
  cmd = cmd_invalid;
  arg1 = strcpy p.arg1 (codes "argument too long");
}

-- No token may follow.
end_of_args : ParsedCommand → List ℕ → ParsedCommand
end_of_args p line = elim (strtok line) [ none ↦ p | some _ ↦ too_many_args p ]

-- One argument, with what `store` makes of it, and what follows.
read_arg :
    ParsedCommand
    → List ℕ
    → (List ℕ → ParsedCommand)
    → (ParsedCommand → List ℕ → ParsedCommand)
    → ParsedCommand
read_arg p line store next = elim (strtok line) [
  | none ↦ missing_args p
  | some (t, rest) ↦ if ltb args_len (length t) then invalid_argument p else next (store t) rest
]

abbrev store1 : ParsedCommand → List ℕ → ParsedCommand
store1 p t = record p { arg1 = strncpy t }

abbrev store2 : ParsedCommand → List ℕ → ParsedCommand
store2 p t = record p { arg2 = strncpy t }

unfoldable pub s5admin_parse_command_args : ParsedCommand → List ℕ → ℕ → ParsedCommand
unfolding end_of_args read_arg
s5admin_parse_command_args p line zero = end_of_args p line
s5admin_parse_command_args p line (suc zero) = read_arg p line (store1 p) end_of_args
s5admin_parse_command_args p line (suc (suc zero)) =
    read_arg p line (store1 p) (λ p' rest. read_arg p' rest (store2 p') end_of_args)
s5admin_parse_command_args p line (suc (suc (suc n))) = record p { cmd = cmd_invalid }

-- The loop over the table: the index and the number of arguments of the command of that name.
unfoldable pub find_command : List CommandInfo → ℕ → List ℕ → Option (ℕ × ℕ)
find_command [] i name = none
find_command (c ∷ cs) i name =
    let rest = find_command cs (i + 1) name in
    if str_eq name c.name then some (i, c.expected_args) else rest

-- `none`: a line of delimiters, where `strcmp` reads through a null pointer.
unfoldable pub s5admin_parse_command : ParsedCommand → List ℕ → Option ParsedCommand
s5admin_parse_command parsed line =
    let p = record parsed {
      cmd = cmd_invalid;
      arg1 = strcpy parsed.arg1 (codes "invalid command");
    } in
    elim (strtok line) [
      | none ↦ none
      | some (t, rest) ↦ elim (find_command commands 0 t) [
        | none ↦ some (record p { cmd = cmd_invalid })
        | some (i, expected_args) ↦
            some (s5admin_parse_command_args (record p { cmd = i }) rest expected_args)
      ]
    ]
