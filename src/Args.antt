-- ===== src/Args.antt =====
-- src/server/utils/args.c and src/admin_client/args_admin.c: the arguments of the two programs.
-- `getopt_long` is not modelled: what it answers is a list of options, each a character with its
-- argument, and what it leaves over.
pub mod Server
pub mod Client
pub mod Ports
pub mod Options
use tpe_protos.Common.{
  ℕ, suc, ◌-◌, ◌^◌, Bool, true, false, not, ◌&&◌, ◌||◌, List, [], ◌∷◌, Option, none, some, ℤ, pos,
  negsuc, ltb, ◌==◌, if◌then◌else◌, codes, str_eq, strtol,
}

-- The process ends, or goes on with what was read.
pub data Start (A : Type 0) : Type 0 where
  exits : ℕ → Start A
  runs : A → Start A

-- `USHRT_MAX`
abbrev pub ushrt_max : ℕ
ushrt_max = 65535

abbrev is_empty : List ℕ → Bool
is_empty [] = true
is_empty (c ∷ cs) = false

abbrev in_range : ℤ → Option ℕ
in_range (pos n) = if ltb ushrt_max n then none else some n
in_range (negsuc n) = none

-- `none`: the process exits with 1. The values that `errno` is asked about are out of the range of a
-- port too.
unfoldable pub port : List ℕ → Option ℕ
port s = let r = strtol s in if r.converted && is_empty r.end then in_range r.value else none

-- `-1` as a `log_level_t`, an enumeration of unsigned values.
abbrev pub no_level : ℕ
no_level = 2 ^ 32 - 1

unfoldable pub log_level_from_string : List ℕ → ℕ
log_level_from_string level =
    if str_eq level (codes "DEBUG")
    then 0
    else if str_eq level (codes "INFO")
    then 1
    else if str_eq level (codes "WARNING")
    then 2
    else if str_eq level (codes "ERROR")
    then 3
    else no_level
