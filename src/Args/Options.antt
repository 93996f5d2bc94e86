-- ===== src/Args/Options.antt =====
-- src/server/utils/args.c: the options that ask for a configuration, in the order that follows: the server that is started with
-- them runs with that configuration.
use tpe_protos.Common.{
  ℕ, zero, suc, ◌+◌, ◌≤◌, ◌<◌, ◌≡◌, ◌≢◌, refl, ap, ◌∙◌, Bool, true, false, List, [], ◌∷◌, ◌++◌,
  Option, none, some, length, decimal, str_eq, All, arith, append_assoc, append-nil, sym, lt→ltb,
  length-append,
}
use mathlib.Core.List.{map}
use tpe_protos.Admin.Print.{get_log_level_string}
use tpe_protos.Args.{runs, log_level_from_string}
use tpe_protos.Args.Ports.{port-decimal}
use tpe_protos.Args.Server.{User, ServerArgs, defaults, user, take_option, take_options, parse_args}

-- The name has no colon in it.
abbrev pub Named : User → Type 0
Named u = All (λ c. c ≢ b':') u.name

-- What options can ask for.
pub record IsConfiguration (args : ServerArgs) : Type 0 where
  pub socks : args.socks_port < 65536
  pub mng : args.mng_port < 65536
  pub named : All Named args.users
  pub few : length args.users ≤ 10
  pub level : args.log_level < 4

abbrev user_option : User → ℕ × List ℕ
user_option u = (b'u', u.name ++ b':' ∷ u.pass)

abbrev switch : Bool → List (ℕ × List ℕ)
switch true = []
switch false = (b'N', []) ∷ []

abbrev log_option : Option (List ℕ) → List (ℕ × List ℕ)
log_option none = []
log_option (some file) = (b'f', file) ∷ []

unfoldable pub options : ServerArgs → List (ℕ × List ℕ)
options args =
    (b'l', args.socks_addr)
    ∷ (b'p', decimal args.socks_port)
    ∷ (b'L', args.mng_addr)
    ∷ (b'P', decimal args.mng_port)
    ∷ (b'g', get_log_level_string args.log_level)
    ∷ (switch args.disectors_enabled ++ (log_option args.log_file ++ map user_option args.users))

user-colon :
    (name pass : List ℕ)
    → All (λ c. c ≢ b':') name
    → user (name ++ b':' ∷ pass) ≡ some (record { name = name; pass = pass })
unfolding user
user-colon [] pass h = refl
user-colon (c ∷ cs) pass h = rw (user-colon cs pass h.1) (ground (arith, h.0))

log_level-string : (l : ℕ) → l < 4 → log_level_from_string (get_log_level_string l) ≡ l
unfolding log_level_from_string get_log_level_string str_eq
log_level-string zero h = refl
log_level-string (suc zero) h = refl
log_level-string (suc (suc zero)) h = refl
log_level-string (suc (suc (suc zero))) h = refl
log_level-string (suc (suc (suc (suc l)))) h = absurd (omega arith)

-- The users behind those that are there.
take_options-users :
    (us : List User) (args : ServerArgs)
    → All Named us
    → length args.users + length us ≤ 10
    → take_options (map user_option us) [] args ≡ runs (record args { users = args.users ++ us })
unfolding take_options take_option
take_options-users [] args h l =
    ap (λ us. runs (record args { users = us })) (sym (append-nil args.users))
take_options-users (u ∷ us) args h l =
    rw (lt→ltb (length args.users) 10 (omega arith), user-colon u.name u.pass h.0, take_options)
      (take_options-users us (record args { users = args.users ++ u ∷ [] }) h.1
          (omega (arith, length-append args.users (u ∷ [])))
        ∙ ap (λ us'. runs (record args { users = us' })) (append_assoc args.users (u ∷ []) us))

module _ (args : ServerArgs) (more : List (ℕ × List ℕ)) where
  take_options-socks_port :
      (n : ℕ)
      → n < 65536
      → take_options ((b'p', decimal n) ∷ more) [] args
        ≡ take_options more [] (record args { socks_port = n })
  unfolding take_options take_option
  take_options-socks_port n h = rw (port-decimal n h, take_options) refl

  take_options-mng_port :
      (n : ℕ)
      → n < 65536
      → take_options ((b'P', decimal n) ∷ more) [] args
        ≡ take_options more [] (record args { mng_port = n })
  unfolding take_options take_option
  take_options-mng_port n h = rw (port-decimal n h, take_options) refl

  take_options-level :
      (l : ℕ)
      → l < 4
      → take_options ((b'g', get_log_level_string l) ∷ more) [] args
        ≡ take_options more [] (record args { log_level = l })
  unfolding take_options take_option
  take_options-level l h =
      ap (λ k. take_options more [] (record args { log_level = k })) (log_level-string l h)

  take_options-log :
      (file : Option (List ℕ))
      → args.log_file ≡ none
      → take_options (log_option file ++ more) [] args
        ≡ take_options more [] (record args { log_file = file })
  unfolding take_options take_option
  take_options-log none e = ap (λ f. take_options more [] (record args { log_file = f })) e
  take_options-log (some file) e = refl

  take_options-switch :
      (enabled : Bool)
      → args.disectors_enabled ≡ true
      → take_options (switch enabled ++ more) [] args
        ≡ take_options more [] (record args { disectors_enabled = enabled })
  unfolding take_options take_option
  take_options-switch true e =
      ap (λ f. take_options more [] (record args { disectors_enabled = f })) e
  take_options-switch false e = refl

-- A configuration with ports below 65536, a level that has a name and at most ten users, no name with a
-- colon in it, is what the server runs with when it is started with the options that ask for it.
pub parse_args-options :
    (args : ServerArgs) → IsConfiguration args → parse_args (options args) [] ≡ runs args
unfolding parse_args options take_options take_option
parse_args-options args v =
    let others = log_option args.log_file ++ map user_option args.users in
    let switched = switch args.disectors_enabled ++ others in
    let level = (b'g', get_log_level_string args.log_level) ∷ switched in
    let mng = (b'L', args.mng_addr) ∷ (b'P', decimal args.mng_port) ∷ level in
    let a1 : ServerArgs = record defaults { socks_addr = args.socks_addr } in
    let a2 : ServerArgs = record a1 { socks_port = args.socks_port } in
    let a3 : ServerArgs = record a2 { mng_addr = args.mng_addr } in
    let a4 : ServerArgs = record a3 { mng_port = args.mng_port } in
    let a5 : ServerArgs = record a4 { log_level = args.log_level } in
    let a6 : ServerArgs = record a5 { disectors_enabled = args.disectors_enabled } in
    take_options-socks_port a1 mng args.socks_port v.socks
    ∙ take_options-mng_port a3 level args.mng_port v.mng
    ∙ take_options-level a4 switched args.log_level v.level
    ∙ take_options-switch a5 others args.disectors_enabled refl
    ∙ take_options-log a6 (map user_option args.users) args.log_file refl
    ∙ take_options-users args.users (record a6 { log_file = args.log_file }) v.named
        (omega (arith, v.few))
