-- ===== src/Admin/Config.antt =====
-- src/server/s5admin/config.c: a line of the administrator carried out.
pub mod Replies
pub mod Accounts
use tpe_protos.Common.{
  ℕ, Bool, true, false, List, [], ◌∷◌, ◌++◌, Option, none, some, ℤ, pos, negsuc, ◌==◌,
  if◌then◌else◌, length, get_elem?, c_string, str_eq, codes, decimal, atoi,
}
use tpe_protos.Users.{auth_add_user, auth_remove_user}
use tpe_protos.Admin.ServerData.{ServerData, set_max_conn, set_buffer_size, buff_min_len}
use tpe_protos.Admin.Command.{ParsedCommand, s5admin_parse_command, cmd_invalid}
use tpe_protos.Admin.Print.{
  snprintf, metrics_print, access_register_print, auth_list_users, get_log_level_string, debug,
  info, warning, error,
}
use tpe_protos.Socks5.World.{Act, pure, ◌>>=◌, ◌>>◌, deref, gets, modify}
use tpe_protos.Socks5.Calls.{malloc}

-- The texts in the two arrays. They stand side by side, so a text that fills the first one runs on into
-- the second.
abbrev pub text1 : ParsedCommand → List ℕ
text1 p = c_string (p.arg1 ++ p.arg2)

abbrev pub text2 : ParsedCommand → List ℕ
text2 p = c_string p.arg2

abbrev pub ok : List ℕ
ok = codes "OK\n"

-- A handler takes the parsed command and the array for the response, and returns the array.
abbrev pub CmdHandler : Type 0
CmdHandler = ParsedCommand → List ℕ → Act (List ℕ)

abbrev reply : List ℕ → List ℕ → Act (List ℕ)
reply response text = pure (snprintf response 0 text)

-- Behind the search for the name.
unfoldable pub add_new : Bool → List ℕ → List ℕ → Act Bool
add_new false username password = pure false
add_new true username password = do
  users ← gets (λ w. w.users)
  allocated ← malloc
  let r = auth_add_user allocated username password users
  modify (λ w. record w { users = r.0 })
  pure r.1

-- `auth_add_user`: memory is asked for only where the name is new, which is where an addition with
-- memory succeeds.
unfoldable pub add_user : List ℕ → List ℕ → Act Bool
add_user username password = do
  users ← gets (λ w. w.users)
  add_new (auth_add_user true username password users).1 username password

unfoldable pub answer_add_user : List ℕ → List ℕ → List ℕ → Act (List ℕ)
answer_add_user username password response = do
  added ← add_user username password
  if added
      then reply response ok
      else reply response (codes "ERROR: " ++ username ++ codes " already exists\n")

unfoldable pub handle_add_user : CmdHandler
unfolding answer_add_user
handle_add_user p response = answer_add_user (text1 p) (text2 p) response

unfoldable pub handle_remove_user : CmdHandler
handle_remove_user p response = do
  users ← gets (λ w. w.users)
  let r = auth_remove_user (text1 p) users
  modify (λ w. record w { users = r.0 })
  if r.1
      then reply response ok
      else reply response (codes "ERROR: " ++ text1 p ++ codes " not found\n")

unfoldable pub handle_list_users : CmdHandler
handle_list_users p response = do users ← gets (λ w. w.users); pure (auth_list_users users response)

unfoldable pub handle_get_metrics : CmdHandler
handle_get_metrics p response = do
  d ← gets (λ w. w.server_data)
  m ← deref d.metrics
  pure (metrics_print m response)

unfoldable pub handle_get_access_register : CmdHandler
handle_get_access_register p response = do
  d ← gets (λ w. w.server_data)
  deref (access_register_print d.access_register response)

-- The level of that name.
abbrev pub level_of : List ℕ → Option ℕ
level_of name =
    if str_eq name (codes "DEBUG")
    then some debug
    else if str_eq name (codes "INFO")
    then some info
    else if str_eq name (codes "WARNING")
    then some warning
    else if str_eq name (codes "ERROR")
    then some error
    else none

unfoldable pub handle_set_loglevel : CmdHandler
handle_set_loglevel p response = elim (level_of (text1 p)) [
  | some level ↦ (do modify (λ w. record w { log_level = level }); reply response ok)
  | none ↦ reply response (codes "ERROR: invalid log level\n")
]

abbrev pub is_zero : ℤ → Bool
is_zero (pos n) = n == 0
is_zero (negsuc n) = false

-- A setter of the settings, and the message where it refuses.
unfoldable pub set_setting : (ServerData → ℤ → ℤ × ServerData) → List ℕ → CmdHandler
set_setting setter message p response = do
  d ← gets (λ w. w.server_data)
  let r = setter d (atoi (text1 p))
  modify (λ w. record w { server_data = r.1 })
  if is_zero r.0 then reply response ok else reply response message

unfoldable pub handle_set_max_conn : CmdHandler
unfolding set_setting
handle_set_max_conn = set_setting set_max_conn (codes "ERROR: max connections must be at least 1\n")

unfoldable pub handle_set_buff : CmdHandler
unfolding set_setting
handle_set_buff =
    set_setting set_buffer_size
      (codes "ERROR: buffer size must be at least " ++ decimal buff_min_len ++ codes " bytes\n")

unfoldable pub handle_get_config : CmdHandler
handle_get_config p response = do
  d ← gets (λ w. w.server_data)
  level ← gets (λ w. w.log_level)
  reply response (
      codes "LOG_LEVEL: "
      ++ get_log_level_string level
      ++ codes "\nBUFFER_SIZE: "
      ++ decimal d.buffer_size
      ++ codes "B\nMAX_CONN: "
      ++ decimal d.max_conn
      ++ codes "\nEND\n")

unfoldable pub handle_help : CmdHandler
handle_help p response = reply response (
    codes "ADD_USER <username> <password>\nREMOVE_USER "
    ++ codes "<username>\nLIST_USERS\nGET_METRICS\nGET_ACCESS_REGISTER\nSET_LOGLEVEL "
    ++ codes "<DEBUG|INFO|WARNING|ERROR>\nSET_MAX_CONN <quantity>\nSET_BUFF <bytes>\nGET_CONFIG\n"
    ++ codes "HELP\nPING\nEXIT\nEND\n")

unfoldable pub handle_ping : CmdHandler
handle_ping p response = reply response (codes "PONG\n")

unfoldable pub handle_exit : CmdHandler
handle_exit p response = reply response (codes "BYE\n")

-- `_command_handlers`
unfoldable pub command_handlers : List CmdHandler
command_handlers =
    handle_add_user ∷ handle_remove_user ∷ handle_list_users ∷ handle_get_metrics
    ∷ handle_get_access_register ∷ handle_set_loglevel ∷ handle_set_max_conn ∷ handle_set_buff
    ∷ handle_get_config ∷ handle_help ∷ handle_ping ∷ handle_exit ∷ []

-- What a parsed command does.
unfoldable pub run_command : CmdHandler
run_command p response =
    if p.cmd == cmd_invalid
    then reply response (codes "ERROR: " ++ text1 p ++ codes "\n")
    else elim (get_elem? command_handlers p.cmd) [
      | none ↦ deref none
      | some handler ↦ handler p response
    ]

-- The length of the response, and the array.
unfoldable pub config_handler : List ℕ → List ℕ → Act (ℕ × List ℕ)
config_handler cmd response = do
  before ← gets (λ w. w.parsed_cmd)
  p ← deref (s5admin_parse_command before cmd)
  modify (λ w. record w { parsed_cmd = p })
  r ← run_command p response
  pure (length (c_string r), r)
