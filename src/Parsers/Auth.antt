-- ===== src/Parsers/Auth.antt =====
-- src/server/socks5/parsers/auth_parser.c and auth_parser.h: the parser of the user and password
-- message (RFC 1929).
pub mod Loops
pub mod Spec
use tpe_protos.Common.{
  ℕ, ◌+◌, ◌%◌, List, [], ◌∷◌, Option, none, some, Bool, ◌==◌, leb, if◌then◌else◌, set,
}
use tpe_protos.Engine.{
  Action, Transition, ParserDefinition, Parser, any, emit, on, parser_init, parser_feed, parser_set,
  parser_no_classes, data0,
}
use tpe_protos.Parsers.Outcome.{Outcome, drive}

abbrev pub subnegotiation_version : ℕ
subnegotiation_version = 0x01

-- `enum auth_state`
abbrev pub auth_version : ℕ
auth_version = 0

abbrev pub auth_username_len : ℕ
auth_username_len = 1

abbrev pub auth_username : ℕ
auth_username = 2

abbrev pub auth_password_len : ℕ
auth_password_len = 3

abbrev pub auth_password : ℕ
auth_password = 4

abbrev pub auth_done : ℕ
auth_done = 5

abbrev pub auth_error : ℕ
auth_error = 6

abbrev version : Action
version = emit auth_version

abbrev username_len : Action
username_len = emit auth_username_len

abbrev username : Action
username = emit auth_username

abbrev password_len : Action
password_len = emit auth_password_len

abbrev password : Action
password = emit auth_password

abbrev done : Action
done = emit auth_done

abbrev error : Action
error = emit auth_error

abbrev version_transitions : List Transition
version_transitions =
    on subnegotiation_version auth_username_len version ∷ on any auth_error error ∷ []

abbrev username_len_transitions : List Transition
username_len_transitions = on 0x00 auth_error error ∷ on any auth_username username_len ∷ []

abbrev username_transitions : List Transition
username_transitions = on any auth_username username ∷ []

abbrev password_len_transitions : List Transition
password_len_transitions = on 0x00 auth_error error ∷ on any auth_password password_len ∷ []

abbrev password_transitions : List Transition
password_transitions = on any auth_password password ∷ []

abbrev done_transitions : List Transition
done_transitions = on any auth_done done ∷ []

abbrev error_transitions : List Transition
error_transitions = on any auth_error error ∷ []

-- The arrays `states` and `states_n`, by state number.
abbrev states : List (List Transition)
states =
    version_transitions ∷ username_len_transitions ∷ username_transitions ∷ password_len_transitions
    ∷ password_transitions ∷ done_transitions ∷ error_transitions ∷ []

abbrev pub auth_parser_definition : ParserDefinition
auth_parser_definition = record { states = states; start_state = auth_version }

-- `struct auth_parser`; the arrays hold 256 bytes, and every index is a `uint8_t`.
pub record AuthParser : Type 0 where
  pub parser : Parser
  pub username_len : ℕ
  pub username_count : ℕ
  pub username : List ℕ
  pub password_len : ℕ
  pub password_count : ℕ
  pub password : List ℕ

abbrev pub max_username_len : ℕ
max_username_len = 256

abbrev pub max_password_len : ℕ
max_password_len = 256

-- `username` and `password` are what `malloc` leaves in the arrays. `none` where either allocation
-- fails (the source keeps going with no engine where only the second fails).
unfoldable pub auth_parser_init : Bool → Bool → (ℕ → ℕ) → List ℕ → List ℕ → Option AuthParser
auth_parser_init allocated engine_allocated stray username password =
    if allocated
    then elim (parser_init engine_allocated (parser_no_classes stray) auth_parser_definition) [
      | none ↦ none
      | some p ↦ some (record {
        parser = p;
        username_len = 0;
        username_count = 0;
        username = username;
        password_len = 0;
        password_count = 0;
        password = password;
      })
    ]
    else none

-- The branch of `AUTH_USERNAME`.
feed_username : AuthParser → ℕ → AuthParser × ℕ
feed_username p byte =
    let count = (p.username_count + 1) % 256 in
    let p1 = record p { username = set p.username p.username_count byte; username_count = count } in
    if leb p1.username_len count
    then (
      record p1 {
        parser = parser_set p1.parser auth_password_len;
        username = set p1.username count 0;
      },
      auth_password_len,
    )
    else (p1, auth_username)

-- The branch of `AUTH_PASSWORD`.
feed_password : AuthParser → ℕ → AuthParser × ℕ
feed_password p byte =
    let count = (p.password_count + 1) % 256 in
    let p1 = record p { password = set p.password p.password_count byte; password_count = count } in
    if leb p1.password_len count
    then (
      record p1 { parser = parser_set p1.parser auth_done; password = set p1.password count 0 },
      auth_done,
    )
    else (p1, auth_password)

-- The new parser and the state returned.
unfoldable pub auth_parser_feed : AuthParser → ℕ → AuthParser × ℕ
unfolding feed_username feed_password
auth_parser_feed p byte =
    let engine = parser_feed p.parser byte in
    let p' = record p { parser = engine } in
    let type = engine.e1.type in
    if type == auth_username_len
    then (record p' { username_len = data0 engine }, type)
    else if type == auth_username
    then feed_username p' (data0 engine)
    else if type == auth_password_len
    then (record p' { password_len = data0 engine }, type)
    else if type == auth_password
    then feed_password p' (data0 engine)
    else (p', type)

-- The parser fed with bytes until it is done or fails.
abbrev pub parse : AuthParser → List ℕ → Outcome AuthParser
parse = drive auth_parser_feed auth_done auth_error
