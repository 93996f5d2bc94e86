-- ===== src/Parsers/Handshake.antt =====
-- src/server/socks5/parsers/handshake_parser.c, with handshake_parser.h and the constants of
-- src/server/include/defines.h: the parser of the method selection message (RFC 1928, section 3).
pub mod Spec
use tpe_protos.Common.{
  ℕ, ◌+◌, ◌%◌, List, [], ◌∷◌, Option, none, some, Bool, true, false, ◌||◌, not, ◌==◌, ltb,
  if◌then◌else◌,
}
use tpe_protos.Engine.{
  Action, Transition, ParserDefinition, Parser, any, emit, on, parser_init, parser_feed,
  parser_no_classes, data0,
}
use tpe_protos.Parsers.Outcome.{Outcome, drive}

abbrev pub socks5_version : ℕ
socks5_version = 0x05

abbrev pub method_no_auth : ℕ
method_no_auth = 0x00

abbrev pub method_gssapi : ℕ
method_gssapi = 0x01

abbrev pub method_user_pass : ℕ
method_user_pass = 0x02

-- `enum handshake_state`
abbrev pub handshake_version : ℕ
handshake_version = 0

abbrev pub handshake_nmethods : ℕ
handshake_nmethods = 1

abbrev pub handshake_methods : ℕ
handshake_methods = 2

abbrev pub handshake_done : ℕ
handshake_done = 3

abbrev pub handshake_error : ℕ
handshake_error = 4

abbrev version : Action
version = emit handshake_version

abbrev nmethods : Action
nmethods = emit handshake_nmethods

abbrev methods : Action
methods = emit handshake_methods

abbrev done : Action
done = emit handshake_done

abbrev error : Action
error = emit handshake_error

abbrev version_transitions : List Transition
version_transitions =
    on socks5_version handshake_nmethods version ∷ on any handshake_error error ∷ []

abbrev nmethods_transitions : List Transition
nmethods_transitions = on any handshake_methods nmethods ∷ []

abbrev methods_transitions : List Transition
methods_transitions = on any handshake_methods methods ∷ []

abbrev error_transitions : List Transition
error_transitions = on any handshake_error error ∷ []

abbrev done_transitions : List Transition
done_transitions = on any handshake_done done ∷ []

-- The arrays `states` and `states_n`, by state number.
abbrev states : List (List Transition)
states =
    version_transitions ∷ nmethods_transitions ∷ methods_transitions ∷ done_transitions
    ∷ error_transitions ∷ []

abbrev pub handshake_parser_definition : ParserDefinition
handshake_parser_definition = record { states = states; start_state = handshake_version }

-- `struct handshake_parser`
pub record HandshakeParser : Type 0 where
  pub parser : Parser
  pub nmethods : ℕ
  pub method_count : ℕ
  pub no_auth : Bool
  pub user_pass_auth : Bool

-- `none` where either allocation fails. (The source keeps going with no engine where only the
-- second fails, and crashes on the first byte.)
unfoldable pub handshake_parser_init : Bool → Bool → (ℕ → ℕ) → Option HandshakeParser
handshake_parser_init allocated engine_allocated stray =
    if allocated
    then elim (parser_init engine_allocated (parser_no_classes stray) handshake_parser_definition) [
      | none ↦ none
      | some p ↦ some (record {
        parser = p;
        nmethods = 0;
        method_count = 0;
        no_auth = false;
        user_pass_auth = false;
      })
    ]
    else none

unfoldable pub is_valid_socks5_auth_method : ℕ → Bool
is_valid_socks5_auth_method method =
    method == method_no_auth || (method == method_gssapi || method == method_user_pass)

-- The branch of `HANDSHAKE_METHODS`; `method_count` is a `uint8_t`.
feed_method : HandshakeParser → ℕ → HandshakeParser × ℕ
unfolding is_valid_socks5_auth_method
feed_method p method =
    let p1 = record p { method_count = (p.method_count + 1) % 256 } in
    let p2 = record p1 {
      no_auth = p1.no_auth || method == method_no_auth;
      user_pass_auth = p1.user_pass_auth || method == method_user_pass;
    } in
    if not (is_valid_socks5_auth_method method)
    then (p1, handshake_error)
    else if ltb p1.nmethods p1.method_count
    then (p1, handshake_done)
    else if p2.nmethods == p2.method_count
    then (p2, handshake_done)
    else (p2, handshake_methods)

-- The new parser and the state returned.
unfoldable pub handshake_parser_feed : HandshakeParser → ℕ → HandshakeParser × ℕ
unfolding feed_method
handshake_parser_feed p byte =
    let engine = parser_feed p.parser byte in
    let p' = record p { parser = engine } in
    let type = engine.e1.type in
    if type == handshake_nmethods
    then (record p' { nmethods = data0 engine }, type)
    else if type == handshake_methods
    then feed_method p' (data0 engine)
    else (p', type)

-- The parser fed with bytes until it is done or fails.
abbrev pub parse : HandshakeParser → List ℕ → Outcome HandshakeParser
parse = drive handshake_parser_feed handshake_done handshake_error
