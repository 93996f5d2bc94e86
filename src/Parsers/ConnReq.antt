-- ===== src/Parsers/ConnReq.antt =====
-- src/server/socks5/parsers/conn_req_parser.c and conn_req_parser.h: the parser of the connection
-- request (RFC 1928, section 4).
pub mod Address
pub mod Spec
use Prim.Native.Nat.{bit_or}
use tpe_protos.Common.{
  ℕ, ◌+◌, ◌*◌, ◌%◌, ◌^◌, List, [], ◌∷◌, Option, none, some, Bool, ◌==◌, leb, if◌then◌else◌, set,
}
use tpe_protos.Engine.{
  Action, Transition, ParserDefinition, Parser, any, emit, on, parser_init, parser_feed, parser_set,
  parser_no_classes, data0,
}
use tpe_protos.Parsers.Outcome.{Outcome, drive}

abbrev pub socks5_version : ℕ
socks5_version = 0x05

abbrev pub cmd_connect : ℕ
cmd_connect = 0x01

abbrev pub cmd_bind : ℕ
cmd_bind = 0x02

abbrev pub cmd_udp_associate : ℕ
cmd_udp_associate = 0x03

abbrev pub reserved : ℕ
reserved = 0x00

abbrev pub atyp_ipv4 : ℕ
atyp_ipv4 = 0x01

abbrev pub atyp_domain_name : ℕ
atyp_domain_name = 0x03

abbrev pub atyp_ipv6 : ℕ
atyp_ipv6 = 0x04

-- `enum conn_req_parser_state`
abbrev pub conn_req_version : ℕ
conn_req_version = 0

abbrev pub conn_req_cmd : ℕ
conn_req_cmd = 1

abbrev pub conn_req_rsv : ℕ
conn_req_rsv = 2

abbrev pub conn_req_atyp : ℕ
conn_req_atyp = 3

abbrev pub conn_req_dom_len : ℕ
conn_req_dom_len = 4

abbrev pub conn_req_dst_addr : ℕ
conn_req_dst_addr = 5

abbrev pub conn_req_dst_port_byte1 : ℕ
conn_req_dst_port_byte1 = 6

abbrev pub conn_req_dst_port_byte2 : ℕ
conn_req_dst_port_byte2 = 7

abbrev pub conn_req_done : ℕ
conn_req_done = 8

abbrev pub conn_req_error : ℕ
conn_req_error = 9

abbrev version : Action
version = emit conn_req_version

abbrev cmd : Action
cmd = emit conn_req_cmd

abbrev rsv : Action
rsv = emit conn_req_rsv

abbrev atyp : Action
atyp = emit conn_req_atyp

abbrev dom_len : Action
dom_len = emit conn_req_dom_len

abbrev dst_addr : Action
dst_addr = emit conn_req_dst_addr

abbrev dst_port_byte1 : Action
dst_port_byte1 = emit conn_req_dst_port_byte1

abbrev dst_port_byte2 : Action
dst_port_byte2 = emit conn_req_dst_port_byte2

abbrev done : Action
done = emit conn_req_done

abbrev error : Action
error = emit conn_req_error

abbrev version_transitions : List Transition
version_transitions = on socks5_version conn_req_cmd version ∷ on any conn_req_error error ∷ []

abbrev cmd_transitions : List Transition
cmd_transitions =
    on cmd_connect conn_req_rsv cmd
    ∷ on cmd_bind conn_req_rsv cmd
    ∷ on cmd_udp_associate conn_req_rsv cmd
    ∷ on any conn_req_error error
    ∷ []

abbrev rsv_transitions : List Transition
rsv_transitions = on reserved conn_req_atyp rsv ∷ on any conn_req_error error ∷ []

abbrev atyp_transitions : List Transition
atyp_transitions =
    on atyp_ipv4 conn_req_dst_addr atyp
    ∷ on atyp_domain_name conn_req_dom_len atyp
    ∷ on atyp_ipv6 conn_req_dst_addr atyp
    ∷ on any conn_req_error error
    ∷ []

abbrev dom_len_transitions : List Transition
dom_len_transitions = on any conn_req_dst_addr dom_len ∷ []

abbrev dst_addr_transitions : List Transition
dst_addr_transitions = on any conn_req_dst_addr dst_addr ∷ []

abbrev dst_port_byte1_transitions : List Transition
dst_port_byte1_transitions = on any conn_req_dst_port_byte2 dst_port_byte1 ∷ []

abbrev dst_port_byte2_transitions : List Transition
dst_port_byte2_transitions = on any conn_req_done dst_port_byte2 ∷ []

abbrev done_transitions : List Transition
done_transitions = on any conn_req_done done ∷ []

abbrev error_transitions : List Transition
error_transitions = on any conn_req_error error ∷ []

-- The arrays `states` and `states_n`, by state number.
abbrev states : List (List Transition)
states =
    version_transitions ∷ cmd_transitions ∷ rsv_transitions ∷ atyp_transitions ∷ dom_len_transitions
    ∷ dst_addr_transitions ∷ dst_port_byte1_transitions ∷ dst_port_byte2_transitions
    ∷ done_transitions ∷ error_transitions ∷ []

abbrev pub conn_req_parser_definition : ParserDefinition
conn_req_parser_definition = record { states = states; start_state = conn_req_version }

-- `conn_req_parser`; `dst_addr` holds 256 bytes, and its index is a `uint8_t`.
pub record ConnReqParser : Type 0 where
  pub parser : Parser
  pub cmd : ℕ
  pub atyp : ℕ
  pub dst_addr_len : ℕ
  pub dst_addr : List ℕ
  pub dst_addr_count : ℕ
  pub dst_port : ℕ

-- `dst_addr` is what `malloc` leaves in the array. `none` where either allocation fails (the source
-- keeps going with no engine where only the second fails).
unfoldable pub conn_req_parser_init : Bool → Bool → (ℕ → ℕ) → List ℕ → Option ConnReqParser
conn_req_parser_init allocated engine_allocated stray dst_addr =
    if allocated
    then elim (parser_init engine_allocated (parser_no_classes stray) conn_req_parser_definition) [
      | none ↦ none
      | some p ↦ some (record {
        parser = p;
        cmd = 0;
        atyp = 0;
        dst_addr_len = 0;
        dst_addr = dst_addr;
        dst_addr_count = 0;
        dst_port = 0;
      })
    ]
    else none

-- The branch of `CONN_REQ_ATYP`, with the inner `switch`.
feed_atyp : ConnReqParser → ℕ → ConnReqParser × ℕ
feed_atyp p byte =
    let p1 = record p { atyp = byte } in
    if p1.atyp == atyp_ipv4
    then (record p1 { dst_addr_len = 4 }, conn_req_atyp)
    else if p1.atyp == atyp_domain_name
    then (p1, conn_req_atyp)
    else if p1.atyp == atyp_ipv6
    then (record p1 { dst_addr_len = 16 }, conn_req_atyp)
    else (p1, conn_req_error)

-- The branch of `CONN_REQ_DST_ADDR`.
feed_dst_addr : ConnReqParser → ℕ → ConnReqParser × ℕ
feed_dst_addr p byte =
    let count = (p.dst_addr_count + 1) % 256 in
    let p1 = record p { dst_addr = set p.dst_addr p.dst_addr_count byte; dst_addr_count = count } in
    if leb p1.dst_addr_len count
    then (
      record p1 {
        parser = parser_set p1.parser conn_req_dst_port_byte1;
        dst_addr = set p1.dst_addr count 0;
      },
      conn_req_dst_port_byte1,
    )
    else (p1, conn_req_dst_addr)

-- `(uint16_t)(p->dst_port << 8) | byte`
abbrev pub join_port : ℕ → ℕ → ℕ
join_port port byte = bit_or (port * 2 ^ 8 % 2 ^ 16) byte

-- The new parser and the state returned.
unfoldable pub conn_req_parser_feed : ConnReqParser → ℕ → ConnReqParser × ℕ
unfolding feed_atyp feed_dst_addr
conn_req_parser_feed p byte =
    let engine = parser_feed p.parser byte in
    let p' = record p { parser = engine } in
    let type = engine.e1.type in
    let value = data0 engine in
    if type == conn_req_cmd
    then (record p' { cmd = value }, type)
    else if type == conn_req_atyp
    then feed_atyp p' value
    else if type == conn_req_dom_len
    then (record p' { dst_addr_len = value }, type)
    else if type == conn_req_dst_addr
    then feed_dst_addr p' value
    else if type == conn_req_dst_port_byte1
    then (record p' { dst_port = value }, type)
    else if type == conn_req_dst_port_byte2
    then (record p' { dst_port = join_port p'.dst_port value }, conn_req_done)
    else (p', type)

-- The parser fed with bytes until it is done or fails.
abbrev pub parse : ConnReqParser → List ℕ → Outcome ConnReqParser
parse = drive conn_req_parser_feed conn_req_done conn_req_error
