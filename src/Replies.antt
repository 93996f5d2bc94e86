-- ===== src/Replies.antt =====
-- src/server/socks5/socks5_responses.c and include/socks5_responses.h: the replies to a client, and
-- `get_sock_data` of src/server/utils/netutils.c, which finds the address of a connected socket.
pub mod Wire
use tpe_protos.Common.{
  ℕ, ◌+◌, ◌*◌, ◌/◌, ◌%◌, ◌^◌, Bool, List, [], ◌∷◌, ◌++◌, ◌==◌, if◌then◌else◌, take, drop,
}

abbrev pub socks5_version : ℕ
socks5_version = 0x05

abbrev pub method_no_auth : ℕ
method_no_auth = 0x00

abbrev pub method_user_pass : ℕ
method_user_pass = 0x02

abbrev pub method_no_acceptable : ℕ
method_no_acceptable = 0xff

abbrev pub subnegotiation_version : ℕ
subnegotiation_version = 0x01

abbrev pub auth_ok_status : ℕ
auth_ok_status = 0x00

abbrev pub auth_error_status : ℕ
auth_error_status = 0x01

abbrev pub conn_req_rsv_byte : ℕ
conn_req_rsv_byte = 0x00

abbrev pub reply_ipv4 : ℕ
reply_ipv4 = 0x01

abbrev pub reply_ipv6 : ℕ
reply_ipv6 = 0x04

abbrev pub ipv4_addr_size : ℕ
ipv4_addr_size = 4

abbrev pub ipv6_addr_size : ℕ
ipv6_addr_size = 16

abbrev pub response_base_size : ℕ
response_base_size = 6

-- `AF_INET` and `AF_INET6` of Linux
abbrev pub af_inet : ℕ
af_inet = 2

abbrev pub af_inet6 : ℕ
af_inet6 = 10

-- `socks5_handshake_response`
pub record HandshakeResponse : Type 0 where
  pub version : ℕ
  pub method : ℕ

-- `socks5_auth_response`
pub record AuthResponse : Type 0 where
  pub sub_negotiation_version : ℕ
  pub status : ℕ

-- `socks5_conn_req_response`; the union is its sixteen bytes.
pub record ConnReqResponse : Type 0 where
  pub version : ℕ
  pub response : ℕ
  pub reserved : ℕ
  pub address_type : ℕ
  pub bnd_addr : List ℕ
  pub bnd_port : ℕ

unfoldable pub create_handshake_response : Bool → Bool → HandshakeResponse
create_handshake_response no_auth user_pass_auth = record {
  version = socks5_version;
  method =
      if user_pass_auth
      then method_user_pass
      else if no_auth
      then method_no_auth
      else method_no_acceptable;
}

unfoldable pub create_auth_response : Bool → AuthResponse
create_auth_response auth_ok = record {
  sub_negotiation_version = subnegotiation_version;
  status = if auth_ok then auth_ok_status else auth_error_status;
}

-- What `getsockname` tells: the bytes of an address and a port, by family.
pub data SockAddr : Type 0 where
  inet : List ℕ → ℕ → SockAddr
  inet6 : List ℕ → ℕ → SockAddr
  other_family : SockAddr

-- What `get_sock_data` writes through its three pointers.
pub record SockData : Type 0 where
  pub atyp : ℕ
  pub addr : List ℕ
  pub port : ℕ

-- `before` is what stands behind the pointers.
unfoldable pub get_sock_data : SockAddr → SockData → SockData
get_sock_data (inet addr port) before = record {
  atyp = 0x01;
  addr = addr ++ drop ipv4_addr_size before.addr;
  port = port;
}
get_sock_data (inet6 addr port) before = record {
  atyp = 0x04;
  addr = addr ++ drop ipv6_addr_size before.addr;
  port = port;
}
get_sock_data other_family before = before

-- On a little-endian machine
unfoldable pub htons : ℕ → ℕ
htons port = port % 256 * 256 + port / 256 % 256

-- `before` is what stands in the locals `atyp`, `addr_ptr` and `port`, `union_bytes` what stands in
-- the union of the reply.
unfoldable pub create_conn_req_response : ℕ → SockAddr → SockData → List ℕ → ConnReqResponse
create_conn_req_response response sock before union_bytes =
    let sock_data = get_sock_data sock before in
    record {
      version = socks5_version;
      response = response % 256;
      reserved = conn_req_rsv_byte;
      address_type = if sock_data.atyp == af_inet then reply_ipv4 else reply_ipv6;
      bnd_addr =
          if sock_data.atyp == af_inet
          then take ipv4_addr_size sock_data.addr ++ drop ipv4_addr_size union_bytes
          else if sock_data.atyp == af_inet6
          then take ipv6_addr_size sock_data.addr
          else union_bytes;
      bnd_port = htons sock_data.port;
    }

unfoldable pub create_conn_req_error_response : ℕ → List ℕ → ConnReqResponse
create_conn_req_error_response response union_bytes = record {
  version = socks5_version;
  response = response % 256;
  reserved = conn_req_rsv_byte;
  address_type = reply_ipv4;
  bnd_addr = 0 ∷ 0 ∷ 0 ∷ 0 ∷ drop ipv4_addr_size union_bytes;
  bnd_port = 0;
}

-- The bytes of the struct in memory, which `buffer_write_struct` copies.
unfoldable pub conn_req_bytes : ConnReqResponse → List ℕ
conn_req_bytes r =
    r.version
    ∷ r.response
    ∷ r.reserved
    ∷ r.address_type
    ∷ (r.bnd_addr ++ r.bnd_port % 256 ∷ r.bnd_port / 256 % 256 ∷ [])

-- The size that the handlers send of a reply: it goes by the address type.
unfoldable pub response_size : ConnReqResponse → ℕ
response_size r =
    if r.address_type == reply_ipv4
    then response_base_size + ipv4_addr_size
    else response_base_size + ipv6_addr_size
