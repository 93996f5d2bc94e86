-- ===== src/Replies/Wire.antt =====
-- The replies as the client receives them.
use tpe_protos.Common.{
  ℕ, zero, suc, ◌+◌, ◌*◌, ◌≤◌, ◌<◌, ◌/◌, ◌%◌, ◌≡◌, refl, ◌⊎◌, inl, inr, true, false, List, [], ◌∷◌,
  ◌++◌, take, drop, length, take-all, length-append, get_or, arith, Bool-cases,
}
use tpe_protos.Parsers.Handshake.Spec.{offers}
use tpe_protos.Replies.{
  SockAddr, inet, inet6, SockData, create_handshake_response, create_conn_req_response,
  create_conn_req_error_response, conn_req_bytes, response_size, get_sock_data, htons,
}

-- Whatever methods a client offers, the reply made of the two flags selects a method among them,
-- or says that none is acceptable, and then neither 0 nor 2 was offered.
create_handshake_response_lem :
    (ms : List ℕ)
    → let r = create_handshake_response (offers 0 ms) (offers 2 ms) in
      (offers r.method ms ≡ true)
      ⊎ ((r.method ≡ 0xff) × (offers 0 ms ≡ false) × (offers 2 ms ≡ false))
unfolding create_handshake_response
create_handshake_response_lem ms = elim (Bool-cases (offers 2 ms)) [
  | inl e ↦ rw (e) (inl e)
  | inr e ↦ elim (Bool-cases (offers 0 ms)) [
    | inl f ↦ rw (e, f) (inl f)
    | inr f ↦ rw (e, f) (inr (refl, refl, refl))
  ]
]

-- A socket of an address of either family, and its port.
pub data Connected : SockAddr → ℕ → Type 0 where
  by_inet : (addr : List ℕ) (port : ℕ) → Connected (inet addr port) port
  by_inet6 : (addr : List ℕ) (port : ℕ) → Connected (inet6 addr port) port

-- All 22 bytes of a reply whose union was not written, the port in network order.
stray_address :
    (response port : ℕ) (union_bytes : List ℕ)
    → response < 256
    → port < 65536
    → length union_bytes ≡ 16
    → take 22 (
        5
        ∷ response % 256
        ∷ 0
        ∷ 4
        ∷ (union_bytes
            ++ (port % 256 * 256 + port / 256 % 256) % 256
              ∷ (port % 256 * 256 + port / 256 % 256) / 256 % 256
              ∷ []))
      ≡ 5 ∷ response ∷ 0 ∷ 4 ∷ (union_bytes ++ port / 256 ∷ port % 256 ∷ [])
stray_address response port union_bytes rr pp l =
    let m : response % 256 ≡ response = omega arith in
    let low : (port % 256 * 256 + port / 256 % 256) % 256 ≡ port / 256 = omega arith in
    let high : (port % 256 * 256 + port / 256 % 256) / 256 % 256 ≡ port % 256 = omega arith in
    rw (m, low, high)
      (take-all 22 (5 ∷ response ∷ 0 ∷ 4 ∷ (union_bytes ++ port / 256 ∷ port % 256 ∷ []))
        (omega (arith, length-append union_bytes (port / 256 ∷ port % 256 ∷ []))))

-- For a socket of either family, the bytes sent of a reply with a status are version 5, the
-- status, a zero, the address type of IPv6, the sixteen bytes that stood in the union before, and
-- the port in network order: the address of the socket is not sent.
pub create_conn_req_response_lem :
    (response port : ℕ) (sock : SockAddr) (before : SockData) (union_bytes : List ℕ)
    → Connected sock port
    → response < 256
    → port < 65536
    → length union_bytes ≡ 16
    → let r = create_conn_req_response response sock before union_bytes in
      take (response_size r) (conn_req_bytes r)
      ≡ 5 ∷ response ∷ 0 ∷ 4 ∷ (union_bytes ++ port / 256 ∷ port % 256 ∷ [])
unfolding create_conn_req_response get_sock_data htons conn_req_bytes response_size
create_conn_req_response_lem response _ _ before union_bytes (by_inet addr port) rr pp l =
    stray_address response port union_bytes rr pp l
create_conn_req_response_lem response _ _ before union_bytes (by_inet6 addr port) rr pp l =
    stray_address response port union_bytes rr pp l

take_two :
    (n : ℕ) (u r : List ℕ)
    → n + 2 ≤ length u
    → take 2 (drop n u ++ r) ≡ get_or u n 0 ∷ get_or u (suc n) 0 ∷ []
take_two n [] r h = absurd (omega arith)
take_two zero (a ∷ []) r h = absurd (omega arith)
take_two zero (a ∷ b ∷ u) r h = refl
take_two (suc n) (a ∷ u) r h = take_two n u r (omega arith)

-- The bytes sent of an error reply are version 5, the status, a zero, the address type of IPv4,
-- four zeros, and the two bytes that stood in the union at 4 and 5: the port field is not sent.
pub create_conn_req_error_response_lem :
    (response : ℕ) (union_bytes : List ℕ)
    → response < 256
    → length union_bytes ≡ 16
    → let r = create_conn_req_error_response response union_bytes in
      take (response_size r) (conn_req_bytes r)
      ≡ 5 ∷ response ∷ 0 ∷ 1 ∷ 0 ∷ 0 ∷ 0 ∷ 0 ∷ get_or union_bytes 4 0 ∷ get_or union_bytes 5 0 ∷ []
unfolding create_conn_req_error_response conn_req_bytes response_size
create_conn_req_error_response_lem response u rr l =
    let m : response % 256 ≡ response = omega arith in
    rw (m, take_two 4 u (0 ∷ 0 ∷ []) (omega arith))
