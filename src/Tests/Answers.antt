-- ===== src/Tests/Answers.antt =====
-- Replies on concrete inputs, over a memory of zeros and ones.
use tpe_protos.Common.{◌≡◌, refl, [], ◌∷◌, replicate, take, arith}
use tpe_protos.Replies.{
  inet, SockData, create_conn_req_response, create_conn_req_error_response, conn_req_bytes,
  response_size,
}
use tpe_protos.Replies.Wire.{
  by_inet, create_conn_req_response_lem, create_conn_req_error_response_lem,
}

abbrev before : SockData
before = record { atyp = 0; addr = replicate 46 1; port = 0 }

create_conn_req_response_lem_example :
    let r = create_conn_req_response 0 (inet (127 ∷ 0 ∷ 0 ∷ 1 ∷ []) 1080) before (replicate 16 1) in
    take (response_size r) (conn_req_bytes r)
    ≡ 5 ∷ 0 ∷ 0 ∷ 4 ∷ 1 ∷ 1 ∷ 1 ∷ 1 ∷ 1 ∷ 1 ∷ 1 ∷ 1 ∷ 1 ∷ 1 ∷ 1 ∷ 1 ∷ 1 ∷ 1 ∷ 1 ∷ 1 ∷ 4 ∷ 56 ∷ []
create_conn_req_response_lem_example =
    create_conn_req_response_lem 0 1080 (inet (127 ∷ 0 ∷ 0 ∷ 1 ∷ []) 1080) before (replicate 16 1)
      (by_inet (127 ∷ 0 ∷ 0 ∷ 1 ∷ []) 1080) (ground arith) (ground arith) refl

create_conn_req_error_response_lem_example :
    let r = create_conn_req_error_response 4 (replicate 16 1) in
    take (response_size r) (conn_req_bytes r) ≡ 5 ∷ 4 ∷ 0 ∷ 1 ∷ 0 ∷ 0 ∷ 0 ∷ 0 ∷ 1 ∷ 1 ∷ []
create_conn_req_error_response_lem_example =
    create_conn_req_error_response_lem 4 (replicate 16 1) (ground arith) refl
