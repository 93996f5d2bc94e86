-- ===== src/Socks5/Answer.antt =====
-- `handshake_finished` and `auth_finished`: the answer of two bytes, up to the state machine.
use tpe_protos.Common.{
  ℕ, suc, ◌-◌, ◌≤◌, ◌≡◌, ap, ◌∙◌, Bool, not, ◌||◌, List, [], ◌∷◌, ◌++◌, some, ℤ, leb-of_le, lt→ltb,
  arith, if◌then◌else◌, c_string,
}
use tpe_protos.Buffer.{Buffer, buffer_write_struct, buffer_reset}
use tpe_protos.Buffer.Inv.{IsValid}
use tpe_protos.Buffer.Queue
use tpe_protos.Buffer.Refine.{contents, view, write_struct_refines}
use tpe_protos.Parsers.Handshake.{HandshakeParser}
use tpe_protos.Parsers.Auth.{AuthParser}
use tpe_protos.Users.{auth_check_credentials}
use tpe_protos.Admin.Metrics.{ServerMetrics, metrics_add_bytes}
use tpe_protos.Admin.ServerData.{ServerData}
use tpe_protos.Replies.{create_handshake_response, create_auth_response}
use tpe_protos.Socks5.World.{Socks5Conn, SendAnswer, taken, System, World, ◌>>=◌}
use tpe_protos.Socks5.Calls.{op_write}
use tpe_protos.Socks5.Interest.{
  Sel, InTable, Keeps, Keeps-trans, InTable-Keeps, set_interest-returns,
}
use tpe_protos.Socks5.Connect.{write_out}
use tpe_protos.Socks5.Sending.{at_state, process, notify, socksv5_write-sends_all}
use tpe_protos.Socks5.Read.{handshake_finished, auth_finished}

-- An output buffer that is empty and has room for two bytes.
pub record IsReady (b : Buffer) : Type 0 where
  pub valid : IsValid b
  pub idle : contents b ≡ []
  pub roomy : 2 ≤ b.limit - b.write

write_struct-pair :
    (b : Buffer) (x y : ℕ)
    → IsReady b
    → (b' : Buffer) × (buffer_write_struct b (x ∷ y ∷ []) ≡ some b')
      × IsValid b'
      × (contents b' ≡ x ∷ y ∷ [])
unfolding Queue.push_all Queue.append
write_struct-pair b x y r =
    let (b', run, s) = write_struct_refines (x ∷ y ∷ []) r.valid in
    (b', run, s.valid, ap (λ q. q.items) s.shows ∙ pushed)
  where
    pushed : (Queue.push_all (x ∷ y ∷ []) (view b)).items ≡ x ∷ y ∷ []
    pushed =
        rw
          (
            lt→ltb 0 (b.limit - b.write) (omega (arith, r.roomy)),
            leb-of_le 2 (b.limit - b.write) r.roomy,
          )
          (ap (λ l. l ++ x ∷ y ∷ []) r.idle)

-- What the client is told of its offers.
abbrev pub answer : HandshakeParser → List ℕ
answer p = let r = create_handshake_response p.no_auth p.user_pass_auth in r.version ∷ r.method ∷ []

pub handshake_finished-answers :
    (fd : ℤ) (n : ℕ) (rest : List SendAnswer) (sel : Sel) (w : World) (d : ServerData)
    (m : ServerMetrics) (c : Socks5Conn) (sys : System) (p : HandshakeParser)
    → IsReady c.out_buff
    → InTable fd sel
    → InTable c.origin_fd sel
    → InTable c.client_fd sel
    → (b : Buffer) × (sel' : Sel) × (handshake_finished fd (
      sel,
      process w d m
          (at_state 0 (record c { handshake_parser = some p }))
          (record sys { sends = taken (suc (suc n)) ∷ rest }),
    )
        ≡ notify 0 (
          sel',
          process
              (record w { sent = w.sent ++ (c.client_fd, answer p) ∷ [] })
              d
              (metrics_add_bytes m 2)
              (at_state 0 (record c {
                handshake_parser = some p;
                out_buff = b;
                is_error_response = not (p.no_auth || p.user_pass_auth);
              }))
              (record sys { sends = rest }),
        ))
      × IsValid b
      × (contents b ≡ [])
      × Keeps sel sel'
unfolding handshake_finished write_out create_handshake_response
handshake_finished-answers fd n rest sel w d m c sys p r i io ic =
    let method = (create_handshake_response p.no_auth p.user_pass_auth).method in
    let (b, run, v, e) = write_struct-pair c.out_buff 5 method r in
    let sys' = record sys { sends = taken (suc (suc n)) ∷ rest } in
    let (status, sel1, e1, k1) =
      set_interest-returns fd op_write sel
        (process w d m (at_state 0 (record c { handshake_parser = some p; out_buff = b })) sys')
        i in
    let c' = record c {
      handshake_parser = some p;
      out_buff = b;
      is_error_response = not (p.no_auth || p.user_pass_auth);
    } in
    let (b2, sel2, run2, v2, e2, k2) =
      socksv5_write-sends_all (suc n) 0 rest sel1 w d m c' sys 5 (method ∷ []) v e (omega arith)
        (omega arith) (InTable-Keeps c.origin_fd sel sel1 k1 io)
        (InTable-Keeps c.client_fd sel sel1 k1 ic) in
    (b2, sel2, rw (run, ◌>>=◌, e1, ◌>>=◌) run2, v2, e2, Keeps-trans sel sel1 sel2 k1 k2)

-- Does the table know the user that the message names?
abbrev pub allowed : AuthParser → World → Bool
allowed p w = auth_check_credentials (c_string p.username) (c_string p.password) w.users

abbrev pub verdict : Bool → List ℕ
verdict auth_ok = let r = create_auth_response auth_ok in r.sub_negotiation_version ∷ r.status ∷ []

pub auth_finished-answers :
    (fd : ℤ) (n : ℕ) (rest : List SendAnswer) (sel : Sel) (w : World) (d : ServerData)
    (m : ServerMetrics) (c : Socks5Conn) (sys : System) (p : AuthParser)
    → IsReady c.out_buff
    → InTable fd sel
    → InTable c.origin_fd sel
    → InTable c.client_fd sel
    → (b : Buffer) × (sel' : Sel) × (auth_finished fd (
      sel,
      process w d m
          (at_state 1 (record c { auth_parser = some p }))
          (record sys { sends = taken (suc (suc n)) ∷ rest }),
    )
        ≡ notify 1 (
          sel',
          process
              (record w { sent = w.sent ++ (c.client_fd, verdict (allowed p w)) ∷ [] })
              d
              (metrics_add_bytes m 2)
              (at_state 1 (record c {
                auth_parser = some p;
                in_buff = buffer_reset c.in_buff;
                out_buff = b;
                is_error_response = not (allowed p w);
                username = if allowed p w then c_string p.username else c.username;
              }))
              (record sys { sends = rest }),
        ))
      × IsValid b
      × (contents b ≡ [])
      × Keeps sel sel'
unfolding auth_finished write_out create_auth_response
auth_finished-answers fd n rest sel w d m c sys p r i io ic =
    let status = (create_auth_response (allowed p w)).status in
    let (b, run, v, e) = write_struct-pair c.out_buff 1 status r in
    let sys' = record sys { sends = taken (suc (suc n)) ∷ rest } in
    let c1 = record c {
      auth_parser = some p;
      in_buff = buffer_reset c.in_buff;
      out_buff = b;
      is_error_response = not (allowed p w);
    } in
    let (_, sel1, e1, k1) =
      set_interest-returns fd op_write sel (process w d m (at_state 1 c1) sys') i in
    let c2 = record c1 { username = if allowed p w then c_string p.username else c.username } in
    let (b2, sel2, run2, v2, e2, k2) =
      socksv5_write-sends_all (suc n) 1 rest sel1 w d m c2 sys 1 (status ∷ []) v e (omega arith)
        (omega arith) (InTable-Keeps c.origin_fd sel sel1 k1 io)
        (InTable-Keeps c.client_fd sel sel1 k1 ic) in
    (b2, sel2, rw (run, ◌>>=◌, e1, ◌>>=◌) run2, v2, e2, Keeps-trans sel sel1 sel2 k1 k2)
