-- ===== src/Socks5/Authentication.antt =====
-- `auth_read` on the bytes of a user and password message, against the reading of the message.
use tpe_protos.Common.{
  ℕ, suc, ◌<◌, ◌≡◌, refl, ap, ◌∙◌, Bool, true, false, not, List, [], ◌∷◌, ◌++◌, none, some, ℤ, pos,
  length, arith, if◌then◌else◌, c_string,
}
use tpe_protos.Stm.{returns, outside}
use tpe_protos.Buffer.{Buffer, buffer_reset}
use tpe_protos.Buffer.Inv.{IsValid, length-slice, buffer_reset-IsValid}
use tpe_protos.Buffer.Refine.{contents}
use tpe_protos.Parsers.Outcome.{complete, map_outcome, AreBytes}
use tpe_protos.Parsers.Auth.{
  AuthParser, auth_parser_init, auth_parser_feed, auth_done, auth_error, parse,
}
use tpe_protos.Parsers.Auth.Spec.{decode, strings, as_strings, auth_parser_lem}
use tpe_protos.Parsers.ConnReq.{conn_req_parser_init}
use tpe_protos.Users.{auth_check_credentials}
use tpe_protos.Replies.{create_auth_response}
use tpe_protos.Admin.Metrics.{ServerMetrics, metrics_add_bytes}
use tpe_protos.Admin.ServerData.{ServerData}
use tpe_protos.Socks5.World.{Socks5Conn, SendAnswer, System, World, ◌>>◌}
use tpe_protos.Socks5.Interest.{Sel, InTable, Keeps}
use tpe_protos.Socks5.Write.{socks5_connection_req}
use tpe_protos.Socks5.Closing.{HasClient, HasClient-Keeps, alone}
use tpe_protos.Socks5.Sending.{at_state, process, notify}
use tpe_protos.Socks5.Read.{auth_turn, auth_finished, auth_read, bytes_loop, stay, waiting}
use tpe_protos.Socks5.Reading.{loop-complete}
use tpe_protos.Socks5.Ends.{
  stay-at, completed, then_lem, then_same, loop-nothing, loop-freed, found_lem, willing, Reaches,
}
use tpe_protos.Socks5.Answer.{IsReady, verdict, auth_finished-answers}
use tpe_protos.Socks5.Login.{notify-logged_in, notify-denied}

-- A connection in its authentication.
abbrev pub asking : Socks5Conn → Buffer → AuthParser → Socks5Conn
asking c b p = at_state 1 (record c { in_buff = b; auth_parser = some p })

-- The table of the process knows the user of the message.
abbrev pub knows : World → List ℕ × List ℕ → Bool
knows w (uname, passwd) = auth_check_credentials (c_string uname) (c_string passwd) w.users

module _ (fd : ℤ) (n : ℕ) (rest : List SendAnswer) (spare : List Bool) (sel : Sel) (w : World)
    (d : ServerData) (m : ServerMetrics) (c : Socks5Conn) (sys : System) (stray : ℕ → ℕ)
    (garbage garbage' : List ℕ) (b : Buffer) (p : AuthParser) (message : List ℕ × List ℕ)
    (behind : List ℕ) (i : auth_parser_init true true stray garbage garbage' ≡ some p)
    (long : length garbage ≡ 256) (long' : length garbage' ≡ 256) (y : AreBytes (contents b))
    (e : decode (contents b) ≡ complete message behind) (v : IsValid b) (r : IsReady c.out_buff)
    (h : InTable fd sel) (ho : InTable c.origin_fd sel) (hc : InTable c.client_fd sel) where
  -- Up to the state machine: the credentials are looked up, and the client is told.
  auth_read-answers :
      (in_buff out_buff : Buffer) × (p' : AuthParser) × (k : ℕ) × (sel' : Sel) × (auth_read fd
          (sel, process w d m (asking c b p) (willing n rest spare sys))
        ≡ (do notify 1; bytes_loop (auth_turn fd) stay k)
            (
              sel',
              process
                  (record w { sent = w.sent ++ (c.client_fd, verdict (knows w message)) ∷ [] })
                  d
                  (metrics_add_bytes m 2)
                  (at_state 1 (record c {
                    in_buff = in_buff;
                    out_buff = out_buff;
                    auth_parser = some p';
                    is_error_response = not (knows w message);
                    username = if knows w message then c_string message.0 else c.username;
                  }))
                  (record sys { sends = rest; allocations = true ∷ true ∷ spare }),
            ))
      × IsValid in_buff
      × (contents in_buff ≡ [])
      × IsValid out_buff
      × (contents out_buff ≡ [])
      × Keeps sel sel'
  unfolding auth_read auth_turn buffer_reset
  auth_read-answers =
      let (p', q, same) = completed strings (parse p (contents b)) (as_strings message) behind (
        auth_parser_lem stray garbage garbage' p (contents b) i long long' y
        ∙ ap (map_outcome as_strings) e) in
      let (k, b1, run, v1, e1, l) =
        loop-complete (λ c. c.auth_parser) (λ p c. record c { auth_parser = some p })
          auth_parser_feed auth_done auth_error (λ p next. do auth_finished fd; next) stay 1 sel
          (process w d m c (willing n rest spare sys))
          (λ p. at_state 1 (record c { auth_parser = some p })) (λ b p. refl) (λ b p p'. refl)
          (λ b p.
            stay-at 1 sel w d m (record c { in_buff = b; auth_parser = some p })
              (willing n rest spare sys) (omega arith))
          (contents b) (waiting b) b p p' behind v refl (omega (arith, length-slice v)) q in
      let (b2, sel2, run2, v2, e2, keeps) =
        auth_finished-answers fd n rest sel w d m (record c { in_buff = b1 })
          (record sys { allocations = true ∷ true ∷ spare }) p' r h ho hc in
      (
        buffer_reset b1,
        b2,
        p',
        k,
        sel2,
        run
            ∙ then_same (auth_finished fd) (notify 1) (bytes_loop (auth_turn fd) stay k) _ _ run2
            ∙ ap (λ t. (do notify 1; bytes_loop (auth_turn fd) stay k) (sel2, answered b1 b2 p' t))
                same,
        buffer_reset-IsValid v1,
        refl,
        v2,
        e2,
        keeps,
      )
    where
      answered : Buffer → Buffer → AuthParser → List ℕ × List ℕ → World
      answered b1 b2 p' t =
          let known = auth_check_credentials t.0 t.1 w.users in
          process (record w { sent = w.sent ++ (c.client_fd, verdict known) ∷ [] }) d
            (metrics_add_bytes m 2)
            (at_state 1 (record c {
              in_buff = buffer_reset b1;
              out_buff = b2;
              auth_parser = some p';
              is_error_response = not known;
              username = if known then t.0 else c.username;
            }))
            (record sys { sends = rest; allocations = true ∷ true ∷ spare })

  -- A new parser, a valid buffer that holds a whole message of credentials that are in the table, an
  -- output buffer ready for the answer, memory for the next parser and a socket that takes the answer: the
  -- client is sent the answer of success, its two bytes are counted, the connection has the name of the
  -- user, and the machine waits for the request with both buffers valid and empty.
  pub auth_read-accepts :
      knows w message ≡ true
      → Reaches
          (auth_read fd (sel, process w d m (asking c b p) (willing n rest spare sys)))
          socks5_connection_req
          sel
          (λ (in_buff out_buff : Buffer).
            process
              (record w { sent = w.sent ++ (c.client_fd, 1 ∷ 0 ∷ []) ∷ [] })
              d
              (metrics_add_bytes m 2)
              (at_state socks5_connection_req (record c {
                in_buff = in_buff;
                out_buff = out_buff;
                auth_parser = none;
                conn_req_parser = conn_req_parser_init true true sys.memory.stray sys.memory.bytes;
                is_error_response = false;
                username = c_string message.0;
              }))
              (record sys { sends = rest; allocations = spare }))
  unfolding create_auth_response
  auth_read-accepts known =
      let (b1, b2, p', k, sel2, run, v1, e1, v2, e2, keeps) = auth_read-answers in
      let w2 = record w { sent = w.sent ++ (c.client_fd, verdict (knows w message)) ∷ [] } in
      let m' = metrics_add_bytes m 2 in
      let name = if knows w message then c_string message.0 else c.username in
      let moved =
        notify-logged_in sel2 w2 d m' (record c { in_buff = b1; out_buff = b2; username = name })
          (record sys { sends = rest }) p' (not (knows w message)) spare (ap not known) in
      let c' = λ (u : List ℕ). record c {
        in_buff = b1;
        out_buff = b2;
        auth_parser = none;
        conn_req_parser = conn_req_parser_init true true sys.memory.stray sys.memory.bytes;
        is_error_response = false;
        username = u;
      } in
      let left = record sys { sends = rest; allocations = spare } in
      (
        b1,
        b2,
        sel2,
        run
            ∙ then_lem (notify 1) (bytes_loop (auth_turn fd) stay k) _ _ moved
            ∙ loop-nothing sel2 w2 d m' (c' name) left (auth_turn fd) k 2 v1 e1 (omega arith)
            ∙ ap
                (λ (t : Bool). returns (
                  2,
                  (
                    sel2,
                    process (record w { sent = w.sent ++ (c.client_fd, verdict t) ∷ [] }) d m'
                        (at_state 2 (c' (if t then c_string message.0 else c.username))) left,
                  ),
                ))
                known,
        v1,
        e1,
        v2,
        e2,
        keeps,
      )

-- A new parser, a valid buffer that holds a whole message of credentials that are not in the table, an
-- output buffer ready for the answer, from a client registered in the selector, with no origin, that takes
-- the answer: the connection is freed while the loop still reads its buffer.
pub auth_read-denies :
    (fd : ℤ) (n f : ℕ) (rest : List SendAnswer) (spare : List Bool) (sel : Sel) (w : World)
    (d : ServerData) (m : ServerMetrics) (c : Socks5Conn) (sys : System) (stray : ℕ → ℕ)
    (garbage garbage' : List ℕ) (b : Buffer) (p : AuthParser) (message : List ℕ × List ℕ)
    (behind : List ℕ)
    → auth_parser_init true true stray garbage garbage' ≡ some p
    → length garbage ≡ 256
    → length garbage' ≡ 256
    → AreBytes (contents b)
    → decode (contents b) ≡ complete message behind
    → IsValid b
    → IsReady c.out_buff
    → InTable fd sel
    → 0 < length sel.fds
    → HasClient f sel
    → knows w message ≡ false
    → auth_read fd (sel, process w d m (asking (alone f c) b p) (willing n rest spare sys))
      ≡ outside
auth_read-denies fd n f rest spare sel w d m c sys stray garbage garbage' b p message behind i long
      long' y e v r h ho hc unknown =
    let (b1, b2, p', k, sel2, run, v1, e1, v2, e2, keeps) =
      auth_read-answers fd n rest spare sel w d m (alone f c) sys stray garbage garbage' b p message
        behind i long long' y e v r h ho (found_lem sel.fds (suc f) hc.registered) in
    let w2 = record w { sent = w.sent ++ (pos (suc f), verdict (knows w message)) ∷ [] } in
    let left = record sys { sends = rest; allocations = true ∷ true ∷ spare } in
    let name = if knows w message then c_string message.0 else c.username in
    let (sel3, moved) =
      notify-denied sel2 w2 d (metrics_add_bytes m 2)
        (record c { in_buff = b1; out_buff = b2; username = name }) left p' (not (knows w message))
        f (ap not unknown) (HasClient-Keeps f sel sel2 keeps hc) in
    run
    ∙ then_lem (notify 1) (bytes_loop (auth_turn fd) stay k) _ _ moved
    ∙ loop-freed (auth_turn fd) k f sel3 w2 d (metrics_add_bytes m 2) left
