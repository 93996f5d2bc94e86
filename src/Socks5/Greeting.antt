-- ===== src/Socks5/Greeting.antt =====
-- `handshake_read` on the bytes of a greeting, against the reading of the message.
use tpe_protos.Common.{
  ℕ, zero, suc, ◌≤◌, ◌<◌, ◌≡◌, refl, ap, ◌∙◌, Bool, true, false, not, ◌||◌, List, [], ◌∷◌, ◌++◌,
  none, some, ℤ, pos, length, arith, if◌then◌else◌, Bool-cases, inl, inr,
}
use tpe_protos.Stm.{returns, outside}
use tpe_protos.Buffer.{Buffer}
use tpe_protos.Buffer.Inv.{IsValid, length-slice}
use tpe_protos.Buffer.Refine.{contents}
use tpe_protos.Parsers.Outcome.{complete, AreBytes}
use tpe_protos.Parsers.Handshake.{
  HandshakeParser, handshake_parser_init, handshake_parser_feed, handshake_done, handshake_error,
  parse,
}
use tpe_protos.Parsers.Handshake.Spec.{decode, result, handshake_parser_lem}
use tpe_protos.Parsers.Auth.{auth_parser_init}
use tpe_protos.Parsers.ConnReq.{conn_req_parser_init}
use tpe_protos.Admin.Metrics.{ServerMetrics, metrics_add_bytes}
use tpe_protos.Admin.ServerData.{ServerData}
use tpe_protos.Replies.{create_handshake_response}
use tpe_protos.Socks5.World.{Socks5Conn, SendAnswer, System, World, ◌>>=◌, ◌>>◌}
use tpe_protos.Socks5.Interest.{Sel, InTable, Keeps}
use tpe_protos.Socks5.Write.{socks5_auth, socks5_connection_req}
use tpe_protos.Socks5.Closing.{HasClient, HasClient-Keeps, alone}
use tpe_protos.Socks5.Sending.{at_state, process, notify}
use tpe_protos.Socks5.Read.{
  handshake_turn, handshake_finished, handshake_read, bytes_loop, stay, waiting, message_turn,
  read_byte,
}
use tpe_protos.Socks5.Reading.{loop-complete, can_read-cons, buffer_read-cons}
use tpe_protos.Socks5.Ends.{
  stay-at, completed, then_lem, then_same, loop-nothing, loop-freed, found_lem, willing, Reaches,
}
use tpe_protos.Socks5.Answer.{IsReady, answer, handshake_finished-answers}
use tpe_protos.Socks5.Login.{notify-user_pass, notify-no_auth, notify-error}

accepted_lem :
    (p : HandshakeParser) (no_auth user_pass_auth b : Bool)
    → result p ≡ (no_auth, user_pass_auth)
    → (no_auth || user_pass_auth) ≡ b
    → not (p.no_auth || p.user_pass_auth) ≡ not b
accepted_lem p no_auth user_pass_auth b e h = ap (λ r. not (r.0 || r.1)) e ∙ ap not h

or-true : (b : Bool) → (b || true) ≡ true
or-true true = refl
or-true false = refl

-- The method is "user and password" where it is offered.
answer_lem :
    (p : HandshakeParser) (no_auth user_pass_auth : Bool)
    → result p ≡ (no_auth, user_pass_auth)
    → answer p ≡ 5 ∷ (if user_pass_auth then 2 else if no_auth then 0 else 255) ∷ []
unfolding create_handshake_response
answer_lem p no_auth user_pass_auth e = rw (← ap (λ r. r.0) e, ← ap (λ r. r.1) e) refl

-- A connection in its handshake.
abbrev pub greeting : Socks5Conn → Buffer → HandshakeParser → Socks5Conn
greeting c b p = at_state 0 (record c { in_buff = b; handshake_parser = some p })

module _ (fd : ℤ) (sel : Sel) (w : World) (d : ServerData) (m : ServerMetrics) (c : Socks5Conn)
    (sys : System) where
  handshake_read-complete :
      (b : Buffer) (p p' : HandshakeParser) (rest : List ℕ)
      → IsValid b
      → parse p (contents b) ≡ complete p' rest
      → (k : ℕ) × (b' : Buffer) × (handshake_read fd (sel, process w d m (greeting c b p) sys)
          ≡ (do handshake_finished fd; bytes_loop (handshake_turn fd) stay k)
              (sel, process w d m (greeting c b' p') sys))
        × IsValid b'
        × (contents b' ≡ rest)
        × (length rest ≤ k)
  unfolding handshake_read handshake_turn
  handshake_read-complete b p p' rest v q =
      loop-complete (λ c. c.handshake_parser) (λ p c. record c { handshake_parser = some p })
        handshake_parser_feed handshake_done handshake_error
        (λ p next. do handshake_finished fd; next) stay 0 sel (process w d m c sys)
        (λ p. at_state 0 (record c { handshake_parser = some p })) (λ b p. refl) (λ b p p'. refl)
        (λ b p.
          stay-at 0 sel w d m (record c { in_buff = b; handshake_parser = some p }) sys
            (omega arith))
        (contents b) (waiting b) b p p' rest v refl (omega (arith, length-slice v)) q

-- A byte waits, and the parser is gone.
loop-no_parser :
    (fd : ℤ) (sel : Sel) (w : World) (d : ServerData) (m : ServerMetrics) (c : Socks5Conn)
    (sys : System) (k i x : ℕ) (xs : List ℕ)
    → IsValid c.in_buff
    → contents c.in_buff ≡ x ∷ xs
    → length (x ∷ xs) ≤ k
    → bytes_loop
        (handshake_turn fd)
        stay
        k
        (sel, process w d m (at_state i (record c { handshake_parser = none })) sys)
      ≡ outside
unfolding bytes_loop handshake_turn message_turn read_byte
loop-no_parser fd sel w d m c sys zero i x xs v e l = absurd (omega arith)
loop-no_parser fd sel w d m c sys (suc k) i x xs v e l =
    let (b', run, v', e') = buffer_read-cons c.in_buff x xs v e in
    rw (can_read-cons c.in_buff x xs v e, ◌>>=◌, read_byte, run) refl

-- The connection behind the handshake.
abbrev pub greeted : Socks5Conn → Buffer → Buffer → Socks5Conn
greeted c in_buff out_buff = record c {
  in_buff = in_buff;
  out_buff = out_buff;
  handshake_parser = none;
  is_error_response = false;
}

module _ (fd : ℤ) (n : ℕ) (rest : List SendAnswer) (spare : List Bool) (sel : Sel) (w : World)
    (d : ServerData) (m : ServerMetrics) (c : Socks5Conn) (sys : System) (stray : ℕ → ℕ)
    (b : Buffer) (p : HandshakeParser) where
  -- Up to the state machine: the offers are read, and answered.
  handshake_read-answers :
      (no_auth user_pass_auth : Bool) (behind : List ℕ)
      → handshake_parser_init true true stray ≡ some p
      → AreBytes (contents b)
      → decode (contents b) ≡ complete (no_auth, user_pass_auth) behind
      → IsValid b
      → IsReady c.out_buff
      → InTable fd sel
      → InTable c.origin_fd sel
      → InTable c.client_fd sel
      → (in_buff out_buff : Buffer) × (p' : HandshakeParser) × (k : ℕ) × (sel' : Sel)
        × (handshake_read fd (sel, process w d m (greeting c b p) (willing n rest spare sys))
            ≡ (do notify 0; bytes_loop (handshake_turn fd) stay k)
                (
                  sel',
                  process
                      (record w { sent = w.sent ++ (c.client_fd, answer p') ∷ [] })
                      d
                      (metrics_add_bytes m 2)
                      (at_state 0 (record c {
                        in_buff = in_buff;
                        out_buff = out_buff;
                        handshake_parser = some p';
                        is_error_response = not (p'.no_auth || p'.user_pass_auth);
                      }))
                      (record sys { sends = rest; allocations = true ∷ true ∷ spare }),
                ))
        × (result p' ≡ (no_auth, user_pass_auth))
        × IsValid in_buff
        × (contents in_buff ≡ behind)
        × IsValid out_buff
        × (contents out_buff ≡ [])
        × (length behind ≤ k)
        × Keeps sel sel'
  handshake_read-answers no_auth user_pass_auth behind i y e v r h ho hc =
      let (p', q, same) =
        completed result (parse p (contents b)) (no_auth, user_pass_auth) behind
          (handshake_parser_lem stray p (contents b) i y ∙ e) in
      let (k, b1, run, v1, e1, l) =
        handshake_read-complete fd sel w d m c (willing n rest spare sys) b p p' behind v q in
      let (b2, sel2, run2, v2, e2, keeps) =
        handshake_finished-answers fd n rest sel w d m (record c { in_buff = b1 })
          (record sys { allocations = true ∷ true ∷ spare }) p' r h ho hc in
      (
        b1,
        b2,
        p',
        k,
        sel2,
        run
            ∙ then_same (handshake_finished fd) (notify 0) (bytes_loop (handshake_turn fd) stay k) _
                _ run2,
        same,
        v1,
        e1,
        v2,
        e2,
        l,
        keeps,
      )

  -- A new parser, a valid buffer that holds a greeting that offers "user and password" and nothing behind
  -- it, an output buffer ready for the answer, descriptors in the table, memory for the next parser and a
  -- socket that takes the answer: the client is sent the method 2, and the machine stands in the
  -- authentication with a new parser and with both buffers valid and empty.
  pub handshake_read-user_pass :
      (no_auth : Bool)
      → handshake_parser_init true true stray ≡ some p
      → AreBytes (contents b)
      → decode (contents b) ≡ complete (no_auth, true) []
      → IsValid b
      → IsReady c.out_buff
      → InTable fd sel
      → InTable c.origin_fd sel
      → InTable c.client_fd sel
      → Reaches
          (handshake_read fd (sel, process w d m (greeting c b p) (willing n rest spare sys)))
          socks5_auth
          sel
          (λ (in_buff out_buff : Buffer).
            process
              (record w { sent = w.sent ++ (c.client_fd, 5 ∷ 2 ∷ []) ∷ [] })
              d
              (metrics_add_bytes m 2)
              (at_state socks5_auth (record (greeted c in_buff out_buff) {
                auth_parser =
                    auth_parser_init true true sys.memory.stray sys.memory.bytes sys.memory.bytes;
              }))
              (record sys { sends = rest; allocations = spare }))
  handshake_read-user_pass no_auth i y e v r h ho hc =
      let (b1, b2, p', k, sel2, run, same, v1, e1, v2, e2, l, keeps) =
        handshake_read-answers no_auth true [] i y e v r h ho hc in
      let m' = metrics_add_bytes m 2 in
      let sys' = record sys { sends = rest } in
      let offered : p'.user_pass_auth ≡ true = ap (λ r. r.1) same in
      let c' = record (greeted c b1 b2) {
        auth_parser = auth_parser_init true true sys.memory.stray sys.memory.bytes sys.memory.bytes;
      } in
      let told = λ (a : List ℕ). record w { sent = w.sent ++ (c.client_fd, a) ∷ [] } in
      let moved =
        notify-user_pass sel2 (told (answer p')) d m' (record c { in_buff = b1; out_buff = b2 })
          sys' spare p' (not (p'.no_auth || p'.user_pass_auth))
          (accepted_lem p' no_auth true true same (or-true no_auth)) offered in
      (
        b1,
        b2,
        sel2,
        run
            ∙ then_lem (notify 0) (bytes_loop (handshake_turn fd) stay k) _ _ moved
            ∙ loop-nothing sel2 (told (answer p')) d m' c' (record sys' { allocations = spare })
                (handshake_turn fd) k 1 v1 e1 (omega arith)
            ∙ ap
                (λ (a : List ℕ). returns (
                  1,
                  (
                    sel2,
                    process (told a) d m' (at_state 1 c') (record sys' { allocations = spare }),
                  ),
                ))
                (answer_lem p' no_auth true same),
        v1,
        e1,
        v2,
        e2,
        keeps,
      )

  -- Under the same conditions, a greeting that offers "no authentication" and not "user and password": the
  -- client is sent the method 0, and the machine waits for the request with a new parser and with both
  -- buffers valid and empty.
  pub handshake_read-no_auth :
      handshake_parser_init true true stray ≡ some p
      → AreBytes (contents b)
      → decode (contents b) ≡ complete (true, false) []
      → IsValid b
      → IsReady c.out_buff
      → InTable fd sel
      → InTable c.origin_fd sel
      → InTable c.client_fd sel
      → Reaches
          (handshake_read fd (sel, process w d m (greeting c b p) (willing n rest spare sys)))
          socks5_connection_req
          sel
          (λ (in_buff out_buff : Buffer).
            process
              (record w { sent = w.sent ++ (c.client_fd, 5 ∷ 0 ∷ []) ∷ [] })
              d
              (metrics_add_bytes m 2)
              (at_state socks5_connection_req (record (greeted c in_buff out_buff) {
                conn_req_parser = conn_req_parser_init true true sys.memory.stray sys.memory.bytes;
              }))
              (record sys { sends = rest; allocations = spare }))
  handshake_read-no_auth i y e v r h ho hc =
      let (b1, b2, p', k, sel2, run, same, v1, e1, v2, e2, l, keeps) =
        handshake_read-answers true false [] i y e v r h ho hc in
      let m' = metrics_add_bytes m 2 in
      let sys' = record sys { sends = rest } in
      let c' = record (greeted c b1 b2) {
        conn_req_parser = conn_req_parser_init true true sys.memory.stray sys.memory.bytes;
      } in
      let told = λ (a : List ℕ). record w { sent = w.sent ++ (c.client_fd, a) ∷ [] } in
      let moved =
        notify-no_auth sel2 (told (answer p')) d m' (record c { in_buff = b1; out_buff = b2 }) sys'
          spare p' (not (p'.no_auth || p'.user_pass_auth))
          (accepted_lem p' true false true same refl) (ap (λ r. r.1) same) in
      (
        b1,
        b2,
        sel2,
        run
            ∙ then_lem (notify 0) (bytes_loop (handshake_turn fd) stay k) _ _ moved
            ∙ loop-nothing sel2 (told (answer p')) d m' c' (record sys' { allocations = spare })
                (handshake_turn fd) k 2 v1 e1 (omega arith)
            ∙ ap
                (λ (a : List ℕ). returns (
                  2,
                  (
                    sel2,
                    process (told a) d m' (at_state 2 c') (record sys' { allocations = spare }),
                  ),
                ))
                (answer_lem p' true false same),
        v1,
        e1,
        v2,
        e2,
        keeps,
      )

  -- Under the same conditions, a greeting that offers one of the two methods, but with more bytes behind
  -- it in the buffer: the loop goes on to read them with a parser that is gone.
  pub handshake_read-pipelined :
      (no_auth user_pass_auth : Bool) (x : ℕ) (behind : List ℕ)
      → (no_auth || user_pass_auth) ≡ true
      → handshake_parser_init true true stray ≡ some p
      → AreBytes (contents b)
      → decode (contents b) ≡ complete (no_auth, user_pass_auth) (x ∷ behind)
      → IsValid b
      → IsReady c.out_buff
      → InTable fd sel
      → InTable c.origin_fd sel
      → InTable c.client_fd sel
      → handshake_read fd (sel, process w d m (greeting c b p) (willing n rest spare sys)) ≡ outside
  handshake_read-pipelined no_auth user_pass_auth x behind a i y e v r h ho hc =
      let (b1, b2, p', k, sel2, run, same, v1, e1, v2, e2, l, keeps) =
        handshake_read-answers no_auth user_pass_auth (x ∷ behind) i y e v r h ho hc in
      let w2 = record w { sent = w.sent ++ (c.client_fd, answer p') ∷ [] } in
      let m' = metrics_add_bytes m 2 in
      let sys' = record sys { sends = rest } in
      let c2 = record c { in_buff = b1; out_buff = b2 } in
      let accepted = accepted_lem p' no_auth user_pass_auth true same a in
      let left = record sys' { allocations = spare } in
      run ∙ elim (Bool-cases p'.user_pass_auth) [
        | inl u ↦
            then_lem (notify 0) (bytes_loop (handshake_turn fd) stay k) _ _
              (notify-user_pass sel2 w2 d m' c2 sys' spare p' _ accepted u)
            ∙ loop-no_parser fd sel2 w2 d m'
                (record (greeted c b1 b2) {
                  auth_parser =
                      auth_parser_init true true sys.memory.stray sys.memory.bytes sys.memory.bytes;
                })
                left k 1 x behind v1 e1 l
        | inr u ↦
            then_lem (notify 0) (bytes_loop (handshake_turn fd) stay k) _ _
              (notify-no_auth sel2 w2 d m' c2 sys' spare p' _ accepted u)
            ∙ loop-no_parser fd sel2 w2 d m'
                (record (greeted c b1 b2) {
                  conn_req_parser =
                      conn_req_parser_init true true sys.memory.stray sys.memory.bytes;
                })
                left k 2 x behind v1 e1 l
      ]

-- A greeting that offers neither method, from a client registered in the selector, with no origin, that
-- takes the answer: the connection is freed while the loop still reads its buffer.
pub handshake_read-refuses :
    (fd : ℤ) (n f : ℕ) (rest : List SendAnswer) (spare : List Bool) (sel : Sel) (w : World)
    (d : ServerData) (m : ServerMetrics) (c : Socks5Conn) (sys : System) (stray : ℕ → ℕ)
    (b : Buffer) (p : HandshakeParser) (behind : List ℕ)
    → handshake_parser_init true true stray ≡ some p
    → AreBytes (contents b)
    → decode (contents b) ≡ complete (false, false) behind
    → IsValid b
    → IsReady c.out_buff
    → InTable fd sel
    → 0 < length sel.fds
    → HasClient f sel
    → handshake_read fd (sel, process w d m (greeting (alone f c) b p) (willing n rest spare sys))
      ≡ outside
handshake_read-refuses fd n f rest spare sel w d m c sys stray b p behind i y e v r h ho hc =
    let (b1, b2, p', k, sel2, run, same, v1, e1, v2, e2, l, keeps) =
      handshake_read-answers fd n rest spare sel w d m (alone f c) sys stray b p false false behind
        i y e v r h ho (found_lem sel.fds (suc f) hc.registered) in
    let w2 = record w { sent = w.sent ++ (pos (suc f), answer p') ∷ [] } in
    let (sel3, moved) =
      notify-error f sel2 w2 d (metrics_add_bytes m 2) (record c { in_buff = b1; out_buff = b2 })
        (record sys { sends = rest; allocations = true ∷ true ∷ spare }) p' _
        (accepted_lem p' false false false same refl) (HasClient-Keeps f sel sel2 keeps hc) in
    run
    ∙ then_lem (notify 0) (bytes_loop (handshake_turn fd) stay k) _ _ moved
    ∙ loop-freed (handshake_turn fd) k f sel3 w2 d (metrics_add_bytes m 2)
        (record sys { sends = rest; allocations = true ∷ true ∷ spare })
