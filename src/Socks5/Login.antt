-- ===== src/Socks5/Login.antt =====
-- The handshake of a connection: what a greeting that is read to its end leads to.
use tpe_protos.Common.{ℕ, suc, ◌≡◌, refl, Bool, true, false, List, ◌∷◌, none, some, lt→ltb, arith}
use tpe_protos.Stm.{returns}
use tpe_protos.Parsers.Handshake.{HandshakeParser}
use tpe_protos.Parsers.Auth.{AuthParser, auth_parser_init}
use tpe_protos.Parsers.ConnReq.{conn_req_parser_init}
use tpe_protos.Admin.Metrics.{ServerMetrics}
use tpe_protos.Admin.ServerData.{ServerData}
use tpe_protos.Socks5.World.{Socks5Conn, System, World, ◌>>=◌}
use tpe_protos.Socks5.Calls.{malloc}
use tpe_protos.Socks5.Interest.{Sel}
use tpe_protos.Socks5.Machine.{
  stm_handler_write, handle, handle_first, jump, depart, arrive, set_current, machine, state_at,
}
use tpe_protos.Socks5.Write.{
  socks5_hooks, auth_write, auth_on_departure, handshake_write, handshake_on_departure,
  auth_on_arrival, connection_req_on_arrival, malloc_parser, has_write_handler, handle_error,
  unregister_if_open,
}
use tpe_protos.Socks5.Closing.{HasClient, alone, freed, unregister-frees}
use tpe_protos.Socks5.Sending.{at_state, process, notify}

module _ (sel : Sel) (w : World) (d : ServerData) (m : ServerMetrics) (c : Socks5Conn)
    (sys : System) (more : List Bool) (p : HandshakeParser) where
  abbrev pub given : System
  given = record sys { allocations = true ∷ true ∷ more }

  -- "User and password" is offered: the machine moves on to the authentication.
  pub notify-user_pass :
      (e : Bool)
      → e ≡ false
      → p.user_pass_auth ≡ true
      → notify 0 (
        sel,
        process w d m
            (at_state 0 (record c { handshake_parser = some p; is_error_response = e }))
            given,
      )
        ≡ returns (
          tt,
          (
            sel,
            process w d m
                (at_state 1 (record c {
                  handshake_parser = none;
                  auth_parser =
                      auth_parser_init true true sys.memory.stray sys.memory.bytes sys.memory.bytes;
                  is_error_response = false;
                }))
                (record sys { allocations = more }),
          ),
        )
  unfolding has_write_handler stm_handler_write handle handle_first jump depart arrive set_current
      machine state_at socks5_hooks handshake_write handshake_on_departure auth_on_arrival
      malloc_parser malloc
  notify-user_pass e h u = rw h (simp u refl)

  -- Only "no authentication" is offered: the request comes next.
  pub notify-no_auth :
      (e : Bool)
      → e ≡ false
      → p.user_pass_auth ≡ false
      → notify 0 (
        sel,
        process w d m
            (at_state 0 (record c { handshake_parser = some p; is_error_response = e }))
            given,
      )
        ≡ returns (
          tt,
          (
            sel,
            process w d m
                (at_state 2 (record c {
                  handshake_parser = none;
                  conn_req_parser =
                      conn_req_parser_init true true sys.memory.stray sys.memory.bytes;
                  is_error_response = false;
                }))
                (record sys { allocations = more }),
          ),
        )
  unfolding has_write_handler stm_handler_write handle handle_first jump depart arrive set_current
      machine state_at socks5_hooks handshake_write handshake_on_departure connection_req_on_arrival
      malloc_parser malloc
  notify-no_auth e h u = rw h (simp u refl)

-- An answer that refuses: the machine runs into its error state, where the connection is freed.
pub notify-error :
    (n : ℕ) (sel : Sel) (w : World) (d : ServerData) (m : ServerMetrics) (c : Socks5Conn)
    (sys : System) (p : HandshakeParser) (e : Bool)
    → e ≡ true
    → HasClient n sel
    → (sel' : Sel) × (notify 0 (
      sel,
      process w d m
          (at_state 0 (record (alone n c) { handshake_parser = some p; is_error_response = e }))
          sys,
    )
        ≡ returns (tt, (sel', freed n w d m sys)))
unfolding has_write_handler stm_handler_write handle handle_first jump depart arrive set_current
    machine state_at socks5_hooks handshake_write handshake_on_departure handle_error
    unregister_if_open
notify-error n sel w d m c sys p e h r =
    let c' = at_state 6 (record c { handshake_parser = none; is_error_response = true }) in
    let (sel', run) = unregister-frees n sel w d m c' sys r in
    (sel', rw h (rw (lt→ltb 0 (suc n) (omega arith), run, ◌>>=◌) refl))

module _ (sel : Sel) (w : World) (d : ServerData) (m : ServerMetrics) (c : Socks5Conn)
    (sys : System) (p : AuthParser) (e : Bool) where
  -- The credentials are good: the request comes next.
  pub notify-logged_in :
      (more : List Bool)
      → e ≡ false
      → notify 1 (
        sel,
        process w d m
            (at_state 1 (record c { auth_parser = some p; is_error_response = e }))
            (record sys { allocations = true ∷ true ∷ more }),
      )
        ≡ returns (
          tt,
          (
            sel,
            process w d m
                (at_state 2 (record c {
                  auth_parser = none;
                  conn_req_parser =
                      conn_req_parser_init true true sys.memory.stray sys.memory.bytes;
                  is_error_response = false;
                }))
                (record sys { allocations = more }),
          ),
        )
  unfolding has_write_handler stm_handler_write handle handle_first jump depart arrive set_current
      machine state_at socks5_hooks auth_write auth_on_departure connection_req_on_arrival
      malloc_parser malloc
  notify-logged_in more h = rw h refl

  -- They are not: the connection is freed.
  pub notify-denied :
      (n : ℕ)
      → e ≡ true
      → HasClient n sel
      → (sel' : Sel) × (notify 1 (
        sel,
        process w d m
            (at_state 1 (record (alone n c) { auth_parser = some p; is_error_response = e }))
            sys,
      )
          ≡ returns (tt, (sel', freed n w d m sys)))
  unfolding has_write_handler stm_handler_write handle handle_first jump depart arrive set_current
      machine state_at socks5_hooks auth_write auth_on_departure handle_error unregister_if_open
  notify-denied n h r =
      let c' = at_state 6 (record c { auth_parser = none; is_error_response = true }) in
      let (sel', run) = unregister-frees n sel w d m c' sys r in
      (sel', rw h (rw (lt→ltb 0 (suc n) (omega arith), run, ◌>>=◌) refl))
