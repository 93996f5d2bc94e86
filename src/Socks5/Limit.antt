-- ===== src/Socks5/Limit.antt =====
-- `socksv5_passive_accept` and the number of connections.
use tpe_protos.Common.{
  ℕ, suc, ap, true, none, ◌≡◌, refl, Bool, false, List, [], ◌∷◌, ◌++◌, some, pos, ltb, arith,
}
use tpe_protos.Stm.{returns}
use tpe_protos.Admin.Metrics.{ServerMetrics, metrics_dec_curr_conn}
use tpe_protos.Admin.ServerData.{ServerData}
use tpe_protos.Socks5.World.{Socks5Conn, System, World, ◌>>=◌}
use tpe_protos.Socks5.Calls.{malloc}
use tpe_protos.Socks5.Interest.{Sel}
use tpe_protos.Socks5.Sending.{process}
use tpe_protos.Socks5.Closing.{HasClient, unregister-frees}
use tpe_protos.Socks5.Accept.{set_up}

-- The counter with `k` connections, where one more was counted before.
dec-suc :
    (k : ℕ) (m : ServerMetrics)
    → m.current_connections ≡ suc k
    → metrics_dec_curr_conn m ≡ record m { current_connections = k }
unfolding metrics_dec_curr_conn
dec-suc k m e =
    let open_one : ltb 0 m.current_connections ≡ true = ground (arith, e) in
    rw open_one (ap (λ q. record m { current_connections = q }) (omega (arith, e)))

-- Some connections are counted, and a new connection, registered in the selector with no origin, finds no
-- memory for its input buffer. It was not counted itself, and still the counter goes down by one: removing
-- its descriptor calls `socksv5_close`, which closes and frees it and counts one connection less.
pub set_up-uncounts :
    (n k : ℕ) (rest : List Bool) (sel : Sel) (w : World) (d : ServerData) (m : ServerMetrics)
    (c : Socks5Conn) (sys : System)
    → HasClient n sel
    → m.current_connections ≡ suc k
    → (sel' : Sel) × (set_up (pos (suc n)) (
      sel,
      process w d m (record c { origin_fd = pos 0 }) (record sys { allocations = false ∷ rest }),
    )
        ≡ returns (
          tt,
          (
            sel',
            record w {
              conn = none;
              system = record sys { allocations = rest };
              server_data = record d { metrics = some (record m { current_connections = k }) };
              closed = w.closed ++ pos (suc n) ∷ [];
            },
          ),
        ))
unfolding set_up malloc
set_up-uncounts n k rest sel w d m c sys h e =
    let (sel', run) = unregister-frees n sel w d m c (record sys { allocations = rest }) h in
    (sel', rw (run, ◌>>=◌, dec-suc k m e) refl)
