-- ===== src/Socks5/Closing.antt =====
-- Unregistering the client closes and frees the connection.
use tpe_protos.Common.{
  ℕ, suc, ◌<◌, ◌≡◌, refl, ◌∙◌, Option, none, some, pos, get_elem?, set, lt→ltb, arith, ◌∷◌, [],
  ◌++◌,
}
use tpe_protos.Stm.{returns, and_then}
use tpe_protos.Selector.{
  selector_success, items_update_fdset_for_fd, items_max_fd, op_noop, Item, items_max_size,
  selector_unregister_fd, item_at, item_used,
}
use tpe_protos.Admin.Metrics.{ServerMetrics, metrics_dec_curr_conn}
use tpe_protos.Admin.ServerData.{ServerData}
use tpe_protos.Socks5.World.{Handler, socks5_handler, Socks5Conn, System, World}
use tpe_protos.Socks5.Calls.{unregister, handle_close, socksv5_close, close, update_metrics}
use tpe_protos.Socks5.Interest.{Sel, Keeps}
use tpe_protos.Socks5.Sending.{process}

-- The client of a connection that has no origin yet is registered at `suc n`.
abbrev pub client_item : ℕ → ℕ → Option (Unit {0}) → Item Handler (Unit {0})
client_item fd interest user_data = record {
  fd = some fd;
  interest = interest;
  handler = some socks5_handler;
  user_data = user_data;
}

pub record HasClient (n : ℕ) (sel : Sel) : Type 0 where
  pub small : suc n < items_max_size
  pub interest : ℕ
  pub user_data : Option (Unit {0})
  pub registered : get_elem? sel.fds (suc n) ≡ some (client_item (suc n) interest user_data)

pub HasClient-Keeps : (n : ℕ) (sel sel' : Sel) → Keeps sel sel' → HasClient n sel → HasClient n sel'
HasClient-Keeps n sel sel' k h =
    let (it, e, f, g) =
      k.same_item (suc n) (client_item (suc n) h.interest h.user_data) h.registered in
    record {
      small = h.small;
      interest = it.interest;
      user_data = it.user_data;
      registered = e ∙ λ i.
          some
            (record { fd = f i; interest = it.interest; handler = g i; user_data = it.user_data });
    }

-- A connection to a client at `suc n`, with no origin.
abbrev pub alone : ℕ → Socks5Conn → Socks5Conn
alone n c = record c { client_fd = pos (suc n); origin_fd = pos 0 }

-- The process once the connection is freed.
abbrev pub freed : ℕ → World → ServerData → ServerMetrics → System → World
freed n w d m sys = record w {
  conn = none;
  system = sys;
  server_data = record d { metrics = some (metrics_dec_curr_conn m) };
  closed = w.closed ++ pos (suc n) ∷ [];
}

socksv5_close-frees :
    (n : ℕ) (sel : Sel) (w : World) (d : ServerData) (m : ServerMetrics) (c : Socks5Conn)
    (sys : System)
    → socksv5_close (sel, process w d m (alone n c) sys) ≡ returns (tt, (sel, freed n w d m sys))
unfolding socksv5_close close update_metrics
socksv5_close-frees n sel w d m c sys = rw (lt→ltb 0 (suc n) (omega arith)) refl

pub unregister-frees :
    (n : ℕ) (sel : Sel) (w : World) (d : ServerData) (m : ServerMetrics) (c : Socks5Conn)
    (sys : System)
    → HasClient n sel
    → (sel' : Sel) × (unregister (pos (suc n)) (sel, process w d m (alone n c) sys)
        ≡ returns (selector_success, (sel', freed n w d m sys)))
unfolding unregister selector_unregister_fd handle_close item_at item_used and_then
unregister-frees n sel w d m c sys h = (
  forgotten,
  rw
      (
        lt→ltb (suc n) items_max_size h.small,
        h.registered,
        and_then,
        socksv5_close-frees n sel w d m c sys,
        h.registered,
      )
      refl,
)
  where
    noop : Sel
    noop =
        items_update_fdset_for_fd
          (record (client_item (suc n) h.interest h.user_data) { interest = op_noop }) sel

    unused : Sel
    unused = record noop {
      fds =
          set noop.fds (suc n)
            (record { fd = none; interest = 0; handler = none; user_data = none });
    }

    forgotten : Sel
    forgotten = record unused { max_fd = items_max_fd unused }
