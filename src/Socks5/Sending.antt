-- ===== src/Socks5/Sending.antt =====
-- `socksv5_write` where the client's socket takes bytes.
use tpe_protos.Common.{
  ℕ, zero, suc, ◌-◌, ◌≤◌, ◌<◌, ◌≡◌, refl, sym, ap, ◌∙◌, Bool, not, ◌&&◌, List, [], ◌∷◌, ◌++◌, some,
  ℤ, length, take, drop, leb-of_le, lt→ltb, arith, if◌then◌else◌, length-take, take-all,
}
use tpe_protos.Stm.{Run, returns}
use tpe_protos.Buffer.{Buffer, buffer_can_read, buffer_can_write, buffer_read_ptr, buffer_compact}
use tpe_protos.Buffer.Inv.{IsValid, length-slice}
use tpe_protos.Buffer.Refine.{contents}
use tpe_protos.Admin.Metrics.{ServerMetrics, metrics_add_bytes}
use tpe_protos.Admin.ServerData.{ServerData}
use tpe_protos.Socks5.World.{
  Socks5Conn, SendAnswer, taken, System, World, State, Act, pure, ◌>>=◌, ◌>>◌, when,
}
use tpe_protos.Socks5.Calls.{send, op_read, op_write, is_positive, update_metrics}
use tpe_protos.Socks5.Interest.{
  Sel, InTable, Keeps, Keeps-trans, InTable-Keeps, set_interest-returns,
}
use tpe_protos.Socks5.Machine.{current_state, state_at, machine, stm_handler_write}
use tpe_protos.Socks5.Steps.{when_interest, advanced, first_of, drop_cons, drop-length}
use tpe_protos.Socks5.Write.{socks5_hooks, has_write_handler, after_send, socksv5_write}

-- A connection whose machine is in state `i`.
abbrev pub at_state : ℕ → Socks5Conn → Socks5Conn
at_state i c = record c { stm = some (record { initial = 0; max_state = 7; current = some i }) }

-- A process with a connection, a system and counters.
abbrev pub process : World → ServerData → ServerMetrics → Socks5Conn → System → World
process w d m c sys = record w {
  conn = some c;
  system = sys;
  server_data = record d { metrics = some m };
}

pub current_state-at :
    (i : ℕ) (sel : Sel) (w : World) (d : ServerData) (m : ServerMetrics) (c : Socks5Conn)
    (sys : System)
    → i < 7
    → current_state socks5_hooks (sel, process w d m (at_state i c) sys)
      ≡ returns (i, (sel, process w d m (at_state i c) sys))
unfolding current_state machine state_at socks5_hooks
current_state-at zero sel w d m c sys h = refl
current_state-at (suc zero) sel w d m c sys h = refl
current_state-at (suc (suc zero)) sel w d m c sys h = refl
current_state-at (suc (suc (suc zero))) sel w d m c sys h = refl
current_state-at (suc (suc (suc (suc zero)))) sel w d m c sys h = refl
current_state-at (suc (suc (suc (suc (suc zero))))) sel w d m c sys h = refl
current_state-at (suc (suc (suc (suc (suc (suc zero)))))) sel w d m c sys h = refl
current_state-at (suc (suc (suc (suc (suc (suc (suc i))))))) sel w d m c sys h =
    absurd (omega arith)

-- What the state machine does once bytes are out.
abbrev pub notify : ℕ → Act (Unit {0})
notify i = when (has_write_handler i) (do stm_handler_write socks5_hooks; pure tt)

after_send-returns :
    (full : Bool) (n i : ℕ) (sel : Sel) (w : World) (d : ServerData) (m : ServerMetrics)
    (c : Socks5Conn) (sys : System)
    → IsValid c.out_buff
    → n ≤ length (contents c.out_buff)
    → i < 7
    → InTable c.origin_fd sel
    → InTable c.client_fd sel
    → (b : Buffer) × (sel' : Sel) × (after_send full n (sel, process w d m (at_state i c) sys)
        ≡ notify i (
          sel',
          process w d (metrics_add_bytes m n) (at_state i (record c { out_buff = b })) sys,
        ))
      × IsValid b
      × (contents b ≡ drop n (contents c.out_buff))
      × Keeps sel sel'
unfolding after_send update_metrics
after_send-returns full n i sel w d m c sys v h l io ic =
    let (b, run, v', e) = advanced n v h in
    let m' = metrics_add_bytes m n in
    let w1 = process w d m' (at_state i (record c { out_buff = b })) sys in
    let (status, sel1, e1, k1) =
      set_interest-returns c.client_fd (if buffer_can_read b then op_write else op_read) sel w1
        ic in
    let io1 = InTable-Keeps c.origin_fd sel sel1 k1 io in
    let (sel2, e2, k2) =
      when_interest (buffer_can_read c.in_buff) c.origin_fd op_write sel1 w1 io1 in
    let (sel3, e3, k3) =
      when_interest full c.origin_fd op_read sel2 w1 (InTable-Keeps c.origin_fd sel1 sel2 k2 io1) in
    let e4 = current_state-at i sel3 w d m' (record c { out_buff = buffer_compact b }) sys l in
    (
      buffer_compact b,
      sel3,
      rw (run, ◌>>=◌, e1, ◌>>=◌, e2, ◌>>=◌, e3, ◌>>=◌, e4, ◌>>=◌) refl,
      v',
      e,
      Keeps-trans sel sel1 sel3 k1 (Keeps-trans sel1 sel2 sel3 k2 k3),
    )

socksv5_write-step :
    (n i : ℕ) (rest : List SendAnswer) (sel : Sel) (w : World) (d : ServerData) (m : ServerMetrics)
    (c : Socks5Conn) (sys : System) (x : ℕ) (ys : List ℕ)
    → IsValid c.out_buff
    → contents c.out_buff ≡ x ∷ ys
    → socksv5_write
        (sel, process w d m (at_state i c) (record sys { sends = taken (suc n) ∷ rest }))
      ≡ after_send
          (is_positive c.origin_fd && not (buffer_can_write c.out_buff))
          (suc (length (take n ys)))
          (
            sel,
            process
                (record w { sent = w.sent ++ (c.client_fd, x ∷ take n ys) ∷ [] })
                d
                m
                (at_state i c)
                (record sys { sends = rest }),
          )
unfolding socksv5_write send buffer_can_read buffer_read_ptr
socksv5_write-step n i rest sel w d m c sys x ys v e =
    rw
      (
        lt→ltb 0 (c.out_buff.write - c.out_buff.read) (omega (arith, length-slice v, ap length e)),
        leb-of_le c.out_buff.read c.out_buff.write v.ordered,
        ◌>>=◌,
        send,
        e,
      )
      refl

-- A valid buffer that is not empty, a state of the machine, both descriptors in the table, and a `send` to
-- the client that takes at least one byte: the bytes sent and the ones left in the buffer are, in this
-- order, the bytes that waited before, and the socket got as many as it takes. The bytes are counted,
-- nothing else of the connection changes, and then the state machine is told.
pub socksv5_write-sends :
    (n i : ℕ) (rest : List SendAnswer) (sel : Sel) (w : World) (d : ServerData) (m : ServerMetrics)
    (c : Socks5Conn) (sys : System)
    → IsValid c.out_buff
    → 0 < length (contents c.out_buff)
    → i < 7
    → InTable c.origin_fd sel
    → InTable c.client_fd sel
    → (b : Buffer) × (sel' : Sel) × (x : ℕ) × (xs : List ℕ) × (socksv5_write
          (sel, process w d m (at_state i c) (record sys { sends = taken (suc n) ∷ rest }))
        ≡ notify i (
          sel',
          process
              (record w { sent = w.sent ++ (c.client_fd, x ∷ xs) ∷ [] })
              d
              (metrics_add_bytes m (suc (length xs)))
              (at_state i (record c { out_buff = b }))
              (record sys { sends = rest }),
        ))
      × IsValid b
      × ((x ∷ xs) ++ contents b ≡ contents c.out_buff)
      × (x ∷ xs ≡ take (suc n) (contents c.out_buff))
      × Keeps sel sel'
socksv5_write-sends n i rest sel w d m c sys v h l io ic =
    let (x, ys, e) = first_of (contents c.out_buff) h in
    let out : ℤ × List ℕ = (c.client_fd, x ∷ take n ys) in
    let (b, sel', run, v', left, k) =
      after_send-returns (is_positive c.origin_fd && not (buffer_can_write c.out_buff))
        (suc (length (take n ys))) i sel (record w { sent = w.sent ++ out ∷ [] }) d m c
        (record sys { sends = rest }) v (omega (arith, ap length e, length-take n ys)) l io ic in
    (
      b,
      sel',
      x,
      take n ys,
      socksv5_write-step n i rest sel w d m c sys x ys v e ∙ run,
      v',
      drop_cons b c.out_buff n x ys e left,
      sym (ap (take (suc n)) e),
      k,
    )

-- The client's socket takes all that waits.
pub socksv5_write-sends_all :
    (n i : ℕ) (rest : List SendAnswer) (sel : Sel) (w : World) (d : ServerData) (m : ServerMetrics)
    (c : Socks5Conn) (sys : System) (x : ℕ) (xs : List ℕ)
    → IsValid c.out_buff
    → contents c.out_buff ≡ x ∷ xs
    → length xs ≤ n
    → i < 7
    → InTable c.origin_fd sel
    → InTable c.client_fd sel
    → (b : Buffer) × (sel' : Sel) × (socksv5_write
          (sel, process w d m (at_state i c) (record sys { sends = taken (suc n) ∷ rest }))
        ≡ notify i (
          sel',
          process
              (record w { sent = w.sent ++ (c.client_fd, x ∷ xs) ∷ [] })
              d
              (metrics_add_bytes m (suc (length xs)))
              (at_state i (record c { out_buff = b }))
              (record sys { sends = rest }),
        ))
      × IsValid b
      × (contents b ≡ [])
      × Keeps sel sel'
socksv5_write-sends_all n i rest sel w d m c sys x xs v e l h io ic =
    let (b, sel', run, v', left, k) =
      after_send-returns (is_positive c.origin_fd && not (buffer_can_write c.out_buff))
        (suc (length xs)) i sel (record w { sent = w.sent ++ out ∷ [] }) d m c
        (record sys { sends = rest }) v (omega (arith, ap length e)) h io ic in
    (
      b,
      sel',
      socksv5_write-step n i rest sel w d m c sys x xs v e ∙ ap after (take-all n xs l) ∙ run,
      v',
      left ∙ ap (drop (suc (length xs))) e ∙ drop-length xs,
      k,
    )
  where
    out : ℤ × List ℕ
    out = (c.client_fd, x ∷ xs)

    after : List ℕ → Run (Unit {0} × State)
    after ys =
        after_send (is_positive c.origin_fd && not (buffer_can_write c.out_buff)) (suc (length ys))
          (
            sel,
            process (record w { sent = w.sent ++ (c.client_fd, x ∷ ys) ∷ [] }) d m (at_state i c)
                (record sys { sends = rest }),
          )
