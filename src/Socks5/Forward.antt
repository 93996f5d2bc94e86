-- ===== src/Socks5/Forward.antt =====
-- The copy phase, from the client to the origin.
use tpe_protos.Common.{
  ℕ, suc, ◌-◌, ◌≤◌, ◌<◌, ◌≡◌, refl, ap, ◌∙◌, Bool, not, List, [], ◌∷◌, ◌++◌, ℤ, length, take, drop,
  leb-of_le, lt→ltb, arith, length-take,
}
use tpe_protos.Stm.{returns}
use tpe_protos.Buffer.{Buffer, buffer_can_read, buffer_can_write, buffer_read_ptr, buffer_compact}
use tpe_protos.Buffer.Inv.{IsValid, length-slice}
use tpe_protos.Buffer.Refine.{contents}
use tpe_protos.Socks5.World.{Socks5Conn, SendAnswer, taken, System, World, ◌>>=◌}
use tpe_protos.Socks5.Calls.{send, op_read}
use tpe_protos.Socks5.Interest.{Sel, InTable, Keeps, Keeps-trans, InTable-Keeps}
use tpe_protos.Socks5.Steps.{live, when_interest, advanced, first_of, drop_cons}
use tpe_protos.Socks5.Copy.{copy_write_handler, after_forward}

after_forward-returns :
    (full : Bool) (n : ℕ) (sel : Sel) (w : World) (c : Socks5Conn) (sys : System)
    → IsValid c.in_buff
    → n ≤ length (contents c.in_buff)
    → InTable c.origin_fd sel
    → InTable c.client_fd sel
    → (b : Buffer) × (sel' : Sel) × (after_forward full n (sel, live w c sys)
        ≡ returns (tt, (sel', live w (record c { in_buff = b }) sys)))
      × IsValid b
      × (contents b ≡ drop n (contents c.in_buff))
      × Keeps sel sel'
unfolding after_forward
after_forward-returns full n sel w c sys v h io ic =
    let (b, run, v', e) = advanced n v h in
    let w' = live w (record c { in_buff = buffer_compact b }) sys in
    let (sel1, e1, k1) =
      when_interest (not (buffer_can_read (buffer_compact b))) c.origin_fd op_read sel w' io in
    let (sel2, e2, k2) =
      when_interest full c.client_fd op_read sel1 w' (InTable-Keeps c.client_fd sel sel1 k1 ic) in
    (buffer_compact b, sel2, rw (run, ◌>>=◌, e1, ◌>>=◌) e2, v', e, Keeps-trans sel sel1 sel2 k1 k2)

copy_write_handler-step :
    (n : ℕ) (rest : List SendAnswer) (sel : Sel) (w : World) (c : Socks5Conn) (sys : System) (x : ℕ)
    (ys : List ℕ)
    → IsValid c.in_buff
    → contents c.in_buff ≡ x ∷ ys
    → copy_write_handler (sel, live w c (record sys { sends = taken (suc n) ∷ rest }))
      ≡ after_forward (not (buffer_can_write c.in_buff)) (suc (length (take n ys))) (
        sel,
        live
            (record w { sent = w.sent ++ (c.origin_fd, x ∷ take n ys) ∷ [] })
            c
            (record sys { sends = rest }),
      )
unfolding copy_write_handler send buffer_can_read buffer_read_ptr
copy_write_handler-step n rest sel w c sys x ys v e =
    rw
      (
        lt→ltb 0 (c.in_buff.write - c.in_buff.read) (omega (arith, length-slice v, ap length e)),
        leb-of_le c.in_buff.read c.in_buff.write v.ordered,
        ◌>>=◌,
        send,
        e,
      )
      refl

-- A valid buffer that is not empty, both descriptors in the table, and a `send` to the origin that takes
-- at least one byte: the bytes sent and the ones left in the buffer are, in this order, the bytes that
-- waited before, the buffer stays valid, and nothing else of the connection changes.
pub copy_write_handler-forwards :
    (n : ℕ) (rest : List SendAnswer) (sel : Sel) (w : World) (c : Socks5Conn) (sys : System)
    → IsValid c.in_buff
    → 0 < length (contents c.in_buff)
    → InTable c.origin_fd sel
    → InTable c.client_fd sel
    → (b : Buffer) × (sel' : Sel) × (x : ℕ) × (xs : List ℕ) × (copy_write_handler
          (sel, live w c (record sys { sends = taken (suc n) ∷ rest }))
        ≡ returns (
          tt,
          (
            sel',
            record (live w (record c { in_buff = b }) (record sys { sends = rest })) {
              sent = w.sent ++ (c.origin_fd, x ∷ xs) ∷ [];
            },
          ),
        ))
      × IsValid b
      × ((x ∷ xs) ++ contents b ≡ contents c.in_buff)
      × Keeps sel sel'
copy_write_handler-forwards n rest sel w c sys v h io ic =
    let (x, ys, e) = first_of (contents c.in_buff) h in
    let out : ℤ × List ℕ = (c.origin_fd, x ∷ take n ys) in
    let (b, sel', run, v', left, k) =
      after_forward-returns (not (buffer_can_write c.in_buff)) (suc (length (take n ys))) sel
        (record w { sent = w.sent ++ out ∷ [] }) c (record sys { sends = rest }) v
        (omega (arith, ap length e, length-take n ys)) io ic in
    (
      b,
      sel',
      x,
      take n ys,
      copy_write_handler-step n rest sel w c sys x ys v e ∙ run,
      v',
      drop_cons b c.in_buff n x ys e left,
      k,
    )
