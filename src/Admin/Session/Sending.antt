-- ===== src/Admin/Session/Sending.antt =====
-- `admin_write`: the answers that wait go to the administrator.
use tpe_protos.Common.{
  ℕ, suc, ◌-◌, ◌≤◌, ◌<◌, ◌≡◌, refl, ap, ◌∙◌, List, [], ◌∷◌, ◌++◌, ℤ, length, take, drop, leb-of_le,
  lt→ltb, arith, length-take,
}
use tpe_protos.Stm.{returns}
use tpe_protos.Buffer.{Buffer, buffer_can_read, buffer_read_ptr, buffer_compact}
use tpe_protos.Buffer.Inv.{IsValid, length-slice}
use tpe_protos.Buffer.Refine.{contents}
use tpe_protos.Admin.Session.{admin_write, admin_sent}
use tpe_protos.Admin.Session.Answers.{attended}
use tpe_protos.Socks5.World.{AdminConn, SendAnswer, taken, World, ◌>>=◌}
use tpe_protos.Socks5.Calls.{send, op_read}
use tpe_protos.Socks5.Interest.{Sel, InTable, Keeps, set_interest-returns}
use tpe_protos.Socks5.Steps.{advanced, first_of, drop_cons}

-- What `send` will answer.
abbrev pub taking_in : List SendAnswer → World → World
taking_in answers w = record w { system = record (w.system) { sends = answers } }

admin_write-step :
    (fd : ℤ) (n : ℕ) (rest : List SendAnswer) (sel : Sel) (w : World) (c : AdminConn) (x : ℕ)
    (ys : List ℕ)
    → IsValid c.out_buff
    → contents c.out_buff ≡ x ∷ ys
    → admin_write fd (sel, attended (taking_in (taken (suc n) ∷ rest) w) c)
      ≡ admin_sent fd (suc (length (take n ys))) c (
        sel,
        attended (record (taking_in rest w) { sent = w.sent ++ (fd, x ∷ take n ys) ∷ [] }) c,
      )
unfolding admin_write send buffer_can_read buffer_read_ptr
admin_write-step fd n rest sel w c x ys v e =
    rw
      (
        lt→ltb 0 (c.out_buff.write - c.out_buff.read) (omega (arith, length-slice v, ap length e)),
        leb-of_le c.out_buff.read c.out_buff.write v.ordered,
        ◌>>=◌,
        send,
        e,
      )
      refl

admin_sent-returns :
    (fd : ℤ) (n : ℕ) (sel : Sel) (w : World) (c : AdminConn)
    → IsValid c.out_buff
    → n ≤ length (contents c.out_buff)
    → InTable fd sel
    → (b : Buffer) × (sel' : Sel) × (admin_sent fd n c (sel, attended w c)
        ≡ returns (tt, (sel', attended w (record c { out_buff = b }))))
      × IsValid b
      × (contents b ≡ drop n (contents c.out_buff))
      × Keeps sel sel'
unfolding admin_sent
admin_sent-returns fd n sel w c v h ht =
    let (b, run, v', left) = advanced n v h in
    let (status, sel', set, keeps) =
      set_interest-returns fd op_read sel (attended w (record c { out_buff = buffer_compact b }))
        ht in
    (buffer_compact b, sel', rw (run, ◌>>=◌, set) refl, v', left, keeps)

-- A valid buffer of answers that is not empty, the descriptor in the table, and a `send` that takes at least
-- one byte: the bytes sent to the administrator and the ones left in the buffer are, in this order, the bytes
-- that waited before, the buffer stays valid, and nothing else changes but the interest.
pub admin_write-sends :
    (fd : ℤ) (n : ℕ) (rest : List SendAnswer) (sel : Sel) (w : World) (c : AdminConn)
    → IsValid c.out_buff
    → 0 < length (contents c.out_buff)
    → InTable fd sel
    → (b : Buffer) × (sel' : Sel) × (x : ℕ) × (xs : List ℕ) × (admin_write fd
          (sel, attended (taking_in (taken (suc n) ∷ rest) w) c)
        ≡ returns (
          tt,
          (
            sel',
            attended
                (record (taking_in rest w) { sent = w.sent ++ (fd, x ∷ xs) ∷ [] })
                (record c { out_buff = b }),
          ),
        ))
      × IsValid b
      × ((x ∷ xs) ++ contents b ≡ contents c.out_buff)
      × Keeps sel sel'
admin_write-sends fd n rest sel w c v h ht =
    let (x, ys, e) = first_of (contents c.out_buff) h in
    let sent : ℤ × List ℕ = (fd, x ∷ take n ys) in
    let (b, sel', run, v', left, keeps) =
      admin_sent-returns fd (suc (length (take n ys))) sel
        (record (taking_in rest w) { sent = w.sent ++ sent ∷ [] }) c v
        (omega (arith, ap length e, length-take n ys)) ht in
    (
      b,
      sel',
      x,
      take n ys,
      admin_write-step fd n rest sel w c x ys v e ∙ run,
      v',
      drop_cons b c.out_buff n x ys e left,
      keeps,
    )
