-- ===== src/Admin/Session/Answers.antt =====
-- A line of the administrator, from the bytes received to the answer in the output buffer.
use tpe_protos.Common.{
  ℕ, ◌+◌, ◌-◌, ◌<◌, ◌≡◌, ◌≢◌, refl, List, [], ◌∷◌, ◌++◌, some, ℤ, pos, length, c_string, arith,
  lt→ltb, leb-of_le,
}
use tpe_protos.Stm.{returns}
use tpe_protos.Buffer.{
  Buffer, copy_to, buffer_can_write, buffer_write_ptr, buffer_write_adv, buffer_read_adv,
}
use tpe_protos.Buffer.Inv.{IsValid}
use tpe_protos.Buffer.Refine.{contents}
use tpe_protos.Admin.Command.Words.{words}
use tpe_protos.Admin.Config.{config_handler}
use tpe_protos.Admin.Config.Replies.{Serves, Settings, with_settings, config_handler-Answers}
use tpe_protos.Admin.Session.{room, answer_line, admin_answer, admin_command, cut_line}
use tpe_protos.Admin.Session.Lines.{
  ended, spare, from_read, line_taken, line_consumed, length-room, answer_stored,
}
use tpe_protos.Socks5.World.{AdminConn, World, ◌>>=◌}
use tpe_protos.Socks5.Calls.{op_write, set_interest}
use tpe_protos.Selector.{SelectorStatus}
use tpe_protos.Socks5.Interest.{Sel, InTable, Keeps, set_interest-returns}

-- A process with an administrator.
abbrev pub attended : World → AdminConn → World
attended w c = record w { admin = some c }

pub Serves-attended : (w : World) (c : AdminConn) → Serves w → Serves (attended w c)
Serves-attended w c v = record {
  metrics = v.metrics;
  counted = v.counted;
  register = v.register;
  registered = v.registered;
  in_order = v.in_order;
}

-- The connection once a zero ends the line in front.
abbrev pub line_ended : AdminConn → List ℕ → AdminConn
line_ended c line = record c { in_buff = record (c.in_buff) { mem = ended c.in_buff line } }

admin_answer-runs :
    (fd : ℤ) (i k : ℕ) (line text : List ℕ) (sel sel' : Sel) (w w' : World) (c : AdminConn)
    (in_buff out_buff : Buffer) (status : SelectorStatus)
    → answer_line line (room c.out_buff) (sel, attended w c)
      ≡ returns ((k, text), (sel, attended w' c))
    → buffer_read_adv
        (record (c.in_buff) {
          mem = copy_to c.in_buff.mem c.in_buff.read (cut_line w'.system.memory.cut line);
        })
        (pos (i + 1))
      ≡ some in_buff
    → buffer_write_adv
        (record (c.out_buff) { mem = copy_to c.out_buff.mem c.out_buff.write text })
        (pos k)
      ≡ some out_buff
    → set_interest fd op_write
        (sel, attended w' (record c { in_buff = in_buff; out_buff = out_buff }))
      ≡ returns (status, (sel', attended w' (record c { in_buff = in_buff; out_buff = out_buff })))
    → admin_answer fd i line c (sel, attended w c)
      ≡ returns (tt, (sel', attended w' (record c { in_buff = in_buff; out_buff = out_buff })))
unfolding admin_answer
admin_answer-runs fd i k line text sel sel' w w' c in_buff out_buff status run run_in run_out set =
    rw (admin_answer, run, ◌>>=◌, run_in, run_out, set) refl

module _ (fd : ℤ) (sel : Sel) (w : World) (c : AdminConn) (x : ℕ) (xs behind : List ℕ)
    (vi : IsValid c.in_buff) (vo : IsValid c.out_buff) (serves : Serves w)
    (e : contents c.in_buff ≡ (x ∷ xs) ++ 10 ∷ behind) (word : words (x ∷ xs) ≢ [])
    (free : 0 < c.out_buff.limit - c.out_buff.write)
    (cut : length (w.system.memory.cut (x ∷ xs)) ≡ length (x ∷ xs)) (ht : InTable fd sel) where
  pub admin_command-answers :
      (text : List ℕ) × (s : Settings) × (in_buff out_buff : Buffer) × (sel' : Sel) × (admin_command
          fd
          (length (x ∷ xs))
          (sel, attended w c)
        ≡ returns (
          tt,
          (
            sel',
            attended (with_settings s w) (record c { in_buff = in_buff; out_buff = out_buff }),
          ),
        ))
      × (config_handler (x ∷ xs) (room c.out_buff) (sel, attended w (line_ended c (x ∷ xs)))
          ≡ returns (
            (length (c_string text), text),
            (sel, attended (with_settings s w) (line_ended c (x ∷ xs))),
          ))
      × IsValid in_buff
      × (contents in_buff ≡ behind)
      × IsValid out_buff
      × (contents out_buff ≡ contents c.out_buff ++ c_string text)
      × Keeps sel sel'
  unfolding admin_command buffer_can_write buffer_write_ptr answer_line
  admin_command-answers =
      let (text, s, run, sized, ends) =
        config_handler-Answers (x ∷ xs) (room c.out_buff) sel (attended w (line_ended c (x ∷ xs)))
          word (Serves-attended w (line_ended c (x ∷ xs)) serves)
          (omega (arith, length-room c.out_buff vo)) in
      let (in_buff, run_in, v1, l1, e1) =
        line_consumed c.in_buff (x ∷ xs) behind vi e (w.system.memory.cut (x ∷ xs)) cut in
      let (out_buff, run_out, v2, l2, e2) = answer_stored c.out_buff text vo sized ends in
      let w' = attended (with_settings s w) (record c { in_buff = in_buff; out_buff = out_buff }) in
      let (status, sel', set, keeps) = set_interest-returns fd op_write sel w' ht in
      (
        text,
        s,
        in_buff,
        out_buff,
        sel',
        rw
            (
              lt→ltb 0 (c.out_buff.limit - c.out_buff.write) free,
              leb-of_le c.out_buff.write c.out_buff.limit vo.bounded,
              line_taken c.in_buff (x ∷ xs) (behind ++ spare c.in_buff (x ∷ xs) behind vi e)
                  (from_read c.in_buff (x ∷ xs) behind vi e),
            )
            (admin_answer-runs fd (length (x ∷ xs)) (length (c_string text)) (x ∷ xs) text sel sel'
              w (with_settings s w) (line_ended c (x ∷ xs)) in_buff out_buff status run run_in
              run_out set),
        run,
        v1,
        e1,
        v2,
        e2,
        keeps,
      )
