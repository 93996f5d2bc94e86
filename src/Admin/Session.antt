-- ===== src/Admin/Session.antt =====
-- src/server/s5admin/s5admin.c: the connection of an administrator. `fd` is the descriptor of the key.
pub mod Lines
pub mod Answers
pub mod Received
pub mod Sending
use tpe_protos.Common.{
  ℕ, zero, suc, ◌+◌, ◌-◌, ◌*◌, ◌/◌, ◌%◌, Bool, true, false, not, List, [], ◌∷◌, ◌++◌, Option, none,
  some, ℤ, pos, negsuc, ◌==◌, if◌then◌else◌, take, drop, set, replicate, length, c_string, codes,
}
use tpe_protos.Buffer.{
  Buffer, copy_to, buffer_init, buffer_reset, buffer_can_read, buffer_can_write, buffer_read_ptr,
  buffer_write_ptr, buffer_read_adv, buffer_write_adv, buffer_compact,
}
use tpe_protos.Admin.Config.{config_handler}
use tpe_protos.Admin.Print.{snprintf}
use tpe_protos.Socks5.World.{
  admin_handler, AdminConn, received, recv_again, recv_failed, taken, send_again, send_failed, Act,
  pure, dangling, ◌>>=◌, ◌>>◌, deref, checked, gets, modify,
}
use tpe_protos.Socks5.Calls.{
  op_read, op_write, malloc, recv, send, close, unregister, set_interest, fill,
}
use tpe_protos.Socks5.Accept.{passive_accept}

abbrev pub max_cmd_len : ℕ
max_cmd_len = 1024

abbrev pub max_response_len : ℕ
max_response_len = 1024 * 100

abbrev pub get_admin : Act AdminConn
get_admin = do a ← gets (λ w. w.admin); deref a

abbrev pub put_admin : AdminConn → Act (Unit {0})
put_admin c = modify (λ w. record w { admin = some c })

-- What `calloc` gives, with the two arrays.
unfoldable pub zero_admin : AdminConn
zero_admin = record {
  fd = pos 0;
  in_buff = record { mem = replicate max_cmd_len 0; limit = 0; read = 0; write = 0 };
  out_buff = record { mem = replicate max_response_len 0; limit = 0; read = 0; write = 0 };
}

-- `passive_accept` takes the data for a `socks5_conn_t`: with pointers of 8 bytes the address and the
-- port that it writes come to stand in `in_data`.
unfoldable pub set_source : Option (List ℕ × ℕ) → AdminConn → AdminConn
set_source none c = c
set_source (some (address, port)) c = record c {
  in_buff = record (c.in_buff) {
    mem = copy_to (copy_to c.in_buff.mem 56 (address ++ 0 ∷ [])) 102 (port % 256 ∷ port / 256 ∷ []);
  };
}

unfoldable pub s5admin_passive_accept : Act (Unit {0})
s5admin_passive_accept = do
  allocated ← malloc
  if not allocated then pure tt else (do
    put_admin zero_admin
    fd ← passive_accept admin_handler (λ source. do c ← get_admin; put_admin (set_source source c))
    elim fd [
      | negsuc n ↦ modify (λ w. record w { admin = none })
      | pos n ↦ (do
        c ← get_admin
        put_admin (record c {
          fd = pos n;
          in_buff = buffer_init max_cmd_len c.in_buff.mem;
          out_buff = buffer_init max_response_len c.out_buff.mem;
        }))
    ])

-- `strchr` of a newline: its index, none in front of the zero, or no zero in the array.
pub data Search : Type 0 where
  found : ℕ → Search
  absent : Search
  beyond : Search

abbrev pub one_further : Search → Search
one_further (found i) = found (suc i)
one_further absent = absent
one_further beyond = beyond

unfoldable pub find_newline : List ℕ → Search
find_newline [] = beyond
find_newline (c ∷ cs) =
    let rest = find_newline cs in
    if c == 10 then found 0 else if c == 0 then absent else one_further rest

-- What the line, which a zero ends now, is answered: the length, and the array. `strcpy` of the empty
-- line writes a zero.
unfoldable pub answer_line : List ℕ → List ℕ → Act (ℕ × List ℕ)
answer_line [] response = pure (1, copy_to response 0 (0 ∷ []))
answer_line (c ∷ cs) response = config_handler (c ∷ cs) response

-- The array from the write pointer of a buffer to its end.
abbrev pub room : Buffer → List ℕ
room b = take (b.limit - b.write) (drop b.write b.mem)

-- The line in its array, once `strtok_r` has cut it.
abbrev pub cut_line : (List ℕ → List ℕ) → List ℕ → List ℕ
cut_line cut [] = []
cut_line cut (c ∷ cs) = cut (c ∷ cs)

-- The line, of `i` characters, is carried out, and the answer stands in the output buffer.
unfoldable pub admin_answer : ℤ → ℕ → List ℕ → AdminConn → Act (Unit {0})
admin_answer fd i line c = do
  r ← answer_line line (room c.out_buff)
  cut ← gets (λ w. w.system.memory.cut)
  let used = record (c.in_buff) { mem = copy_to c.in_buff.mem c.in_buff.read (cut_line cut line) }
  in_buff ← checked (buffer_read_adv used (pos (i + 1)))
  let filled = record (c.out_buff) { mem = copy_to c.out_buff.mem c.out_buff.write r.1 }
  out_buff ← checked (buffer_write_adv filled (pos r.0))
  put_admin (record c { in_buff = in_buff; out_buff = out_buff })
  set_interest fd op_write
  pure tt

-- A newline stands `i` characters behind the read pointer.
unfoldable pub admin_command : ℤ → ℕ → Act (Unit {0})
admin_command fd i = do
  old ← get_admin
  let mem = set old.in_buff.mem (old.in_buff.read + i) 0
  let c = record old { in_buff = record (old.in_buff) { mem = mem } }
  put_admin c
  if not (buffer_can_write c.out_buff) then pure tt else (do
    checked (buffer_write_ptr c.out_buff)
    admin_answer fd i (take i (drop c.in_buff.read mem)) c)

abbrev pub too_long : List ℕ
too_long = codes "ERROR: command too long\n"

-- No newline stands in front of the zero.
unfoldable pub admin_too_long : ℤ → Act (Unit {0})
admin_too_long fd = do
  c ← get_admin
  out_buff ←
      (if buffer_can_write c.out_buff
        then (do
          let response = snprintf (room c.out_buff) 0 too_long
          let filled = record (c.out_buff) {
            mem = copy_to c.out_buff.mem c.out_buff.write response;
          }
          out ← checked (buffer_write_adv filled (pos (length (c_string response))))
          set_interest fd op_write
          pure out)
        else pure c.out_buff)
  put_admin (record c { in_buff = buffer_reset c.in_buff; out_buff = out_buff })

abbrev pub hang_up : AdminConn → Act (Unit {0})
hang_up c = do unregister c.fd; pure tt

-- Behind a `recv` of some bytes.
unfoldable pub admin_received : ℤ → List ℕ → Act (Unit {0})
admin_received fd bytes = do
  c ← get_admin
  in_buff ← checked (buffer_write_adv (fill c.in_buff bytes) (pos (length bytes)))
  put_admin (record c { in_buff = in_buff })
  r ← checked (buffer_read_ptr in_buff)
  elim (find_newline (drop r.0 in_buff.mem)) [
    | found i ↦ admin_command fd i
    | absent ↦ admin_too_long fd
    | beyond ↦ dangling
  ]

unfoldable pub admin_read : ℤ → Act (Unit {0})
admin_read fd = do
  c ← get_admin
  if not (buffer_can_write c.in_buff) then hang_up c else (do
    r ← checked (buffer_write_ptr c.in_buff)
    answer ← recv r.1
    elim answer [
      | received [] ↦ hang_up c
      | received (byte ∷ bytes) ↦ admin_received fd (byte ∷ bytes)
      | recv_again ↦ hang_up c
      | recv_failed ↦ hang_up c
    ])

-- Behind a `send` of `n` bytes.
unfoldable pub admin_sent : ℤ → ℕ → AdminConn → Act (Unit {0})
admin_sent fd n c = do
  out_buff ← checked (buffer_read_adv c.out_buff (pos n))
  put_admin (record c { out_buff = buffer_compact out_buff })
  set_interest fd op_read
  pure tt

-- Where `send` fails, the connection is read once more after `admin_close` has freed it.
unfoldable pub admin_write : ℤ → Act (Unit {0})
admin_write fd = do
  c ← get_admin
  if not (buffer_can_read c.out_buff) then pure tt else (do
    r ← checked (buffer_read_ptr c.out_buff)
    answer ← send fd (take r.1 (drop r.0 c.out_buff.mem))
    elim answer [
      | taken n ↦ admin_sent fd n c
      | send_again ↦ pure tt
      | send_failed ↦ (do
        unregister c.fd
        c' ← get_admin
        close c'.fd
        modify (λ w. record w { admin = none }))
    ])
