-- ===== src/Socks5/Copy.antt =====
-- src/server/socks5/states_handlers/socks5_copy.c: bytes between the client and the origin.
use tpe_protos.Common.{
  ℕ, zero, suc, Bool, true, false, not, [], ◌∷◌, pos, if◌then◌else◌, take, drop, length,
}
use tpe_protos.Buffer.{
  buffer_can_read, buffer_can_write, buffer_read_ptr, buffer_write_ptr, buffer_read_adv,
  buffer_write_adv, buffer_compact,
}
use tpe_protos.Selector.{SelectorStatus, selector_success}
use tpe_protos.Socks5.World.{
  received, recv_again, recv_failed, taken, send_again, send_failed, Act, pure, ◌>>=◌, ◌>>◌,
  checked, get_conn, put_conn, when,
}
use tpe_protos.Socks5.Calls.{op_noop, op_read, op_write, recv, send, unregister, set_interest, fill}
use tpe_protos.Socks5.Write.{socks5_copy, socks5_error, socksv5_write}

-- The origin and the client are unregistered, whatever their descriptors are.
unfoldable pub unregister_both : Act (Unit {0})
unregister_both = do
  c ← get_conn
  unregister c.origin_fd
  c' ← get_conn
  unregister c'.client_fd
  pure tt

unfoldable pub copy_read_handler : Act (Unit {0})
copy_read_handler = do
  c ← get_conn
  if not (buffer_can_write c.out_buff)
      then (do set_interest c.origin_fd op_noop; set_interest c.client_fd op_write; pure tt)
      else (do
        r ← checked (buffer_write_ptr c.out_buff)
        answer ← recv r.1
        elim answer [
          | received [] ↦ (do unregister c.origin_fd; pure tt)
          | received (byte ∷ bytes) ↦ (do
            out_buff ←
                checked
                  (buffer_write_adv (fill c.out_buff (byte ∷ bytes)) (pos (length (byte ∷ bytes))))
            put_conn (record c { out_buff = out_buff })
            set_interest c.client_fd op_write
            socksv5_write)
          | recv_again ↦ pure tt
          | recv_failed ↦ unregister_both
        ])

-- Behind a `send` that took `n` bytes.
unfoldable pub after_forward : Bool → ℕ → Act (Unit {0})
after_forward full_buffer n = do
  c ← get_conn
  in_buff ← checked (buffer_read_adv c.in_buff (pos n))
  put_conn (record c { in_buff = buffer_compact in_buff })
  when (not (buffer_can_read (buffer_compact in_buff)))
      (do set_interest c.origin_fd op_read; pure tt)
  when full_buffer (do set_interest c.client_fd op_read; pure tt)

unfoldable pub copy_write_handler : Act (Unit {0})
copy_write_handler = do
  c ← get_conn
  if not (buffer_can_read c.in_buff) then (do set_interest c.origin_fd op_noop; pure tt) else (do
    let full_buffer = not (buffer_can_write c.in_buff)
    r ← checked (buffer_read_ptr c.in_buff)
    answer ← send c.origin_fd (take r.1 (drop r.0 c.in_buff.mem))
    elim answer [
      | taken zero ↦ unregister_both
      | taken (suc n) ↦ after_forward full_buffer (suc n)
      | send_again ↦ pure tt
      | send_failed ↦ unregister_both
    ])

abbrev pub is_success : SelectorStatus → Bool
is_success selector_success = true
is_success other = false

unfoldable pub copy_read : Act ℕ
copy_read = do
  c ← get_conn
  status ← set_interest c.origin_fd op_write
  if is_success status then (do copy_write_handler; pure socks5_copy) else pure socks5_error
