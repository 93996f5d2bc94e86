-- ===== src/Socks5/Machine.antt =====
-- src/server/utils/stm.c on the machine inside a connection: a handler may reach the connection, and
-- so the machine, while the machine runs it.
use tpe_protos.Common.{
  ℕ, Bool, false, List, Option, none, some, ltb, ◌==◌, if◌then◌else◌, get_elem?,
}
use tpe_protos.Socks5.World.{
  Socks5Stm, Act, pure, abort, ◌>>=◌, ◌>>◌, deref, checked, get_conn, put_conn,
}

-- A row of `socks5_states`, but for the functions that read: they come later, since they write too.
pub record StateHooks : Type 0 where
  pub state : ℕ
  pub on_arrival : Option (Act (Unit {0}))
  pub on_departure : Option (Act (Unit {0}))
  pub on_write_ready : Option (Act ℕ)

-- A null hook does nothing.
abbrev pub call : Option (Act (Unit {0})) → Act (Unit {0})
call none = pure tt
call (some f) = f

unfoldable pub machine : Act Socks5Stm
machine = do c ← get_conn; deref c.stm

unfoldable pub set_current : ℕ → Act (Unit {0})
set_current i = do
  c ← get_conn
  m ← deref c.stm
  put_conn (record c { stm = some (record m { current = some i }) })

abbrev pub is_current : Option ℕ → ℕ → Bool
is_current none next = false
is_current (some i) next = i == next

module _ (hooks : List StateHooks) where
  unfoldable pub state_at : ℕ → Act StateHooks
  state_at i = deref (get_elem? hooks i)

  unfoldable pub arrive : ℕ → Act (Unit {0})
  arrive i = do h ← state_at i; call h.on_arrival

  unfoldable pub depart : Act (Unit {0})
  depart = do
    m ← machine
    elim m.current [ none ↦ pure tt | some i ↦ (do h ← state_at i; call h.on_departure) ]

  unfoldable pub handle_first : Act (Unit {0})
  handle_first = do
    m ← machine
    elim m.current [ none ↦ (do set_current m.initial; arrive m.initial) | some i ↦ pure tt ]

  unfoldable pub jump : ℕ → Act (Unit {0})
  jump next = do
    m ← machine
    if ltb m.max_state next
        then abort
        else if is_current m.current next
        then pure tt
        else (do depart; set_current next; arrive next)

  -- The body that the three handlers share: `ready` finds the function for the event in the row of
  -- the state; the jump reads the machine as that function leaves it.
  unfoldable pub handle : (ℕ → Act (Option (Act ℕ))) → Act ℕ
  handle ready = do
    handle_first
    m ← machine
    i ← deref m.current
    found ← ready i
    f ← checked found
    ret ← f
    jump ret
    pure ret

  unfoldable pub stm_handler_write : Act ℕ
  stm_handler_write = handle (λ i. do h ← state_at i; pure h.on_write_ready)

  -- `stm->current->state`
  unfoldable pub current_state : Act ℕ
  current_state = do m ← machine; i ← deref m.current; h ← state_at i; pure h.state

  unfoldable pub stm_handler_close : Act (Unit {0})
  stm_handler_close = depart

  -- `stm_state`: the initial state before the first event.
  unfoldable pub stm_state : Act ℕ
  stm_state = do
    m ← machine
    elim m.current [ none ↦ pure m.initial | some i ↦ (do h ← state_at i; pure h.state) ]
