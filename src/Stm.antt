-- ===== src/Stm.antt =====
-- src/server/utils/stm.c and include/stm.h: what a call comes to, and `stm_init` on a table of states. The
-- functions that run the machine are in Socks5.Machine, on the machine inside a connection.
pub mod Init
use tpe_protos.Common.{
  ℕ, zero, suc, ◌+◌, List, Option, none, some, Bool, true, ltb, ◌==◌, if◌then◌else◌, get_elem?,
}

-- What a call comes to: it returns, it calls `abort`, it reads memory that is not there (a state outside
-- the array, a null pointer, an object that was freed), or the fuel of a loop runs out.
pub data Run {ℓ} (A : Type ℓ) : Type ℓ where
  returns : A → Run A
  aborts : Run A
  outside : Run A
  unfinished : Run A

unfoldable pub and_then {ℓ} : {A B : Type ℓ} → Run A → (A → Run B) → Run B
and_then (returns a) f = f a
and_then aborts f = aborts
and_then outside f = outside
and_then unfinished f = unfinished

-- `struct state_definition`; a null handler is `none`. A hook acts on all that the key reaches, the machine
-- included, and may abort or read what is not there.
pub record StateDefinition (Key : Type 0) : Type 0 where
  pub state : ℕ
  pub on_arrival : Option (ℕ → Key → Run Key)
  pub on_departure : Option (ℕ → Key → Run Key)
  pub on_read_ready : Option (Key → Run (ℕ × Key))
  pub on_write_ready : Option (Key → Run (ℕ × Key))
  pub on_block_ready : Option (Key → Run (ℕ × Key))

-- `struct state_machine`; the pointer `current` is an index into `states`.
pub record StateMachine (Key : Type 0) : Type 0 where
  pub initial : ℕ
  pub states : List (StateDefinition Key)
  pub max_state : ℕ
  pub current : Option ℕ

module _ {Key : Type 0} where
  -- The definition at an index.
  unfoldable pub at : List (StateDefinition Key) → ℕ → Run (StateDefinition Key)
  at states i = read (get_elem? states i)
    where
      read : Option (StateDefinition Key) → Run (StateDefinition Key)
      read none = outside
      read (some d) = returns d

  -- The loop of `stm_init` from index `i`, with `left` turns to go.
  unfoldable pub check_states : List (StateDefinition Key) → ℕ → ℕ → Run Bool
  check_states states i zero = returns true
  check_states states i (suc left) =
      let rest = check_states states (i + 1) left in
      and_then (at states i) (λ d. if i == d.state then rest else aborts)

  unfoldable pub stm_init : StateMachine Key → Run (StateMachine Key)
  stm_init m =
      and_then (check_states m.states 0 (m.max_state + 1))
        (λ _. if ltb m.initial m.max_state then returns (record m { current = none }) else aborts)
