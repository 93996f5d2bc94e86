-- ===== src/Tests/Machine.antt =====
-- The check of a table of two states, with no hooks, whose `max_state` is the number of states.
use tpe_protos.Common.{ℕ, zero, suc, ◌<◌, ◌≡◌, refl, [], ◌∷◌, none, some, get_elem?, arith}
use tpe_protos.Stm.{outside, StateDefinition, StateMachine, stm_init}
use tpe_protos.Stm.Init.{InOrder, stm_init-outside}

abbrev def : ℕ → StateDefinition ℕ
def i = record {
  state = i;
  on_arrival = none;
  on_departure = none;
  on_read_ready = none;
  on_write_ready = none;
  on_block_ready = none;
}

abbrev machine : StateMachine ℕ
machine = record { initial = 0; states = def 0 ∷ def 1 ∷ []; max_state = 2; current = none }

states-InOrder : InOrder (def 0 ∷ def 1 ∷ []) 2
states-InOrder = record { def = def; found = found; numbered = λ i h. refl }
  where
    found : (i : ℕ) → i < 2 → get_elem? (def 0 ∷ def 1 ∷ []) i ≡ some (def i)
    found zero h = refl
    found (suc zero) h = refl
    found (suc (suc i)) h = absurd (omega arith)

stm_init-outside_example : stm_init machine ≡ outside
stm_init-outside_example = stm_init-outside machine states-InOrder refl
