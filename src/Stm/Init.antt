-- ===== src/Stm/Init.antt =====
-- The check of the table in `stm_init` of stm.c.
use tpe_protos.Common.{
  ℕ, zero, suc, ◌+◌, ◌≤◌, ◌<◌, ◌≡◌, refl, List, ◌∷◌, [], Bool-cases, inl, inr, none, some,
  get_elem?, length, arith, ◌==◌, ltb, true,
}
use tpe_protos.Stm.{
  returns, outside, and_then, StateDefinition, StateMachine, at, check_states, stm_init,
}

get_elem?-none {ℓ} : {A : Type ℓ} (xs : List A) (i : ℕ) → length xs ≤ i → get_elem? xs i ≡ none
get_elem?-none [] i h = refl
get_elem?-none (x ∷ xs) zero h = absurd (omega arith)
get_elem?-none (x ∷ xs) (suc i) h = get_elem?-none xs i (omega arith)

module _ {Key : Type 0} where
  -- Under the first `n` indices stand states, in order.
  pub record InOrder (states : List (StateDefinition Key)) (n : ℕ) : Type 0 where
    pub def : ℕ → StateDefinition Key
    pub found : (i : ℕ) → i < n → get_elem? states i ≡ some (def i)
    pub numbered : (i : ℕ) → i < n → (def i).state ≡ i

  check_states-InOrder :
      (states : List (StateDefinition Key)) (i left n : ℕ)
      → InOrder states n
      → i + left ≤ n
      → check_states states i left ≡ returns true
  unfolding check_states at and_then
  check_states-InOrder states i zero n o h = refl
  check_states-InOrder states i (suc left) n o h =
      let e : (i == (o.def i).state) ≡ true = ground (arith, o.numbered i (omega arith)) in
      rw (o.found i (omega arith), e) (check_states-InOrder states (i + 1) left n o (omega arith))

  check_states-outside :
      (states : List (StateDefinition Key)) (i left : ℕ)
      → InOrder states (length states)
      → i ≤ length states
      → length states < i + left
      → check_states states i left ≡ outside
  unfolding check_states at and_then
  check_states-outside states i zero o l h = absurd (omega arith)
  check_states-outside states i (suc left) o l h = elim (Bool-cases (ltb i (length states))) [
    | inl t ↦
        let e : (i == (o.def i).state) ≡ true = ground (arith, o.numbered i (ground arith)) in
        rw (o.found i (ground arith), e)
          (check_states-outside states (i + 1) left o (ground arith) (ground arith))
    | inr t ↦ rw (get_elem?-none states i (ground arith))
  ]

  -- Where `max_state` is the index of the last state of a table that is in order, and the initial
  -- state is below it, `stm_init` returns the machine with no current state.
  stm_init-InOrder :
      (m : StateMachine Key)
      → InOrder m.states (m.max_state + 1)
      → m.initial < m.max_state
      → stm_init m ≡ returns (record m { current = none })
  unfolding stm_init and_then
  stm_init-InOrder m o h =
      let e : ltb m.initial m.max_state ≡ true = ground arith in
      rw (check_states-InOrder m.states 0 (m.max_state + 1) (m.max_state + 1) o (omega arith), e)

  -- Where `max_state` is the number of states of a table that is in order, `stm_init` reads a
  -- state outside the array.
  pub stm_init-outside :
      (m : StateMachine Key)
      → InOrder m.states (length m.states)
      → m.max_state ≡ length m.states
      → stm_init m ≡ outside
  unfolding stm_init and_then
  stm_init-outside m o h =
      rw (check_states-outside m.states 0 (m.max_state + 1) o (omega arith) (omega arith))
