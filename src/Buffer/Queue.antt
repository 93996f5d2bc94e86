-- ===== src/Buffer/Queue.antt =====
-- What src/shared/include/buffer.h promises, with no pointers: the bytes that wait to be read,
-- oldest first, and the room behind them. `cap` is the size given to `buffer_init`.
use tpe_protos.Common.{
  ℕ, ◌-◌, List, [], ◌∷◌, ◌++◌, ltb, leb, ◌==◌, if◌then◌else◌, ◌&&◌, drop, length, ◌≡◌, arith,
}

pub record ByteQueue : Type 0 where
  pub items : List ℕ
  pub room : ℕ

unfoldable pub append : List ℕ → ByteQueue → ByteQueue
append bytes q = record { items = q.items ++ bytes; room = q.room - length bytes }

unfoldable pub push : ℕ → ByteQueue → ByteQueue
unfolding append
push c q = if ltb 0 q.room then append (c ∷ []) q else q

-- All of the bytes or none of them.
unfoldable pub push_all : List ℕ → ByteQueue → ByteQueue
unfolding append
push_all bytes q = if ltb 0 q.room && leb (length bytes) q.room then append bytes q else q

module _ (cap : ℕ) where
  abbrev pub empty : ByteQueue
  empty = record { items = []; room = cap }

  -- A queue that runs empty has its whole room again.
  unfoldable pub advance : ℕ → ByteQueue → ByteQueue
  advance n q = if n == length q.items then empty else record q { items = drop n q.items }

  unfoldable pub pop : ByteQueue → ℕ × ByteQueue
  pop q = elim q.items [ [] ↦ (0, q) | x ∷ _ ↦ (x, advance 1 q) ]

  unfoldable pub compact : ByteQueue → ByteQueue
  compact q = record q { room = cap - length q.items }

  pub pop-cons :
      (q : ByteQueue) (x : ℕ) (rest : List ℕ) → q.items ≡ x ∷ rest → pop q ≡ (x, advance 1 q)
  unfolding pop
  pop-cons q x rest e = simp (e, pop)

  pub pop-nil : (q : ByteQueue) → length q.items ≡ 0 → pop q ≡ (0, q)
  unfolding pop
  pop-nil q e = ground arith
