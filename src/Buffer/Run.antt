-- ===== src/Buffer/Run.antt =====
-- Whole histories of calls on one buffer, against the same history on a queue.
use tpe_protos.Common.{
  ℕ, ◌-◌, ◌≡◌, refl, List, [], ◌∷◌, Option, none, some, leb, if◌then◌else◌, length, pos, arith,
  Bool-cases, inl, inr, leb-of_le,
}
use tpe_protos.Buffer.{
  Buffer, copy_to, buffer_reset, buffer_compact, buffer_write_adv, buffer_read_adv, buffer_read,
  buffer_write, buffer_write_struct, buffer_write_ptr,
}
use tpe_protos.Buffer.Inv.{IsValid}
use tpe_protos.Buffer.Queue
use tpe_protos.Buffer.Queue.{ByteQueue}
use tpe_protos.Buffer.Refine.{
  view, contents, Shows, store_adv, compact_refines, read_adv_refines, read_refines, write_refines,
  write_struct_refines, reset_refines, read_adv-too_many,
}

-- The calls of a client. `receive` is `recv` into the pointer of `buffer_write_ptr` followed by
-- `buffer_write_adv`, `send` is `send` of `n` bytes from `buffer_read_ptr` and `buffer_read_adv`.
pub data Op : Type 0 where
  get : Op
  put : ℕ → Op
  put_struct : List ℕ → Op
  receive : List ℕ → Op
  send : ℕ → Op
  compact : Op
  reset : Op

-- `recv` stores at most the number of bytes that `buffer_write_ptr` allows.
pub receive_bytes : Buffer → List ℕ → Option Buffer
receive_bytes b bytes = elim (buffer_write_ptr b) [
  | none ↦ none
  | some (at, n) ↦
      if leb (length bytes) n
      then buffer_write_adv (record b { mem = copy_to b.mem at bytes }) (pos (length bytes))
      else none
]

abbrev with_result : ℕ → Option Buffer → Option (ℕ × Buffer)
with_result x none = none
with_result x (some b) = some (x, b)

unfoldable pub step : Buffer → Op → Option (ℕ × Buffer)
unfolding receive_bytes
step b get = buffer_read b
step b (put c) = with_result 0 (buffer_write b c)
step b (put_struct bytes) = with_result 0 (buffer_write_struct b bytes)
step b (receive bytes) = with_result 0 (receive_bytes b bytes)
step b (send n) = with_result 0 (buffer_read_adv b (pos n))
step b compact = some (0, buffer_compact b)
step b reset = some (0, buffer_reset b)

-- The same on the queue; `none` where the bytes do not fit or are not there.
unfoldable pub queue_step : ℕ → ByteQueue → Op → Option (ℕ × ByteQueue)
queue_step cap q get = some (Queue.pop cap q)
queue_step cap q (put c) = some (0, Queue.push c q)
queue_step cap q (put_struct bytes) = some (0, Queue.push_all bytes q)
queue_step cap q (receive bytes) =
    if leb (length bytes) q.room then some (0, Queue.append bytes q) else none
queue_step cap q (send n) = if leb n (length q.items) then some (0, Queue.advance cap n q) else none
queue_step cap q compact = some (0, Queue.compact cap q)
queue_step cap q reset = some (0, Queue.empty cap)

-- The two calls fail together, or return the same value and leave the same bytes and room.
abbrev pub Agree : ℕ → Option (ℕ × ByteQueue) → Option (ℕ × Buffer) → Type 0
Agree cap (some (y, q)) r = (b : Buffer) × (r ≡ some (y, b)) × Shows cap q b
Agree cap none r = r ≡ none

receive_refines :
    {b : Buffer} (bytes : List ℕ)
    → IsValid b
    → Agree b.limit (queue_step b.limit (view b) (receive bytes)) (step b (receive bytes))
unfolding step queue_step buffer_write_ptr receive_bytes
receive_refines {b} bytes v = elim (Bool-cases (leb (length bytes) (b.limit - b.write))) [
  | inl e ↦
      let (b', run, s) = store_adv bytes v (ground arith) in
      rw (e, receive_bytes, buffer_write_ptr, leb-of_le b.write b.limit v.bounded, e)
        (b', rw run, s)
  | inr e ↦ rw (e, receive_bytes, buffer_write_ptr, leb-of_le b.write b.limit v.bounded, e)
]

-- A call on a valid buffer and the same call on its queue agree.
pub step_refines :
    {b : Buffer} (o : Op) → IsValid b → Agree b.limit (queue_step b.limit (view b) o) (step b o)
unfolding step queue_step
step_refines get v = read_refines v
step_refines (put c) v = let (b', e, s) = write_refines c v in (b', rw e, s)
step_refines (put_struct bytes) v = let (b', e, s) = write_struct_refines bytes v in (b', rw e, s)
step_refines (receive bytes) v = receive_refines bytes v
step_refines {b} (send n) v = elim (Bool-cases (leb n (length (contents b)))) [
  | inl e ↦ rw e (let (b', run, s) = read_adv_refines n v (ground arith) in (b', rw run, s))
  | inr e ↦ rw (e, read_adv-too_many n v e)
]
step_refines {b} compact v = (buffer_compact b, refl, compact_refines v)
step_refines {b} reset v = (buffer_reset b, refl, reset_refines v)

abbrev cons_result {ℓ} : {S : Type ℓ} → ℕ → Option (List ℕ × S) → Option (List ℕ × S)
cons_result x none = none
cons_result x (some (xs, s)) = some (x ∷ xs, s)

abbrev and_then {ℓ} :
    {S : Type ℓ} → Option (ℕ × S) → (S → Option (List ℕ × S)) → Option (List ℕ × S)
and_then none k = none
and_then (some (x, s)) k = cons_result x (k s)

-- A client's calls in order, with what each returns. `none`: some assert failed.
unfoldable pub run : Buffer → List Op → Option (List ℕ × Buffer)
run b [] = some ([], b)
run b (o ∷ os) = and_then (step b o) (λ b'. run b' os)

unfoldable pub queue_run : ℕ → ByteQueue → List Op → Option (List ℕ × ByteQueue)
queue_run cap q [] = some ([], q)
queue_run cap q (o ∷ os) = and_then (queue_step cap q o) (λ q'. queue_run cap q' os)

abbrev pub AgreeRun : ℕ → Option (List ℕ × ByteQueue) → Option (List ℕ × Buffer) → Type 0
AgreeRun cap (some (ys, q)) r = (b : Buffer) × (r ≡ some (ys, b)) × Shows cap q b
AgreeRun cap none r = r ≡ none

AgreeRun-cons :
    (cap y : ℕ) (rq : Option (List ℕ × ByteQueue)) (rb : Option (List ℕ × Buffer))
    → AgreeRun cap rq rb
    → AgreeRun cap (cons_result y rq) (cons_result y rb)
AgreeRun-cons cap y none rb e = rw e
AgreeRun-cons cap y (some (ys, q)) rb (b, e, s) = (b, rw e, s)

AgreeRun-then :
    (cap : ℕ) (kq : ByteQueue → Option (List ℕ × ByteQueue))
    (kb : Buffer → Option (List ℕ × Buffer))
    → ((q : ByteQueue) (b : Buffer) → Shows cap q b → AgreeRun cap (kq q) (kb b))
    → (sq : Option (ℕ × ByteQueue)) (sb : Option (ℕ × Buffer)) → Agree cap sq sb
    → AgreeRun cap (and_then sq kq) (and_then sb kb)
AgreeRun-then cap kq kb next none sb e = rw e
AgreeRun-then cap kq kb next (some (y, q)) sb (b, e, s) =
    rw e (AgreeRun-cons cap y (kq q) (kb b) (next q b s))

-- A valid buffer in place of the queue that it shows.
step-Shows :
    {cap : ℕ} {q : ByteQueue} {b : Buffer} (o : Op)
    → Shows cap q b
    → Agree cap (queue_step cap q o) (step b o)
step-Shows {b} o s = rw (← s.shows, ← s.same_limit) (step_refines o s.valid)

-- No sequence of calls tells a valid buffer from the queue of its bytes: the same calls pass their
-- asserts, every call returns the same byte, and the final buffer is valid and shows the final
-- queue.
pub run_refines :
    {cap : ℕ} {q : ByteQueue} {b : Buffer} (os : List Op)
    → Shows cap q b
    → AgreeRun cap (queue_run cap q os) (run b os)
unfolding run queue_run
run_refines {b} [] s = (b, refl, s)
run_refines {cap} {q} {b} (o ∷ os) s =
    AgreeRun-then cap (λ q'. queue_run cap q' os) (λ b'. run b' os) (λ q' b' s'. run_refines os s')
      (queue_step cap q o) (step b o) (step-Shows o s)
