-- ===== src/Buffer/Refine.antt =====
-- A buffer and the queue of the bytes between its two pointers.
use tpe_protos.Common.{
  ℕ, suc, ◌+◌, ◌-◌, ◌≤◌, ◌<◌, ◌≡◌, refl, ap, ◌∙◌, List, [], ◌∷◌, ◌++◌, Option, none, some, false,
  ◌==◌, ltb, leb, length, take, drop, set, get_or, pos, arith, length-append, length-take,
  length-drop, drop-drop, drop-take, take_append-exact, drop-append, take-drop-cons, set-eq-append,
  Bool-cases, inl, inr, append_assoc, ◌&&◌,
}
use tpe_protos.Buffer.{
  Buffer, copy_to, buffer_reset, buffer_compact, buffer_write_adv, buffer_read_adv, buffer_read,
  buffer_write, buffer_write_struct, buffer_can_read, buffer_can_write,
}
use tpe_protos.Buffer.Inv.{IsValid, length-slice, length-copy_to, buffer_compact-IsValid}
use tpe_protos.Buffer.Queue
use tpe_protos.Buffer.Queue.{ByteQueue}

abbrev pub contents : Buffer → List ℕ
contents b = take (b.write - b.read) (drop b.read b.mem)

-- The abstract view of a buffer.
abbrev pub view : Buffer → ByteQueue
view b = record { items = contents b; room = b.limit - b.write }

-- A call that passes its asserts and leaves a valid buffer of the same size that shows `q`.
pub record Shows (cap : ℕ) (q : ByteQueue) (b : Buffer) : Type 0 where
  pub valid : IsValid b
  pub same_limit : b.limit ≡ cap
  pub shows : view b ≡ q

-- `r` passed its asserts and returned a valid buffer of size `cap` that shows `q`.
abbrev pub Returns : ℕ → ByteQueue → Option Buffer → Type 0
Returns cap q r = (b : Buffer) × (r ≡ some b) × Shows cap q b

-- Bytes stored behind the write pointer extend the slice.
pub slice-copy_to :
    (mem bytes : List ℕ) (r w : ℕ)
    → r ≤ w
    → w + length bytes ≤ length mem
    → take (w + length bytes - r) (drop r (copy_to mem w bytes))
      ≡ take (w - r) (drop r mem) ++ bytes
unfolding copy_to
slice-copy_to mem bytes r w h k =
    rw
      (
        copy_to,
        drop-append r (take w mem) (bytes ++ drop (w + length bytes) mem)
            (omega (arith, length-take w mem)),
        drop-take,
        ← append_assoc,
      )
      (take_append-exact (w + length bytes - r) (take (w - r) (drop r mem) ++ bytes)
        (drop (w + length bytes) mem)
        (simp (length-append, length-take, length-drop) (omega arith)))

copy_to-set : (mem : List ℕ) (w c : ℕ) → w < length mem → set mem w c ≡ copy_to mem w (c ∷ [])
unfolding copy_to
copy_to-set mem w c h = set-eq-append mem w c h

-- Storing at the write pointer and advancing it appends.
pub store_adv :
    {b : Buffer} (bytes : List ℕ)
    → IsValid b
    → length bytes ≤ b.limit - b.write
    → Returns b.limit
        (Queue.append bytes (view b))
        (buffer_write_adv (record b { mem = copy_to b.mem b.write bytes }) (pos (length bytes)))
unfolding buffer_write_adv Queue.append
store_adv {b} bytes v h = (
  record b { mem = copy_to b.mem b.write bytes; write = b.write + length bytes },
  ground arith,
  record {
    valid = ground (arith, length-copy_to b.mem b.write bytes);
    same_limit = refl;
    shows = ground (arith, slice-copy_to b.mem bytes b.read b.write);
  },
)

-- What `buffer_compact` does to the view: the room is all that the waiting bytes leave.
pub compact_refines :
    {b : Buffer} → IsValid b → Shows b.limit (Queue.compact b.limit (view b)) (buffer_compact b)
unfolding buffer_compact Queue.compact copy_to
compact_refines {b} v = record {
  valid = buffer_compact-IsValid v;
  same_limit = ground arith;
  shows = ground (
    arith,
    length-slice v,
    take_append-exact (b.write - b.read) (contents b) (drop (0 + length (contents b)) b.mem),
  );
}

pub read_adv_refines :
    {b : Buffer} (n : ℕ)
    → IsValid b
    → n ≤ length (contents b)
    → Returns b.limit (Queue.advance b.limit n (view b)) (buffer_read_adv b (pos n))
unfolding buffer_read_adv Queue.advance Queue.compact
read_adv_refines {b} n v h = elim (Bool-cases (b.read + n == b.write)) [
  | inl e ↦
      let b1 = record b { read = b.read + n } in
      let v1 : IsValid b1 = ground (arith, length-slice v) in
      let s1 = compact_refines v1 in
      (
        buffer_compact b1,
        ground arith,
        record {
          valid = s1.valid;
          same_limit = s1.same_limit;
          shows = s1.shows ∙ ground (arith, length-slice v, length-slice v1);
        },
      )
  | inr e ↦ (
    record b { read = b.read + n },
    ground (arith, length-slice v),
    record {
      valid = ground (arith, length-slice v);
      same_limit = refl;
      shows = ground (
        arith,
        length-slice v,
        drop-take n (b.write - b.read) (drop b.read b.mem),
        drop-drop b.read n b.mem,
      );
    },
  )
]

pub write_refines :
    {b : Buffer} (c : ℕ) → IsValid b → Returns b.limit (Queue.push c (view b)) (buffer_write b c)
unfolding buffer_write buffer_can_write Queue.push
write_refines {b} c v = elim (Bool-cases (ltb 0 (b.limit - b.write))) [
  | inl e ↦ rw (e, copy_to-set b.mem b.write c (ground arith)) (store_adv (c ∷ []) v (ground arith))
  | inr e ↦ (b, rw e, record { valid = v; same_limit = refl; shows = rw e })
]

pub write_struct_refines :
    {b : Buffer} (bytes : List ℕ)
    → IsValid b
    → Returns b.limit (Queue.push_all bytes (view b)) (buffer_write_struct b bytes)
unfolding buffer_write_struct buffer_can_write Queue.push_all
write_struct_refines {b} bytes v =
    elim (Bool-cases (ltb 0 (b.limit - b.write) && leb (length bytes) (b.limit - b.write))) [
      | inl e ↦ rw e (store_adv bytes v (ground arith))
      | inr e ↦ (b, rw e, record { valid = v; same_limit = refl; shows = rw e })
    ]

contents-cons :
    {b : Buffer}
    → IsValid b
    → b.read < b.write
    → contents b ≡ get_or b.mem b.read 0 ∷ take (b.write - b.read - 1) (drop (suc b.read) b.mem)
contents-cons {b} v h =
    ap (λ k. take k (drop b.read b.mem)) {y = suc (b.write - b.read - 1)} (omega arith)
    ∙ take-drop-cons (b.write - b.read - 1) b.read 0 b.mem (omega arith)

pub read_refines :
    {b : Buffer}
    → IsValid b
    → (b' : Buffer) × (buffer_read b ≡ some ((Queue.pop b.limit (view b)).0, b'))
      × Shows b.limit (Queue.pop b.limit (view b)).1 b'
unfolding buffer_read buffer_can_read
read_refines {b} v = elim (Bool-cases (ltb 0 (b.write - b.read))) [
  | inl e ↦
      let step = read_adv_refines 1 v (ground (arith, length-slice v)) in
      rw (Queue.pop-cons b.limit (view b) _ _ (contents-cons v (ground arith)), e)
        (step.0, rw step.1, step.2)
  | inr e ↦
      rw (Queue.pop-nil b.limit (view b) (ground (arith, length-slice v)), e)
        (b, refl, record { valid = v; same_limit = refl; shows = refl })
]

pub reset_refines : {b : Buffer} → IsValid b → Shows b.limit (Queue.empty b.limit) (buffer_reset b)
unfolding buffer_reset
reset_refines v = record { valid = ground arith; same_limit = refl; shows = ground arith }

-- More bytes than wait: the assert of `buffer_read_adv` fails.
pub read_adv-too_many :
    {b : Buffer} (n : ℕ)
    → IsValid b
    → leb n (length (contents b)) ≡ false
    → buffer_read_adv b (pos n) ≡ none
unfolding buffer_read_adv
read_adv-too_many n v e = ground (arith, length-slice v)
