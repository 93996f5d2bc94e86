-- ===== src/Buffer/Inv.antt =====
-- The representation invariant of `struct buffer` (the header's `R <= W <= limit`, and that the
-- storage holds `limit` bytes), and that every operation keeps it.
use tpe_protos.Common.{
  ℕ, ◌+◌, ◌-◌, ◌≤◌, ◌≡◌, List, some, length, length-append, length-take, length-drop, take, drop,
  arith, pos, if◌then◌else◌, ◌==◌,
}
use tpe_protos.Buffer.{
  Buffer, copy_to, buffer_reset, buffer_init, buffer_compact, buffer_write_adv, buffer_read_adv,
}

pub record IsValid (b : Buffer) : Type 0 where
  pub ordered : b.read ≤ b.write
  pub bounded : b.write ≤ b.limit
  pub stored : b.limit ≤ length b.mem

pub length-copy_to :
    (mem : List ℕ) (at : ℕ) (bytes : List ℕ)
    → at + length bytes ≤ length mem
    → length (copy_to mem at bytes) ≡ length mem
unfolding copy_to
length-copy_to mem at bytes h = simp (length-append, length-take, length-drop) (omega arith)

pub buffer_init-IsValid :
    (n : ℕ) (storage : List ℕ) → n ≤ length storage → IsValid (buffer_init n storage)
unfolding buffer_init
buffer_init-IsValid n storage h = ground arith

pub buffer_reset-IsValid : {b : Buffer} → IsValid b → IsValid (buffer_reset b)
unfolding buffer_reset
buffer_reset-IsValid v = ground arith

pub length-slice :
    {b : Buffer}
    → IsValid b
    → length (take (b.write - b.read) (drop b.read b.mem)) ≡ b.write - b.read
length-slice {b} v =
    omega (arith, length-take (b.write - b.read) (drop b.read b.mem), length-drop b.read b.mem)

pub buffer_compact-IsValid : {b : Buffer} → IsValid b → IsValid (buffer_compact b)
unfolding buffer_compact
buffer_compact-IsValid {b} v =
    ground
      (arith, length-slice v, length-copy_to b.mem 0 (take (b.write - b.read) (drop b.read b.mem)))

pub buffer_write_adv-IsValid :
    {b : Buffer} (n : ℕ)
    → IsValid b
    → n ≤ b.limit - b.write
    → (b' : Buffer) × (buffer_write_adv b (pos n) ≡ some b') × IsValid b'
unfolding buffer_write_adv
buffer_write_adv-IsValid {b} n v h = (record b { write = b.write + n }, ground arith, ground arith)

pub buffer_read_adv-IsValid :
    {b : Buffer} (n : ℕ)
    → IsValid b
    → n ≤ b.write - b.read
    → (b' : Buffer) × (buffer_read_adv b (pos n) ≡ some b') × IsValid b'
unfolding buffer_read_adv
buffer_read_adv-IsValid {b} n v h =
    let b1 = record b { read = b.read + n } in
    let v1 : IsValid b1 = ground arith in
    (
      if b1.read == b1.write then buffer_compact b1 else b1,
      ground arith,
      ground (arith, buffer_compact-IsValid v1),
    )
