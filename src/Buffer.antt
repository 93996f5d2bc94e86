-- ===== src/Buffer.antt =====
-- src/shared/buffer.c and src/shared/include/buffer.h: a byte buffer with a read and a write
-- pointer. The four pointers are offsets from `data`, whose own offset is 0, and `mem` is the
-- storage. `none` stands for a failed `assert`.
pub mod Inv
pub mod Queue
pub mod Refine
pub mod Run
use tpe_protos.Common.{
  ℕ, ◌+◌, ◌-◌, ◌≤◌, ◌<◌, List, [], ◌∷◌, ◌++◌, Option, none, some, Bool, true, false, ltb, leb, ◌==◌,
  if◌then◌else◌, ◌&&◌, get_or, set, take, drop, length, ℤ, pos, negsuc,
}

-- `struct buffer`
pub record Buffer : Type 0 where
  pub mem : List ℕ
  pub limit : ℕ
  pub read : ℕ
  pub write : ℕ

-- `memmove` and `memcpy` of `bytes` to the offset `at`.
unfoldable pub copy_to : List ℕ → ℕ → List ℕ → List ℕ
copy_to mem at bytes = take at mem ++ (bytes ++ drop (at + length bytes) mem)

unfoldable pub buffer_reset : Buffer → Buffer
buffer_reset b = record b { read = 0; write = 0 }

unfoldable pub buffer_init : ℕ → List ℕ → Buffer
buffer_init n storage = record { mem = storage; limit = n; read = 0; write = 0 }

unfoldable pub buffer_can_write : Buffer → Bool
buffer_can_write b = ltb 0 (b.limit - b.write)

-- The pointer, and what goes through `nbyte`.
unfoldable pub buffer_write_ptr : Buffer → Option (ℕ × ℕ)
buffer_write_ptr b = if leb b.write b.limit then some (b.write, b.limit - b.write) else none

unfoldable pub buffer_can_read : Buffer → Bool
buffer_can_read b = ltb 0 (b.write - b.read)

unfoldable pub buffer_read_ptr : Buffer → Option (ℕ × ℕ)
buffer_read_ptr b = if leb b.read b.write then some (b.read, b.write - b.read) else none

unfoldable pub buffer_compact : Buffer → Buffer
buffer_compact b =
    if b.read == 0
    then b
    else if b.read == b.write
    then record b { read = 0; write = 0 }
    else let n = b.write - b.read in
      record b { mem = copy_to b.mem 0 (take n (drop b.read b.mem)); read = 0; write = n }

unfoldable pub buffer_write_adv : Buffer → ℤ → Option Buffer
buffer_write_adv b (pos n) =
    if leb (b.write + n) b.limit then some (record b { write = b.write + n }) else none
buffer_write_adv b (negsuc n) = some b

unfoldable pub buffer_read_adv : Buffer → ℤ → Option Buffer
buffer_read_adv b (pos n) =
    let b' = record b { read = b.read + n } in
    if leb b'.read b'.write
    then some (if b'.read == b'.write then buffer_compact b' else b')
    else none
buffer_read_adv b (negsuc n) = some b

-- The byte, beside the new buffer. A read outside `mem` gives 0; `Inv` rules it out.
unfoldable pub buffer_read : Buffer → Option (ℕ × Buffer)
buffer_read b =
    if buffer_can_read b
    then elim (buffer_read_adv b (pos 1)) [
      | none ↦ none
      | some b' ↦ some (get_or b.mem b.read 0, b')
    ]
    else some (0, b)

unfoldable pub buffer_write : Buffer → ℕ → Option Buffer
buffer_write b c =
    if buffer_can_write b
    then buffer_write_adv (record b { mem = set b.mem b.write c }) (pos 1)
    else some b

-- `bytes` is the `size` bytes at `data`.
unfoldable pub buffer_write_struct : Buffer → List ℕ → Option Buffer
buffer_write_struct b bytes =
    if buffer_can_write b && leb (length bytes) (b.limit - b.write)
    then buffer_write_adv (record b { mem = copy_to b.mem b.write bytes }) (pos (length bytes))
    else some b
