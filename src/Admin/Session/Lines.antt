-- ===== src/Admin/Session/Lines.antt =====
-- A line in the input buffer of an administrator, and an answer in the output buffer.
use tpe_protos.Common.{
  ℕ, zero, suc, ◌+◌, ◌-◌, ◌≤◌, ◌<◌, ◌≡◌, ◌≢◌, refl, sym, ap, ◌∙◌, List, [], ◌∷◌, ◌++◌, some, pos,
  set, take, drop, length, length-append, length-set, length-take, length-drop, take-append-drop,
  take_append-exact, drop-drop, set-append, append_assoc, c_string, All, arith, leb-of_le,
}
use tpe_protos.Buffer.{Buffer, copy_to, buffer_read_adv, buffer_write_adv}
use tpe_protos.Buffer.Inv.{IsValid, length-slice, length-copy_to}
use tpe_protos.Buffer.Refine.{contents, view, read_adv_refines, slice-copy_to}
use tpe_protos.Socks5.Steps.{advance-items}
use tpe_protos.Admin.Session.{found, find_newline, room}

-- A character of a line.
abbrev pub IsPlain : ℕ → Type 0
IsPlain c = (c ≢ 10) × (c ≢ 0)

pub find_newline-append :
    (line zs : List ℕ) → All IsPlain line → find_newline (line ++ 10 ∷ zs) ≡ found (length line)
unfolding find_newline
find_newline-append [] zs h = refl
find_newline-append (c ∷ line) zs h = ground (arith, find_newline-append line zs h.1, h.0.0, h.0.1)

drop-length_append : (xs ys : List ℕ) → drop (length xs) (xs ++ ys) ≡ ys
drop-length_append [] ys = refl
drop-length_append (x ∷ xs) ys = drop-length_append xs ys

drop_append-exact : (n : ℕ) (xs ys : List ℕ) → length xs ≡ n → drop n (xs ++ ys) ≡ ys
drop_append-exact n xs ys e = ap (λ k. drop k (xs ++ ys)) (sym e) ∙ drop-length_append xs ys

drop-set : (r i v : ℕ) (xs : List ℕ) → drop r (set xs (r + i) v) ≡ set (drop r xs) i v
drop-set zero i v xs = ap (λ k. set xs k v) {x = 0 + i} (omega arith)
drop-set (suc r) i v [] = refl
drop-set (suc r) i v (x ∷ xs) =
    ap (λ k. drop (suc r) (set (x ∷ xs) k v)) {x = suc r + i} {y = suc (r + i)} (omega arith)
    ∙ drop-set r i v xs

drop-copy_to :
    (mem : List ℕ) (at : ℕ) (bytes : List ℕ)
    → at ≤ length mem
    → drop at (copy_to mem at bytes) ≡ bytes ++ drop (length bytes) (drop at mem)
unfolding copy_to
drop-copy_to mem at bytes h =
    drop_append-exact at (take at mem) (bytes ++ drop (at + length bytes) mem)
      (omega (arith, length-take at mem))
    ∙ ap (λ t. bytes ++ t) (sym (drop-drop at (length bytes) mem))

-- The array of `b` once a zero ends the line in front.
abbrev pub ended : Buffer → List ℕ → List ℕ
ended b line = set b.mem (b.read + length line) 0

from_ended :
    (b : Buffer) (line zs : List ℕ)
    → drop b.read b.mem ≡ line ++ 10 ∷ zs
    → drop b.read (ended b line) ≡ line ++ 0 ∷ zs
from_ended b line zs e =
    drop-set b.read (length line) 0 b.mem
    ∙ ap (λ t. set t (length line) 0) e
    ∙ set-append line 10 0 zs

pub line_taken :
    (b : Buffer) (line zs : List ℕ)
    → drop b.read b.mem ≡ line ++ 10 ∷ zs
    → take (length line) (drop b.read (ended b line)) ≡ line
line_taken b line zs e =
    ap (take (length line)) (from_ended b line zs e)
    ∙ take_append-exact (length line) line (0 ∷ zs) refl

-- The input buffer `b` holds a line and what is behind it.
module _ (b : Buffer) (line behind : List ℕ) (v : IsValid b)
    (e : contents b ≡ line ++ 10 ∷ behind) where
  pub spare : List ℕ
  spare = drop (b.write - b.read) (drop b.read b.mem)

  pub from_read : drop b.read b.mem ≡ line ++ 10 ∷ (behind ++ spare)
  unfolding spare
  from_read =
      sym (take-append-drop (b.write - b.read) (drop b.read b.mem))
      ∙ ap (λ t. t ++ spare) e
      ∙ append_assoc line (10 ∷ behind) spare

  size : length line + 1 + length behind ≡ b.write - b.read
  size = omega (arith, length-slice v, ap length e, length-append line (10 ∷ behind))

  pub newline_found : All IsPlain line → find_newline (drop b.read b.mem) ≡ found (length line)
  newline_found h = ap find_newline from_read ∙ find_newline-append line (behind ++ spare) h

  -- The line is cut, and the read pointer is moved behind it.
  module _ (cut : List ℕ) (same : length cut ≡ length line) where
    used : Buffer
    used = record b { mem = copy_to (ended b line) b.read cut }

    used-IsValid : IsValid used
    unfolding used
    used-IsValid = ground (
      arith,
      length-copy_to (ended b line) b.read cut,
      length-set b.mem (b.read + length line) 0,
      size,
    )

    used-contents : contents used ≡ cut ++ 0 ∷ behind
    unfolding used
    used-contents =
        ap (take (b.write - b.read)) (
          drop-copy_to (ended b line) b.read cut (
            omega
              (arith, v.ordered, v.bounded, v.stored, length-set b.mem (b.read + length line) 0))
          ∙ ap (λ t. cut ++ drop (length cut) t) (from_ended b line (behind ++ spare) from_read)
          ∙ ap (λ t. cut ++ t)
              (drop_append-exact (length cut) line (0 ∷ (behind ++ spare)) (sym same))
          ∙ sym (append_assoc cut (0 ∷ behind) spare))
        ∙ take_append-exact (b.write - b.read) (cut ++ 0 ∷ behind) spare
            (omega (arith, length-append cut (0 ∷ behind), size))

    pub line_consumed :
        (b' : Buffer) × (buffer_read_adv
            (record b { mem = copy_to (ended b line) b.read cut })
            (pos (length line + 1))
          ≡ some b')
        × IsValid b'
        × (b'.limit ≡ b.limit)
        × (contents b' ≡ behind)
    unfolding used
    line_consumed =
        let (b', run, s) =
          read_adv_refines {b = used} (length line + 1) used-IsValid
            (omega (arith, length-slice used-IsValid, size)) in
        (
          b',
          run,
          s.valid,
          s.same_limit,
          ap (λ q. q.items) s.shows
              ∙ advance-items b.limit (length line + 1) (view used)
              ∙ ap (drop (length line + 1)) used-contents
              ∙ ap (drop (length line + 1)) (sym (append_assoc cut (0 ∷ []) behind))
              ∙ drop_append-exact (length line + 1) (cut ++ 0 ∷ []) behind
                  (omega (arith, length-append cut (0 ∷ []))),
        )

take-c_string : (t : List ℕ) → take (length (c_string t)) t ≡ c_string t
unfolding c_string
take-c_string [] = refl
take-c_string (c ∷ t) = ground (arith, take-c_string t)

take-take : (n m : ℕ) (xs : List ℕ) → n ≤ m → take n (take m xs) ≡ take n xs
take-take zero m xs h = refl
take-take (suc n) zero xs h = absurd (omega arith)
take-take (suc n) (suc m) [] h = refl
take-take (suc n) (suc m) (x ∷ xs) h = ap (λ t. x ∷ t) (take-take n m xs (omega arith))

take-append_add :
    (n k : ℕ) (xs ys : List ℕ) → length xs ≡ n → take (n + k) (xs ++ ys) ≡ xs ++ take k ys
take-append_add n k xs ys e = ap (λ j. take (j + k) (xs ++ ys)) (sym e) ∙ go xs
  where
    go : (xs : List ℕ) → take (length xs + k) (xs ++ ys) ≡ xs ++ take k ys
    go [] = ap (λ j. take j ys) {x = 0 + k} (omega arith)
    go (x ∷ xs) =
        ap (λ j. take j (x ∷ (xs ++ ys))) {x = suc (length xs) + k} {y = suc (length xs + k)}
          (omega arith)
        ∙ ap (λ t. x ∷ t) (go xs)

pub length-room : (b : Buffer) → IsValid b → length (room b) ≡ b.limit - b.write
length-room b v = omega (
  arith,
  v.stored,
  length-take (b.limit - b.write) (drop b.write b.mem),
  length-drop b.write b.mem,
)

-- An answer written over the room of the output buffer, and taken in up to its zero.
pub answer_stored :
    (b : Buffer) (text : List ℕ)
    → IsValid b
    → length text ≡ length (room b)
    → length (c_string text) < length (room b)
    → (b' : Buffer) × (buffer_write_adv
          (record b { mem = copy_to b.mem b.write text })
          (pos (length (c_string text)))
        ≡ some b')
      × IsValid b'
      × (b'.limit ≡ b.limit)
      × (contents b' ≡ contents b ++ c_string text)
unfolding buffer_write_adv
answer_stored b text v e h =
    let k = length (c_string text) in
    let mem = copy_to b.mem b.write text in
    let fits = length-room b v in
    (
      record b { mem = mem; write = b.write + k },
      rw (leb-of_le (b.write + k) b.limit (omega (arith, v.bounded))) refl,
      ground (arith, v.ordered, v.bounded, v.stored, length-copy_to b.mem b.write text),
      refl,
      sym (
            take-take (b.write + k - b.read) (b.write + length text - b.read) (drop b.read mem)
              (omega arith))
          ∙ ap (take (b.write + k - b.read)) (
              slice-copy_to b.mem text b.read b.write v.ordered
                (omega (arith, v.bounded, v.stored)))
          ∙ ap (λ j. take j (contents b ++ text)) {x = b.write + k - b.read}
              {y = b.write - b.read + k} (omega (arith, v.ordered))
          ∙ take-append_add (b.write - b.read) k (contents b) text (length-slice v)
          ∙ ap (λ t. contents b ++ t) (take-c_string text),
    )
