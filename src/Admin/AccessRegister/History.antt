-- ===== src/Admin/AccessRegister/History.antt =====
-- The entries of the register in access_register.c as a list, oldest first.
use tpe_protos.Common.{
  ℕ, zero, suc, ◌+◌, ◌-◌, ◌%◌, ◌≤◌, ◌<◌, ◌≡◌, refl, ap, ap₂, ◌∙◌, List, [], ◌∷◌, ◌++◌, Option, none,
  some, true, ltb, if◌then◌else◌, set, get_or, get_or-set, length, length-set, length-append, drop,
  drop-append, drop-drop, append_assoc, append-nil, length-drop, arith, Bool-cases, inl, inr,
}
use tpe_protos.Admin.AccessRegister.{
  AccessEntry, AccessRegister, Access, register_max_entries, access_register_init, entry_of, add_to,
  access_register_add_entry,
}

abbrev pub blank : AccessEntry
blank = record {
  iso_date = [];
  username = [];
  register_type = 0;
  src_ip = [];
  src_port = 0;
  destination = [];
  dest_port = 0;
  status_code = 0;
}

-- The `n` entries from index `h` on, going round at the end of the array.
window : List AccessEntry → ℕ → ℕ → List AccessEntry
window es h zero = []
window es h (suc n) = get_or es h blank ∷ window es ((h + 1) % 100) n

-- The entries held, oldest first.
pub contents : AccessRegister → List AccessEntry
unfolding window
contents r = window r.entries r.head r.count

pub record IsValid (r : AccessRegister) : Type 0 where
  pub sized : length r.entries ≡ register_max_entries
  pub head_in : r.head < register_max_entries
  pub at_most : r.count ≤ register_max_entries
  pub tail_at : r.tail ≡ (r.head + r.count) % register_max_entries

length-window : (es : List AccessEntry) (h n : ℕ) → length (window es h n) ≡ n
unfolding window
length-window es h zero = refl
length-window es h (suc n) = ap suc (length-window es ((h + 1) % 100) n)

-- A write `m` steps behind the first index leaves the first `n ≤ m` entries.
window-set :
    (es : List AccessEntry) (h n m i : ℕ) (x : AccessEntry)
    → length es ≡ 100
    → h < 100
    → n ≤ m
    → m < 100
    → i ≡ (h + m) % 100
    → window (set es i x) h n ≡ window es h n
unfolding window
window-set es h zero m i x l hh nm mm e = refl
window-set es h (suc n) zero i x l hh nm mm e = absurd (omega arith)
window-set es h (suc n) (suc m) i x l hh nm mm e =
    ap₂ ◌∷◌ (rw (get_or-set es i h x blank (omega arith)) (ground arith)) (
      window-set es ((h + 1) % 100) n m i x l (omega arith) (omega arith) (omega arith)
        (omega arith))

window-snoc :
    (es : List AccessEntry) (h n : ℕ)
    → h < 100
    → window es h (suc n) ≡ window es h n ++ get_or es ((h + n) % 100) blank ∷ []
unfolding window
window-snoc es h zero hh = ap (λ k. get_or es k blank ∷ []) {x = h} (omega arith)
window-snoc es h (suc n) hh =
    ap (λ t. get_or es h blank ∷ t)
      (window-snoc es ((h + 1) % 100) n (omega arith)
        ∙ ap (λ k. window es ((h + 1) % 100) n ++ get_or es k blank ∷ [])
            {x = ((h + 1) % 100 + n) % 100} {y = (h + suc n) % 100} (omega arith))

-- A write just behind `n` entries appends.
window-append :
    (es : List AccessEntry) (h n i : ℕ) (x : AccessEntry)
    → length es ≡ 100
    → h < 100
    → n < 100
    → i ≡ (h + n) % 100
    → window (set es i x) h (suc n) ≡ window es h n ++ x ∷ []
window-append es h n i x l hh nn e =
    window-snoc (set es i x) h n hh
    ∙ ap₂ (λ a b. a ++ b ∷ []) (window-set es h n n i x l hh (omega arith) nn e)
        (get_or-set es i ((h + n) % 100) x blank (omega arith) ∙ ground arith)

-- What a register of at most a hundred entries keeps when one more comes.
pub push_last : AccessEntry → List AccessEntry → List AccessEntry
push_last e es = if ltb (length es) 100 then es ++ e ∷ [] else drop 1 es ++ e ∷ []

drop-window :
    (es : List AccessEntry) (h n : ℕ) → window es ((h + 1) % 100) n ≡ drop 1 (window es h (suc n))
unfolding window
drop-window es h n = refl

-- A write over the oldest of a hundred entries.
window-shift :
    (es : List AccessEntry) (h n i : ℕ) (x : AccessEntry)
    → length es ≡ 100
    → h < 100
    → i ≡ h
    → n ≡ 99
    → window (set es i x) ((h + 1) % 100) (suc n) ≡ drop 1 (window es h (suc n)) ++ x ∷ []
window-shift es h n i x l hh e k =
    window-append es ((h + 1) % 100) n i x l (omega arith) (omega arith) (omega arith)
    ∙ ap (λ t. t ++ x ∷ []) (drop-window es h n)

add_to-full :
    (e : AccessEntry) (r : AccessRegister)
    → IsValid r
    → r.count ≡ 100
    → contents (add_to e r) ≡ drop 1 (contents r) ++ e ∷ []
unfolding add_to contents
add_to-full e r v full = ground (arith, window-shift r.entries r.head 99 r.tail e)

pub add_to-contents :
    (e : AccessEntry) {r : AccessRegister}
    → IsValid r
    → IsValid (add_to e r) × (contents (add_to e r) ≡ push_last e (contents r))
unfolding add_to contents push_last
add_to-contents e {r} v = elim (Bool-cases (ltb r.count 100)) [
  | inl lt ↦ (
    ground (arith, length-set r.entries r.tail e),
    ground (
      arith,
      length-window r.entries r.head r.count,
      window-append r.entries r.head r.count r.tail e,
    ),
  )
  | inr ge ↦ (
    ground (arith, length-set r.entries r.tail e),
    ground (arith, length-window r.entries r.head r.count, add_to-full e r v),
  )
]

-- The last hundred of a list.
pub last_hundred : List AccessEntry → List AccessEntry
last_hundred es = drop (length es - 100) es

push_last-last_hundred :
    (e : AccessEntry) (es : List AccessEntry)
    → push_last e (last_hundred es) ≡ last_hundred (es ++ e ∷ [])
unfolding push_last last_hundred
push_last-last_hundred e es = elim (Bool-cases (ltb (length es) 100)) [
  | inl lt ↦
      let z = ap (λ k. drop k es) {x = length es - 100} {y = 0} (ground arith) in
      let z2 =
        ap (λ k. drop k (es ++ e ∷ [])) {x = length (es ++ e ∷ []) - 100} {y = 0}
          (ground (arith, length-append es (e ∷ []))) in
      rw (z, z2, lt)
  | inr ge ↦
      let z : length (drop (length es - 100) es) ≡ 100 =
        ground (arith, length-drop (length es - 100) es) in
      let z2 =
        ap (λ k. drop k (es ++ e ∷ [])) {x = length (es ++ e ∷ []) - 100} {y = length es - 100 + 1}
          (ground (arith, length-append es (e ∷ []))) in
      rw (
        z,
        z2,
        drop-append (length es - 100 + 1) es (e ∷ []) (ground arith),
        drop-drop (length es - 100) 1 es,
      )
]

-- Calls in a row.
pub add_all : Option AccessRegister → List (Access × List ℕ) → Option AccessRegister
add_all r [] = r
add_all r ((a, date) ∷ log) = add_all (access_register_add_entry r a date) log

pub logged : List (Access × List ℕ) → List AccessEntry
logged [] = []
logged ((a, date) ∷ log) = entry_of a date ∷ logged log

-- The entries of a register, if there is one.
pub held : Option AccessRegister → Option (List AccessEntry)
held none = none
held (some r) = some (contents r)

add_all-contents :
    (r : AccessRegister) (past : List AccessEntry) (log : List (Access × List ℕ))
    → IsValid r
    → contents r ≡ last_hundred past
    → held (add_all (some r) log) ≡ some (last_hundred (past ++ logged log))
unfolding held add_all logged access_register_add_entry
add_all-contents r past [] v c = rw (append-nil past, c)
add_all-contents r past ((a, date) ∷ log) v c =
    let w = add_to-contents (entry_of a date) v in
    add_all-contents (add_to (entry_of a date) r) (past ++ entry_of a date ∷ []) log w.0
      (w.1 ∙ ap (push_last (entry_of a date)) c ∙ push_last-last_hundred (entry_of a date) past)
    ∙ ap (λ t. some (last_hundred t)) (append_assoc past (entry_of a date ∷ []) (logged log))

-- After any sequence of accesses, a new register whose array has a hundred slots holds the last
-- hundred of them, oldest first, whatever stood in the array.
pub access_register_add_entry_lem :
    (storage : List AccessEntry) (log : List (Access × List ℕ))
    → length storage ≡ register_max_entries
    → held (add_all (access_register_init true storage) log) ≡ some (last_hundred (logged log))
unfolding access_register_init last_hundred contents
access_register_add_entry_lem storage log l =
    add_all-contents (record { entries = storage; head = 0; tail = 0; count = 0 }) [] log
      (record { sized = l; head_in = ground arith; at_most = ground arith; tail_at = refl }) refl
