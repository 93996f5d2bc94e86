-- ===== src/Socks5/Steps.antt =====
-- Steps that the handlers share: a change of interest under a test, and a buffer behind bytes that were
-- sent.
use tpe_protos.Common.{
  ℕ, zero, suc, ◌≤◌, ◌<◌, ◌≡◌, refl, sym, ap, ◌∙◌, Bool, true, false, List, [], ◌∷◌, ◌++◌, some, ℤ,
  pos, length, take, drop, ◌==◌, ==_iff, arith, Bool-cases, inl, inr,
}
use tpe_protos.Stm.{returns}
use tpe_protos.Buffer.{Buffer, buffer_read_adv, buffer_compact}
use tpe_protos.Buffer.Inv.{IsValid}
use tpe_protos.Buffer.Queue
use tpe_protos.Buffer.Refine.{contents, view, read_adv_refines, compact_refines}
use tpe_protos.Socks5.World.{Socks5Conn, System, World, ◌>>=◌, ◌>>◌, when}
use tpe_protos.Socks5.Calls.{set_interest}
use tpe_protos.Socks5.Interest.{Sel, InTable, Keeps, Keeps-refl, set_interest-returns}

-- A process with a connection and a system.
abbrev pub live : World → Socks5Conn → System → World
live w c sys = record w { conn = some c; system = sys }

pub when_interest :
    (b : Bool) (fd : ℤ) (interest : ℕ) (sel : Sel) (w : World)
    → InTable fd sel
    → (sel' : Sel) × (when b (do set_interest fd interest; λ s. returns (tt, s)) (sel, w)
        ≡ returns (tt, (sel', w)))
      × Keeps sel sel'
when_interest false fd interest sel w h = (sel, refl, Keeps-refl sel)
when_interest true fd interest sel w h =
    let (status, sel', e, k) = set_interest-returns fd interest sel w h in (sel', rw (e, ◌>>=◌), k)

pub drop-length : (xs : List ℕ) → drop (length xs) xs ≡ []
drop-length [] = refl
drop-length (x ∷ xs) = drop-length xs

pub advance-items :
    (cap n : ℕ) (q : Queue.ByteQueue) → (Queue.advance cap n q).items ≡ drop n q.items
unfolding Queue.advance
advance-items cap n q = elim (Bool-cases (n == length q.items)) [
  | inl e ↦
      rw (e, Queue.advance)
        (sym (ap (λ k. drop k q.items) ((==_iff n (length q.items)).0 e) ∙ drop-length q.items))
  | inr e ↦ rw (e, Queue.advance)
]

-- The buffer behind `n` bytes that were sent.
pub advanced :
    {b : Buffer} (n : ℕ)
    → IsValid b
    → n ≤ length (contents b)
    → (b' : Buffer) × (buffer_read_adv b (pos n) ≡ some b')
      × IsValid (buffer_compact b')
      × (contents (buffer_compact b') ≡ drop n (contents b))
unfolding Queue.compact
advanced {b} n v h =
    let (b', run, s) = read_adv_refines n v h in
    let s' = compact_refines s.valid in
    (
      b',
      run,
      s'.valid,
      ap (λ q. q.items) s'.shows ∙ ap (λ q. q.items) s.shows ∙ advance-items b.limit n (view b),
    )

pub first_of : (l : List ℕ) → 0 < length l → (x : ℕ) × (xs : List ℕ) × (l ≡ x ∷ xs)
first_of [] h = absurd (omega arith)
first_of (x ∷ xs) h = (x, xs, refl)

pub take_then_drop : (n : ℕ) (l : List ℕ) → take n l ++ drop (length (take n l)) l ≡ l
take_then_drop zero l = refl
take_then_drop (suc n) [] = refl
take_then_drop (suc n) (x ∷ l) = ap (λ t. x ∷ t) (take_then_drop n l)

pub drop_cons :
    (b : Buffer) (old : Buffer) (n x : ℕ) (ys : List ℕ)
    → contents old ≡ x ∷ ys
    → contents b ≡ drop (suc (length (take n ys))) (contents old)
    → (x ∷ take n ys) ++ contents b ≡ contents old
drop_cons b old n x ys e left =
    ap (λ l. (x ∷ take n ys) ++ l) (left ∙ ap (drop (suc (length (take n ys)))) e)
    ∙ ap (λ l. x ∷ l) (take_then_drop n ys)
    ∙ sym e
