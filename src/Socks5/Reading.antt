-- ===== src/Socks5/Reading.antt =====
-- The loops that read a message from the input buffer, against the parsers fed with the bytes that wait.
use tpe_protos.Common.{
  ℕ, zero, suc, ◌-◌, ◌≤◌, ◌≡◌, refl, sym, ap, ◌∙◌, true, false, List, [], ◌∷◌, ◌++◌, Option, some,
  length, drop, lt→ltb, arith, ◌==◌, if◌then◌else◌, Bool-cases, inl, inr,
}
use tpe_protos.Stm.{Run, returns}
use tpe_protos.Buffer.{Buffer, buffer_can_read, buffer_read}
use tpe_protos.Buffer.Inv.{IsValid, length-slice}
use tpe_protos.Buffer.Queue
use tpe_protos.Buffer.Refine.{contents, view, read_refines}
use tpe_protos.Parsers.Outcome.{Outcome, more, bad, complete, drive}
use tpe_protos.Socks5.World.{Socks5Conn, World, State, Act, pure, ◌>>=◌}
use tpe_protos.Socks5.Interest.{Sel}
use tpe_protos.Socks5.Steps.{advance-items}
use tpe_protos.Socks5.Write.{socks5_error}
use tpe_protos.Socks5.Read.{read_byte, message_turn, bytes_loop}

-- Reading a buffer whose oldest byte is `x`.
pub buffer_read-cons :
    (b : Buffer) (x : ℕ) (xs : List ℕ)
    → IsValid b
    → contents b ≡ x ∷ xs
    → (b' : Buffer) × (buffer_read b ≡ some (x, b')) × IsValid b' × (contents b' ≡ xs)
buffer_read-cons b x xs v e =
    let (b', run, s) = read_refines v in
    let popped = Queue.pop-cons b.limit (view b) x xs e in
    (
      b',
      run ∙ ap (λ q. some (q.0, b')) popped,
      s.valid,
      ap (λ q. q.items) s.shows
          ∙ ap (λ q. q.1.items) popped
          ∙ advance-items b.limit 1 (view b)
          ∙ ap (drop 1) e,
    )

pub can_read-cons :
    (b : Buffer) (x : ℕ) (xs : List ℕ) → IsValid b → contents b ≡ x ∷ xs → buffer_can_read b ≡ true
unfolding buffer_can_read
can_read-cons b x xs v e = lt→ltb 0 (b.write - b.read) (omega (arith, length-slice v, ap length e))

pub can_read-nil : (b : Buffer) → IsValid b → contents b ≡ [] → buffer_can_read b ≡ false
unfolding buffer_can_read
can_read-nil b v e = ground (arith, length-slice v, ap length e)

more-ne-complete :
    {A : Type 0} (a : A) (rest : List ℕ) → ◌≡◌ {A = Outcome A} more (complete a rest) → ⊥
more-ne-complete a rest q = cc

bad-ne-complete :
    {A : Type 0} (a : A) (rest : List ℕ) → ◌≡◌ {A = Outcome A} bad (complete a rest) → ⊥
bad-ne-complete a rest q = cc

more-ne-bad : {A : Type 0} → ◌≡◌ {A = Outcome A} more bad → ⊥
more-ne-bad q = cc

complete-injective :
    {A : Type 0} (a a' : A) (r r' : List ℕ) → complete a r ≡ complete a' r' → (a ≡ a') × (r ≡ r')
complete-injective a a' r r' q = (cc, cc)

-- A loop over a parser of type `P`, in a process `w` whose connection is `conn p` where the buffer is
-- `b` and the parser is `p`.
module _ {P : Type 0} (get : Socks5Conn → Option P) (put : P → Socks5Conn → Socks5Conn)
    (feed : P → ℕ → P × ℕ) (done error : ℕ) (finished : P → Act ℕ → Act ℕ) (stop : Act ℕ)
    (state : ℕ) (sel : Sel) (w : World) (conn : P → Socks5Conn)
    (get-conn : (b : Buffer) (p : P) → get (record (conn p) { in_buff = b }) ≡ some p)
    (put-conn : (b : Buffer) (p p' : P)
      → put p' (record (conn p) { in_buff = b }) ≡ record (conn p') { in_buff = b })
    (stop-conn : (b : Buffer) (p : P)
      → stop (sel, record w { conn = some (record (conn p) { in_buff = b }) })
        ≡ returns (state, (sel, record w { conn = some (record (conn p) { in_buff = b }) }))) where
  abbrev pub now : Buffer → P → State
  now b p = (sel, record w { conn = some (record (conn p) { in_buff = b }) })

  abbrev pub loop : ℕ → Act ℕ
  loop fuel = bytes_loop (message_turn get put feed done error finished) stop fuel

  abbrev pub parse : P → List ℕ → Outcome P
  parse = drive feed done error

  -- What follows the byte on which the parser came to `p` and `state`.
  next : ℕ → Buffer → P × ℕ → Run (ℕ × State)
  next fuel b r =
      (if r.1 == done
          then finished r.0 (loop fuel)
          else if r.1 == error
          then pure socks5_error
          else loop fuel)
        (now b r.0)

  next-fine :
      (fuel : ℕ) (b : Buffer) (r : P × ℕ)
      → (r.1 == done) ≡ false
      → (r.1 == error) ≡ false
      → next fuel b r ≡ loop fuel (now b r.0)
  unfolding next
  next-fine fuel b r h k = rw (h, k) refl

  loop-step :
      (x : ℕ) (xs : List ℕ) (fuel : ℕ) (b : Buffer) (p : P)
      → IsValid b
      → contents b ≡ x ∷ xs
      → (b' : Buffer) × (loop (suc fuel) (now b p) ≡ next fuel b' (feed p x))
        × IsValid b'
        × (contents b' ≡ xs)
  unfolding bytes_loop message_turn next read_byte
  loop-step x xs fuel b p v e =
      let (b', run, v', e') = buffer_read-cons b x xs v e in
      (
        b',
        rw
            (
              can_read-cons b x xs v e,
              ◌>>=◌,
              read_byte,
              run,
              get-conn b' p,
              put-conn b' p (feed p x).0,
            )
            refl,
        v',
        e',
      )

  loop-end :
      (fuel : ℕ) (b : Buffer) (p : P)
      → IsValid b
      → contents b ≡ []
      → loop fuel (now b p) ≡ returns (state, now b p)
  unfolding bytes_loop
  loop-end zero b p v e = rw (can_read-nil b v e) (stop-conn b p)
  loop-end (suc fuel) b p v e = rw (can_read-nil b v e) (stop-conn b p)

  -- Where the parser finds a complete message, the loop comes to `finished` with the bytes
  -- behind the message still waiting.
  pub loop-complete :
      (bytes : List ℕ) (fuel : ℕ) (b : Buffer) (p p' : P) (rest : List ℕ)
      → IsValid b
      → contents b ≡ bytes
      → length bytes ≤ fuel
      → parse p bytes ≡ complete p' rest
      → (k : ℕ) × (b' : Buffer) × (loop fuel (now b p) ≡ finished p' (loop k) (now b' p'))
        × IsValid b'
        × (contents b' ≡ rest)
        × (length rest ≤ k)
  unfolding drive next
  loop-complete [] fuel b p p' rest v e h q = absurd (more-ne-complete p' rest q)
  loop-complete (x ∷ xs) zero b p p' rest v e h q = absurd (omega arith)
  loop-complete (x ∷ xs) (suc fuel) b p p' rest v e h q =
      let (b1, run, v1, e1) = loop-step x xs fuel b p v e in
      elim (Bool-cases ((feed p x).1 == done)) [
        | inl ended ↦
            let (same, left) = complete-injective _ _ _ _ (rw ended at q) in
            (
              fuel,
              b1,
              run ∙ rw ended (ap (λ q. finished q (loop fuel) (now b1 q)) same),
              v1,
              e1 ∙ left,
              omega (arith, ap length left),
            )
        | inr later ↦ elim (Bool-cases ((feed p x).1 == error)) [
          | inl wrong ↦ absurd (bad-ne-complete p' rest (rw (later, wrong) at q))
          | inr fine ↦
              let (k, b', run', v', e', l) =
                loop-complete xs fuel b1 (feed p x).0 p' rest v1 e1 (omega arith)
                  (rw (later, fine) at q) in
              (k, b', run ∙ next-fine fuel b1 (feed p x) later fine ∙ run', v', e', l)
        ]
      ]

  -- A malformed message: the state of the error, and the parser is where it was found out.
  pub loop-bad :
      (bytes : List ℕ) (fuel : ℕ) (b : Buffer) (p : P)
      → IsValid b
      → contents b ≡ bytes
      → length bytes ≤ fuel
      → parse p bytes ≡ bad
      → (b' : Buffer) × (p' : P) × (loop fuel (now b p) ≡ returns (socks5_error, now b' p'))
        × IsValid b'
  unfolding drive next
  loop-bad [] fuel b p v e h q = absurd (more-ne-bad q)
  loop-bad (x ∷ xs) zero b p v e h q = absurd (omega arith)
  loop-bad (x ∷ xs) (suc fuel) b p v e h q =
      let (b1, run, v1, e1) = loop-step x xs fuel b p v e in
      elim (Bool-cases ((feed p x).1 == done)) [
        | inl ended ↦ absurd (bad-ne-complete _ _ (sym (rw ended at q)))
        | inr later ↦ elim (Bool-cases ((feed p x).1 == error)) [
          | inl wrong ↦ (b1, (feed p x).0, run ∙ rw (later, wrong) refl, v1)
          | inr fine ↦
              let (b', p', run', v') =
                loop-bad xs fuel b1 (feed p x).0 v1 e1 (omega arith) (rw (later, fine) at q) in
              (b', p', run ∙ next-fine fuel b1 (feed p x) later fine ∙ run', v')
        ]
      ]

  -- An unfinished message: the state stays, and the parser has taken every byte.
  pub loop-more :
      (bytes : List ℕ) (fuel : ℕ) (b : Buffer) (p : P)
      → IsValid b
      → contents b ≡ bytes
      → length bytes ≤ fuel
      → parse p bytes ≡ more
      → (b' : Buffer) × (p' : P) × (loop fuel (now b p) ≡ returns (state, now b' p'))
        × IsValid b'
        × (contents b' ≡ [])
        × ((later : List ℕ) → parse p (bytes ++ later) ≡ parse p' later)
  unfolding drive next
  loop-more [] fuel b p v e h q = (b, p, loop-end fuel b p v e, v, e, λ l. refl)
  loop-more (x ∷ xs) zero b p v e h q = absurd (omega arith)
  loop-more (x ∷ xs) (suc fuel) b p v e h q =
      let (b1, run, v1, e1) = loop-step x xs fuel b p v e in
      elim (Bool-cases ((feed p x).1 == done)) [
        | inl ended ↦ absurd (more-ne-complete _ _ (sym (rw ended at q)))
        | inr later ↦ elim (Bool-cases ((feed p x).1 == error)) [
          | inl wrong ↦ absurd (more-ne-bad (sym (rw (later, wrong) at q)))
          | inr fine ↦
              let (b', p', run', v', e', keep) =
                loop-more xs fuel b1 (feed p x).0 v1 e1 (omega arith) (rw (later, fine) at q) in
              (
                b',
                p',
                run ∙ next-fine fuel b1 (feed p x) later fine ∙ run',
                v',
                e',
                λ l. rw (later, fine) (keep l),
              )
        ]
      ]
