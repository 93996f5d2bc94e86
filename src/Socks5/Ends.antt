-- ===== src/Socks5/Ends.antt =====
-- Parts of the loops that read a message: what stands in front of them, and where they end.
use mathlib.Core.Option.{none-ne-some}
use tpe_protos.Common.{
  ℕ, zero, suc, ◌<◌, ◌≡◌, refl, true, Bool, List, [], ◌∷◌, some, length, arith, get_elem?,
}
use tpe_protos.Stm.{Run, returns, outside}
use tpe_protos.Buffer.{Buffer}
use tpe_protos.Buffer.Inv.{IsValid}
use tpe_protos.Buffer.Refine.{contents}
use tpe_protos.Parsers.Outcome.{Outcome, more, bad, complete, map_outcome}
use tpe_protos.Admin.Metrics.{ServerMetrics}
use tpe_protos.Admin.ServerData.{ServerData}
use tpe_protos.Socks5.World.{Socks5Conn, SendAnswer, taken, System, World, State, Act, ◌>>=◌, ◌>>◌}
use tpe_protos.Socks5.Interest.{Sel, Keeps}
use tpe_protos.Socks5.Closing.{freed}
use tpe_protos.Socks5.Sending.{at_state, process, current_state-at}
use tpe_protos.Socks5.Read.{bytes_loop, stay}
use tpe_protos.Socks5.Reading.{can_read-nil}

-- The parser behind a message that is complete.
pub completed :
    {P R : Type 0} (result : P → R) (o : Outcome P) (r : R) (rest : List ℕ)
    → map_outcome result o ≡ complete r rest
    → (p : P) × (o ≡ complete p rest) × (result p ≡ r)
completed result more r rest e = absurd cc
completed result bad r rest e = absurd cc
completed result (complete p' rest') r rest e = (p', cc, cc)

-- A first part that returns.
pub then_lem :
    (m : Act (Unit {0})) (k : Act ℕ) (s s' : State) → m s ≡ returns (tt, s') → (m >> k) s ≡ k s'
then_lem m k s s' e = rw (e, ◌>>=◌) refl

pub then_same :
    (m m' : Act (Unit {0})) (k : Act ℕ) (s s' : State) → m s ≡ m' s' → (m >> k) s ≡ (m' >> k) s'
then_same m m' k s s' e = rw (e, ◌>>=◌) refl

-- The state of the machine ends a loop.
pub stay-at :
    (i : ℕ) (sel : Sel) (w : World) (d : ServerData) (m : ServerMetrics) (c : Socks5Conn)
    (sys : System)
    → i < 7
    → stay (sel, process w d m (at_state i c) sys)
      ≡ returns (i, (sel, process w d m (at_state i c) sys))
unfolding stay
stay-at i sel w d m c sys h = current_state-at i sel w d m c sys h

-- Nothing waits: the loop ends in the state of the machine.
pub loop-nothing :
    (sel : Sel) (w : World) (d : ServerData) (m : ServerMetrics) (c : Socks5Conn) (sys : System)
    (turn : Act ℕ → Act ℕ) (k i : ℕ)
    → IsValid c.in_buff
    → contents c.in_buff ≡ []
    → i < 7
    → bytes_loop turn stay k (sel, process w d m (at_state i c) sys)
      ≡ returns (i, (sel, process w d m (at_state i c) sys))
unfolding bytes_loop stay
loop-nothing sel w d m c sys turn zero i v e h =
    rw (can_read-nil c.in_buff v e) (current_state-at i sel w d m c sys h)
loop-nothing sel w d m c sys turn (suc k) i v e h =
    rw (can_read-nil c.in_buff v e) (current_state-at i sel w d m c sys h)

-- The connection is gone.
pub loop-freed :
    (turn : Act ℕ → Act ℕ) (k f : ℕ) (sel : Sel) (w : World) (d : ServerData) (m : ServerMetrics)
    (sys : System)
    → bytes_loop turn stay k (sel, freed f w d m sys) ≡ outside
unfolding bytes_loop
loop-freed turn zero f sel w d m sys = refl
loop-freed turn (suc k) f sel w d m sys = refl

pub found_lem : {A : Type 0} {a : A} (xs : List A) (n : ℕ) → get_elem? xs n ≡ some a → n < length xs
found_lem [] n e = absurd (none-ne-some _ e)
found_lem (x ∷ xs) zero e = omega arith
found_lem (x ∷ xs) (suc n) e = omega (arith, found_lem xs n e)

-- The system of a client that takes the whole answer, with memory for another parser.
abbrev pub willing : ℕ → List SendAnswer → List Bool → System → System
willing n rest spare sys = record sys {
  sends = taken (suc (suc n)) ∷ rest;
  allocations = true ∷ true ∷ spare;
}

-- A call that returns `state` and a process as `world` says, for two buffers that are empty.
abbrev pub Reaches : Run (ℕ × State) → ℕ → Sel → (Buffer → Buffer → World) → Type 0
Reaches r state sel world =
    (in_buff out_buff : Buffer) × (sel' : Sel) × (r
      ≡ returns (state, (sel', world in_buff out_buff)))
    × IsValid in_buff
    × (contents in_buff ≡ [])
    × IsValid out_buff
    × (contents out_buff ≡ [])
    × Keeps sel sel'
