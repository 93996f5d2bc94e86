-- ===== src/Engine.antt =====
-- src/server/utils/parser.c and src/server/include/parser.h: the table-driven engine under the
-- three protocol parsers. States and events are the numbers of the source's enums.
use Prim.Native.Nat.{bit_and}
use tpe_protos.Common.{
  ℕ, List, [], ◌∷◌, Option, none, some, Bool, true, false, leb, ltb, ◌==◌, if◌then◌else◌, not,
  get_or,
}

-- `struct parser_event`. `data` is `data[3]`; `next` tells whether the pointer is set (it can only
-- point at the parser's `e2`).
pub record Event : Type 0 where
  pub type : ℕ
  pub bytes : ℕ × ℕ × ℕ
  pub n : ℕ
  pub next : Bool

abbrev pub Action : Type 0
Action = Event → ℕ → Event

-- `struct parser_state_transition`; a `when` of the source is never negative.
pub record Transition : Type 0 where
  pub when : ℕ
  pub dest : ℕ
  pub act1 : Action
  pub act2 : Option Action

-- `ANY`
abbrev pub any : ℕ
any = 512

-- `struct parser_definition`: `states_n[i]` is the length of the list at `i`.
pub record ParserDefinition : Type 0 where
  pub states : List (List Transition)
  pub start_state : ℕ

-- `struct parser`. `classes` is the memory behind the pointer of the same name.
pub record Parser : Type 0 where
  pub classes : ℕ → ℕ
  pub def : ParserDefinition
  pub state : ℕ
  pub e1 : Event
  pub e2 : Event

abbrev pub zero_event : Event
zero_event = record { type = 0; bytes = (0, 0, 0); n = 0; next = false }

-- The `malloc` may fail.
unfoldable pub parser_init : Bool → (ℕ → ℕ) → ParserDefinition → Option Parser
parser_init allocated classes def =
    if allocated
    then some (record {
      classes = classes;
      def = def;
      state = def.start_state;
      e1 = zero_event;
      e2 = zero_event;
    })
    else none

unfoldable pub parser_reset : Parser → Parser
parser_reset p = record p { state = p.def.start_state }

unfoldable pub parser_set : Parser → ℕ → Parser
parser_set p state = record p { state = state }

-- Does a transition for `when` take the byte `c` of the class `type`?
matches : ℕ → ℕ → ℕ → Bool
matches when type c =
    if leb when 0xff then c == when else if when == any then true else not (bit_and type when == 0)

-- The actions of the transition that was chosen.
take_transition : Transition → ℕ → Parser → Parser
take_transition t c p =
    let e1 = t.act1 p.e1 c in
    elim t.act2 [
      | none ↦ record p { e1 = e1; state = t.dest }
      | some act2 ↦ record p { e1 = record e1 { next = true }; e2 = act2 p.e2 c; state = t.dest }
    ]

-- The loop: the first transition that matches is taken.
scan : List Transition → ℕ → ℕ → Parser → Parser
unfolding matches take_transition
scan [] type c p = p
scan (t ∷ ts) type c p = if matches t.when type c then take_transition t c p else scan ts type c p

-- The event returned is `e1` of the result. A state outside the table has no transition here; the
-- source would read past `states` (no state of the three tables leads outside).
unfoldable pub parser_feed : Parser → ℕ → Parser
unfolding scan
parser_feed p c =
    let p' = record p { e1 = record p.e1 { next = false }; e2 = record p.e2 { next = false } } in
    scan (get_or p.def.states p.state []) (p.classes c) c p'

-- The table `classes[0xFF]` of zeros has 255 entries. `stray` is what lies behind it.
abbrev pub classes_size : ℕ
classes_size = 0xff

unfoldable pub parser_no_classes : (ℕ → ℕ) → ℕ → ℕ
parser_no_classes stray i = if ltb i classes_size then 0 else stray i

-- What each action of the three parsers does: one byte of data under an event type.
abbrev pub emit : ℕ → Action
emit type ret c = record ret { type = type; n = 1; bytes = (c, ret.bytes.1, ret.bytes.2) }

-- `e->data[0]`
abbrev pub data0 : Parser → ℕ
data0 p = p.e1.bytes.0

-- A transition with one action.
abbrev pub on : ℕ → ℕ → Action → Transition
on when dest act1 = record { when = when; dest = dest; act1 = act1; act2 = none }

-- The event left by an action that read `c`, and an event with its link cleared.
abbrev pub read_event : ℕ → ℕ → Event → Event
read_event type c e = record e {
  type = type;
  bytes = (c, e.bytes.1, e.bytes.2);
  n = 1;
  next = false;
}

abbrev pub unlinked : Event → Event
unlinked e = record e { next = false }
