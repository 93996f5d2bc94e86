-- ===== src/Tests/Buffers.antt =====
-- A history of calls on a buffer of four bytes.
use tpe_protos.Common.{refl, List, [], ◌∷◌, arith}
use tpe_protos.Buffer.{Buffer}
use tpe_protos.Buffer.Refine.{Shows, view}
use tpe_protos.Buffer.Run.{
  Op, get, put, receive, send, compact, AgreeRun, run, queue_run, run_refines,
}

abbrev fresh : Buffer
fresh = record { mem = 9 ∷ 9 ∷ 9 ∷ 9 ∷ []; limit = 4; read = 0; write = 0 }

abbrev calls : List Op
calls = put 1 ∷ receive (2 ∷ 3 ∷ []) ∷ get ∷ send 1 ∷ compact ∷ get ∷ get ∷ []

fresh-Shows : Shows 4 (view fresh) fresh
fresh-Shows = record { valid = ground arith; same_limit = refl; shows = refl }

run_refines_example : AgreeRun 4 (queue_run 4 (view fresh) calls) (run fresh calls)
run_refines_example = run_refines calls fresh-Shows
