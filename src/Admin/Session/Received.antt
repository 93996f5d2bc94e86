-- ===== src/Admin/Session/Received.antt =====
-- `admin_read`: bytes that complete a line, and bytes in front of a newline that is not theirs.
use tpe_protos.Common.{ℕ, ◌+◌, List, length}
use tpe_protos.Buffer.{Buffer}
use tpe_protos.Buffer.Queue
use tpe_protos.Socks5.World.{AdminConn, World, RecvAnswer}
use tpe_protos.Socks5.Calls.{fill}

-- What `recv` will answer.
abbrev pub hearing : List RecvAnswer → World → World
hearing answers w = record w { system = record (w.system) { recvs = answers } }

-- The connection with another input buffer.
abbrev pub with_input : AdminConn → Buffer → AdminConn
with_input c b = record c { in_buff = b }

-- A buffer with bytes behind those that wait.
abbrev pub taking : Buffer → List ℕ → Buffer
taking b bytes = record (fill b bytes) { write = b.write + length bytes }
