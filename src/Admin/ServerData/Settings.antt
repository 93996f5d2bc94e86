-- ===== src/Admin/ServerData/Settings.antt =====
-- The settings of server_data.c under a run of administrator commands.
use tpe_protos.Common.{
  ℕ, ◌≤◌, ◌≡◌, refl, some, leb, if◌then◌else◌, ◌∙◌, ap, List, [], ◌∷◌, ℤ, pos, negsuc, arith,
}
use tpe_protos.Admin.ServerData.{
  ServerData, Allocations, server_data_init, set_buffer_size, set_max_conn, buff_min_len,
  buff_default_len, max_conn_default,
}

pub data Command : Type 0 where
  buffer_size_to : ℤ → Command
  max_conn_to : ℤ → Command

unfoldable pub obey : Command → ServerData → ServerData
obey (buffer_size_to z) d = (set_buffer_size d z).1
obey (max_conn_to z) d = (set_max_conn d z).1

unfoldable pub obey_all : List Command → ServerData → ServerData
obey_all [] d = d
obey_all (c ∷ cs) d = obey_all cs (obey c d)

-- The last of the values asked for that is at least `least`, and `old` if there is none.
unfoldable pub last_of : ℕ → ℕ → List ℤ → ℕ
last_of least old [] = old
last_of least old (negsuc n ∷ zs) = last_of least old zs
last_of least old (pos n ∷ zs) = last_of least (if leb least n then n else old) zs

unfoldable pub sizes : List Command → List ℤ
sizes [] = []
sizes (buffer_size_to z ∷ cs) = z ∷ sizes cs
sizes (max_conn_to z ∷ cs) = sizes cs

unfoldable pub limits : List Command → List ℤ
limits [] = []
limits (buffer_size_to z ∷ cs) = limits cs
limits (max_conn_to z ∷ cs) = z ∷ limits cs

last_of-at_least : (least old : ℕ) (zs : List ℤ) → least ≤ old → least ≤ last_of least old zs
unfolding last_of
last_of-at_least least old [] h = h
last_of-at_least least old (negsuc n ∷ zs) h = last_of-at_least least old zs h
last_of-at_least least old (pos n ∷ zs) h =
    last_of-at_least least (if leb least n then n else old) zs (ground arith)

-- The settings that stand after commands given in `from`.
pub record Follows (from : ServerData) (cs : List Command) (d : ServerData) : Type 0 where
  pub buffer_follows : d.buffer_size ≡ last_of buff_min_len from.buffer_size (sizes cs)
  pub max_follows : d.max_conn ≡ last_of 1 from.max_conn (limits cs)
  pub same_metrics : d.metrics ≡ from.metrics
  pub same_register : d.access_register ≡ from.access_register

obey_all-Follows : (cs : List Command) (d : ServerData) → Follows d cs (obey_all cs d)
unfolding obey_all obey sizes limits last_of set_buffer_size set_max_conn
obey_all-Follows [] d = record {
  buffer_follows = refl;
  max_follows = refl;
  same_metrics = refl;
  same_register = refl;
}
obey_all-Follows (c ∷ cs) d = follow c (obey_all-Follows cs (obey c d))
  where
    follow :
        (c : Command)
        → Follows (obey c d) cs (obey_all cs (obey c d))
        → Follows d (c ∷ cs) (obey_all cs (obey c d))
    follow (buffer_size_to (negsuc n)) f = record {
      buffer_follows = f.buffer_follows;
      max_follows = f.max_follows;
      same_metrics = f.same_metrics;
      same_register = f.same_register;
    }
    follow (max_conn_to (negsuc n)) f = record {
      buffer_follows = f.buffer_follows;
      max_follows = f.max_follows;
      same_metrics = f.same_metrics;
      same_register = f.same_register;
    }
    follow (buffer_size_to (pos n)) f = record {
      buffer_follows =
          f.buffer_follows ∙ ap (λ k. last_of buff_min_len k (sizes cs)) (ground arith);
      max_follows = f.max_follows ∙ ap (λ k. last_of 1 k (limits cs)) (ground arith);
      same_metrics = f.same_metrics ∙ ground arith;
      same_register = f.same_register ∙ ground arith;
    }
    follow (max_conn_to (pos n)) f = record {
      buffer_follows =
          f.buffer_follows ∙ ap (λ k. last_of buff_min_len k (sizes cs)) (ground arith);
      max_follows = f.max_follows ∙ ap (λ k. last_of 1 k (limits cs)) (ground arith);
      same_metrics = f.same_metrics ∙ ground arith;
      same_register = f.same_register ∙ ground arith;
    }

pub record IsValid (d : ServerData) : Type 0 where
  pub big_enough : buff_min_len ≤ d.buffer_size
  pub some_allowed : 1 ≤ d.max_conn

pub obey_all-IsValid : (cs : List Command) {d : ServerData} → IsValid d → IsValid (obey_all cs d)
obey_all-IsValid cs {d} v =
    let f = obey_all-Follows cs d in
    record {
      big_enough =
          ground (arith, f.buffer_follows, last_of-at_least buff_min_len d.buffer_size (sizes cs));
      some_allowed = ground (arith, f.max_follows, last_of-at_least 1 d.max_conn (limits cs));
    }

-- After any sequence of administrator commands on new settings, the buffer size is at least 256
-- and the connection limit at least 1, and each is the last value asked for that reaches its
-- minimum, or the default where there is none.
pub settings_lem :
    (a : Allocations) (cs : List Command) (d : ServerData)
    → server_data_init a ≡ some d
    → IsValid (obey_all cs d)
      × ((obey_all cs d).buffer_size ≡ last_of buff_min_len buff_default_len (sizes cs))
      × ((obey_all cs d).max_conn ≡ last_of 1 max_conn_default (limits cs))
unfolding server_data_init
settings_lem a cs d e =
    let f = obey_all-Follows cs d in
    (
      obey_all-IsValid cs (record { big_enough = ground arith; some_allowed = ground arith }),
      f.buffer_follows ∙ ap (λ k. last_of buff_min_len k (sizes cs)) (ground arith),
      f.max_follows ∙ ap (λ k. last_of 1 k (limits cs)) (ground arith),
    )
