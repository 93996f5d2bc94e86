-- ===== src/Admin/Metrics/Counts.antt =====
-- What the counters of metrics.c show after a run of the server.
use tpe_protos.Common.{
  ℕ, suc, ◌+◌, ◌-◌, ◌%◌, ◌^◌, ◌≤◌, ◌<◌, ◌≡◌, true, some, List, [], ◌∷◌, arith, max, Bool-cases, inl,
  inr, ltb,
}
use tpe_protos.Admin.Metrics.{
  ServerMetrics, metrics_init, metrics_inc_total_conn, metrics_inc_curr_conn, metrics_dec_curr_conn,
  metrics_add_bytes, metrics_inc_errors,
}

-- The calls that the server makes: a connection is accepted (two calls), it ends, bytes are moved, a
-- request fails.
pub data Event : Type 0 where
  accepted : Event
  ended : Event
  moved : ℕ → Event
  failed : Event

unfoldable pub record_event : Event → ServerMetrics → ServerMetrics
unfolding metrics_inc_total_conn metrics_inc_curr_conn metrics_dec_curr_conn metrics_add_bytes
    metrics_inc_errors
record_event accepted m = metrics_inc_curr_conn (metrics_inc_total_conn m)
record_event ended m = metrics_dec_curr_conn m
record_event (moved n) m = metrics_add_bytes m n
record_event failed m = metrics_inc_errors m

unfoldable pub record_all : List Event → ServerMetrics → ServerMetrics
record_all [] m = m
record_all (e ∷ es) m = record_all es (record_event e m)

unfoldable pub accepts : List Event → ℕ
accepts [] = 0
accepts (accepted ∷ es) = suc (accepts es)
accepts (ended ∷ es) = accepts es
accepts (moved n ∷ es) = accepts es
accepts (failed ∷ es) = accepts es

unfoldable pub ends : List Event → ℕ
ends [] = 0
ends (ended ∷ es) = suc (ends es)
ends (accepted ∷ es) = ends es
ends (moved n ∷ es) = ends es
ends (failed ∷ es) = ends es

unfoldable pub bytes_of : List Event → ℕ
bytes_of [] = 0
bytes_of (moved n ∷ es) = n + bytes_of es
bytes_of (accepted ∷ es) = bytes_of es
bytes_of (ended ∷ es) = bytes_of es
bytes_of (failed ∷ es) = bytes_of es

unfoldable pub failures : List Event → ℕ
failures [] = 0
failures (failed ∷ es) = suc (failures es)
failures (accepted ∷ es) = failures es
failures (ended ∷ es) = failures es
failures (moved n ∷ es) = failures es

-- The most by which the ends exceed the connections accepted, in a front part of the events, behind `a`
-- connections accepted and `e` ended.
unfoldable pub excess : ℕ → ℕ → List Event → ℕ
excess a e [] = e - a
excess a e (accepted ∷ es) = max (e - a) (excess (suc a) e es)
excess a e (ended ∷ es) = max (e - a) (excess a (suc e) es)
excess a e (moved n ∷ es) = excess a e es
excess a e (failed ∷ es) = excess a e es

-- The counters that only grow are the numbers of events, modulo 2^64, whatever the events are.
pub record Grown (from : ServerMetrics) (es : List Event) (m : ServerMetrics) : Type 0 where
  pub total : m.total_connections ≡ (from.total_connections + accepts es) % 2 ^ 64
  pub bytes : m.bytes_transferred ≡ (from.bytes_transferred + bytes_of es) % 2 ^ 64
  pub error_count : m.errors ≡ (from.errors + failures es) % 2 ^ 64

pub IsWord : ℕ → Type 0
IsWord n = n < 2 ^ 64

pub record AreWords (m : ServerMetrics) : Type 0 where
  pub total_word : m.total_connections < 2 ^ 64
  pub bytes_word : m.bytes_transferred < 2 ^ 64
  pub errors_word : m.errors < 2 ^ 64

record_all-Grown : (es : List Event) (m : ServerMetrics) → AreWords m → Grown m es (record_all es m)
unfolding record_all record_event accepts bytes_of failures metrics_inc_total_conn
    metrics_inc_curr_conn metrics_dec_curr_conn metrics_add_bytes metrics_inc_errors
record_all-Grown [] m w = record {
  total = ground arith;
  bytes = ground arith;
  error_count = ground arith;
}
record_all-Grown (accepted ∷ es) m w =
    let ih = record_all-Grown es (metrics_inc_curr_conn (metrics_inc_total_conn m)) (record {
      total_word = ground arith;
      bytes_word = ground arith;
      errors_word = ground arith;
    }) in
    record {
      total = ground (arith, ih.total);
      bytes = ground (arith, ih.bytes);
      error_count = ground (arith, ih.error_count);
    }
record_all-Grown (ended ∷ es) m w =
    let ih = record_all-Grown es (metrics_dec_curr_conn m) (record {
      total_word = ground arith;
      bytes_word = ground arith;
      errors_word = ground arith;
    }) in
    record {
      total = ground (arith, ih.total);
      bytes = ground (arith, ih.bytes);
      error_count = ground (arith, ih.error_count);
    }
record_all-Grown (moved n ∷ es) m w =
    let ih = record_all-Grown es (metrics_add_bytes m n) (record {
      total_word = ground arith;
      bytes_word = ground arith;
      errors_word = ground arith;
    }) in
    record {
      total = ground (arith, ih.total);
      bytes = ground (arith, ih.bytes);
      error_count = ground (arith, ih.error_count);
    }
record_all-Grown (failed ∷ es) m w =
    let ih = record_all-Grown es (metrics_inc_errors m) (record {
      total_word = ground arith;
      bytes_word = ground arith;
      errors_word = ground arith;
    }) in
    record {
      total = ground (arith, ih.total);
      bytes = ground (arith, ih.bytes);
      error_count = ground (arith, ih.error_count);
    }

excess-least : (a e : ℕ) (es : List Event) → e - a ≤ excess a e es
unfolding excess
excess-least a e [] = omega arith
excess-least a e (accepted ∷ es) = omega arith
excess-least a e (ended ∷ es) = omega arith
excess-least a e (moved n ∷ es) = excess-least a e es
excess-least a e (failed ∷ es) = excess-least a e es

-- The count of open connections, behind `a` accepted and `e` ended, of which `lost` had no effect.
record_all-current :
    (es : List Event) (m : ServerMetrics) (a e lost : ℕ)
    → m.current_connections + e ≡ a + lost
    → e - a ≤ lost
    → lost ≤ e
    → a + accepts es < 2 ^ 64
    → (record_all es m).current_connections + (e + ends es)
      ≡ a + accepts es + max lost (excess a e es)
unfolding record_all record_event accepts ends excess metrics_inc_total_conn metrics_inc_curr_conn
    metrics_dec_curr_conn metrics_add_bytes metrics_inc_errors
record_all-current [] m a e lost h l k w = ground arith
record_all-current (accepted ∷ es) m a e lost h l k w =
    ground (
      arith,
      record_all-current es (metrics_inc_curr_conn (metrics_inc_total_conn m)) (suc a) e lost,
    )
record_all-current (ended ∷ es) m a e lost h l k w =
    elim (Bool-cases (ltb 0 m.current_connections)) [
      | inl t ↦
          rw (record_all, t)
            (ground (
              arith,
              t,
              record_all-current es (record m { current_connections = m.current_connections - 1 }) a
                  (suc e) lost (ground (arith, h, t)) (ground (arith, h, t)) (ground (arith, k)) w,
            ))
      | inr f ↦
          rw (record_all, f)
            (ground (
              arith,
              f,
              h,
              l,
              excess-least a (suc e) es,
              record_all-current es m a (suc e) (suc lost) (ground (arith, h))
                  (ground (arith, h, f)) (ground (arith, k)) w,
            ))
    ]
record_all-current (moved n ∷ es) m a e lost h l k w =
    record_all-current es (metrics_add_bytes m n) a e lost h l k w
record_all-current (failed ∷ es) m a e lost h l k w =
    record_all-current es (metrics_inc_errors m) a e lost h l k w

-- After any sequence of events, from the start of the counters, the connections accepted, the
-- bytes moved and the errors are the counts of the events modulo 2^64.
growing_counters_lem :
    (es : List Event) (m : ServerMetrics)
    → metrics_init true ≡ some m
    → ((record_all es m).total_connections ≡ accepts es % 2 ^ 64)
      × ((record_all es m).bytes_transferred ≡ bytes_of es % 2 ^ 64)
      × ((record_all es m).errors ≡ failures es % 2 ^ 64)
unfolding metrics_init
growing_counters_lem es m e =
    let g = record_all-Grown es m (record {
      total_word = ground arith;
      bytes_word = ground arith;
      errors_word = ground arith;
    }) in
    (ground (arith, g.total), ground (arith, g.bytes), ground (arith, g.error_count))

-- After any events that accept fewer than 2^64 connections, the counter of current connections, from its
-- start, and the number ended are together the number accepted and the excess of ends: the most by which
-- the ends exceed the connections accepted in a front part of the events.
pub current_connections_lem :
    (es : List Event) (m : ServerMetrics)
    → metrics_init true ≡ some m
    → accepts es < 2 ^ 64
    → (record_all es m).current_connections + ends es ≡ accepts es + excess 0 0 es
unfolding metrics_init
current_connections_lem es m e w =
    let z : m.current_connections ≡ 0 = ground arith in
    let v =
      record_all-current es m 0 0 0 (omega (arith, z)) (omega arith) (omega arith)
        (omega (arith, w)) in
    ground (arith, v)
