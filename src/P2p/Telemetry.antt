-- ===== src/P2p/Telemetry.antt =====
-- The counters of src/p2p/telemetry.go, int64 values, and the limit on its log lines.
use web5_mesh.Base.{◌≡◌, refl, Bool, true, false, if◌then◌else◌, Bool-cases, inl, inr}
use web5_mesh.Base.Int.{ℤ, pos, add_i64, ltb_ℤ, ◌+ℤ◌, neg}

pub record Telemetry : Type 0 where
  pub ping_sent : ℤ
  pub ping_received : ℤ
  pub pong_sent : ℤ
  pub pong_received : ℤ
  pub find_node_sent : ℤ
  pub find_node_received : ℤ
  pub nodes_discovered : ℤ
  pub last_log_time : ℤ

-- The Inc methods, one for each counter.
pub data Counter : Type 0 where
  ping_out ping_in pong_out pong_in find_node_out find_node_in discovered : Counter

abbrev one_more : ℤ → ℤ
one_more n = add_i64 n (pos 1)

unfoldable pub inc : Counter → Telemetry → Telemetry
inc ping_out t = record t { ping_sent = one_more t.ping_sent }
inc ping_in t = record t { ping_received = one_more t.ping_received }
inc pong_out t = record t { pong_sent = one_more t.pong_sent }
inc pong_in t = record t { pong_received = one_more t.pong_received }
inc find_node_out t = record t { find_node_sent = one_more t.find_node_sent }
inc find_node_in t = record t { find_node_received = one_more t.find_node_received }
inc discovered t = record t { nodes_discovered = one_more t.nodes_discovered }

-- Log at a time in nanoseconds: whether it prints the counters, at most every thirty seconds.
unfoldable pub log : ℤ → Telemetry → Telemetry × Bool
log now t =
    if ltb_ℤ (now +ℤ neg t.last_log_time) (pos 30_000_000_000)
    then (t, false)
    else (record t { last_log_time = now }, true)

-- Two calls of Log less than thirty seconds apart never both print.
pub log-log :
    (now later : ℤ) (t : Telemetry)
    → (log now t).1 ≡ true
    → ltb_ℤ (later +ℤ neg now) (pos 30_000_000_000) ≡ true
    → log later (log now t).0 ≡ ((log now t).0, false)
unfolding log
log-log now later t h near =
    elim (Bool-cases (ltb_ℤ (now +ℤ neg t.last_log_time) (pos 30_000_000_000))) [
      | inl e ↦ absurd (cc (rw (e, log) at h))
      | inr e ↦ rw (e, log, near) refl
    ]
