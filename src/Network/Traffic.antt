-- ===== src/Network/Traffic.antt =====
-- common/network/traffic.go: the counters of one connection, which are of `uint64` and wrap around.
-- Each of the two additions of IncrRead and IncrWrite is atomic; a snapshot between them shows a message
-- whose bytes are not yet counted. Here the two are one step.
use go_tools.Base.{ℕ, ◌+◌, ◌%◌}
use go_tools.Base.Int.{two_pow_64}

pub record TrafficSnapshot : Type 0 where
  pub read_messages : ℕ
  pub read_bytes : ℕ
  pub write_messages : ℕ
  pub write_bytes : ℕ

pub record TrafficStatistics : Type 0 where
  pub read_messages : ℕ
  pub read_bytes : ℕ
  pub write_messages : ℕ
  pub write_bytes : ℕ

abbrev pub no_traffic : TrafficStatistics
no_traffic = record { read_messages = 0; read_bytes = 0; write_messages = 0; write_bytes = 0 }

unfoldable pub snapshot : TrafficStatistics → TrafficSnapshot
snapshot ts = record {
  read_messages = ts.read_messages;
  read_bytes = ts.read_bytes;
  write_messages = ts.write_messages;
  write_bytes = ts.write_bytes;
}

-- `atomic.Uint64.Add`
abbrev pub add_uint64 : ℕ → ℕ → ℕ
add_uint64 a b = (a + b) % two_pow_64

unfoldable pub incr_read : TrafficStatistics → ℕ → TrafficStatistics
incr_read ts rl = record ts {
  read_messages = add_uint64 ts.read_messages 1;
  read_bytes = add_uint64 ts.read_bytes rl;
}

unfoldable pub incr_write : TrafficStatistics → ℕ → TrafficStatistics
incr_write ts wl = record ts {
  write_messages = add_uint64 ts.write_messages 1;
  write_bytes = add_uint64 ts.write_bytes wl;
}
