-- ===== src/SessionState.antt =====
-- src/session.rs: `SessionState`, which a session shares with its streams. Every field is an atomic
-- behind an `Arc`; the model has the one value that all clones see. The two `Notify` are third
-- party: the model counts the calls of `notify_waiters`. An `i64` is its bit pattern, a number
-- below 2 ^ 64, so that `as i64`, `fetch_add` and `fetch_sub` wrap as they do in Rust.
pub mod Tokens
use smux.Base.{ℕ, ◌+◌, ◌-◌, ◌%◌, ◌^◌, Bool, true, false, ◌&&◌, ltb, if◌then◌else◌}

abbrev pub i64_mod : ℕ
i64_mod = 2 ^ 64

-- `0 < n` for the i64 with the bit pattern `n`.
abbrev pub is_positive : ℕ → Bool
is_positive n = ltb 0 n && ltb n (2 ^ 63)

pub record SessionState : Type 0 where
  pub closed : Bool
  pub tokens : ℕ
  pub data_received : Bool
  pub die_notified : ℕ
  pub tokens_notified : ℕ

unfoldable pub new : ℕ → SessionState
new buffer_size = record {
  closed = false;
  tokens = buffer_size % i64_mod;
  data_received = true;
  die_notified = 0;
  tokens_notified = 0;
}

abbrev pub is_closed : SessionState → Bool
is_closed s = s.closed

-- `close`: the first call alone notifies.
unfoldable pub close : SessionState → SessionState
close s = if s.closed then s else record s { closed = true; die_notified = s.die_notified + 1 }

unfoldable pub return_tokens : ℕ → SessionState → SessionState
return_tokens count s = record s {
  tokens = (s.tokens + count) % i64_mod;
  tokens_notified = s.tokens_notified + 1;
}

unfoldable pub get_tokens : SessionState → ℕ
get_tokens s = s.tokens

unfoldable pub take_tokens : ℕ → SessionState → SessionState
take_tokens count s = record s { tokens = (s.tokens + i64_mod - count % i64_mod) % i64_mod }

unfoldable pub mark_data_received : SessionState → SessionState
mark_data_received s = record s { data_received = true }

-- Returns the previous value.
unfoldable pub check_and_reset_data_received : SessionState → Bool × SessionState
check_and_reset_data_received s = (s.data_received, record s { data_received = false })
