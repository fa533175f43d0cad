-- ===== src/SessionState/Tokens.antt =====
-- src/session.rs: the token counter.
use smux.Base.{ℕ, ◌<◌, ◌≡◌, arith}
use smux.SessionState.{SessionState, i64_mod, return_tokens, take_tokens}

-- Taking tokens and returning as many leaves the counter as it was, also across a wrap-around and
-- below zero.
pub return-take_tokens :
    (n : ℕ) (s : SessionState)
    → s.tokens < i64_mod
    → (return_tokens n (take_tokens n s)).tokens ≡ s.tokens
unfolding return_tokens take_tokens
return-take_tokens n s h = omega arith
