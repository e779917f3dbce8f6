-- ===== src/Session/State/Expiry.antt =====
-- broker/src/session/session_state_storage.rs: when a session expires.
use yed_mq.Base.{
  ℕ, ◌≤◌, ◌≡◌, ◌⊎◌, inl, inr, refl, Option, none, some, arith, leb, ◌==◌, if◌then◌else◌, u32_max,
  saturating_add,
}
use yed_mq.Session.State.{SessionState, update_connection_state, expired_disconnected_at}

-- A session that disconnects under an expiry interval, the one that the disconnection gives or else the
-- one that the session has, has expired from its deadline on, and not before; with the interval
-- `u32::MAX` it never expires. The legacy lifetime plays no part.
pub expired-update_connection :
    (s : SessionState) (at : ℕ) (update : Option ℕ) (interval now ttl : ℕ)
    → (update ≡ some interval) ⊎ ((update ≡ none) × (s.session_expiry_interval ≡ some interval))
    → expired_disconnected_at (update_connection_state s (some at) update) now ttl ≡ (
        if interval == u32_max
        then none
        else if leb (saturating_add at interval) now
        then some at
        else none)
unfolding update_connection_state expired_disconnected_at
expired-update_connection s at update interval now ttl (inl given) = rw given (ground arith)
expired-update_connection s at update interval now ttl (inr kept) =
    rw (kept.0, kept.1) (ground arith)

-- A connected session never expires.
pub connected_not_expired :
    (s : SessionState) (update : Option ℕ) (now ttl : ℕ)
    → expired_disconnected_at (update_connection_state s none update) now ttl ≡ none
unfolding update_connection_state expired_disconnected_at
connected_not_expired s none now ttl = refl
connected_not_expired s (some interval) now ttl = refl

-- Expiry is final: at any later time the session is still expired, since the same moment.
pub expired_mono :
    (s : SessionState) (now later ttl at : ℕ)
    → now ≤ later
    → expired_disconnected_at s now ttl ≡ some at
    → (expired_disconnected_at s later ttl ≡ some at) × (s.disconnected_at ≡ some at)
unfolding expired_disconnected_at
expired_mono s now later ttl at le e = ground arith
