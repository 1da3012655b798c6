-- ===== src/Session.antt =====
-- src/mailmap/session_model.py and src/mailmap/oauth_session.py: the session with the mail account.
pub mod Result
pub mod Model
pub mod Ports
pub mod Monad
pub mod Record
pub mod Calls
pub mod Address
pub mod Authorize
pub mod Complete
pub mod Lifecycle
pub mod Revoke
pub mod Preserves
pub mod Frames
pub mod Replay
pub mod Inversion
pub mod Identified
pub mod Completed
pub mod Refused
pub mod RoundTrip
pub mod Stored
pub mod Restored
pub mod Refreshed
pub mod Reconnected
pub mod Decoded
pub mod Revoked
pub mod Revocation
pub mod Valid
pub mod Endpoint
pub mod Prepared
pub mod Asked
pub mod Offered
pub mod Superseded
pub mod AttemptsValid
pub mod StoredValid
pub mod OperationsValid
pub mod Trace
pub mod Success
mod Tests
