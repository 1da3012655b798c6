-- ===== src/Session/Revoke.antt =====
-- src/mailmap/oauth_session.py: the grant of a stored session is revoked (`revoke_remote`).
use mailcleanup.Prelude.{ℕ, Bool, true, false, String, Option, none, some, leb, if◌then◌else◌}
use mailcleanup.Session.Result.{SessionErrorCode}
use mailcleanup.Session.Model.{
  Library, SessionState, RevocationResult, StoredSessionRecord, validate_session_account_key,
}
use mailcleanup.Session.Ports.{Ports}
use mailcleanup.Session.Monad.{Method, give, pure, ask, trying, ◌>>=◌}
use mailcleanup.Session.Calls.{now, save_record, load_record}
use mailcleanup.Session.Lifecycle.{settle_at, is_true, revoked_token}

abbrev pub revocation : Bool → SessionState → Option SessionErrorCode → RevocationResult
revocation done state code = record { remote_revoked = done; state = state; error_code = code }

unfoldable pub state_at : StoredSessionRecord → ℕ → SessionState
state_at r time =
    if leb r.credentials.expires_at time
    then SessionState.refresh_required
    else SessionState.connected

module _ (lib : Library) (ports : Ports lib.Bytes) where
  -- The snapshot and the result say the same.
  unfoldable pub report :
      String
      → StoredSessionRecord
      → Bool
      → SessionState
      → Option SessionErrorCode
      → Method ports.World RevocationResult
  unfolding settle_at
  report key r done state code = do
    snapshot ← settle_at lib ports key r state code
    give (revocation done state code)

  unfoldable pub not_revoked : String → StoredSessionRecord → Method ports.World RevocationResult
  unfolding now report state_at
  not_revoked key r = do
    time ← now lib ports
    report key r false (state_at r time) (some SessionErrorCode.revocation_failed)

  unfoldable pub saved_revocation :
      String → StoredSessionRecord → Option (Unit {0}) → Method ports.World RevocationResult
  unfolding report
  saved_revocation key r none =
      report key r true SessionState.failed (some SessionErrorCode.store_failed)
  saved_revocation key r (some done) = report key r true SessionState.revoked none

  unfoldable pub store_revocation :
      String → StoredSessionRecord → Method ports.World RevocationResult
  unfolding save_record trying saved_revocation
  store_revocation key r = do
    saved ← trying (save_record lib ports (record r { revoked = true }))
    saved_revocation key r saved

  unfoldable pub ask_revocation : String → StoredSessionRecord → Method ports.World RevocationResult
  unfolding revoked_token not_revoked store_revocation
  ask_revocation key r = do
    reply ← ask (ports.revoke (revoked_token r.credentials))
    if is_true reply then store_revocation key r else not_revoked key r

  unfoldable pub revoke_record :
      String → Option StoredSessionRecord → Method ports.World RevocationResult
  unfolding ask_revocation
  revoke_record key none =
      give (revocation false SessionState.disconnected (some SessionErrorCode.session_not_found))
  revoke_record key (some r) =
      if r.revoked then give (revocation true SessionState.revoked none) else ask_revocation key r

  unfoldable pub revoke_remote : String → Method ports.World RevocationResult
  unfolding validate_session_account_key load_record revoke_record
  revoke_remote account_key = do
    key ← pure (validate_session_account_key lib account_key)
    r ← load_record lib ports key
    revoke_record key r
