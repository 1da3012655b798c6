-- ===== src/Session/Lifecycle.antt =====
-- src/mailmap/oauth_session.py: a stored session is restored, refreshed, revoked and forgotten.
use mailcleanup.Prelude.{ℕ, Bool, false, String, Option, none, some, leb, if◌then◌else◌}
use mailcleanup.Session.Result.{SessionErrorCode, Reply, failed, foreign, answer}
use mailcleanup.Session.Model.{
  Library, SessionState, CredentialBundle, SessionSnapshot, StoredSessionRecord,
  validate_session_account_key, is_exact_scope, snapshot_of,
}
use mailcleanup.Session.Ports.{Ports}
use mailcleanup.Session.Monad.{Method, give, pure, read, ask, settle, trying, ◌>>=◌}
use mailcleanup.Session.Record.{compare_digest}
use mailcleanup.Session.Calls.{
  now, verified_address, save_record, load_record, set_snapshot, snapshot_at,
}

abbrev pub snapshot_state :
    SessionState → StoredSessionRecord → Option SessionErrorCode → SessionSnapshot
snapshot_state state r code = snapshot_of state (some r.identity) code

abbrev pub is_true : Reply Bool → Bool
is_true (answer b) = b
is_true failed = false
is_true foreign = false

-- `refresh_token or access_token`
unfoldable pub revoked_token : CredentialBundle → String
revoked_token c = elim c.refresh_token [ some t ↦ t | none ↦ c.access_token ]

abbrev pub with_refresh_token : CredentialBundle → String → CredentialBundle
with_refresh_token c token = record c {
  refresh_token = elim c.refresh_token [ some t ↦ some t | none ↦ some token ];
}

module _ (lib : Library) (ports : Ports lib.Bytes) where
  -- `_set_snapshot` with the identity of the record
  unfoldable pub settle_at :
      String
      → StoredSessionRecord
      → SessionState
      → Option SessionErrorCode
      → Method ports.World SessionSnapshot
  unfolding set_snapshot
  settle_at key r state code = set_snapshot lib ports key (snapshot_state state r code)

  unfoldable pub classify_time : StoredSessionRecord → ℕ → SessionSnapshot
  classify_time r time =
      if leb r.credentials.expires_at time
      then snapshot_state SessionState.refresh_required r none
      else snapshot_state SessionState.connected r none

  unfoldable pub timed : StoredSessionRecord → Method ports.World SessionSnapshot
  unfolding now classify_time
  timed r = do time ← now lib ports; give (classify_time r time)

  unfoldable pub classify : Option StoredSessionRecord → Method ports.World SessionSnapshot
  unfolding timed is_exact_scope
  classify none = give (snapshot_of SessionState.disconnected none none)
  classify (some r) =
      if is_exact_scope r.credentials.scopes
      then if r.revoked then give (snapshot_state SessionState.revoked r none) else timed r
      else give
          (snapshot_state SessionState.scope_mismatch r (some SessionErrorCode.scope_mismatch))

  unfoldable pub restore_session : String → Method ports.World SessionSnapshot
  unfolding validate_session_account_key load_record classify set_snapshot
  restore_session account_key = do
    key ← pure (validate_session_account_key lib account_key)
    r ← load_record lib ports key
    snapshot ← classify r
    set_snapshot lib ports key snapshot

  unfoldable pub saved_refresh :
      String → StoredSessionRecord → Option (Unit {0}) → Method ports.World SessionSnapshot
  unfolding settle_at
  saved_refresh key r none =
      settle_at key r SessionState.failed (some SessionErrorCode.store_failed)
  saved_refresh key r (some done) = settle_at key r SessionState.connected none

  unfoldable pub store_refresh :
      String → StoredSessionRecord → CredentialBundle → Method ports.World SessionSnapshot
  unfolding save_record trying saved_refresh
  store_refresh key r c = do
    saved ← trying (save_record lib ports (record r { credentials = c }))
    saved_refresh key r saved

  unfoldable pub checked_address :
      String
      → StoredSessionRecord
      → CredentialBundle
      → Option String
      → Method ports.World SessionSnapshot
  unfolding settle_at compare_digest store_refresh
  checked_address key r c none =
      settle_at key r SessionState.failed (some SessionErrorCode.profile_failed)
  checked_address key r c (some address) = do
    same ← pure (compare_digest address r.identity.address)
    if same
        then store_refresh key r c
        else settle_at key r SessionState.account_mismatch (some SessionErrorCode.account_mismatch)

  unfoldable pub confirm_refresh :
      String → StoredSessionRecord → CredentialBundle → Method ports.World SessionSnapshot
  unfolding verified_address trying checked_address
  confirm_refresh key r c = do
    address ← trying (verified_address lib ports c)
    checked_address key r c address

  unfoldable pub refresh_failure : String → StoredSessionRecord → Method ports.World SessionSnapshot
  unfolding settle_at
  refresh_failure key r =
      settle_at key r SessionState.refresh_required (some SessionErrorCode.refresh_failed)

  unfoldable pub dated_refresh :
      String → StoredSessionRecord → String → CredentialBundle → Method ports.World SessionSnapshot
  unfolding now refresh_failure confirm_refresh
  dated_refresh key r token c = do
    time ← now lib ports
    if leb c.expires_at time
        then refresh_failure key r
        else confirm_refresh key r (with_refresh_token c token)

  unfoldable pub refreshed :
      String
      → StoredSessionRecord
      → String
      → Reply CredentialBundle
      → Method ports.World SessionSnapshot
  unfolding refresh_failure settle_at dated_refresh is_exact_scope
  refreshed key r token failed = refresh_failure key r
  refreshed key r token foreign = refresh_failure key r
  refreshed key r token (answer c) =
      if is_exact_scope c.scopes
      then dated_refresh key r token c
      else settle_at key r SessionState.scope_mismatch (some SessionErrorCode.scope_mismatch)

  unfoldable pub refresh_with :
      String → StoredSessionRecord → Option String → Method ports.World SessionSnapshot
  unfolding refresh_failure refreshed
  refresh_with key r none = refresh_failure key r
  refresh_with key r (some token) = do
    reply ← ask (ports.refresh r.credentials)
    refreshed key r token reply

  unfoldable pub refresh_record :
      String → Option StoredSessionRecord → Method ports.World SessionSnapshot
  unfolding set_snapshot settle_at refresh_with is_exact_scope
  refresh_record key none =
      set_snapshot lib ports key
        (snapshot_of SessionState.disconnected none (some SessionErrorCode.session_not_found))
  refresh_record key (some r) =
      if is_exact_scope r.credentials.scopes
      then if r.revoked
        then settle_at key r SessionState.revoked none
        else refresh_with key r r.credentials.refresh_token
      else settle_at key r SessionState.scope_mismatch (some SessionErrorCode.scope_mismatch)

  unfoldable pub refresh_session : String → Method ports.World SessionSnapshot
  unfolding validate_session_account_key load_record refresh_record
  refresh_session account_key = do
    key ← pure (validate_session_account_key lib account_key)
    r ← load_record lib ports key
    refresh_record key r

  unfoldable pub disconnect_local : String → Method ports.World (Unit {0})
  unfolding validate_session_account_key set_snapshot
  disconnect_local account_key = do
    key ← pure (validate_session_account_key lib account_key)
    snapshot ← set_snapshot lib ports key (snapshot_of SessionState.disconnected none none)
    give tt

  unfoldable pub forget_local : String → Method ports.World (Unit {0})
  unfolding validate_session_account_key set_snapshot
  forget_local account_key = do
    key ← pure (validate_session_account_key lib account_key)
    reply ← ask (ports.delete key)
    gone ← settle SessionErrorCode.store_failed reply
    snapshot ← set_snapshot lib ports key (snapshot_of SessionState.disconnected none none)
    give tt

  unfoldable pub current_snapshot : String → Method ports.World SessionSnapshot
  unfolding validate_session_account_key snapshot_at
  current_snapshot account_key = do
    key ← pure (validate_session_account_key lib account_key)
    found ← read (λ s. snapshot_at key s.snapshots)
    give (elim found [
      | some snapshot ↦ snapshot
      | none ↦ snapshot_of SessionState.disconnected none none
    ])
