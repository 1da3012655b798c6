-- ===== src/Session/Complete.antt =====
-- src/mailmap/oauth_session.py: the callback completes an authorization.
use mailcleanup.Prelude.{Bool, true, false, not, String, Option, none, some, leb, if◌then◌else◌}
use mailcleanup.Session.Result.{SessionErrorCode, session_error, Outcome, raised, value, controlled}
use mailcleanup.Session.Model.{
  Library, SessionState, SessionIdentity, CredentialBundle, AuthorizationCallback,
  AuthorizationCallbackError, session_identity, snapshot_of,
}
use mailcleanup.Session.Ports.{Ports, Attempt}
use mailcleanup.Session.Monad.{
  Method, give, raise, pure, read, ask, demand, settle, typed, ◌>>=◌, ◌>>◌,
}
use mailcleanup.Session.Record.{compare_digest}
use mailcleanup.Session.Calls.{
  consume_attempt, was_consumed, now, verified_address, save_record, require_exact_scope,
  set_snapshot,
}

unfoldable pub code_or : Option AuthorizationCallbackError → Option String → Outcome String
code_or (some e) code = raised (session_error SessionErrorCode.callback_error)
code_or none none = raised (session_error SessionErrorCode.callback_invalid)
code_or none (some code) = value code

-- The code of a callback that reports no error.
unfoldable pub callback_code : AuthorizationCallback → Outcome String
unfolding code_or
callback_code callback = code_or callback.error callback.code

unfoldable pub is_expected : String → Option String → Outcome Bool
unfolding compare_digest
is_expected address none = value true
is_expected address (some expected) = compare_digest address expected

module _ (lib : Library) (ports : Ports lib.Bytes) where
  unfoldable pub exchanged : String → Attempt → Method ports.World CredentialBundle
  exchanged code attempt = do
    reply ← ask (ports.exchange_code code attempt.code_verifier attempt.redirect_uri)
    found ← settle SessionErrorCode.exchange_failed reply
    typed SessionErrorCode.exchange_failed found

  unfoldable pub new_identity : String → Method ports.World SessionIdentity
  unfolding session_identity
  new_identity address = do
    reply ← ask ports.uuid4
    found ← settle SessionErrorCode.random_source_invalid reply
    key ← typed SessionErrorCode.random_source_invalid found
    pure (controlled SessionErrorCode.random_source_invalid (session_identity lib key address))

  -- The credentials of the callback's code: of the exact scope, and not expired.
  unfoldable pub granted : AuthorizationCallback → Attempt → Method ports.World CredentialBundle
  unfolding now callback_code exchanged require_exact_scope
  granted callback attempt = do
    time ← now lib ports
    demand (not (leb attempt.expires_at time)) SessionErrorCode.authorization_expired
    code ← pure (callback_code callback)
    credentials ← exchanged code attempt
    require_exact_scope lib ports credentials
    later ← now lib ports
    demand (not (leb credentials.expires_at later)) SessionErrorCode.exchange_failed
    give credentials

  -- The account that they are for, if it is the expected one.
  unfoldable pub identified : CredentialBundle → Option String → Method ports.World SessionIdentity
  unfolding verified_address is_expected new_identity
  identified credentials expected = do
    address ← verified_address lib ports credentials
    same ← pure (is_expected address expected)
    demand same SessionErrorCode.account_mismatch
    new_identity address

  unfoldable pub connect : SessionIdentity → CredentialBundle → Method ports.World SessionIdentity
  unfolding save_record set_snapshot
  connect identity credentials = do
    save_record lib ports record { identity = identity; credentials = credentials; revoked = false }
    snapshot ←
        set_snapshot lib ports identity.account_key
          (snapshot_of SessionState.connected (some identity) none)
    give identity

  unfoldable pub accept : AuthorizationCallback → Attempt → Method ports.World SessionIdentity
  unfolding consume_attempt granted identified connect
  accept callback attempt = do
    consume_attempt lib ports attempt
    credentials ← granted callback attempt
    identity ← identified credentials attempt.expected_account
    connect identity credentials

  -- A state that no attempt waits for: consumed before, or never seen.
  unfoldable pub refuse :
      AuthorizationCallback → SessionErrorCode → Method ports.World SessionIdentity
  unfolding was_consumed
  refuse callback code = do
    used ← read (was_consumed lib ports callback.state)
    raise (if used then SessionErrorCode.callback_replayed else code)

  unfoldable pub complete_pending :
      AuthorizationCallback → Option Attempt → Method ports.World SessionIdentity
  unfolding compare_digest accept refuse
  complete_pending callback none = refuse callback SessionErrorCode.no_pending_authorization
  complete_pending callback (some attempt) = do
    same ← pure (compare_digest callback.state attempt.state)
    if same then accept callback attempt else refuse callback SessionErrorCode.state_mismatch

  unfoldable pub complete_authorization : AuthorizationCallback → Method ports.World SessionIdentity
  unfolding complete_pending
  complete_authorization callback = do
    attempt ← read (λ s. s.pending)
    complete_pending callback attempt
