-- ===== src/Session/Authorize.antt =====
-- src/mailmap/oauth_session.py: an authorization is prepared and shown.
use mailcleanup.Prelude.{
  ℕ, ◌+◌, Bool, ◌&&◌, String, ◌==◌, Option, none, some, [], eqb, leb, ltb, if◌then◌else◌,
}
use mailcleanup.Session.Result.{SessionErrorCode, Outcome, value, expect}
use mailcleanup.Session.Model.{Library, PendingAuthorization}
use mailcleanup.Session.Ports.{Ports, Attempt, Session, public}
use mailcleanup.Session.Monad.{
  Method, give, raise, pure, read, write, ask, demand, settle, ◌>>=◌, ◌>>◌,
}
use mailcleanup.Session.Calls.{remember_consumed_state, consume_attempt, now, random_value}
use mailcleanup.Session.Address.{
  max_authorization_ttl, validate_callback_binding, validate_authorization_uri, pkce_challenge,
  request_for, normalize_expected,
}

module _ (lib : Library) (ports : Ports lib.Bytes) where
  -- A pending attempt is given up: its state counts as consumed.
  unfoldable pub give_up : Option Attempt → Method ports.World (Unit {0})
  unfolding remember_consumed_state
  give_up none = give tt
  give_up (some attempt) = remember_consumed_state lib ports attempt.state

module _ (lib : Library) (ports : Ports lib.Bytes) (authorization_ttl : ℕ) where
  -- `SecureGmailSession.__init__`
  unfoldable pub new_session : ports.World → Outcome (Session ports.World)
  new_session w =
      expect (ltb 0 authorization_ttl && leb authorization_ttl max_authorization_ttl)
        (value record { pending = none; consumed = []; snapshots = []; world = w })

  -- From the reserved callback on.
  unfoldable pub offer_attempt :
      (expected : Option String) → ℕ → (verifier state : String) → Method ports.World Attempt
  unfolding validate_callback_binding validate_authorization_uri pkce_challenge
  offer_attempt expected time verifier state = do
    reserved ← ask ports.reserve_loopback
    offered ← settle SessionErrorCode.callback_binding_invalid reserved
    binding ← pure (validate_callback_binding lib offered)
    let request = request_for lib binding.redirect_uri state verifier
    built ← ask (ports.authorization_uri request)
    candidate ← settle SessionErrorCode.authorization_uri_invalid built
    uri ← pure (validate_authorization_uri lib candidate request)
    give record {
      authorization_uri = uri;
      redirect_uri = binding.redirect_uri;
      state = state;
      code_verifier = verifier;
      expires_at = time + authorization_ttl;
      expected_account = expected;
    }

  unfoldable pub prepare_attempt : Option String → Method ports.World Attempt
  unfolding now random_value normalize_expected offer_attempt
  prepare_attempt expected_account = do
    expected ← pure (normalize_expected lib expected_account)
    time ← now lib ports
    verifier ← random_value lib ports 64 43 128
    state ← random_value lib ports 32 43 256
    offer_attempt expected time verifier state

  unfoldable pub prepare_authorization : Option String → Method ports.World PendingAuthorization
  unfolding prepare_attempt give_up
  prepare_authorization expected_account = do
    attempt ← prepare_attempt expected_account
    previous ← read (λ s. s.pending)
    give_up lib ports previous
    write (λ s. record s { pending = some attempt })
    give (public attempt)

unfoldable pub same_public : PendingAuthorization → PendingAuthorization → Bool
same_public a b =
    (a.authorization_uri == b.authorization_uri)
    && (a.redirect_uri == b.redirect_uri)
    && eqb a.expires_at b.expires_at

module _ (lib : Library) (ports : Ports lib.Bytes) where
  unfoldable pub expire : Attempt → Method ports.World (Unit {0})
  unfolding consume_attempt
  expire attempt = do
    consume_attempt lib ports attempt
    raise SessionErrorCode.authorization_expired

  unfoldable pub open_attempt : Attempt → Method ports.World (Unit {0})
  unfolding validate_authorization_uri pkce_challenge
  open_attempt attempt = do
    uri ← pure (
        validate_authorization_uri lib (some attempt.authorization_uri)
          (request_for lib attempt.redirect_uri attempt.state attempt.code_verifier))
    reply ← ask (ports.open_external uri)
    opened ← settle SessionErrorCode.browser_disabled reply
    give tt

  unfoldable pub present_pending :
      PendingAuthorization → Option Attempt → Method ports.World (Unit {0})
  unfolding same_public now expire open_attempt
  present_pending pending none = raise SessionErrorCode.no_pending_authorization
  present_pending pending (some attempt) = do
    demand (same_public pending (public attempt)) SessionErrorCode.no_pending_authorization
    time ← now lib ports
    if leb attempt.expires_at time then expire attempt else open_attempt attempt

  unfoldable pub present_authorization : PendingAuthorization → Method ports.World (Unit {0})
  unfolding present_pending
  present_authorization pending = do
    attempt ← read (λ s. s.pending)
    present_pending pending attempt
