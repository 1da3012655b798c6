-- ===== src/Session/Tests/Callbacks.antt =====
-- The theorems about authorizations at the small world.
use mailcleanup.Prelude.{
  ◌↔◌, all, ℕ, String, Option, none, some, [], true, false, ◌≡◌, ◌≢◌, refl, is_ascii, if◌then◌else◌,
}
use mailcleanup.Session.Result.{value, raised, session_error, type_error, SessionErrorCode}
use mailcleanup.Session.Model.{SessionIdentity, AuthorizationCallback}
use mailcleanup.Session.Ports.{Attempt, public}
use mailcleanup.Session.Calls.{was_consumed, now}
use mailcleanup.Session.Address.{normalize_expected}
use mailcleanup.Session.Complete.{complete_authorization}
use mailcleanup.Session.Replay.{complete_authorization_once}
use mailcleanup.Session.Completed.{Completed, complete_authorization-Completed}
use mailcleanup.Session.Refused.{
  unknown_code, complete_authorization-unknown, complete_authorization-not_ascii,
}
use mailcleanup.Session.Superseded.{prepare_authorization-Offered}
use mailcleanup.Session.Valid.{IsValid, InOrder}
use mailcleanup.Session.Offered.{Offered}
use mailcleanup.Session.Prepared.{Asks}
use mailcleanup.Session.Asked.{IsAscii, validate_authorization_uri-Asks}
use mailcleanup.Session.Address.{request_for, pkce_challenge, validate_authorization_uri}
use mailcleanup.Session.Trace.{
  start, next, prepared, completed as completing, session_stays-IsValid,
}
use mailcleanup.Session.Success.{complete_authorization-returns}
use mailcleanup.Session.Tests.Data.{
  library, ports, session, attempt, callback, state, verifier, address, identity, credentials,
  redirect, provider_uri,
}
use mailcleanup.Session.Tests.Runs.{waiting, completed, prepared_session}
use mailcleanup.Session.Tests.Laws.{
  idle_prepares, new_session_made, cooperation, state_is_ascii, other_state, waiting_completes,
}

complete_authorization_once_example :
    ((complete_authorization library ports (callback state) waiting).1.pending ≡ none)
    × ((again : AuthorizationCallback)
        → again.state ≡ state
        → complete_authorization library ports again
            (complete_authorization library ports (callback state) waiting).1
          ≡ (
            raised (session_error SessionErrorCode.callback_replayed),
            (complete_authorization library ports (callback state) waiting).1,
          ))
complete_authorization_once_example =
    complete_authorization_once library ports (callback state) (attempt state) waiting refl refl
      state_is_ascii

complete_authorization-Completed_example :
    Completed library ports (callback state) waiting completed identity
complete_authorization-Completed_example =
    complete_authorization-Completed library ports (callback state) waiting waiting_completes

complete_authorization-unknown_example :
    complete_authorization library ports (callback "other") waiting ≡ (
      raised (
          session_error (
            if was_consumed library ports "other" waiting
            then SessionErrorCode.callback_replayed
            else unknown_code (some (attempt state)))),
      waiting,
    )
complete_authorization-unknown_example =
    complete_authorization-unknown library ports (callback "other") waiting other_state

complete_authorization-not_ascii_example :
    (is_ascii "é" ≡ false
      → complete_authorization library ports (callback "é") waiting ≡ (raised type_error, waiting))
    × ((expected : String)
        → some address ≡ some expected
        → is_ascii expected ≡ false
        → (i : SessionIdentity)
        → (complete_authorization library ports (callback "é") waiting).0 ≢ value i)
complete_authorization-not_ascii_example =
    complete_authorization-not_ascii library ports (callback "é") (attempt state) waiting refl

prepare_authorization-Offered_example :
    (a : Attempt) × (prepared_session.pending ≡ some a)
    × (public (attempt state) ≡ public a)
    × InOrder a
    × (time : ℕ) × ((now library ports (session none)).0 ≡ value time)
    × (known : Option String) × (normalize_expected library (some address) ≡ value known)
    × Offered library 100 time known a
    × ((old : Attempt) (callback : AuthorizationCallback)
        → none ≡ some old
        → callback.state ≡ old.state
        → is_ascii old.state ≡ true
        → old.state ≢ a.state
        → complete_authorization library ports callback prepared_session
          ≡ (raised (session_error SessionErrorCode.callback_replayed), prepared_session))
prepare_authorization-Offered_example =
    prepare_authorization-Offered library ports 100 (some address) (session none) idle_prepares

request_IsAscii : IsAscii (request_for library redirect state verifier)
unfolding is_ascii all pkce_challenge
request_IsAscii = record {
  redirect_uri = refl;
  response_type = refl;
  state = refl;
  code_challenge = refl;
  code_challenge_method = refl;
}

validate_authorization_uri-Asks_example :
    (validate_authorization_uri library
        (some provider_uri)
        (request_for library redirect state verifier)
      ≡ value provider_uri)
    ↔ Asks library provider_uri (request_for library redirect state verifier)
validate_authorization_uri-Asks_example =
    validate_authorization_uri-Asks library provider_uri
      (request_for library redirect state verifier) request_IsAscii

complete_authorization-returns_example :
    (complete_authorization library ports (callback state) waiting).0 ≡ value identity
complete_authorization-returns_example =
    complete_authorization-returns library ports (callback state) (attempt state) credentials
      identity cooperation waiting refl refl state_is_ascii

session_stays-IsValid_example :
    IsValid (complete_authorization library ports (callback state) prepared_session).1
session_stays-IsValid_example =
    session_stays-IsValid library ports 100 [] new_session_made
      (next (next start (prepared (some address))) (completing (callback state)))
