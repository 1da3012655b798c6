-- ===== src/Session/Tests/Runs.antt =====
-- What the session does at the small world, step by step.
use mailcleanup.Prelude.{
  none, some, [], ◌∷◌, true, ◌≡◌, refl, all, any, contains, distinct, is_ascii,
}
use mailcleanup.Session.Result.{value}
use mailcleanup.Session.Model.{SessionState, snapshot_of}
use mailcleanup.Session.Ports.{Session}
use mailcleanup.Session.Revoked.{revoked_snapshot}
use mailcleanup.Session.Tests.Data.{
  library, ports, session, attempt, callback, key, state, address, identity, stored,
}
use mailcleanup.Session.Model.{
  normalize_account_address, validate_session_account_key, session_identity, credential_bundle,
}
use mailcleanup.Session.Record.{record_json, encode_record}
use mailcleanup.Session.Calls.{now, load_record}
use mailcleanup.Session.Address.{validate_authorization_uri}
use mailcleanup.Session.Authorize.{new_session, prepare_authorization}
use mailcleanup.Session.Complete.{is_expected, complete_authorization}
use mailcleanup.Session.Lifecycle.{restore_session, refresh_session}
use mailcleanup.Session.Revoke.{revoke_remote}
use mailcleanup.Session.Monad.{◌>>=◌}

abbrev pub waiting : Session ports.World
waiting = session (some (attempt state))

abbrev pub completed : Session ports.World
completed = (complete_authorization library ports (callback state) waiting).1

abbrev pub prepared_session : Session ports.World
prepared_session = (prepare_authorization library ports 100 (some address) (session none)).1

-- the store holds a revoked record
abbrev pub revoked_session : Session ports.World
revoked_session = record (session none) { world = (key, record_json library (stored true)) ∷ [] }

abbrev pub snapshot_written : Session ports.World
snapshot_written = record revoked_session { snapshots = (key, revoked_snapshot (stored true)) ∷ [] }

completes : (complete_authorization library ports (callback state) waiting).0 ≡ value identity
unfolding all any contains distinct is_ascii ◌>>=◌ normalize_account_address session_identity
    credential_bundle encode_record validate_session_account_key validate_authorization_uri
    new_session is_expected now load_record prepare_authorization complete_authorization
    restore_session refresh_session revoke_remote
completes = refl

prepares :
    (prepare_authorization library ports 100 (some address) waiting).1.pending
    ≡ some (attempt state)
unfolding all any contains distinct is_ascii ◌>>=◌ normalize_account_address session_identity
    credential_bundle encode_record validate_session_account_key validate_authorization_uri
    new_session is_expected now load_record prepare_authorization complete_authorization
    restore_session refresh_session revoke_remote
prepares = refl

refreshes :
    (refresh_session library ports key completed).0
    ≡ value (snapshot_of SessionState.connected (some identity) none)
unfolding all any contains distinct is_ascii ◌>>=◌ normalize_account_address session_identity
    credential_bundle encode_record validate_session_account_key validate_authorization_uri
    new_session is_expected now load_record prepare_authorization complete_authorization
    restore_session refresh_session revoke_remote
refreshes = refl
