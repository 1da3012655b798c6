-- ===== src/Session/Tests/Store.antt =====
-- The theorems about stored sessions at the small world.
use mailcleanup.Prelude.{none, some, true, false, ◌≡◌, refl, if◌then◌else◌, leb}
use mailcleanup.Session.Result.{value}
use mailcleanup.Session.Model.{SessionState, CredentialBundle, snapshot_of}
use mailcleanup.Session.Ports.{Session, Attempt}
use mailcleanup.Session.Record.{record_json, decode_record}
use mailcleanup.Session.Calls.{load_record}
use mailcleanup.Session.Lifecycle.{restore_session, refresh_session}
use mailcleanup.Session.Revoke.{revoke_remote}
use mailcleanup.Session.RoundTrip.{decode_record-encode_record}
use mailcleanup.Session.Stored.{after_load}
use mailcleanup.Session.Inversion.{Granted}
use mailcleanup.Session.Restored.{restore_session-complete_authorization}
use mailcleanup.Session.Reconnected.{Refreshed, refresh_session-Refreshed}
use mailcleanup.Session.Decoded.{IsStored, load_record-IsStored}
use mailcleanup.Session.Revoked.{revoked_snapshot, revoked_stays}
use mailcleanup.Session.Revocation.{revoke_remote-stays}
use mailcleanup.Session.Revoke.{revocation}
use mailcleanup.Session.Tests.Data.{library, ports, callback, key, state, identity, stored}
use mailcleanup.Session.Tests.Runs.{waiting, completed, revoked_session, snapshot_written}
use mailcleanup.Session.Tests.Laws.{
  completed_refreshes, completed_loads, completed_revokes, revoked_loads, laws, remembers,
  IsIdentity-valid, encodes, clock_reads, key_valid, waiting_completes, IsBundle-valid,
  answered-IsBundle,
}

decode_record-encode_record_example :
    decode_record library (some (record_json library (stored false))) ≡ value (stored false)
decode_record-encode_record_example =
    decode_record-encode_record library laws (stored false) IsIdentity-valid IsBundle-valid encodes

restore_session-complete_authorization_example :
    (a : Attempt) × (c : CredentialBundle) × (begin : Session ports.World) × Granted library ports
      (callback state)
      a
      begin
      c
    × ((restore_session library ports key completed).0
        ≡ value (
            snapshot_of
              (if leb c.expires_at 100
                then SessionState.refresh_required
                else SessionState.connected)
              (some identity)
              none))
restore_session-complete_authorization_example =
    restore_session-complete_authorization library ports laws remembers
      (λ code verifier uri w c h. answered-IsBundle c h) (callback state) waiting completed identity
      100 waiting_completes clock_reads

refresh_session-Refreshed_example :
    Refreshed library ports key completed (snapshot_of SessionState.connected (some identity) none)
refresh_session-Refreshed_example =
    refresh_session-Refreshed library ports key completed completed_refreshes refl

load_record-IsStored_example : IsStored library laws (stored false) × (key ≡ key)
load_record-IsStored_example = load_record-IsStored library laws ports key completed completed_loads

revoked_stays_example :
    (restore_session library ports key revoked_session
      ≡ (value (revoked_snapshot (stored true)), snapshot_written))
    × (refresh_session library ports key revoked_session
        ≡ (value (revoked_snapshot (stored true)), snapshot_written))
    × (revoke_remote library ports key revoked_session
        ≡ (value (revocation true SessionState.revoked none), revoked_session))
revoked_stays_example =
    revoked_stays library ports key (stored true) revoked_session revoked_session key_valid
      revoked_loads refl

revoke_remote-stays_example :
    let t = (revoke_remote library ports key completed).1 in
    (load_record library ports key t ≡ (value (some (stored true)), after_load library ports key t))
    × ((restore_session library ports key t).0 ≡ value (revoked_snapshot (stored true)))
    × ((refresh_session library ports key t).0 ≡ value (revoked_snapshot (stored true)))
    × (revoke_remote library ports key t
        ≡ (value (revocation true SessionState.revoked none), after_load library ports key t))
revoke_remote-stays_example =
    revoke_remote-stays library ports laws remembers key (stored false) completed completed
      (revoke_remote library ports key completed).1 key_valid completed_loads refl completed_revokes
