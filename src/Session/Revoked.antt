-- ===== src/Session/Revoked.antt =====
-- A revoked grant stays revoked.
use mailcleanup.Prelude.{
  true, String, Option, none, some, ◌∷◌, ◌≡◌, refl, ◌∙◌, arith, if◌then◌else◌,
}
use mailcleanup.Session.Result.{SessionErrorCode, value}
use mailcleanup.Session.Model.{
  Library, SessionState, StoredSessionRecord, SessionSnapshot, validate_session_account_key,
  is_exact_scope,
}
use mailcleanup.Session.Ports.{Ports, Session}
use mailcleanup.Session.Monad.{give, ◌>>=◌}
use mailcleanup.Session.Calls.{load_record, set_snapshot}
use mailcleanup.Session.Lifecycle.{
  classify, restore_session, refresh_record, refresh_session, settle_at, snapshot_state,
}
use mailcleanup.Session.Revoke.{revocation, revoke_record, revoke_remote}

-- The snapshot of a revoked record: revoked, unless its scope is another one.
abbrev pub revoked_snapshot : StoredSessionRecord → SessionSnapshot
revoked_snapshot r =
    if is_exact_scope r.credentials.scopes
    then snapshot_state SessionState.revoked r none
    else snapshot_state SessionState.scope_mismatch r (some SessionErrorCode.scope_mismatch)

module _ (lib : Library) (ports : Ports lib.Bytes) where
  abbrev with_snapshot : String → SessionSnapshot → Session ports.World → Session ports.World
  with_snapshot key snapshot s = record s { snapshots = (key, snapshot) ∷ s.snapshots }

  classify_revoked :
      (r : StoredSessionRecord) (u : Session ports.World)
      → r.revoked ≡ true
      → classify lib ports (some r) u ≡ (value (revoked_snapshot r), u)
  unfolding classify give
  classify_revoked r u h = ground arith

  refresh_revoked :
      (key : String) (r : StoredSessionRecord) (u : Session ports.World)
      → r.revoked ≡ true
      → refresh_record lib ports key (some r) u
        ≡ (value (revoked_snapshot r), with_snapshot key (revoked_snapshot r) u)
  unfolding refresh_record settle_at set_snapshot ◌>>=◌
  refresh_revoked key r u h = ground arith

  revoke_revoked :
      (key : String) (r : StoredSessionRecord) (u : Session ports.World)
      → r.revoked ≡ true
      → revoke_record lib ports key (some r) u
        ≡ (value (revocation true SessionState.revoked none), u)
  unfolding revoke_record give
  revoke_revoked key r u h = ground arith

  module _ (key : String) (o : Option StoredSessionRecord) (s u : Session ports.World)
      (valid : validate_session_account_key lib key ≡ value key)
      (loaded : load_record lib ports key s ≡ (value o, u)) where
    restore_of_loaded :
        {snapshot : SessionSnapshot}
        → classify lib ports o u ≡ (value snapshot, u)
        → restore_session lib ports key s ≡ (value snapshot, with_snapshot key snapshot u)
    unfolding restore_session set_snapshot ◌>>=◌
    restore_of_loaded h = rw (valid, loaded, h) refl

    refresh_of_loaded : refresh_session lib ports key s ≡ refresh_record lib ports key o u
    unfolding refresh_session ◌>>=◌
    refresh_of_loaded = rw (valid, loaded) refl

    pub revoke_of_loaded : revoke_remote lib ports key s ≡ revoke_record lib ports key o u
    unfolding revoke_remote ◌>>=◌
    revoke_of_loaded = rw (valid, loaded) refl

  -- Where the store gives a revoked record, restoring and refreshing give its revoked snapshot, or a
  -- scope mismatch, and revoking reports the revocation; none of them asks more of the world than
  -- the load, and only the snapshot is written.
  pub revoked_stays :
      (key : String) (r : StoredSessionRecord) (s u : Session ports.World)
      → validate_session_account_key lib key ≡ value key
      → load_record lib ports key s ≡ (value (some r), u)
      → r.revoked ≡ true
      → (restore_session lib ports key s
          ≡ (value (revoked_snapshot r), with_snapshot key (revoked_snapshot r) u))
        × (refresh_session lib ports key s
            ≡ (value (revoked_snapshot r), with_snapshot key (revoked_snapshot r) u))
        × (revoke_remote lib ports key s ≡ (value (revocation true SessionState.revoked none), u))
  revoked_stays key r s u valid loaded h = (
    restore_of_loaded key (some r) s u valid loaded (classify_revoked r u h),
    refresh_of_loaded key (some r) s u valid loaded ∙ refresh_revoked key r u h,
    revoke_of_loaded key (some r) s u valid loaded ∙ revoke_revoked key r u h,
  )
