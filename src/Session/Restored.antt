-- ===== src/Session/Restored.antt =====
-- A session is restored from the store as what was stored.
use mailcleanup.Prelude.{
  ℕ, true, false, String, Option, none, some, List, [], ◌∷◌, ◌≡◌, refl, ap, ◌∙◌, arith, eq_refl,
  leb, if◌then◌else◌,
}
use mailcleanup.Session.Result.{value, answer}
use mailcleanup.Session.Model.{
  Library, SessionState, SessionIdentity, CredentialBundle, StoredSessionRecord, SessionSnapshot,
  validate_session_account_key, snapshot_of, is_exact_scope, AuthorizationCallback,
  gmail_metadata_scope,
}
use mailcleanup.Session.Ports.{Ports, Attempt, Session}
use mailcleanup.Session.Monad.{◌>>=◌}
use mailcleanup.Session.Calls.{now, load_record, set_snapshot}
use mailcleanup.Session.RoundTrip.{LibraryLaws, IsBundle}
use mailcleanup.Session.Inversion.{Granted}
use mailcleanup.Session.Completed.{complete_authorization-Completed}
use mailcleanup.Session.Complete.{complete_authorization}
use mailcleanup.Session.Stored.{
  Remembers, session_identity-IsMade, after_load, load_record-save_record,
}
use mailcleanup.Session.Lifecycle.{classify, timed, classify_time, restore_session}

exact_again :
    (scopes : List String) → scopes ≡ gmail_metadata_scope ∷ [] → is_exact_scope scopes ≡ true
unfolding is_exact_scope
exact_again scopes h = ap is_exact_scope h ∙ eq_refl gmail_metadata_scope

module _ (lib : Library) (ports : Ports lib.Bytes) where
  timed_lem :
      (r : StoredSessionRecord) (u : Session ports.World) {time : ℕ}
      → (now lib ports u).0 ≡ value time
      → (timed lib ports r u).0 ≡ value (classify_time lib ports r time)
  unfolding timed ◌>>=◌
  timed_lem r u h = rw h refl

  classify_lem :
      (r : StoredSessionRecord) (u : Session ports.World)
      → is_exact_scope r.credentials.scopes ≡ true
      → r.revoked ≡ false
      → classify lib ports (some r) u ≡ timed lib ports r u
  unfolding classify
  classify_lem r u p q = ground arith

  dated :
      (r : StoredSessionRecord) (time : ℕ)
      → classify_time lib ports r time
        ≡ snapshot_of
            (if leb r.credentials.expires_at time
              then SessionState.refresh_required
              else SessionState.connected)
            (some r.identity)
            none
  unfolding classify_time
  dated r time = ground arith

  restore_lem :
      (key : String) (o : Option StoredSessionRecord) (t u : Session ports.World)
      {snapshot : SessionSnapshot}
      → validate_session_account_key lib key ≡ value key
      → load_record lib ports key t ≡ (value o, u)
      → (classify lib ports o u).0 ≡ value snapshot
      → (restore_session lib ports key t).0 ≡ value snapshot
  unfolding restore_session set_snapshot ◌>>=◌
  restore_lem key o t u p q h = rw (p, q, h) refl

  module _ (laws : LibraryLaws lib) (remembers : Remembers ports)
      (bundles : (code verifier uri : String) (w : ports.World) (c : CredentialBundle)
        → (ports.exchange_code code verifier uri w).0 ≡ answer c
        → IsBundle c) where
    -- After an authorization that completed, while the store keeps what was saved, restoring the
    -- session gives its account: connected while the exchanged credentials have not expired, and
    -- else to be refreshed.
    pub restore_session-complete_authorization :
        (callback : AuthorizationCallback) (s t : Session ports.World) (identity : SessionIdentity)
        (time : ℕ)
        → complete_authorization lib ports callback s ≡ (value identity, t)
        → (now lib ports (after_load lib ports identity.account_key t)).0 ≡ value time
        → (a : Attempt) × (c : CredentialBundle) × (start : Session ports.World) × Granted lib ports
            callback a start c
          × ((restore_session lib ports identity.account_key t).0
              ≡ value (
                  snapshot_of
                    (if leb c.expires_at time
                      then SessionState.refresh_required
                      else SessionState.connected)
                    (some identity)
                    none))
    restore_session-complete_authorization callback s t identity time h clock =
        let done = complete_authorization-Completed lib ports callback s h in
        let c = done.credentials in
        let granted = done.was_granted in
        let known = session_identity-IsMade lib laws _ _ done.was_identified.constructed in
        let r : StoredSessionRecord = record {
          identity = identity;
          credentials = c;
          revoked = false;
        } in
        let e = done.is_connected in
        let found =
          load_record-save_record lib ports laws remembers r t known
            (bundles granted.code _ _ granted.exchange_world c granted.exchange) e.plaintext
            e.encoded e.save_world e.accepted e.saved in
        let u = after_load lib ports identity.account_key t in
        let classified =
          ap (λ z. z.0) (classify_lem r u (exact_again c.scopes granted.scope) refl)
          ∙ timed_lem r u clock in
        (
          done.attempt,
          c,
          done.start,
          granted,
          restore_lem identity.account_key (some r) t u known.1 found classified
              ∙ ap value (dated r time),
        )
