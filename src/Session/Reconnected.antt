-- ===== src/Session/Reconnected.antt =====
-- What a refresh that ends connected have gone through.
use mailcleanup.Prelude.{
  ℕ, ◌<◌, Bool, true, false, String, Option, none, some, [], ◌∷◌, ◌≡◌, refl, ap, ◌∙◌, if◌then◌else◌,
}
use mailcleanup.Session.Result.{value, answer}
use mailcleanup.Session.Model.{
  Library, SessionState, CredentialBundle, StoredSessionRecord, SessionSnapshot,
  validate_session_account_key, is_exact_scope, gmail_metadata_scope,
}
use mailcleanup.Session.Ports.{Ports, Session}
use mailcleanup.Session.Monad.{pure, ◌>>=◌}
use mailcleanup.Session.Calls.{now, load_record, set_snapshot}
use mailcleanup.Session.Inversion.{>>=-inv, asked, exact_scope_lem, validated}
use mailcleanup.Session.Lifecycle.{
  settle_at, refresh_failure, refresh_with, refresh_record, refresh_session, with_refresh_token,
}
use mailcleanup.Session.Refreshed.{
  Confirmed, is_connected, ends_elsewhere, taken_if_exact, refreshed-inv, dated_refresh-inv,
}

-- The record was of an unrevoked grant of the exact scope with a refresh token. The transport gave
-- fresh credentials of the exact scope, whose profile has the address of the record, and the record
-- was saved with them; a refresh token that they lack is the old one.
pub record Refreshed (lib : Library) (ports : Ports lib.Bytes) (key : String)
    (s : Session ports.World) (snapshot : SessionSnapshot) : Type 0 where
  pub r : StoredSessionRecord
  pub loaded : (load_record lib ports key s).0 ≡ value (some r)
  pub unrevoked : r.revoked ≡ false
  pub scope : r.credentials.scopes ≡ gmail_metadata_scope ∷ []
  pub token : String
  pub has_token : r.credentials.refresh_token ≡ some token
  pub world : ports.World
  pub c : CredentialBundle
  pub given : (ports.refresh r.credentials world).0 ≡ answer c
  pub new_scope : c.scopes ≡ gmail_metadata_scope ∷ []
  pub clock : Session ports.World
  pub time : ℕ
  pub read : (now lib ports clock).0 ≡ value time
  pub fresh : time < c.expires_at
  pub confirmed : Confirmed lib ports r (with_refresh_token c token) snapshot

module _ (lib : Library) (ports : Ports lib.Bytes) (key : String) where
  -- from the loaded record on
  abbrev Renewed : StoredSessionRecord → SessionSnapshot → Type 0
  Renewed r snapshot =
      (token : String) × (r.credentials.refresh_token ≡ some token)
      × (world : ports.World) × (c : CredentialBundle) × ((ports.refresh r.credentials world).0
          ≡ answer c)
      × (c.scopes ≡ gmail_metadata_scope ∷ [])
      × (clock : Session ports.World) × (time : ℕ) × ((now lib ports clock).0 ≡ value time)
      × (time < c.expires_at)
      × Confirmed lib ports r (with_refresh_token c token) snapshot

  refresh_with-inv :
      (r : StoredSessionRecord) (o : Option String) (s : Session ports.World)
      {snapshot : SessionSnapshot} {t : Session ports.World}
      → r.credentials.refresh_token ≡ o
      → refresh_with lib ports key r o s ≡ (value snapshot, t)
      → snapshot.state ≡ SessionState.connected
      → Renewed r snapshot
  unfolding refresh_with refresh_failure is_connected
  refresh_with-inv r none s has h e =
      absurd (ends_elsewhere lib ports key r SessionState.refresh_required _ s refl h e)
  refresh_with-inv r (some token) s has h e =
      let (reply, at_reply, h₁) = >>=-inv _ _ _ h in
      let (c, answered, exact, h₂) = refreshed-inv lib ports key r token reply _ h₁ e in
      let (time, at_time, fresh, end) = dated_refresh-inv lib ports key r token c _ h₂ e in
      (
        token,
        has,
        s.world,
        c,
        asked _ _ at_reply ∙ answered,
        exact_scope_lem _ exact,
        _,
        time,
        at_time,
        fresh,
        end,
      )

  Renewed-if_unrevoked :
      (r : StoredSessionRecord) (gone : Bool) (s : Session ports.World) {snapshot : SessionSnapshot}
      {t : Session ports.World}
      → (if gone
            then settle_at lib ports key r SessionState.revoked none
            else refresh_with lib ports key r r.credentials.refresh_token)
          s
        ≡ (value snapshot, t)
      → snapshot.state ≡ SessionState.connected
      → (gone ≡ false) × Renewed r snapshot
  unfolding is_connected
  Renewed-if_unrevoked r true s h e =
      absurd (ends_elsewhere lib ports key r SessionState.revoked _ s refl h e)
  Renewed-if_unrevoked r false s h e = (refl, refresh_with-inv r _ s refl h e)

  refresh_record-inv :
      (o : Option StoredSessionRecord) (s : Session ports.World) {snapshot : SessionSnapshot}
      {t : Session ports.World}
      → refresh_record lib ports key o s ≡ (value snapshot, t)
      → snapshot.state ≡ SessionState.connected
      → (r : StoredSessionRecord) × (o ≡ some r)
        × (is_exact_scope r.credentials.scopes ≡ true)
        × (r.revoked ≡ false)
        × Renewed r snapshot
  unfolding refresh_record set_snapshot ◌>>=◌
  refresh_record-inv none s h e = cc
  refresh_record-inv (some r) s h e =
      let (exact, h₁) = taken_if_exact lib ports key r _ _ s h e in
      let (kept, renewed) = Renewed-if_unrevoked r _ s h₁ e in (r, refl, exact, kept, renewed)

module _ (lib : Library) (ports : Ports lib.Bytes) where
  -- A refresh that ends connected at a canonical key found a record of an unrevoked grant of the
  -- exact scope with a refresh token. The transport gave unexpired credentials of the exact scope,
  -- their profile has the record's address, and the record was saved with them and the old refresh
  -- token where they have none; the snapshot is of the record's identity.
  pub refresh_session-Refreshed :
      (key : String) (s : Session ports.World) {snapshot : SessionSnapshot}
      {t : Session ports.World}
      → refresh_session lib ports key s ≡ (value snapshot, t)
      → snapshot.state ≡ SessionState.connected
      → Refreshed lib ports key s snapshot
  unfolding refresh_session pure
  refresh_session-Refreshed key s h e =
      let (k, at_k, h₁) = >>=-inv (pure (validate_session_account_key lib key)) _ s h in
      let (o, at_o, h₂) = >>=-inv _ _ _ h₁ in
      let (r, found, exact, kept, renewed) = refresh_record-inv lib ports k o _ h₂ e in
      let (token, has, world, c, given, scope, clock, time, read, fresh, end) = renewed in
      record {
        r = r;
        loaded =
            ap (λ z. (load_record lib ports z s).0) (validated lib key at_k)
            ∙ at_o
            ∙ ap value found;
        unrevoked = kept;
        scope = exact_scope_lem _ exact;
        token = token;
        has_token = has;
        world = world;
        c = c;
        given = given;
        new_scope = scope;
        clock = clock;
        time = time;
        read = read;
        fresh = fresh;
        confirmed = end;
      }
