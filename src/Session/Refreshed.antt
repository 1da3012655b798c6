-- ===== src/Session/Refreshed.antt =====
-- What the last steps of a refresh that ends connected have gone through.
use mailcleanup.Prelude.{
  ℕ, ◌<◌, Bool, true, false, String, Option, none, some, ◌≡◌, ◌≢◌, refl, sym, ap, ◌∙◌, arith, leb,
  if◌then◌else◌,
}
use mailcleanup.Session.Result.{
  SessionErrorCode, session_error, Outcome, raised, value, Reply, failed, foreign, answer, caught,
  value_injective, value_error, type_error,
}
use mailcleanup.Session.Model.{
  Library, SessionState, CredentialBundle, StoredSessionRecord, SessionSnapshot, is_exact_scope,
}
use mailcleanup.Session.Ports.{Ports, Session}
use mailcleanup.Session.Monad.{Method, trying, pure, ◌>>=◌}
use mailcleanup.Session.Record.{compare_digest}
use mailcleanup.Session.Calls.{now, verified_address, save_record, set_snapshot}
use mailcleanup.Session.Inversion.{>>=-inv, paired, Saved, save_record-inv, compare_digest-inv}
use mailcleanup.Session.Lifecycle.{
  settle_at, snapshot_state, saved_refresh, store_refresh, checked_address, confirm_refresh,
  refresh_failure, dated_refresh, refreshed, with_refresh_token,
}

-- The credentials' profile has the address of the record, and the record was saved with them.
pub record Confirmed (lib : Library) (ports : Ports lib.Bytes) (r : StoredSessionRecord)
    (c : CredentialBundle) (snapshot : SessionSnapshot) : Type 0 where
  pub profile : Session ports.World
  pub address : (verified_address lib ports c profile).0 ≡ value r.identity.address
  pub before : Session ports.World
  pub after : Session ports.World
  pub saved : Saved lib ports (record r { credentials = c }) before after
  pub connected : snapshot ≡ snapshot_state SessionState.connected r none

pub caught-inv : {A : Type 0} (o : Outcome A) {a : A} → caught o ≡ value (some a) → o ≡ value a
unfolding caught
caught-inv (value b) e = cc
caught-inv (raised (session_error code)) e = cc
caught-inv (raised value_error) e = cc
caught-inv (raised type_error) e = cc

pub trying-inv :
    {W A : Type 0} (m : Method W A) (s : Session W) {a : A}
    → (trying m s).0 ≡ value (some a)
    → (m s).0 ≡ value a
unfolding trying
trying-inv m s h = caught-inv (m s).0 h

unfoldable pub is_connected : SessionState → Bool
is_connected SessionState.connected = true
is_connected _ = false

not_late : (x y : ℕ) → leb x y ≡ false → y < x
not_late x y h = ground arith

module _ (lib : Library) (ports : Ports lib.Bytes) (key : String) (r : StoredSessionRecord) where
  pub settle_at-inv :
      (state : SessionState) (code : Option SessionErrorCode) (s : Session ports.World)
      {snapshot : SessionSnapshot} {t : Session ports.World}
      → settle_at lib ports key r state code s ≡ (value snapshot, t)
      → snapshot ≡ snapshot_state state r code
  unfolding settle_at set_snapshot ◌>>=◌
  settle_at-inv state code s h = sym (value_injective (ap (λ z. z.0) h))

  -- a branch that ends in another state
  pub ends_elsewhere :
      (state : SessionState) (code : Option SessionErrorCode) (s : Session ports.World)
      {snapshot : SessionSnapshot} {t : Session ports.World}
      → is_connected state ≡ false
      → settle_at lib ports key r state code s ≡ (value snapshot, t)
      → snapshot.state ≢ SessionState.connected
  unfolding is_connected
  ends_elsewhere state code s other h e =
      let same : state ≡ SessionState.connected =
        sym (ap (λ (z : SessionSnapshot). z.state) (settle_at-inv state code s h)) ∙ e in
      cc (ap is_connected same)

  pub taken_if_exact :
      (exact : Bool) (m : Method ports.World SessionSnapshot) (s : Session ports.World)
      {snapshot : SessionSnapshot} {t : Session ports.World}
      → (if exact
            then m
            else settle_at lib ports key r SessionState.scope_mismatch
                (some SessionErrorCode.scope_mismatch))
          s
        ≡ (value snapshot, t)
      → snapshot.state ≡ SessionState.connected
      → (exact ≡ true) × (m s ≡ (value snapshot, t))
  unfolding is_connected
  taken_if_exact true m s h e = (refl, h)
  taken_if_exact false m s h e = absurd (ends_elsewhere SessionState.scope_mismatch _ s refl h e)

  saved_refresh-inv :
      (o : Option (Unit {0})) (s : Session ports.World) {snapshot : SessionSnapshot}
      {t : Session ports.World}
      → saved_refresh lib ports key r o s ≡ (value snapshot, t)
      → snapshot.state ≡ SessionState.connected
      → (u : Unit {0}) × (o ≡ some u) × (snapshot ≡ snapshot_state SessionState.connected r none)
  unfolding saved_refresh is_connected
  saved_refresh-inv none s h e = absurd (ends_elsewhere SessionState.failed _ s refl h e)
  saved_refresh-inv (some u) s h e = (u, refl, settle_at-inv SessionState.connected none s h)

  store_refresh-inv :
      (c : CredentialBundle) (s : Session ports.World) {snapshot : SessionSnapshot}
      {t : Session ports.World}
      → store_refresh lib ports key r c s ≡ (value snapshot, t)
      → snapshot.state ≡ SessionState.connected
      → (after : Session ports.World) × Saved lib ports (record r { credentials = c }) s after
        × (snapshot ≡ snapshot_state SessionState.connected r none)
  unfolding store_refresh
  store_refresh-inv c s h e =
      let (o, at_o, h₁) = >>=-inv _ _ _ h in
      let (u, is_some, same) = saved_refresh-inv o _ h₁ e in
      let done = trying-inv (save_record lib ports _) s (at_o ∙ ap value is_some) in
      (_, save_record-inv lib ports _ s (paired (save_record lib ports _) s done), same)

  stored_if_same :
      (c : CredentialBundle) (same : Bool) (s : Session ports.World) {snapshot : SessionSnapshot}
      {t : Session ports.World}
      → (if same
            then store_refresh lib ports key r c
            else settle_at lib ports key r SessionState.account_mismatch
                (some SessionErrorCode.account_mismatch))
          s
        ≡ (value snapshot, t)
      → snapshot.state ≡ SessionState.connected
      → (same ≡ true) × (store_refresh lib ports key r c s ≡ (value snapshot, t))
  unfolding is_connected
  stored_if_same c true s h e = (refl, h)
  stored_if_same c false s h e = absurd (ends_elsewhere SessionState.account_mismatch _ s refl h e)

  checked_address-inv :
      (c : CredentialBundle) (o : Option String) (s : Session ports.World)
      {snapshot : SessionSnapshot} {t : Session ports.World}
      → checked_address lib ports key r c o s ≡ (value snapshot, t)
      → snapshot.state ≡ SessionState.connected
      → (o ≡ some r.identity.address)
        × (before : Session ports.World) × (after : Session ports.World) × Saved lib ports
            (record r { credentials = c })
            before
            after
        × (snapshot ≡ snapshot_state SessionState.connected r none)
  unfolding checked_address is_connected pure
  checked_address-inv c none s h e = absurd (ends_elsewhere SessionState.failed _ s refl h e)
  checked_address-inv c (some address) s h e =
      let (same, at_same, h₁) = >>=-inv (pure (compare_digest address r.identity.address)) _ s h in
      let (matched, h₂) = stored_if_same c same s h₁ e in
      let (after, saved, end) = store_refresh-inv c s h₂ e in
      let equal = (compare_digest-inv address r.identity.address (at_same ∙ ap value matched)).0 in
      (ap some equal, s, after, saved, end)

  confirm_refresh-inv :
      (c : CredentialBundle) (s : Session ports.World) {snapshot : SessionSnapshot}
      {t : Session ports.World}
      → confirm_refresh lib ports key r c s ≡ (value snapshot, t)
      → snapshot.state ≡ SessionState.connected
      → Confirmed lib ports r c snapshot
  unfolding confirm_refresh
  confirm_refresh-inv c s h e =
      let (o, at_o, h₁) = >>=-inv _ _ _ h in
      let (same, before, after, saved, end) = checked_address-inv c o _ h₁ e in
      record {
        profile = s;
        address = trying-inv (verified_address lib ports c) s (at_o ∙ ap value same);
        before = before;
        after = after;
        saved = saved;
        connected = end;
      }

  Confirmed-if_fresh :
      (c : CredentialBundle) (late : Bool) (s : Session ports.World) {snapshot : SessionSnapshot}
      {t : Session ports.World}
      → (if late then refresh_failure lib ports key r else confirm_refresh lib ports key r c) s
        ≡ (value snapshot, t)
      → snapshot.state ≡ SessionState.connected
      → (late ≡ false) × Confirmed lib ports r c snapshot
  unfolding refresh_failure is_connected
  Confirmed-if_fresh c true s h e =
      absurd (ends_elsewhere SessionState.refresh_required _ s refl h e)
  Confirmed-if_fresh c false s h e = (refl, confirm_refresh-inv c s h e)

  pub dated_refresh-inv :
      (token : String) (c : CredentialBundle) (s : Session ports.World) {snapshot : SessionSnapshot}
      {t : Session ports.World}
      → dated_refresh lib ports key r token c s ≡ (value snapshot, t)
      → snapshot.state ≡ SessionState.connected
      → (time : ℕ) × ((now lib ports s).0 ≡ value time)
        × (time < c.expires_at)
        × Confirmed lib ports r (with_refresh_token c token) snapshot
  unfolding dated_refresh
  dated_refresh-inv token c s h e =
      let (time, at_time, h₁) = >>=-inv _ _ _ h in
      let (fresh, end) = Confirmed-if_fresh (with_refresh_token c token) _ _ h₁ e in
      (time, at_time, not_late _ _ fresh, end)

  pub refreshed-inv :
      (token : String) (reply : Reply CredentialBundle) (s : Session ports.World)
      {snapshot : SessionSnapshot} {t : Session ports.World}
      → refreshed lib ports key r token reply s ≡ (value snapshot, t)
      → snapshot.state ≡ SessionState.connected
      → (c : CredentialBundle) × (reply ≡ answer c)
        × (is_exact_scope c.scopes ≡ true)
        × (dated_refresh lib ports key r token c s ≡ (value snapshot, t))
  unfolding refreshed refresh_failure is_connected
  refreshed-inv token failed s h e =
      absurd (ends_elsewhere SessionState.refresh_required _ s refl h e)
  refreshed-inv token foreign s h e =
      absurd (ends_elsewhere SessionState.refresh_required _ s refl h e)
  refreshed-inv token (answer c) s h e =
      let (exact, h₁) = taken_if_exact _ _ s h e in (c, refl, exact, h₁)
