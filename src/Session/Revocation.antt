-- ===== src/Session/Revocation.antt =====
-- A revocation that succeeds is in the store.
use mailcleanup.Prelude.{
  Bool, true, false, String, Option, none, some, ◌≡◌, refl, sym, ap, ◌∙◌, subst, arith,
  if◌then◌else◌,
}
use mailcleanup.Session.Result.{SessionErrorCode, value, value_injective}
use mailcleanup.Session.Model.{
  Library, SessionState, StoredSessionRecord, RevocationResult, validate_session_account_key,
}
use mailcleanup.Session.Ports.{Ports, Session}
use mailcleanup.Session.Monad.{Method, ◌>>=◌, trying}
use mailcleanup.Session.Calls.{load_record, save_record, set_snapshot}
use mailcleanup.Session.RoundTrip.{LibraryLaws}
use mailcleanup.Session.Inversion.{>>=-inv, paired, Saved, save_record-inv}
use mailcleanup.Session.Stored.{Remembers, after_load, load_record-save_record}
use mailcleanup.Session.Decoded.{load_record-IsStored}
use mailcleanup.Session.Refreshed.{trying-inv}
use mailcleanup.Session.Lifecycle.{restore_session, refresh_session, settle_at}
use mailcleanup.Session.Revoke.{
  revocation, report, not_revoked, saved_revocation, store_revocation, ask_revocation,
  revoke_record, revoke_remote,
}
use mailcleanup.Session.Revoked.{revoked_snapshot, revoked_stays, revoke_of_loaded}

trying_left : {W A : Type 0} (m : Method W A) (s : Session W) → (trying m s).1 ≡ (m s).1
unfolding trying
trying_left m s = refl

module _ (lib : Library) (ports : Ports lib.Bytes) where
  report-inv :
      (key : String) (r : StoredSessionRecord) (done : Bool) (state : SessionState)
      (code : Option SessionErrorCode) (s : Session ports.World) {result : RevocationResult}
      {t : Session ports.World}
      → report lib ports key r done state code s ≡ (value result, t)
      → (revocation done state code ≡ result) × (s.world ≡ t.world)
  unfolding report settle_at set_snapshot ◌>>=◌
  report-inv key r done state code s h = (value_injective (ap (λ z. z.0) h), ap (λ z. z.1.world) h)

  not_revoked-inv :
      (key : String) (r : StoredSessionRecord) (s : Session ports.World) {result : RevocationResult}
      {t : Session ports.World}
      → not_revoked lib ports key r s ≡ (value result, t)
      → result.remote_revoked ≡ false
  unfolding not_revoked
  not_revoked-inv key r s h =
      let (time, _, h₁) = >>=-inv _ _ _ h in
      sym (ap (λ (z : RevocationResult). z.remote_revoked) (report-inv key r false _ _ _ h₁).0)

  abbrev is_revoked : SessionState → Bool
  is_revoked SessionState.revoked = true
  is_revoked _ = false

  saved_revocation-inv :
      (key : String) (r : StoredSessionRecord) (o : Option (Unit {0})) (s : Session ports.World)
      {result : RevocationResult} {t : Session ports.World}
      → saved_revocation lib ports key r o s ≡ (value result, t)
      → result.state ≡ SessionState.revoked
      → (u : Unit {0}) × (o ≡ some u) × (s.world ≡ t.world)
  unfolding saved_revocation
  saved_revocation-inv key r none s h e =
      let same = (report-inv key r true SessionState.failed _ s h).0 in
      cc (ap (λ (z : RevocationResult). is_revoked z.state) same, ap is_revoked e)
  saved_revocation-inv key r (some u) s h e =
      (u, refl, (report-inv key r true SessionState.revoked none s h).1)

  store_revocation-inv :
      (key : String) (r : StoredSessionRecord) (s : Session ports.World) {result : RevocationResult}
      {t : Session ports.World}
      → store_revocation lib ports key r s ≡ (value result, t)
      → result.state ≡ SessionState.revoked
      → (after : Session ports.World) × Saved lib ports (record r { revoked = true }) s after
        × (after.world ≡ t.world)
  unfolding store_revocation
  store_revocation-inv key r s h e =
      let (o, at_o, h₁) = >>=-inv _ _ _ h in
      let (u, is_some, same) = saved_revocation-inv key r o _ h₁ e in
      let done = trying-inv (save_record lib ports _) s (at_o ∙ ap value is_some) in
      (
        _,
        save_record-inv lib ports _ s (paired (save_record lib ports _) s done),
        ap (λ z. z.world) (sym (trying_left (save_record lib ports _) s)) ∙ same,
      )

  kept_if_revoked :
      (key : String) (r : StoredSessionRecord) (said : Bool) (s : Session ports.World)
      {result : RevocationResult} {t : Session ports.World}
      → (if said then store_revocation lib ports key r else not_revoked lib ports key r) s
        ≡ (value result, t)
      → result.state ≡ SessionState.revoked
      → result.remote_revoked ≡ true
      → store_revocation lib ports key r s ≡ (value result, t)
  kept_if_revoked key r true s h e d = h
  kept_if_revoked key r false s h e d = cc (not_revoked-inv key r s h)

  unrevoked :
      (key : String) (r : StoredSessionRecord) (s : Session ports.World)
      → r.revoked ≡ false
      → revoke_record lib ports key (some r) s ≡ ask_revocation lib ports key r s
  unfolding revoke_record
  unrevoked key r s h = ground arith

  ask_revocation-inv :
      (key : String) (r : StoredSessionRecord) (s : Session ports.World) {result : RevocationResult}
      {t : Session ports.World}
      → r.revoked ≡ false
      → revoke_record lib ports key (some r) s ≡ (value result, t)
      → result.state ≡ SessionState.revoked
      → result.remote_revoked ≡ true
      → (before : Session ports.World) × (after : Session ports.World) × Saved lib ports
          (record r { revoked = true })
          before
          after
        × (after.world ≡ t.world)
  unfolding ask_revocation
  ask_revocation-inv key r s fresh h e d =
      let h₀ : ask_revocation lib ports key r s ≡ _ = sym (unrevoked key r s fresh) ∙ h in
      let (reply, _, h₁) = >>=-inv _ _ _ h₀ in
      let (after, saved, same) =
        store_revocation-inv key r _ (kept_if_revoked key r _ _ h₁ e d) e in
      (_, after, saved, same)

  module _ (laws : LibraryLaws lib) (remembers : Remembers ports) where
    -- When a revocation of an unrevoked record reports that it is revoked, the store gives the
    -- record as revoked from then on, so that the session is restored and refreshed as revoked, or
    -- as of another scope, and a further revocation reports it again.
    pub revoke_remote-stays :
        (key : String) (r : StoredSessionRecord) (s u t : Session ports.World)
        → validate_session_account_key lib key ≡ value key
        → load_record lib ports key s ≡ (value (some r), u)
        → r.revoked ≡ false
        → revoke_remote lib ports key s ≡ (value (revocation true SessionState.revoked none), t)
        → let v = after_load lib ports key t in
          let z : StoredSessionRecord = record r { revoked = true } in
          (load_record lib ports key t ≡ (value (some z), v))
          × ((restore_session lib ports key t).0 ≡ value (revoked_snapshot z))
          × ((refresh_session lib ports key t).0 ≡ value (revoked_snapshot z))
          × (revoke_remote lib ports key t ≡ (value (revocation true SessionState.revoked none), v))
    revoke_remote-stays key r s u t valid loaded fresh h =
        let z : StoredSessionRecord = record r { revoked = true } in
        let ((made, good), same_key) = load_record-IsStored lib laws ports key s loaded in
        let (before, after, saved, same) =
          ask_revocation-inv key r u fresh
            (sym (revoke_of_loaded lib ports key (some r) s u valid loaded) ∙ h) refl refl in
        let found : load_record lib ports key t ≡ (value (some z), after_load lib ports key t) =
          subst (λ k. load_record lib ports k t ≡ (value (some z), after_load lib ports k t))
            same_key
            (load_record-save_record lib ports laws remembers z t made good saved.plaintext
              saved.encoded before.world saved.accepted
              (sym same ∙ ap (λ q. q.world) saved.left)) in
        let (a, b, c) = revoked_stays lib ports key z t _ valid found refl in
        (found, ap (λ q. q.0) a, ap (λ q. q.0) b, c)
