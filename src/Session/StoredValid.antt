-- ===== src/Session/StoredValid.antt =====
-- Restoring, refreshing, revoking and forgetting a stored session keep the session valid.
use mailcleanup.Prelude.{ℕ, Bool, true, false, String, Option, none, some, ◌≡◌, refl, arith}
use mailcleanup.Session.Result.{SessionErrorCode, Reply, failed, foreign, answer}
use mailcleanup.Session.Model.{Library, SessionState, CredentialBundle, StoredSessionRecord}
use mailcleanup.Session.Ports.{Ports}
use mailcleanup.Session.Preserves.{
  Preserves, preserving, Preserves-bind, Preserves-give, Preserves-pure, Preserves-if,
}
use mailcleanup.Session.Frames.{now-Preserves, verified_address-Preserves, save_record-Preserves}
use mailcleanup.Session.Lifecycle.{
  settle_at, saved_refresh, store_refresh, checked_address, confirm_refresh, refresh_failure,
  dated_refresh, refreshed, refresh_with,
}
use mailcleanup.Session.Revoke.{
  report, not_revoked, state_at, saved_revocation, store_revocation, ask_revocation,
}
use mailcleanup.Session.Valid.{IsValid, IsValid-IsInner, is_disconnected}
use mailcleanup.Session.AttemptsValid.{set_snapshot-IsValid}

module _ (lib : Library) (ports : Ports lib.Bytes) (key : String) (r : StoredSessionRecord)
    (same : r.identity.account_key ≡ key) where
  pub settle_at-IsValid :
      (state : SessionState) (code : Option SessionErrorCode)
      → is_disconnected state ≡ false
      → Preserves IsValid (settle_at lib ports key r state code)
  unfolding settle_at
  settle_at-IsValid state code known =
      set_snapshot-IsValid lib ports key _
        (record { of_key = same; without = λ h. cc; within = λ h. cc })

  refresh_failure-IsValid : Preserves IsValid (refresh_failure lib ports key r)
  unfolding refresh_failure
  refresh_failure-IsValid = settle_at-IsValid _ _ refl

  saved_refresh-IsValid :
      (o : Option (Unit {0})) → Preserves IsValid (saved_refresh lib ports key r o)
  unfolding saved_refresh
  saved_refresh-IsValid none = settle_at-IsValid _ _ refl
  saved_refresh-IsValid (some u) = settle_at-IsValid _ _ refl

  store_refresh-IsValid :
      (c : CredentialBundle) → Preserves IsValid (store_refresh lib ports key r c)
  unfolding store_refresh
  store_refresh-IsValid c =
      search (preserving, save_record-Preserves, saved_refresh-IsValid, IsValid-IsInner)

  checked_address-IsValid :
      (c : CredentialBundle) (o : Option String)
      → Preserves IsValid (checked_address lib ports key r c o)
  unfolding checked_address
  checked_address-IsValid c none = settle_at-IsValid _ _ refl
  checked_address-IsValid c (some address) =
      Preserves-bind _ _ (Preserves-pure _)
        λ b. Preserves-if b _ _ (store_refresh-IsValid c) (settle_at-IsValid _ _ refl)

  confirm_refresh-IsValid :
      (c : CredentialBundle) → Preserves IsValid (confirm_refresh lib ports key r c)
  unfolding confirm_refresh
  confirm_refresh-IsValid c =
      search (preserving, verified_address-Preserves, checked_address-IsValid, IsValid-IsInner)

  dated_refresh-IsValid :
      (token : String) (c : CredentialBundle)
      → Preserves IsValid (dated_refresh lib ports key r token c)
  unfolding dated_refresh
  dated_refresh-IsValid token c =
      search (
        preserving, now-Preserves, refresh_failure-IsValid, confirm_refresh-IsValid,
        IsValid-IsInner,
      )

  refreshed-IsValid :
      (token : String) (reply : Reply CredentialBundle)
      → Preserves IsValid (refreshed lib ports key r token reply)
  unfolding refreshed
  refreshed-IsValid token failed = refresh_failure-IsValid
  refreshed-IsValid token foreign = refresh_failure-IsValid
  refreshed-IsValid token (answer c) =
      Preserves-if _ _ _ (dated_refresh-IsValid token c) (settle_at-IsValid _ _ refl)

  pub refresh_with-IsValid :
      (o : Option String) → Preserves IsValid (refresh_with lib ports key r o)
  unfolding refresh_with
  refresh_with-IsValid none = refresh_failure-IsValid
  refresh_with-IsValid (some token) = search (preserving, refreshed-IsValid, IsValid-IsInner)

  report-IsValid :
      (done : Bool) (state : SessionState) (code : Option SessionErrorCode)
      → is_disconnected state ≡ false
      → Preserves IsValid (report lib ports key r done state code)
  unfolding report
  report-IsValid done state code known =
      Preserves-bind _ _ (settle_at-IsValid state code known) λ _. Preserves-give _

  state_at_known : (time : ℕ) → is_disconnected (state_at r time) ≡ false
  unfolding state_at
  state_at_known time = ground arith

  not_revoked-IsValid : Preserves IsValid (not_revoked lib ports key r)
  unfolding not_revoked
  not_revoked-IsValid =
      Preserves-bind _ _ (now-Preserves lib ports IsValid-IsInner)
        λ time. report-IsValid false _ _ (state_at_known time)

  saved_revocation-IsValid :
      (o : Option (Unit {0})) → Preserves IsValid (saved_revocation lib ports key r o)
  unfolding saved_revocation
  saved_revocation-IsValid none = report-IsValid true _ _ refl
  saved_revocation-IsValid (some u) = report-IsValid true _ _ refl

  store_revocation-IsValid : Preserves IsValid (store_revocation lib ports key r)
  unfolding store_revocation
  store_revocation-IsValid =
      search (preserving, save_record-Preserves, saved_revocation-IsValid, IsValid-IsInner)

  pub ask_revocation-IsValid : Preserves IsValid (ask_revocation lib ports key r)
  unfolding ask_revocation
  ask_revocation-IsValid =
      search (preserving, store_revocation-IsValid, not_revoked-IsValid, IsValid-IsInner)
