-- ===== src/Session/Completed.antt =====
-- What a completed authorization says of the account, the credentials and the store.
use mailcleanup.Prelude.{
  Bool, true, false, Option, none, some, ◌≡◌, ◌≢◌, refl, sym, ap, ◌∙◌, subst, if◌then◌else◌,
}
use mailcleanup.Session.Result.{SessionErrorCode, Outcome, value}
use mailcleanup.Session.Model.{Library, SessionIdentity, CredentialBundle, AuthorizationCallback}
use mailcleanup.Session.Ports.{Ports, Attempt, Session}
use mailcleanup.Session.Monad.{pure, ◌>>=◌}
use mailcleanup.Session.Record.{compare_digest}
use mailcleanup.Session.Complete.{
  granted, identified, accept, refuse, complete_pending, complete_authorization,
}
use mailcleanup.Session.Inversion.{>>=-inv, Granted, granted-inv, compare_digest-inv, paired}
use mailcleanup.Session.Replay.{accept-Attempts, complete_authorization-pending}
use mailcleanup.Session.Identified.{Identified, Connected, identified-inv, connect-inv}

-- An authorization that was completed by a callback.
pub record Completed (lib : Library) (ports : Ports lib.Bytes) (callback : AuthorizationCallback)
    (s t : Session ports.World) (identity : SessionIdentity) : Type 0 where
  pub attempt : Attempt
  pub was_pending : s.pending ≡ some attempt
  pub same_state : callback.state ≡ attempt.state
  pub credentials : CredentialBundle
  pub start : Session ports.World
  pub was_granted : Granted lib ports callback attempt start credentials
  pub was_identified : Identified lib ports credentials attempt.expected_account identity
  pub is_connected : Connected lib ports identity credentials t
  pub none_pending : t.pending ≡ none

module _ (lib : Library) (ports : Ports lib.Bytes) where
  refuse-raises :
      (callback : AuthorizationCallback) (code : SessionErrorCode) (s : Session ports.World)
      {i : SessionIdentity} {t : Session ports.World}
      → refuse lib ports callback code s ≢ (value i, t)
  unfolding refuse ◌>>=◌
  refuse-raises callback code s h = cc

  accept-inv :
      (callback : AuthorizationCallback) (a : Attempt) (s : Session ports.World)
      {identity : SessionIdentity} {t : Session ports.World}
      → s.pending ≡ some a
      → callback.state ≡ a.state
      → accept lib ports callback a s ≡ (value identity, t)
      → Completed lib ports callback s t identity
  unfolding accept
  accept-inv callback a s {identity} {t} pending same h =
      let (tick, at_tick, h₁) = >>=-inv _ _ _ h in
      let (c, at_c, h₂) = >>=-inv _ _ _ h₁ in
      let (i, at_i, h₃) = >>=-inv _ _ _ h₂ in
      let (e, end) = connect-inv lib ports i c _ h₃ in
      record {
        attempt = a;
        was_pending = pending;
        same_state = same;
        credentials = c;
        start = _;
        was_granted =
            granted-inv lib ports callback a _ (paired (granted lib ports callback a) _ at_c);
        was_identified = subst (Identified lib ports c a.expected_account) (sym e) (
            identified-inv lib ports c a.expected_account _
              (paired (identified lib ports c a.expected_account) _ at_i));
        is_connected = subst (λ z. Connected lib ports z c t) (sym e) end;
        none_pending =
            ap (λ (z : Outcome SessionIdentity × Session ports.World). z.1.pending) (sym h)
            ∙ (accept-Attempts lib ports callback a s pending).0;
      }

  accepted_branch :
      (callback : AuthorizationCallback) (a : Attempt) (same : Bool) (s : Session ports.World)
      {i : SessionIdentity} {t : Session ports.World}
      → (if same
            then accept lib ports callback a
            else refuse lib ports callback SessionErrorCode.state_mismatch)
          s
        ≡ (value i, t)
      → (same ≡ true) × (accept lib ports callback a s ≡ (value i, t))
  accepted_branch callback a true s h = (refl, h)
  accepted_branch callback a false s h = absurd (refuse-raises callback _ s h)

  complete_pending-inv :
      (callback : AuthorizationCallback) (o : Option Attempt) (s : Session ports.World)
      {identity : SessionIdentity} {t : Session ports.World}
      → s.pending ≡ o
      → complete_pending lib ports callback o s ≡ (value identity, t)
      → Completed lib ports callback s t identity
  unfolding complete_pending pure
  complete_pending-inv callback none s p h = absurd (refuse-raises callback _ s h)
  complete_pending-inv callback (some a) s p h =
      let (same, at_same, h₁) = >>=-inv (pure (compare_digest callback.state a.state)) _ s h in
      let (matched, h₂) = accepted_branch callback a same s h₁ in
      let (e, _) = compare_digest-inv callback.state a.state (at_same ∙ ap value matched) in
      accept-inv callback a s p e h₂

  -- An authorization that completes was waited for: a pending attempt has the callback's state. The
  -- callback's code was exchanged before the attempt's end, for unexpired credentials of exactly the
  -- metadata scope; the profile's address is the expected one, if there is one; the record was
  -- saved, the snapshot is connected, and no attempt is pending any more.
  pub complete_authorization-Completed :
      (callback : AuthorizationCallback) (s : Session ports.World) {identity : SessionIdentity}
      {t : Session ports.World}
      → complete_authorization lib ports callback s ≡ (value identity, t)
      → Completed lib ports callback s t identity
  complete_authorization-Completed callback s h =
      complete_pending-inv callback s.pending s refl
        (sym (complete_authorization-pending lib ports callback s.pending s refl) ∙ h)
