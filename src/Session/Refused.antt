-- ===== src/Session/Refused.antt =====
-- Callbacks that no attempt waits for, and addresses that cannot be compared.
use mailcleanup.Prelude.{
  true, false, String, Option, none, some, ◌≡◌, ◌≢◌, refl, sym, ap, ◌∙◌, arith, eq_iff, is_ascii,
  if◌then◌else◌,
}
use mailcleanup.Session.Result.{SessionErrorCode, session_error, type_error, raised, value}
use mailcleanup.Session.Model.{Library, SessionIdentity, AuthorizationCallback}
use mailcleanup.Session.Ports.{Ports, Attempt, Session}
use mailcleanup.Session.Monad.{◌>>=◌}
use mailcleanup.Session.Record.{compare_digest}
use mailcleanup.Session.Calls.{was_consumed}
use mailcleanup.Session.Complete.{refuse, complete_pending, complete_authorization}
use mailcleanup.Session.Replay.{complete_authorization-pending}
use mailcleanup.Session.Completed.{complete_authorization-Completed}

abbrev pub unknown_code : Option Attempt → SessionErrorCode
unknown_code none = SessionErrorCode.no_pending_authorization
unknown_code (some a) = SessionErrorCode.state_mismatch

compare_other :
    (s t : String)
    → is_ascii s ≡ true
    → is_ascii t ≡ true
    → s ≢ t
    → compare_digest s t ≡ value false
unfolding compare_digest
compare_other s t p q h = ground (arith, eq_iff s t)

compare_not_ascii : (s t : String) → is_ascii s ≡ false → compare_digest s t ≡ raised type_error
unfolding compare_digest
compare_not_ascii s t p = rw p refl

module _ (lib : Library) (ports : Ports lib.Bytes) where
  refuse_lem :
      (callback : AuthorizationCallback) (code : SessionErrorCode) (s : Session ports.World)
      → refuse lib ports callback code s ≡ (
        raised (
            session_error (
              if was_consumed lib ports callback.state s
              then SessionErrorCode.callback_replayed
              else code)),
        s,
      )
  unfolding refuse ◌>>=◌
  refuse_lem callback code s = refl

  unknown_lem :
      (callback : AuthorizationCallback) (o : Option Attempt) (s : Session ports.World)
      → ((a : Attempt)
          → o ≡ some a
          → (is_ascii callback.state ≡ true)
            × (is_ascii a.state ≡ true)
            × (callback.state ≢ a.state))
      → complete_pending lib ports callback o s ≡ refuse lib ports callback (unknown_code o) s
  unfolding complete_pending ◌>>=◌
  unknown_lem callback none s h = refl
  unknown_lem callback (some a) s h =
      let (p, q, other) = h a refl in rw (compare_other callback.state a.state p q other) refl

  -- A callback whose state is not that of a pending attempt, both in ASCII, is refused and changes
  -- nothing: as replayed if its state was consumed, and else for the want of an attempt or as of
  -- another state.
  pub complete_authorization-unknown :
      (callback : AuthorizationCallback) (s : Session ports.World)
      → ((a : Attempt)
          → s.pending ≡ some a
          → (is_ascii callback.state ≡ true)
            × (is_ascii a.state ≡ true)
            × (callback.state ≢ a.state))
      → complete_authorization lib ports callback s ≡ (
        raised (
            session_error (
              if was_consumed lib ports callback.state s
              then SessionErrorCode.callback_replayed
              else unknown_code s.pending)),
        s,
      )
  complete_authorization-unknown callback s h =
      complete_authorization-pending lib ports callback s.pending s refl
      ∙ unknown_lem callback s.pending s h
      ∙ refuse_lem callback (unknown_code s.pending) s

  not_ascii_lem :
      (callback : AuthorizationCallback) (a : Attempt) (s : Session ports.World)
      → is_ascii callback.state ≡ false
      → complete_pending lib ports callback (some a) s ≡ (raised type_error, s)
  unfolding complete_pending ◌>>=◌
  not_ascii_lem callback a s h = rw (compare_not_ascii callback.state a.state h) refl

  -- While an attempt is pending, a callback whose state is not ASCII raises `TypeError`, which is no
  -- session error, and changes nothing. And an attempt that expects an address that is not ASCII is
  -- completed by no callback.
  pub complete_authorization-not_ascii :
      (callback : AuthorizationCallback) (a : Attempt) (s : Session ports.World)
      → s.pending ≡ some a
      → (is_ascii callback.state ≡ false
          → complete_authorization lib ports callback s ≡ (raised type_error, s))
        × ((expected : String)
            → a.expected_account ≡ some expected
            → is_ascii expected ≡ false
            → (identity : SessionIdentity)
            → (complete_authorization lib ports callback s).0 ≢ value identity)
  complete_authorization-not_ascii callback a s h = (
    λ p.
        complete_authorization-pending lib ports callback (some a) s h
        ∙ not_ascii_lem callback a s p,
    λ expected e p identity q.
        let c =
          complete_authorization-Completed lib ports callback s
            (ap (λ z. (z, (complete_authorization lib ports callback s).1)) q) in
        let same : some c.attempt ≡ some a = sym c.was_pending ∙ h in
        let (_, ascii) = c.was_identified.as_expected expected (cc) in cc,
  )
