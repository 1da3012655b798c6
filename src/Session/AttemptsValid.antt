-- ===== src/Session/AttemptsValid.antt =====
-- Preparing, presenting and completing an authorization keep the session valid.
use mailcleanup.Prelude.{ℕ, Bool, true, false, String, Option, none, some, refl, if◌then◌else◌}
use mailcleanup.Session.Result.{SessionErrorCode}
use mailcleanup.Session.Model.{
  Library, SessionState, SessionIdentity, CredentialBundle, SessionSnapshot, AuthorizationCallback,
  PendingAuthorization, snapshot_of,
}
use mailcleanup.Session.Ports.{Ports, Attempt}
use mailcleanup.Session.Calls.{
  is_pending, set_snapshot, remember_consumed_state, clear_pending, consume_attempt,
}
use mailcleanup.Session.Preserves.{
  Preserves, preserving, Preserves-bind, Preserves-write, Preserves-give, Preserves-read,
}
use mailcleanup.Session.Frames.{
  now-Preserves, save_record-Preserves, granted-Preserves, identified-Preserves,
  prepare_attempt-Preserves,
}
use mailcleanup.Session.Authorize.{
  give_up, expire, open_attempt, present_pending, present_authorization, prepare_attempt,
  prepare_authorization,
}
use mailcleanup.Session.Complete.{connect, accept, refuse, complete_pending, complete_authorization}
use mailcleanup.Session.Inversion.{paired}
use mailcleanup.Session.Offered.{prepare_attempt-inv}
use mailcleanup.Session.Valid.{
  IsValid, IsValid-IsInner, PendingInOrder, IsCoherent, length-append_bounded, Preserves-bind-known,
}

module _ (lib : Library) (ports : Ports lib.Bytes) where
  pub set_snapshot-IsValid :
      (key : String) (snapshot : SessionSnapshot)
      → IsCoherent key snapshot
      → Preserves IsValid (set_snapshot lib ports key snapshot)
  unfolding set_snapshot
  set_snapshot-IsValid key snapshot good =
      Preserves-bind _ _
        (Preserves-write _ λ s v. record {
          bounded = v.bounded;
          in_order = v.in_order;
          coherent = (good, v.coherent);
        })
        (λ _. Preserves-give snapshot)

  pub remember-IsValid :
      (state : String) → Preserves IsValid (remember_consumed_state lib ports state)
  unfolding remember_consumed_state
  remember-IsValid state = Preserves-write _ λ s v. record {
    bounded = length-append_bounded s.consumed (lib.sha256 state) v.bounded;
    in_order = v.in_order;
    coherent = v.coherent;
  }

  cleared_in_order :
      (gone : Bool) (o : Option Attempt)
      → PendingInOrder o
      → PendingInOrder (if gone then none else o)
  cleared_in_order true o h = tt
  cleared_in_order false o h = h

  consume_attempt-IsValid : (a : Attempt) → Preserves IsValid (consume_attempt lib ports a)
  unfolding consume_attempt clear_pending
  consume_attempt-IsValid a = Preserves-bind _ _ (remember-IsValid a.state) λ _.
      Preserves-write _ λ s v. record {
        bounded = v.bounded;
        in_order = cleared_in_order (is_pending s.pending a) s.pending v.in_order;
        coherent = v.coherent;
      }

  connect-IsValid :
      (i : SessionIdentity) (c : CredentialBundle) → Preserves IsValid (connect lib ports i c)
  unfolding connect
  connect-IsValid i c =
      let coherent : IsCoherent i.account_key (snapshot_of SessionState.connected (some i) none) =
        record { of_key = refl; without = λ h. cc; within = λ h. cc } in
      Preserves-bind _ _ (save_record-Preserves lib ports IsValid-IsInner _) λ _.
        Preserves-bind _ _ (set_snapshot-IsValid i.account_key _ coherent) λ _. Preserves-give i

  accept-IsValid :
      (callback : AuthorizationCallback) (a : Attempt)
      → Preserves IsValid (accept lib ports callback a)
  unfolding accept
  accept-IsValid callback a =
      search
        (
          preserving, consume_attempt-IsValid, granted-Preserves, identified-Preserves,
          connect-IsValid, IsValid-IsInner,
        )
        depth 20

  refuse-IsValid :
      (callback : AuthorizationCallback) (code : SessionErrorCode)
      → Preserves IsValid (refuse lib ports callback code)
  unfolding refuse
  refuse-IsValid callback code = search preserving

  complete_pending-IsValid :
      (callback : AuthorizationCallback) (o : Option Attempt)
      → Preserves IsValid (complete_pending lib ports callback o)
  unfolding complete_pending
  complete_pending-IsValid callback none = refuse-IsValid callback _
  complete_pending-IsValid callback (some a) = search (preserving, accept-IsValid, refuse-IsValid)

  pub complete_authorization-IsValid :
      (callback : AuthorizationCallback)
      → Preserves IsValid (complete_authorization lib ports callback)
  unfolding complete_authorization
  complete_authorization-IsValid callback = search (preserving, complete_pending-IsValid)

  present_pending-IsValid :
      (p : PendingAuthorization) (o : Option Attempt)
      → Preserves IsValid (present_pending lib ports p o)
  unfolding present_pending expire open_attempt
  present_pending-IsValid p none = search preserving
  present_pending-IsValid p (some a) =
      search (preserving, consume_attempt-IsValid, now-Preserves, IsValid-IsInner) depth 20

  pub present_authorization-IsValid :
      (p : PendingAuthorization) → Preserves IsValid (present_authorization lib ports p)
  unfolding present_authorization
  present_authorization-IsValid p = search (preserving, present_pending-IsValid)

  give_up-IsValid : (o : Option Attempt) → Preserves IsValid (give_up lib ports o)
  unfolding give_up
  give_up-IsValid none = search preserving
  give_up-IsValid (some a) = remember-IsValid a.state

  module _ (ttl : ℕ) where
    pub prepare_authorization-IsValid :
        (expected : Option String)
        → Preserves IsValid (prepare_authorization lib ports ttl expected)
    unfolding prepare_authorization
    prepare_authorization-IsValid expected =
        Preserves-bind-known _ _ (prepare_attempt-Preserves lib ports IsValid-IsInner ttl expected)
          λ a s known.
            let order =
              (prepare_attempt-inv lib ports ttl expected s
                (paired (prepare_attempt lib ports ttl expected) s known)).0 in
            Preserves-bind _ _ (Preserves-read _) λ o. Preserves-bind _ _ (give_up-IsValid o) λ _.
              Preserves-bind _ _
                (Preserves-write _
                  λ s v. record { bounded = v.bounded; in_order = order; coherent = v.coherent })
                λ _. Preserves-give _
