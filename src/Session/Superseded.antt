-- ===== src/Session/Superseded.antt =====
-- A new authorization takes the place of the pending one.
use mailcleanup.Prelude.{
  ℕ, true, String, Option, none, some, List, ◌≡◌, ◌≢◌, refl, sym, ap, ◌∙◌, is_ascii,
}
use mailcleanup.Session.Result.{SessionErrorCode, session_error, raised, value, value_injective}
use mailcleanup.Session.Model.{Library, PendingAuthorization, AuthorizationCallback}
use mailcleanup.Session.Ports.{Ports, Attempt, Session, public}
use mailcleanup.Session.Monad.{give, write, ◌>>=◌}
use mailcleanup.Session.Calls.{now, remember_consumed_state, append_bounded, was_consumed}
use mailcleanup.Session.Address.{normalize_expected}
use mailcleanup.Session.Authorize.{prepare_attempt, prepare_authorization, give_up}
use mailcleanup.Session.Complete.{complete_authorization}
use mailcleanup.Session.Inversion.{>>=-inv, paired}
use mailcleanup.Session.Frames.{prepare_attempt-Preserves}
use mailcleanup.Session.Replay.{Attempts-IsInner, consumed_after, found_again}
use mailcleanup.Session.Refused.{complete_authorization-unknown}
use mailcleanup.Session.Valid.{InOrder, random_text-is_ascii}
use mailcleanup.Session.Offered.{Offered, prepare_attempt-inv}

some_inj : {A : Type 0} {a b : A} → some a ≡ some b → a ≡ b
some_inj h = cc

module _ (lib : Library) (ports : Ports lib.Bytes) (ttl : ℕ) where
  -- the digests after an attempt, if any, is given up
  abbrev given_up : Option Attempt → Session ports.World → List (List ℕ)
  given_up none s = s.consumed
  given_up (some a) s = consumed_after lib ports a s

  attempt_written :
      (a : Attempt) (o : Option Attempt) (u : Session ports.World) {p : PendingAuthorization}
      {t : Session ports.World}
      → (give_up lib ports o >>= λ _.
            write (λ s. record s { pending = some a }) >>= λ _. give (public a))
          u
        ≡ (value p, t)
      → (p ≡ public a) × (t.pending ≡ some a) × (t.consumed ≡ given_up o u)
  unfolding give_up remember_consumed_state consumed_after ◌>>=◌
  attempt_written a none u h = (
    sym (value_injective (ap (λ z. z.0) h)),
    sym (ap (λ z. z.1.pending) h),
    sym (ap (λ z. z.1.consumed) h),
  )
  attempt_written a (some b) u h = (
    sym (value_injective (ap (λ z. z.0) h)),
    sym (ap (λ z. z.1.pending) h),
    sym (ap (λ z. z.1.consumed) h),
  )

  given_up_same :
      (s u : Session ports.World)
      → u.pending ≡ s.pending
      → u.consumed ≡ s.consumed
      → given_up u.pending u ≡ given_up s.pending s
  unfolding consumed_after
  given_up_same s u p q = ap (λ o. given_up o u) p ∙ by_digests s.pending
    where
      by_digests : (o : Option Attempt) → given_up o u ≡ given_up o s
      by_digests none = q
      by_digests (some a) = ap (λ ds. append_bounded ds (lib.sha256 a.state)) q

  -- a consumed state that no attempt waits for
  replayed_state :
      (callback : AuthorizationCallback) (t : Session ports.World)
      → was_consumed lib ports callback.state t ≡ true
      → ((a : Attempt)
          → t.pending ≡ some a
          → (is_ascii callback.state ≡ true)
            × (is_ascii a.state ≡ true)
            × (callback.state ≢ a.state))
      → complete_authorization lib ports callback t
        ≡ (raised (session_error SessionErrorCode.callback_replayed), t)
  replayed_state callback t used unknown =
      rw used at (complete_authorization-unknown lib ports callback t unknown)

  prepare_authorization-inv :
      (expected : Option String) (s : Session ports.World) {p : PendingAuthorization}
      {t : Session ports.World}
      → prepare_authorization lib ports ttl expected s ≡ (value p, t)
      → (a : Attempt) × ((prepare_attempt lib ports ttl expected s).0 ≡ value a)
        × (p ≡ public a)
        × (t.pending ≡ some a)
        × (t.consumed ≡ given_up s.pending s)
  unfolding prepare_authorization ◌>>=◌
  prepare_authorization-inv expected s h =
      let (a, at_a, h₁) = >>=-inv (prepare_attempt lib ports ttl expected) _ s h in
      let u = (prepare_attempt lib ports ttl expected s).1 in
      let (same_pending, same_consumed) =
        (prepare_attempt-Preserves lib ports (Attempts-IsInner lib ports s.pending s.consumed) ttl
            expected).holds
          s (refl, refl) in
      let (shown, pending, consumed) = attempt_written a u.pending u h₁ in
      (a, at_a, shown, pending, consumed ∙ given_up_same s u same_pending same_consumed)

  -- A prepared authorization is the pending one: its texts are in order, its callback is on the
  -- loopback, its address asks the provider for its own request, and it ends one time to live after
  -- the clock's reading. An attempt that was pending is given up: a callback of its state, if the new
  -- state is another one, is refused as replayed and changes nothing.
  pub prepare_authorization-Offered :
      (expected : Option String) (s : Session ports.World) {p : PendingAuthorization}
      {t : Session ports.World}
      → prepare_authorization lib ports ttl expected s ≡ (value p, t)
      → (a : Attempt) × (t.pending ≡ some a)
        × (p ≡ public a)
        × InOrder a
        × (time : ℕ) × ((now lib ports s).0 ≡ value time)
        × (known : Option String) × (normalize_expected lib expected ≡ value known)
        × Offered lib ttl time known a
        × ((old : Attempt) (callback : AuthorizationCallback)
            → s.pending ≡ some old
            → callback.state ≡ old.state
            → is_ascii old.state ≡ true
            → old.state ≢ a.state
            → complete_authorization lib ports callback t
              ≡ (raised (session_error SessionErrorCode.callback_replayed), t))
  prepare_authorization-Offered expected s {p} {t} h =
      let (a, at_a, shown, pending, consumed) = prepare_authorization-inv expected s h in
      let (order, time, at_time, known, at_known, offered) =
        prepare_attempt-inv lib ports ttl expected s
          (paired (prepare_attempt lib ports ttl expected) s at_a) in
      (
        a,
        pending,
        shown,
        order,
        time,
        at_time,
        known,
        at_known,
        offered,
        λ old callback was same ascii other.
            replayed_state callback t
              (found_again lib ports old s t callback.state same
                (consumed ∙ ap (λ o. given_up o s) was))
              (λ b at_b.
                let e : a ≡ b = some_inj (sym pending ∙ at_b) in
                (
                  ap is_ascii same ∙ ascii,
                  ap (λ (z : Attempt). is_ascii z.state) (sym e)
                      ∙ random_text-is_ascii 43 256 a.state order.state,
                  λ q. other (sym same ∙ q ∙ ap (λ (z : Attempt). z.state) (sym e)),
                )),
      )
