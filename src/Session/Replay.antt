-- ===== src/Session/Replay.antt =====
-- A state of an authorization serves once.
use mailcleanup.Prelude.{
  ℕ, true, String, Option, none, some, List, [], ◌∷◌, ◌≡◌, refl, sym, ap, ◌∙◌, subst, arith,
  eq_refl, any, any-append, is_ascii, if◌then◌else◌,
}
use mailcleanup.Session.Result.{SessionErrorCode, session_error, Outcome, raised, value}
use mailcleanup.Session.Model.{
  Library, SessionIdentity, CredentialBundle, SessionSnapshot, AuthorizationCallback,
}
use mailcleanup.Session.Ports.{Ports, Attempt, Session}
use mailcleanup.Session.Monad.{◌>>=◌}
use mailcleanup.Session.Preserves.{
  Preserves, IsInner, preserving, Preserves-bind, Preserves-write, Preserves-give,
}
use mailcleanup.Session.Record.{compare_digest}
use mailcleanup.Session.Calls.{
  same_bytes, same_optional, same_attempt, is_pending, append_bounded, drop_oldest, was_consumed,
  consume_attempt, set_snapshot,
}
use mailcleanup.Session.Complete.{
  granted, identified, connect, accept, refuse, complete_pending, complete_authorization,
}
use mailcleanup.Session.Frames.{save_record-Preserves, granted-Preserves, identified-Preserves}

same_bytes_refl : (xs : List ℕ) → same_bytes xs xs ≡ true
unfolding same_bytes
same_bytes_refl [] = refl
same_bytes_refl (x ∷ xs) = ground (arith, same_bytes_refl xs)

same_optional_refl : (o : Option String) → same_optional o o ≡ true
unfolding same_optional
same_optional_refl none = refl
same_optional_refl (some s) = eq_refl s

same_attempt_refl : (a : Attempt) → same_attempt a a ≡ true
unfolding same_attempt
same_attempt_refl a = ground (
  arith,
  eq_refl a.authorization_uri,
  eq_refl a.redirect_uri,
  eq_refl a.state,
  eq_refl a.code_verifier,
  same_optional_refl a.expected_account,
)

-- What was remembered last is found again.
remembered : (ds : List (List ℕ)) (d : List ℕ) → any (same_bytes d) (append_bounded ds d) ≡ true
unfolding append_bounded any
remembered ds d = ground (
  arith,
  same_bytes_refl d,
  any-append (same_bytes d) ds (d ∷ []),
  any-append (same_bytes d) (drop_oldest ds) (d ∷ []),
)

module _ (lib : Library) (ports : Ports lib.Bytes) where
  -- No attempt is pending, and these digests are of consumed states.
  abbrev pub Attempts : Option Attempt → List (List ℕ) → Session ports.World → Type 0
  Attempts pending consumed s = (s.pending ≡ pending) × (s.consumed ≡ consumed)

  module _ (pending : Option Attempt) (consumed : List (List ℕ)) where
    pub Attempts-IsInner : IsInner (Attempts pending consumed)
    Attempts-IsInner = record { world_free = λ s w h. h }

    set_snapshot-Attempts :
        (key : String) (snapshot : SessionSnapshot)
        → Preserves (Attempts pending consumed) (set_snapshot lib ports key snapshot)
    unfolding set_snapshot
    set_snapshot-Attempts key snapshot =
        Preserves-bind _ _ (Preserves-write _ (λ s h. h)) (λ _. Preserves-give snapshot)

    connect-Attempts :
        (identity : SessionIdentity) (c : CredentialBundle)
        → Preserves (Attempts pending consumed) (connect lib ports identity c)
    unfolding connect
    connect-Attempts identity c =
        search (preserving, save_record-Preserves, set_snapshot-Attempts, Attempts-IsInner)

    -- what follows the consumption of the attempt
    after_consumption :
        (callback : AuthorizationCallback) (a : Attempt)
        → Preserves (Attempts pending consumed) (
            granted lib ports callback a >>= λ c.
            identified lib ports c a.expected_account >>= λ i. connect lib ports i c)
    after_consumption callback a =
        search
          (preserving, granted-Preserves, identified-Preserves, connect-Attempts, Attempts-IsInner)

  unfoldable pub consumed_after : Attempt → Session ports.World → List (List ℕ)
  consumed_after a s = append_bounded s.consumed (lib.sha256 a.state)

  pub accept-Attempts :
      (callback : AuthorizationCallback) (a : Attempt) (s : Session ports.World)
      → s.pending ≡ some a
      → Attempts none (consumed_after a s) (accept lib ports callback a s).1
  unfolding accept consume_attempt consumed_after ◌>>=◌
  accept-Attempts callback a s h =
      (after_consumption none (append_bounded s.consumed (lib.sha256 a.state)) callback a).holds
        (record s {
          pending = if is_pending s.pending a then none else s.pending;
          consumed = append_bounded s.consumed (lib.sha256 a.state);
        })
        (cleared, refl)
    where
      cleared : (if is_pending s.pending a then none else s.pending) ≡ none
      cleared = rw (h, is_pending, same_attempt_refl a) refl

  compare_self : (s t : String) → s ≡ t → is_ascii t ≡ true → compare_digest s t ≡ value true
  unfolding compare_digest
  compare_self s t e h = rw (e, h, eq_refl t) refl

  complete_pending-accept :
      (callback : AuthorizationCallback) (a : Attempt) (s : Session ports.World)
      → callback.state ≡ a.state
      → is_ascii a.state ≡ true
      → complete_pending lib ports callback (some a) s ≡ accept lib ports callback a s
  unfolding complete_pending ◌>>=◌
  complete_pending-accept callback a s e h = rw (compare_self callback.state a.state e h) refl

  refuse-replayed :
      (callback : AuthorizationCallback) (code : SessionErrorCode) (s : Session ports.World)
      → was_consumed lib ports callback.state s ≡ true
      → refuse lib ports callback code s
        ≡ (raised (session_error SessionErrorCode.callback_replayed), s)
  unfolding refuse ◌>>=◌
  refuse-replayed callback code s h = rw h refl

  pub complete_authorization-pending :
      (callback : AuthorizationCallback) (o : Option Attempt) (s : Session ports.World)
      → s.pending ≡ o
      → complete_authorization lib ports callback s ≡ complete_pending lib ports callback o s
  unfolding complete_authorization ◌>>=◌
  complete_authorization-pending callback o s h =
      ap (λ o. complete_pending lib ports callback o s) h

  pub complete_authorization-accept :
      (callback : AuthorizationCallback) (a : Attempt) (s : Session ports.World)
      → s.pending ≡ some a
      → callback.state ≡ a.state
      → is_ascii a.state ≡ true
      → complete_authorization lib ports callback s ≡ accept lib ports callback a s
  complete_authorization-accept callback a s h e ascii =
      complete_authorization-pending callback (some a) s h
      ∙ complete_pending-accept callback a s e ascii

  -- no attempt is pending, and the state was consumed
  idle_replayed :
      (callback : AuthorizationCallback) (s : Session ports.World)
      → s.pending ≡ none
      → was_consumed lib ports callback.state s ≡ true
      → complete_authorization lib ports callback s
        ≡ (raised (session_error SessionErrorCode.callback_replayed), s)
  unfolding complete_pending
  idle_replayed callback s h used =
      complete_authorization-pending callback none s h
      ∙ refuse-replayed callback SessionErrorCode.no_pending_authorization s used

  pub found_again :
      (a : Attempt) (s t : Session ports.World) (state : String)
      → state ≡ a.state
      → t.consumed ≡ consumed_after a s
      → was_consumed lib ports state t ≡ true
  unfolding was_consumed consumed_after
  found_again a s t state e h =
      ap (λ (z : String). any (same_bytes (lib.sha256 z)) t.consumed) e
      ∙ ap (any (same_bytes (lib.sha256 a.state))) h
      ∙ remembered s.consumed (lib.sha256 a.state)

  -- A callback whose state is the pending attempt's ends the attempt, whatever comes of it: none is
  -- pending, and every further callback of that state is refused as replayed and changes nothing.
  pub complete_authorization_once :
      (callback : AuthorizationCallback) (a : Attempt) (s : Session ports.World)
      → s.pending ≡ some a
      → callback.state ≡ a.state
      → is_ascii a.state ≡ true
      → let t = (complete_authorization lib ports callback s).1 in
        (t.pending ≡ none)
        × ((again : AuthorizationCallback)
            → again.state ≡ a.state
            → complete_authorization lib ports again t
              ≡ (raised (session_error SessionErrorCode.callback_replayed), t))
  complete_authorization_once callback a s h e ascii =
      let t = (complete_authorization lib ports callback s).1 in
      let (idle, used) : Attempts none (consumed_after a s) t =
        subst
          (λ (z : Outcome SessionIdentity × Session ports.World).
            Attempts none (consumed_after a s) z.1)
          (sym (complete_authorization-accept callback a s h e ascii))
          (accept-Attempts callback a s h) in
      (idle, λ again same. idle_replayed again t idle (found_again a s t again.state same used))
