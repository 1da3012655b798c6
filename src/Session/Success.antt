-- ===== src/Session/Success.antt =====
-- Ports that answer well let a waiting authorization complete.
use mailcleanup.Prelude.{
  ℕ, ◌<◌, Bool, true, false, not, String, some, ◌≡◌, refl, ap, ◌∙◌, arith, is_ascii, leb,
}
use mailcleanup.Session.Result.{SessionErrorCode, Outcome, value, answer}
use mailcleanup.Session.Model.{
  Library, SessionIdentity, CredentialBundle, AuthorizationCallback, normalize_account_address,
  session_identity, is_exact_scope,
}
use mailcleanup.Session.Ports.{Ports, Attempt, Session}
use mailcleanup.Session.Monad.{Method, give, pure, demand, continue, ◌>>=◌}
use mailcleanup.Session.Record.{encode_record}
use mailcleanup.Session.Calls.{
  now, verified_address, save_record, require_exact_scope, consume_attempt, set_snapshot,
}
use mailcleanup.Session.Complete.{
  callback_code, is_expected, exchanged, new_identity, granted, identified, connect, accept,
  complete_authorization,
}
use mailcleanup.Session.Replay.{complete_authorization-accept}

-- What each call answers, in whatever world it is made: the time lies before the end of the attempt
-- and of the credentials, which are of the exact scope and of the expected account, if there is one.
pub record Cooperates (lib : Library) (ports : Ports lib.Bytes) (callback : AuthorizationCallback)
    (a : Attempt) (c : CredentialBundle) (identity : SessionIdentity) : Type 0 where
  pub time : ℕ
  pub clock : (w : ports.World) → (ports.now w).0 ≡ answer (record { instant = time; zoned = true })
  pub before_end : time < a.expires_at
  pub before_expiry : time < c.expires_at
  pub code : String
  pub has_code : callback_code callback ≡ value code
  pub exchange :
      (w : ports.World) → (ports.exchange_code code a.code_verifier a.redirect_uri w).0 ≡ answer c
  pub scope : is_exact_scope c.scopes ≡ true
  pub raw : String
  pub profile : (w : ports.World) → (ports.account_address c w).0 ≡ answer raw
  pub address : String
  pub normalized : normalize_account_address lib raw ≡ value address
  pub expected : is_expected address a.expected_account ≡ value true
  pub key : String
  pub random : (w : ports.World) → (ports.uuid4 w).0 ≡ answer key
  pub constructed : session_identity lib key address ≡ value identity
  pub plaintext : lib.Bytes
  pub encoded :
      encode_record lib record { identity = identity; credentials = c; revoked = false }
      ≡ value plaintext
  pub store : (w : ports.World) → (ports.save identity.account_key plaintext w).0 ≡ answer tt

-- From every session the method returns this value.
record Returns {W A : Type 0} (m : Method W A) (a : A) : Type 0 where
  at : (s : Session W) → (m s).0 ≡ value a

Returns-give : {W A : Type 0} (a : A) → Returns {W = W} (give a) a
unfolding give
Returns-give a = record { at = λ s. refl }

Returns-pure : {W A : Type 0} (o : Outcome A) {a : A} → o ≡ value a → Returns {W = W} (pure o) a
unfolding pure
Returns-pure o h = record { at = λ s. h }

Returns-demand :
    {W : Type 0} (b : Bool) (code : SessionErrorCode)
    → b ≡ true
    → Returns {W = W} (demand b code) tt
unfolding demand
Returns-demand true code h = record { at = λ s. refl }
Returns-demand false code h = cc

Returns-bind :
    {W A B : Type 0} (m : Method W A) (next : A → Method W B) (a : A) {b : B}
    → Returns m a
    → Returns (next a) b
    → Returns (m >>= next) b
unfolding ◌>>=◌
Returns-bind m next a r q = record {
  at = λ s. ap (λ o. (continue o next (m s).1).0) (r.at s) ∙ q.at (m s).1;
}

module _ (lib : Library) (ports : Ports lib.Bytes) (callback : AuthorizationCallback) (a : Attempt)
    (c : CredentialBundle) (identity : SessionIdentity)
    (k : Cooperates lib ports callback a c identity) where
  after_lt : (x y : ℕ) → x < y → not (leb y x) ≡ true
  after_lt x y h = ground arith

  now-Returns : Returns (now lib ports) k.time
  unfolding now ◌>>=◌
  now-Returns = record { at = λ s. rw (k.clock s.world) refl }

  exchanged-Returns : Returns (exchanged lib ports k.code a) c
  unfolding exchanged ◌>>=◌
  exchanged-Returns = record { at = λ s. rw (k.exchange s.world) refl }

  verified_address-Returns : Returns (verified_address lib ports c) k.address
  unfolding verified_address ◌>>=◌
  verified_address-Returns = record { at = λ s. rw (k.profile s.world, k.normalized) refl }

  new_identity-Returns : Returns (new_identity lib ports k.address) identity
  unfolding new_identity ◌>>=◌
  new_identity-Returns = record { at = λ s. rw (k.random s.world, k.constructed) refl }

  connect-Returns : Returns (connect lib ports identity c) identity
  unfolding connect save_record set_snapshot ◌>>=◌
  connect-Returns = record { at = λ s. rw (k.encoded, k.store s.world) refl }

  granted-Returns : Returns (granted lib ports callback a) c
  unfolding granted require_exact_scope
  granted-Returns = Returns-bind _ _ k.time now-Returns (
      Returns-bind _ _ tt (Returns-demand _ _ (after_lt _ _ k.before_end)) (
        Returns-bind _ _ k.code (Returns-pure _ k.has_code) (
          Returns-bind _ _ c exchanged-Returns (
            Returns-bind _ _ tt (Returns-demand _ _ k.scope) (
              Returns-bind _ _ k.time now-Returns (
                Returns-bind _ _ tt (Returns-demand _ _ (after_lt _ _ k.before_expiry))
                  (Returns-give c)))))))

  identified-Returns : Returns (identified lib ports c a.expected_account) identity
  unfolding identified
  identified-Returns = Returns-bind _ _ k.address verified_address-Returns (
      Returns-bind _ _ true (Returns-pure _ k.expected)
        (Returns-bind _ _ tt (Returns-demand _ _ refl) new_identity-Returns))

  consume_attempt-Returns : Returns (consume_attempt lib ports a) tt
  unfolding consume_attempt ◌>>=◌
  consume_attempt-Returns = record { at = λ s. refl }

  accept-Returns : Returns (accept lib ports callback a) identity
  unfolding accept
  accept-Returns = Returns-bind _ _ tt consume_attempt-Returns (
      Returns-bind _ _ c granted-Returns
        (Returns-bind _ _ identity identified-Returns connect-Returns))

  -- Where the clock stands before the end of the pending attempt and the ports answer well, for
  -- unexpired credentials of the exact scope and of the expected account, a callback with the state
  -- and a code completes the authorization.
  pub complete_authorization-returns :
      (s : Session ports.World)
      → s.pending ≡ some a
      → callback.state ≡ a.state
      → is_ascii a.state ≡ true
      → (complete_authorization lib ports callback s).0 ≡ value identity
  complete_authorization-returns s pending same ascii =
      ap (λ z. z.0) (complete_authorization-accept lib ports callback a s pending same ascii)
      ∙ accept-Returns.at s
