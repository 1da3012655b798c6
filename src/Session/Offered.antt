-- ===== src/Session/Offered.antt =====
-- What a prepared attempt is bound to: its callback, its texts, its end and its address.
use mailcleanup.Prelude.{ℕ, ◌+◌, String, Option, none, some, ◌≡◌, refl, ap, ◌∙◌, subst}
use mailcleanup.Session.Result.{value, value_injective, guarded-eq-value}
use mailcleanup.Session.Model.{Library, SplitResult, CallbackBinding}
use mailcleanup.Session.Ports.{Ports, Attempt, Session}
use mailcleanup.Session.Monad.{give, pure}
use mailcleanup.Session.Calls.{now, random_value, is_random_text}
use mailcleanup.Session.Address.{
  is_loopback_uri, binding_port, binding_parts, validate_callback_binding,
  validate_authorization_uri, request_for, normalize_expected,
}
use mailcleanup.Session.Authorize.{offer_attempt, prepare_attempt}
use mailcleanup.Session.Endpoint.{IsCallback, loopback-IsCallback}
use mailcleanup.Session.Inversion.{>>=-inv, paired}
use mailcleanup.Session.Valid.{InOrder, random_value-inv}
use mailcleanup.Session.Prepared.{Asks, accepted-Asks}

-- A callback address on the loopback interface, at an ephemeral port.
pub record IsLoopback (lib : Library) (redirect_uri : String) : Type 0 where
  pub parts : SplitResult
  pub port : Option ℕ
  pub split : lib.urlsplit redirect_uri ≡ some parts
  pub has_port : lib.port parts ≡ some port
  pub callback : IsCallback parts port

-- The attempt of these texts: its callback is on the loopback, its address asks for its request, and
-- it ends when its time to live has passed.
pub record Offered (lib : Library) (ttl time : ℕ) (expected : Option String) (a : Attempt)
    : Type 0 where
  pub loopback : IsLoopback lib a.redirect_uri
  pub asks : Asks lib a.authorization_uri (request_for lib a.redirect_uri a.state a.code_verifier)
  pub expires_at : a.expires_at ≡ time + ttl
  pub expected_account : a.expected_account ≡ expected

module _ (lib : Library) where
  binding_port-inv :
      (b : CallbackBinding) (parts : SplitResult) (o : Option (Option ℕ)) {c : CallbackBinding}
      → lib.urlsplit b.redirect_uri ≡ some parts
      → lib.port parts ≡ o
      → binding_port lib b parts o ≡ value c
      → IsLoopback lib c.redirect_uri
  unfolding binding_port
  binding_port-inv b parts none e p h = cc
  binding_port-inv b parts (some port) e p h =
      let (loopback, same) = guarded-eq-value (is_loopback_uri parts port) _ _ h in
      subst (λ (z : CallbackBinding). IsLoopback lib z.redirect_uri) (value_injective same)
        record {
          parts = parts;
          port = port;
          split = e;
          has_port = p;
          callback = loopback-IsCallback parts port loopback;
        }

  binding_parts-inv :
      (b : CallbackBinding) (o : Option SplitResult) {c : CallbackBinding}
      → lib.urlsplit b.redirect_uri ≡ o
      → binding_parts lib b o ≡ value c
      → IsLoopback lib c.redirect_uri
  unfolding binding_parts
  binding_parts-inv b none e h = cc
  binding_parts-inv b (some parts) e h = binding_port-inv b parts (lib.port parts) e refl h

  binding-inv :
      (o : Option CallbackBinding) {b : CallbackBinding}
      → validate_callback_binding lib o ≡ value b
      → IsLoopback lib b.redirect_uri
  unfolding validate_callback_binding
  binding-inv none h = cc
  binding-inv (some b) h =
      binding_parts-inv b (lib.urlsplit b.redirect_uri) refl
        (guarded-eq-value b.uses_ephemeral_port _ _ h).1

module _ (lib : Library) (ports : Ports lib.Bytes) (ttl : ℕ) where
  abbrev OfTexts : Option String → ℕ → String → String → Attempt → Type 0
  OfTexts expected time verifier state a =
      Offered lib ttl time expected a × (a.state ≡ state) × (a.code_verifier ≡ verifier)

  offer_attempt-Offered :
      (expected : Option String) (time : ℕ) (verifier state : String) (s : Session ports.World)
      {a : Attempt} {t : Session ports.World}
      → offer_attempt lib ports ttl expected time verifier state s ≡ (value a, t)
      → OfTexts expected time verifier state a
  unfolding offer_attempt pure give
  offer_attempt-Offered expected time verifier state s h =
      let (reserved, _, h₁) = >>=-inv _ _ _ h in
      let (offered, _, h₂) = >>=-inv _ _ _ h₁ in
      let (binding, at_binding, h₃) =
        >>=-inv (pure (validate_callback_binding lib offered)) _ _ h₂ in
      let (built, _, h₄) = >>=-inv _ _ _ h₃ in
      let (candidate, _, h₅) = >>=-inv _ _ _ h₄ in
      let request = request_for lib binding.redirect_uri state verifier in
      let (uri, at_uri, h₆) =
        >>=-inv (pure (validate_authorization_uri lib candidate request)) _ _ h₅ in
      subst (OfTexts expected time verifier state) (value_injective (ap (λ z. z.0) h₆)) (
        record {
          loopback = binding-inv lib offered at_binding;
          asks = (accepted-Asks lib candidate request at_uri).1;
          expires_at = refl;
          expected_account = refl;
        },
        refl,
        refl,
      )

  pub prepare_attempt-inv :
      (expected : Option String) (s : Session ports.World) {a : Attempt} {t : Session ports.World}
      → prepare_attempt lib ports ttl expected s ≡ (value a, t)
      → InOrder a
        × (time : ℕ) × ((now lib ports s).0 ≡ value time)
        × (known : Option String) × (normalize_expected lib expected ≡ value known)
        × Offered lib ttl time known a
  unfolding prepare_attempt pure
  prepare_attempt-inv expected s h =
      let (known, at_known, h₁) = >>=-inv (pure (normalize_expected lib expected)) _ _ h in
      let (time, at_time, h₂) = >>=-inv (now lib ports) _ _ h₁ in
      let (verifier, at_verifier, h₃) = >>=-inv (random_value lib ports 64 43 128) _ _ h₂ in
      let (state, at_state, h₄) = >>=-inv (random_value lib ports 32 43 256) _ _ h₃ in
      let (offered, same_state, same_verifier) =
        offer_attempt-Offered known time verifier state _ h₄ in
      (
        record {
          state =
              ap (is_random_text 43 256) same_state
              ∙ random_value-inv lib ports 32 43 256 _
                  (paired (random_value lib ports 32 43 256) _ at_state);
          verifier =
              ap (is_random_text 43 128) same_verifier
              ∙ random_value-inv lib ports 64 43 128 _
                  (paired (random_value lib ports 64 43 128) _ at_verifier);
        },
        time,
        at_time,
        known,
        at_known,
        offered,
      )
