-- ===== src/Session/Inversion.antt =====
-- What a method that returns has gone through.
use mailcleanup.Prelude.{
  ℕ, ◌<◌, Bool, true, false, not, String, List, [], ◌∷◌, ◌≡◌, ◌≢◌, refl, sym, ap, ◌∙◌, subst, arith,
  eq_iff, is_ascii, leb,
}
use mailcleanup.Session.Result.{
  SessionErrorCode, Outcome, raised, value, Reply, failed, foreign, answer, value_injective,
  expect-eq-value,
}
use mailcleanup.Session.Model.{
  Library, CredentialBundle, StoredSessionRecord, AuthorizationCallback, is_exact_scope,
  gmail_metadata_scope, validate_session_account_key,
}
use mailcleanup.Session.Ports.{Ports, Attempt, Session}
use mailcleanup.Session.Monad.{Method, give, pure, ask, typed, settle, demand, continue, ◌>>=◌}
use mailcleanup.Session.Record.{compare_digest, encode_record}
use mailcleanup.Session.Calls.{now, save_record, require_exact_scope}
use mailcleanup.Session.Complete.{callback_code, exchanged, granted}

module _ {W A B : Type 0} where
  continue-inv :
      (o : Outcome A) (next : A → Method W B) (s : Session W) {b : B} {t : Session W}
      → continue o next s ≡ (value b, t)
      → (a : A) × (o ≡ value a) × (next a s ≡ (value b, t))
  continue-inv (raised e) next s h = cc
  continue-inv (value a) next s h = (a, refl, h)

  -- The first call returned, and the rest went on from the session that it left.
  pub >>=-inv :
      (m : Method W A) (next : A → Method W B) (s : Session W) {b : B} {t : Session W}
      → (m >>= next) s ≡ (value b, t)
      → (a : A) × ((m s).0 ≡ value a) × (next a (m s).1 ≡ (value b, t))
  unfolding ◌>>=◌
  >>=-inv m next s h = let (r, u) = m s in continue-inv r next u h

module _ {W B : Type 0} where
  pub demand-inv :
      (test : Bool) (code : SessionErrorCode) (next : Unit {0} → Method W B) (s : Session W) {b : B}
      {t : Session W}
      → (demand test code >>= next) s ≡ (value b, t)
      → (test ≡ true) × (next tt s ≡ (value b, t))
  unfolding ◌>>=◌
  demand-inv true code next s h = (refl, h)
  demand-inv false code next s h = cc

typed_answer :
    {W A : Type 0} (code : SessionErrorCode) (r : Reply A) (s : Session W) {a : A}
    → ((settle code r >>= typed code) s).0 ≡ value a
    → r ≡ answer a
unfolding ◌>>=◌
typed_answer code failed s h = cc
typed_answer code foreign s h = cc
typed_answer code (answer b) s h = ap answer (value_injective h)

pub given :
    {W A : Type 0} (a : A) (s : Session W) {b : A} {t : Session W} → give a s ≡ (value b, t) → a ≡ b
unfolding give
given a s h = value_injective (ap (λ z. z.0) h)

module _ {W A B : Type 0} where
  -- An answer of the right type, and what follows it.
  pub answered :
      (code : SessionErrorCode) (r : Reply A) (next : A → Method W B) (s : Session W) {b : B}
      {t : Session W}
      → (settle code r >>= λ found. typed code found >>= next) s ≡ (value b, t)
      → (a : A) × (r ≡ answer a) × (next a s ≡ (value b, t))
  unfolding ◌>>=◌
  answered code failed next s h = cc
  answered code foreign next s h = cc
  answered code (answer a) next s h = (a, refl, h)

pub exact_scope_lem :
    (scopes : List String) → is_exact_scope scopes ≡ true → scopes ≡ gmail_metadata_scope ∷ []
unfolding is_exact_scope
exact_scope_lem [] h = cc
exact_scope_lem (s ∷ []) h = ap (λ z. z ∷ []) ((eq_iff s gmail_metadata_scope).0 h)
exact_scope_lem (s ∷ u ∷ rest) h = cc

pub compare_digest-inv :
    (s t : String) → compare_digest s t ≡ value true → (s ≡ t) × (is_ascii t ≡ true)
unfolding compare_digest
compare_digest-inv s t h = ground (arith, eq_iff s t)

-- A key that is accepted is given back as it is.
pub validated :
    (lib : Library) (s : String) {k : String} → validate_session_account_key lib s ≡ value k → s ≡ k
unfolding validate_session_account_key
validated lib s h =
    let (_, h₁) = expect-eq-value _ _ h in
    let (_, h₂) = expect-eq-value _ _ h₁ in value_injective h₂

after_lem : (x y : ℕ) → not (leb x y) ≡ true → y < x
after_lem x y h = ground arith

pub settled :
    {W A : Type 0} (code : SessionErrorCode) (r : Reply A) (s : Session W) {b : Unit {0}}
    {t : Session W}
    → (settle code r >>= λ _. give tt) s ≡ (value b, t)
    → (r ≢ failed) × (s ≡ t)
unfolding ◌>>=◌
settled code failed s h = cc
settled code foreign s h = (λ e. cc, ap (λ z. z.1) h)
settled code (answer a) s h = (λ e. cc, ap (λ z. z.1) h)

pub paired :
    {W A : Type 0} (m : Method W A) (s : Session W) {a : A}
    → (m s).0 ≡ value a
    → m s ≡ (value a, (m s).1)
paired m s h = ap (λ z. (z, (m s).1)) h

pub asked :
    {W A : Type 0} (call : W → A × W) (s : Session W) {a : A}
    → (ask call s).0 ≡ value a
    → (call s.world).0 ≡ a
unfolding ask
asked call s h = value_injective h

-- The record was encoded, and the store did not fail to take it.
pub record Saved (lib : Library) (ports : Ports lib.Bytes) (r : StoredSessionRecord)
    (s t : Session ports.World) : Type 0 where
  pub plaintext : lib.Bytes
  pub encoded : encode_record lib r ≡ value plaintext
  pub accepted : (ports.save r.identity.account_key plaintext s.world).0 ≢ failed
  pub left : t ≡ record s { world = (ports.save r.identity.account_key plaintext s.world).1 }

-- Credentials that were accepted: the callback's code was exchanged for them before the attempt's
-- end, and they were of the exact scope and had not expired.
pub record Granted (lib : Library) (ports : Ports lib.Bytes) (callback : AuthorizationCallback)
    (a : Attempt) (s : Session ports.World) (c : CredentialBundle) : Type 0 where
  pub time : ℕ
  pub read_before : (now lib ports s).0 ≡ value time
  pub in_time : time < a.expires_at
  pub code : String
  pub of_code : callback_code callback ≡ value code
  pub exchange_world : ports.World
  pub exchange :
      (ports.exchange_code code a.code_verifier a.redirect_uri exchange_world).0 ≡ answer c
  pub scope : c.scopes ≡ gmail_metadata_scope ∷ []
  pub later : ℕ
  pub read_world : Session ports.World
  pub read_after : (now lib ports read_world).0 ≡ value later
  pub fresh : later < c.expires_at

module _ (lib : Library) (ports : Ports lib.Bytes) where
  exchanged-inv :
      (code : String) (a : Attempt) (s : Session ports.World) {c : CredentialBundle}
      → (exchanged lib ports code a s).0 ≡ value c
      → (ports.exchange_code code a.code_verifier a.redirect_uri s.world).0 ≡ answer c
  unfolding exchanged ◌>>=◌
  exchanged-inv code a s h = typed_answer SessionErrorCode.exchange_failed _ _ h

  pub save_record-inv :
      (r : StoredSessionRecord) (s : Session ports.World) {u : Unit {0}} {t : Session ports.World}
      → save_record lib ports r s ≡ (value u, t)
      → Saved lib ports r s t
  unfolding save_record pure ask
  save_record-inv r s h =
      let (plaintext, at_plaintext, h₁) = >>=-inv (pure (encode_record lib r)) _ s h in
      let (reply, at_reply, h₂) =
        >>=-inv (ask (ports.save r.identity.account_key plaintext)) _ s h₁ in
      let (kept, same) = settled _ _ _ h₂ in
      record {
        plaintext = plaintext;
        encoded = at_plaintext;
        accepted = λ e. kept (sym (value_injective at_reply) ∙ e);
        left = sym same;
      }

  pub granted-inv :
      (callback : AuthorizationCallback) (a : Attempt) (s : Session ports.World)
      {c : CredentialBundle} {t : Session ports.World}
      → granted lib ports callback a s ≡ (value c, t)
      → Granted lib ports callback a s c
  unfolding granted require_exact_scope pure
  granted-inv callback a s h =
      let (time, at_time, h₁) = >>=-inv _ _ _ h in
      let (opened, h₂) = demand-inv _ _ _ _ h₁ in
      let (code, at_code, h₃) = >>=-inv _ _ _ h₂ in
      let (c, at_c, h₄) = >>=-inv _ _ _ h₃ in
      let (exact, h₅) = demand-inv _ _ _ _ h₄ in
      let (later, at_later, h₆) = >>=-inv _ _ _ h₅ in
      let (fresh, h₇) = demand-inv _ _ _ _ h₆ in
      subst (Granted lib ports callback a s) (given _ _ h₇) record {
        time = time;
        read_before = at_time;
        in_time = after_lem _ _ opened;
        code = code;
        of_code = at_code;
        exchange_world = _;
        exchange = exchanged-inv code a _ at_c;
        scope = exact_scope_lem _ exact;
        later = later;
        read_world = _;
        read_after = at_later;
        fresh = after_lem _ _ fresh;
      }
