-- ===== src/Session/Decoded.antt =====
-- What is loaded from the store is what the constructors accept, under the key that was asked for.
use mailcleanup.Prelude.{ℕ, Bool, String, Option, none, some, List, ◌≡◌, ap, ◌∙◌, subst, arith}
use mailcleanup.Session.Result.{
  SessionErrorCode, value, controlled, expect-eq-value, and_then-eq-value, controlled-eq-value,
  value_injective,
}
use mailcleanup.Session.Model.{
  Library, Fields, SessionIdentity, CredentialBundle, StoredSessionRecord,
}
use mailcleanup.Session.Ports.{Ports, Session}
use mailcleanup.Session.Monad.{give, pure}
use mailcleanup.Session.Record.{
  compare_digest, parse_credentials, parse_identity, stored_session_record, parse_fields,
  parse_record, decode_record, as_object, as_text, as_optional_text, as_flag, as_number, as_texts,
  entry, or_value_error,
}
use mailcleanup.Session.Calls.{load_record, loaded, decode_loaded}
use mailcleanup.Session.RoundTrip.{LibraryLaws, IsBundle}
use mailcleanup.Session.Stored.{IsMade, session_identity-IsMade, credential_bundle-IsBundle}
use mailcleanup.Session.Inversion.{>>=-inv, demand-inv, compare_digest-inv}

some_injective : {A : Type 0} {a b : A} → some a ≡ some b → a ≡ b
some_injective h = cc

module _ (lib : Library) (laws : LibraryLaws lib) where
  -- Its identity and its credentials are such as their constructors make.
  abbrev pub IsStored : StoredSessionRecord → Type 0
  IsStored r = IsMade lib laws r.identity × IsBundle r.credentials

  parse_identity-IsMade :
      (fields : Fields) {i : SessionIdentity}
      → parse_identity lib fields ≡ value i
      → IsMade lib laws i
  unfolding parse_identity
  parse_identity-IsMade fields h =
      let (key, _, h₁) = and_then-eq-value (as_text (entry "account_key" fields)) _ h in
      let (address, _, h₂) = and_then-eq-value (as_text (entry "address" fields)) _ h₁ in
      session_identity-IsMade lib laws key address h₂

  parse_credentials-IsBundle :
      (fields : Fields) (scopes : List String) {c : CredentialBundle}
      → parse_credentials lib fields scopes ≡ value c
      → IsBundle c
  unfolding parse_credentials
  parse_credentials-IsBundle fields scopes h =
      let (access, _, h₁) = and_then-eq-value (as_text (entry "access_token" fields)) _ h in
      let (refresh, _, h₂) =
        and_then-eq-value (as_optional_text (entry "refresh_token" fields)) _ h₁ in
      let (expires, _, h₃) = and_then-eq-value (as_text (entry "expires_at" fields)) _ h₂ in
      let (t, _, h₄) = and_then-eq-value (or_value_error (lib.fromisoformat expires)) _ h₃ in
      credential_bundle-IsBundle access refresh t scopes h₄

  stored_lem :
      (i : SessionIdentity) (c : CredentialBundle) (revoked : Bool) (n : ℕ)
      {r : StoredSessionRecord}
      → stored_session_record lib i c revoked n ≡ value r
      → record { identity = i; credentials = c; revoked = revoked } ≡ r
  unfolding stored_session_record
  stored_lem i c revoked n h = value_injective (expect-eq-value _ _ h).1

  parse_fields-IsStored :
      (fields : Fields) {r : StoredSessionRecord} → parse_fields lib fields ≡ value r → IsStored r
  unfolding parse_fields
  parse_fields-IsStored fields h =
      let (_, h₁) = expect-eq-value _ _ h in
      let (version, _, h₂) = and_then-eq-value (as_number (entry "record_version" fields)) _ h₁ in
      let (revoked, _, h₃) = and_then-eq-value (as_flag (entry "revoked" fields)) _ h₂ in
      let (credentials, _, h₄) = and_then-eq-value (as_object (entry "credentials" fields)) _ h₃ in
      let (_, h₅) = expect-eq-value _ _ h₄ in
      let (scopes, _, h₆) = and_then-eq-value (as_texts (entry "scopes" credentials)) _ h₅ in
      let (i, at_i, h₇) = and_then-eq-value (parse_identity lib fields) _ h₆ in
      let (c, at_c, h₈) = and_then-eq-value (parse_credentials lib credentials scopes) _ h₇ in
      subst IsStored (stored_lem i c revoked version h₈)
        (parse_identity-IsMade fields at_i, parse_credentials-IsBundle credentials scopes at_c)

  decode_some :
      (plaintext : lib.Bytes) {r : StoredSessionRecord}
      → decode_record lib (some plaintext) ≡ value r
      → controlled SessionErrorCode.stored_data_invalid (parse_record lib plaintext) ≡ value r
  unfolding decode_record
  decode_some plaintext h = ground arith

  pub decode_record-IsStored :
      (o : Option lib.Bytes) {r : StoredSessionRecord} → decode_record lib o ≡ value r → IsStored r
  unfolding decode_record parse_record
  decode_record-IsStored none h = cc
  decode_record-IsStored (some plaintext) h =
      let parsed = controlled-eq-value _ _ (decode_some plaintext h) in
      let (fields, _, h₁) = and_then-eq-value (as_object (lib.loads plaintext)) _ parsed in
      parse_fields-IsStored fields h₁

  module _ (ports : Ports lib.Bytes) where
    decode_loaded-inv :
        (key : String) (o : Option lib.Bytes) (s : Session ports.World) {r : StoredSessionRecord}
        {t : Session ports.World}
        → decode_loaded lib ports key o s ≡ (value (some r), t)
        → IsStored r × (r.identity.account_key ≡ key)
    unfolding decode_loaded pure give
    decode_loaded-inv key o s h =
        let (r, at_r, h₁) = >>=-inv (pure (decode_record lib o)) _ s h in
        let (same, at_same, h₂) =
          >>=-inv (pure (compare_digest r.identity.account_key key)) _ s h₁ in
        let (matched, h₃) = demand-inv _ _ _ _ h₂ in
        let e = value_injective (ap (λ z. z.0) h₃) in
        subst (λ (z : StoredSessionRecord). IsStored z × (z.identity.account_key ≡ key))
          (some_injective e)
          (decode_record-IsStored o at_r, (compare_digest-inv _ _ (at_same ∙ ap value matched)).0)

    loaded-inv :
        (key : String) (o : Option (Option lib.Bytes)) (s : Session ports.World)
        {r : StoredSessionRecord} {t : Session ports.World}
        → loaded lib ports key o s ≡ (value (some r), t)
        → IsStored r × (r.identity.account_key ≡ key)
    unfolding loaded give
    loaded-inv key none s h = decode_loaded-inv key none s h
    loaded-inv key (some none) s h = cc
    loaded-inv key (some (some bytes)) s h = decode_loaded-inv key (some bytes) s h

    -- A record that is loaded is of the key that was asked for, and its identity and credentials
    -- are such as their constructors make.
    pub load_record-IsStored :
        (key : String) (s : Session ports.World) {r : StoredSessionRecord} {t : Session ports.World}
        → load_record lib ports key s ≡ (value (some r), t)
        → IsStored r × (r.identity.account_key ≡ key)
    unfolding load_record
    load_record-IsStored key s h =
        let (reply, _, h₁) = >>=-inv _ _ _ h in
        let (found, _, h₂) = >>=-inv _ _ _ h₁ in loaded-inv key found _ h₂
