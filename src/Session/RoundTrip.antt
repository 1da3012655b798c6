-- ===== src/Session/RoundTrip.antt =====
-- A stored session is read back as it was written.
use mailcleanup.Prelude.{
  ℕ, ◌<◌, ◌≤◌, true, String, Option, none, some, List, [], ◌∷◌, ◌≡◌, refl, sym, ap, ◌∙◌, subst,
  arith, is_ascii,
}
use mailcleanup.Session.Result.{value, and_then}
use mailcleanup.Session.Model.{
  Library, Fields, SessionIdentity, CredentialBundle, StoredSessionRecord, session_identity,
  credential_bundle, normalize_account_address, field, end, text, array,
}
use mailcleanup.Session.Record.{
  optional_text, text_items, texts_of, as_texts, as_optional_text, as_text, as_flag, as_number,
  as_object, entry, has_exactly, or_value_error, credentials_json, record_json, encode_record,
  parse_credentials, parse_identity, stored_session_record, parse_fields, parse_record,
  decode_record, max_stored_session_bytes,
}

-- What the session relies on: a document of a record is read as it was written and is not empty, a
-- time in UTC is read as it was written, a UUID's canonical text is ASCII, and a normalized address
-- is left alone by normalization.
pub record LibraryLaws (lib : Library) : Type 0 where
  pub document :
      (r : StoredSessionRecord)
      → lib.loads (lib.dumps (record_json lib r)) ≡ some (record_json lib r)
  pub not_empty : (r : StoredSessionRecord) → 0 < lib.size (lib.dumps (record_json lib r))
  pub time :
      (t : ℕ) → lib.fromisoformat (lib.isoformat t) ≡ some (record { instant = t; zoned = true })
  pub uuid_text : (s c : String) (n : ℕ) → lib.uuid s ≡ some (n, c) → is_ascii c ≡ true
  pub stable :
      (s t : String)
      → normalize_account_address lib s ≡ value t
      → normalize_account_address lib t ≡ value t

-- The constructors accept the values that they made.
abbrev pub IsIdentity : Library → SessionIdentity → Type 0
IsIdentity lib i = session_identity lib i.account_key i.address ≡ value i

abbrev pub IsBundle : CredentialBundle → Type 0
IsBundle c =
    credential_bundle c.access_token c.refresh_token
      (record { instant = c.expires_at; zoned = true }) c.scopes
    ≡ value c

texts_of-text_items : (ss : List String) → texts_of (text_items ss) ≡ value ss
unfolding texts_of text_items
texts_of-text_items [] = refl
texts_of-text_items (s ∷ ss) = rw (texts_of-text_items ss) refl

optional_lem : (o : Option String) → as_optional_text (some (optional_text o)) ≡ value o
unfolding as_optional_text optional_text
optional_lem none = refl
optional_lem (some s) = refl

module _ (lib : Library) (laws : LibraryLaws lib) where
  abbrev credential_fields : CredentialBundle → Fields
  credential_fields c = field "access_token" (text c.access_token) (
      field "expires_at" (text (lib.isoformat c.expires_at)) (
        field "refresh_token" (optional_text c.refresh_token)
          (field "scopes" (array (text_items c.scopes)) end)))

  parse_credentials_lem :
      (c : CredentialBundle)
      → IsBundle c
      → parse_credentials lib (credential_fields c) c.scopes ≡ value c
  unfolding parse_credentials entry as_text or_value_error
  parse_credentials_lem c good = rw (optional_lem c.refresh_token, laws.time c.expires_at) good

  parse_fields_lem :
      (r : StoredSessionRecord)
      → IsIdentity lib r.identity
      → IsBundle r.credentials
      → and_then (as_object (some (record_json lib r))) (parse_fields lib) ≡ value r
  unfolding record_json credentials_json parse_fields parse_identity as_object as_number as_flag
      as_text as_texts entry has_exactly stored_session_record
  parse_fields_lem r known good =
      rw (texts_of-text_items r.credentials.scopes, known, parse_credentials_lem r.credentials good)
        refl

  parse_record_lem :
      (r : StoredSessionRecord)
      → IsIdentity lib r.identity
      → IsBundle r.credentials
      → parse_record lib (lib.dumps (record_json lib r)) ≡ value r
  unfolding parse_record
  parse_record_lem r known good = rw (laws.document r) (parse_fields_lem r known good)

  encoded_lem :
      (r : StoredSessionRecord) {plaintext : lib.Bytes}
      → encode_record lib r ≡ value plaintext
      → (plaintext ≡ lib.dumps (record_json lib r))
        × (lib.size plaintext ≤ max_stored_session_bytes)
  unfolding encode_record
  encoded_lem r h = ground arith

  decodes :
      (plaintext : lib.Bytes) {r : StoredSessionRecord}
      → 0 < lib.size plaintext
      → lib.size plaintext ≤ max_stored_session_bytes
      → parse_record lib plaintext ≡ value r
      → decode_record lib (some plaintext) ≡ value r
  unfolding decode_record
  decodes plaintext low high h = ground arith

  -- What a record of accepted values was encoded to is decoded to that record.
  pub decode_record-encode_record :
      (r : StoredSessionRecord) {plaintext : lib.Bytes}
      → IsIdentity lib r.identity
      → IsBundle r.credentials
      → encode_record lib r ≡ value plaintext
      → decode_record lib (some plaintext) ≡ value r
  decode_record-encode_record r {plaintext} known good h =
      let (same, small) = encoded_lem r h in
      decodes plaintext (subst (λ z. 0 < lib.size z) (sym same) (laws.not_empty r)) small
        (ap (parse_record lib) same ∙ parse_record_lem r known good)
