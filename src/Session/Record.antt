-- ===== src/Session/Record.antt =====
-- src/mailmap/oauth_session.py: a stored session as bytes (`_encode_record`, `_decode_record`).
use mailcleanup.Prelude.{
  ℕ, ◌*◌, Bool, ◌&&◌, String, ◌==◌, Option, none, some, List, [], ◌∷◌, all, contains, eqb, ltb, leb,
  is_ascii, if◌then◌else◌,
}
use mailcleanup.Session.Result.{
  session_error, Outcome, raised, value, type_error, value_error, and_then, expect, controlled,
  stored_data_invalid,
}
use mailcleanup.Session.Model.{
  Json, null, boolean, number, text, array, object, Items, nil, cons, Fields, end, field, Library,
  SessionIdentity, CredentialBundle, StoredSessionRecord, session_identity, credential_bundle,
  session_record_version,
}

abbrev pub max_stored_session_bytes : ℕ
max_stored_session_bytes = 64 * 1024

-- `hmac.compare_digest` on texts refuses any that is not ASCII.
unfoldable pub compare_digest : String → String → Outcome Bool
compare_digest a b = if is_ascii a && is_ascii b then value (a == b) else raised type_error

unfoldable pub optional_text : Option String → Json
optional_text none = null
optional_text (some s) = text s

unfoldable pub text_items : List String → Items
text_items [] = nil
text_items (s ∷ ss) = cons (text s) (text_items ss)

unfoldable pub keys_of : Fields → List String
keys_of end = []
keys_of (field k v fs) = k ∷ keys_of fs

unfoldable pub entry : String → Fields → Option Json
entry k end = none
entry k (field j v fs) = if j == k then some v else entry k fs

-- `set(payload) == keys`
unfoldable pub has_exactly : List String → Fields → Bool
unfolding keys_of all contains
has_exactly keys fs = all (contains keys) (keys_of fs) && all (contains (keys_of fs)) keys

unfoldable pub as_number : Option Json → Outcome ℕ
as_number (some (number n)) = value n
as_number _ = raised value_error

unfoldable pub as_flag : Option Json → Outcome Bool
as_flag (some (boolean b)) = value b
as_flag _ = raised value_error

unfoldable pub as_text : Option Json → Outcome String
as_text (some (text s)) = value s
as_text _ = raised type_error

unfoldable pub as_optional_text : Option Json → Outcome (Option String)
as_optional_text (some null) = value none
as_optional_text (some (text s)) = value (some s)
as_optional_text _ = raised value_error

unfoldable pub as_object : Option Json → Outcome Fields
as_object (some (object fs)) = value fs
as_object _ = raised value_error

unfoldable pub texts_of : Items → Outcome (List String)
texts_of nil = value []
texts_of (cons (text s) rest) = and_then (texts_of rest) λ ss. value (s ∷ ss)
texts_of (cons _ rest) = raised value_error

unfoldable pub as_texts : Option Json → Outcome (List String)
unfolding texts_of
as_texts (some (array items)) = texts_of items
as_texts _ = raised value_error

-- a library call that gives nothing where it raises
unfoldable pub or_value_error : {A : Type 0} → Option A → Outcome A
or_value_error none = raised value_error
or_value_error (some a) = value a

abbrev pub payload_keys : List String
payload_keys = "record_version" ∷ "account_key" ∷ "address" ∷ "revoked" ∷ "credentials" ∷ []

abbrev pub credential_keys : List String
credential_keys = "access_token" ∷ "refresh_token" ∷ "expires_at" ∷ "scopes" ∷ []

module _ (lib : Library) where
  -- The objects' fields in the order of their keys, as `sort_keys` writes them.
  unfoldable pub credentials_json : CredentialBundle → Json
  unfolding optional_text text_items
  credentials_json c = object (
      field "access_token" (text c.access_token) (
        field "expires_at" (text (lib.isoformat c.expires_at)) (
          field "refresh_token" (optional_text c.refresh_token)
            (field "scopes" (array (text_items c.scopes)) end))))

  unfoldable pub record_json : StoredSessionRecord → Json
  unfolding credentials_json
  record_json r = object (
      field "account_key" (text r.identity.account_key) (
        field "address" (text r.identity.address) (
          field "credentials" (credentials_json r.credentials) (
            field "record_version" (number session_record_version)
              (field "revoked" (boolean r.revoked) end)))))

  unfoldable pub encode_record : StoredSessionRecord → Outcome lib.Bytes
  unfolding record_json
  encode_record r =
      let encoded = lib.dumps (record_json r) in
      if leb (lib.size encoded) max_stored_session_bytes
      then value encoded
      else raised (session_error stored_data_invalid)

  unfoldable pub parse_credentials : Fields → List String → Outcome CredentialBundle
  unfolding entry as_text as_optional_text or_value_error credential_bundle
  parse_credentials fields scopes = and_then (as_text (entry "access_token" fields)) λ access.
      and_then (as_optional_text (entry "refresh_token" fields)) λ refresh.
        and_then (as_text (entry "expires_at" fields)) λ expires.
          and_then (or_value_error (lib.fromisoformat expires))
            λ t. credential_bundle access refresh t scopes

  unfoldable pub parse_identity : Fields → Outcome SessionIdentity
  unfolding entry as_text session_identity
  parse_identity fields =
      and_then (as_text (entry "account_key" fields)) λ key.
        and_then (as_text (entry "address" fields)) λ address. session_identity lib key address

  -- `StoredSessionRecord.__post_init__`
  unfoldable pub stored_session_record :
      SessionIdentity → CredentialBundle → Bool → ℕ → Outcome StoredSessionRecord
  stored_session_record identity credentials revoked version =
      expect (eqb version session_record_version)
        (value record { identity = identity; credentials = credentials; revoked = revoked })

  unfoldable pub parse_fields : Fields → Outcome StoredSessionRecord
  unfolding has_exactly entry as_number as_flag as_object as_texts parse_identity parse_credentials
      stored_session_record
  parse_fields fields = expect (has_exactly payload_keys fields) (
      and_then (as_number (entry "record_version" fields)) λ version.
        and_then (as_flag (entry "revoked" fields)) λ revoked.
          and_then (as_object (entry "credentials" fields)) λ credentials.
            expect (has_exactly credential_keys credentials) (
              and_then (as_texts (entry "scopes" credentials)) λ scopes.
                and_then (parse_identity fields) λ identity.
                  and_then (parse_credentials credentials scopes)
                    λ bundle. stored_session_record identity bundle revoked version))

  unfoldable pub parse_record : lib.Bytes → Outcome StoredSessionRecord
  unfolding as_object parse_fields
  parse_record plaintext = and_then (as_object (lib.loads plaintext)) λ fields. parse_fields fields

  -- `none` is a value that is no `bytes`. The version that the last test of the source reads has
  -- been read by the constructor.
  unfoldable pub decode_record : Option lib.Bytes → Outcome StoredSessionRecord
  unfolding parse_record
  decode_record none = raised (session_error stored_data_invalid)
  decode_record (some plaintext) =
      if ltb 0 (lib.size plaintext) && leb (lib.size plaintext) max_stored_session_bytes
      then controlled stored_data_invalid (parse_record plaintext)
      else raised (session_error stored_data_invalid)
