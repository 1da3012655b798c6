-- ===== src/Session/Model.antt =====
-- src/mailmap/session_model.py: the values of a session and what their constructors accept.
use mailcleanup.Prelude.{
  ℕ, Bool, true, false, not, ◌&&◌, String, ◌==◌, Option, none, some, List, [], ◌∷◌, all, distinct,
  codes, eqb, if◌then◌else◌,
}
use mailcleanup.Session.Result.{
  SessionErrorCode, Outcome, raised, value, value_error, and_then, expect,
}

abbrev pub gmail_metadata_scope : String
gmail_metadata_scope = "https://www.googleapis.com/auth/gmail.metadata"

abbrev pub session_record_version : ℕ
session_record_version = 1

pub data SessionState : Type 0 where
  disconnected authorizing connected refresh_required revoked : SessionState
  scope_mismatch account_mismatch failed : SessionState

pub data AuthorizationCallbackError : Type 0 where
  access_denied invalid_request server_error : AuthorizationCallbackError
  temporarily_unavailable unknown : AuthorizationCallbackError

-- A date and time: the instant, and whether it says its time zone.
pub record Datetime : Type 0 where
  pub instant : ℕ
  pub zoned : Bool

pub record SessionIdentity : Type 0 where
  pub account_key : String
  pub address : String

pub record CredentialBundle : Type 0 where
  pub access_token : String
  pub refresh_token : Option String
  pub expires_at : ℕ
  pub scopes : List String

pub record CallbackBinding : Type 0 where
  pub redirect_uri : String
  pub uses_ephemeral_port : Bool

pub record OAuthAuthorizationRequest : Type 0 where
  pub redirect_uri : String
  pub state : String
  pub code_challenge : String
  pub scopes : List String
  pub response_type : String
  pub code_challenge_method : String

-- Its state is always `authorizing`: the constructor accepts no other.
pub record PendingAuthorization : Type 0 where
  pub authorization_uri : String
  pub redirect_uri : String
  pub expires_at : ℕ

pub record AuthorizationCallback : Type 0 where
  pub state : String
  pub code : Option String
  pub error : Option AuthorizationCallbackError

pub record SessionSnapshot : Type 0 where
  pub state : SessionState
  pub identity : Option SessionIdentity
  pub error_code : Option SessionErrorCode

pub record RevocationResult : Type 0 where
  pub remote_revoked : Bool
  pub state : SessionState
  pub error_code : Option SessionErrorCode

-- Its version is always `session_record_version`: the constructor accepts no other.
pub record StoredSessionRecord : Type 0 where
  pub identity : SessionIdentity
  pub credentials : CredentialBundle
  pub revoked : Bool

-- A document as `json` reads it. `other_number` is a number that is no natural one.
mutual
  pub data Json : Type 0 where
    null other_number : Json
    boolean : Bool → Json
    number : ℕ → Json
    text : String → Json
    array : Items → Json
    object : Fields → Json

  pub data Items : Type 0 where
    nil : Items
    cons : Json → Items → Items

  pub data Fields : Type 0 where
    end : Fields
    field : String → Json → Fields → Fields

pub record SplitResult : Type 0 where
  pub scheme : String
  pub hostname : Option String
  pub username : Option String
  pub password : Option String
  pub path : String
  pub query : String
  pub fragment : String

-- What the session takes from the language's library. `port` is `none` where reading it raises;
-- `uuid` gives the version and the canonical text; a digest is a list of its
-- bytes, and `Bytes` are those of an encoded document.
pub record Library : Type 1 where
  pub Bytes : Type 0
  pub size : Bytes → ℕ
  pub strip : String → String
  pub casefold : String → String
  pub is_space : ℕ → Bool
  pub uuid : String → Option (ℕ × String)
  pub sha256 : String → List ℕ
  pub urlsafe_b64encode_unpadded : List ℕ → String
  pub urlsplit : String → Option SplitResult
  pub port : SplitResult → Option (Option ℕ)
  pub parse_qs : String → Option (List (String × List String))
  pub isoformat : ℕ → String
  pub fromisoformat : String → Option Datetime
  pub dumps : Json → Bytes
  pub loads : Bytes → Option Json

unfoldable pub utc_datetime : Datetime → Outcome ℕ
utc_datetime t = expect t.zoned (value t.instant)

module _ (lib : Library) where
  -- `[^@\s]+` up to the end of the text
  unfoldable pub is_plain : List ℕ → Bool
  unfolding all
  is_plain cs = all (λ c. not (eqb c b'@') && not (lib.is_space c)) cs

  -- What follows the first `@`, if there is one and no space stands before it.
  unfoldable pub after_at : List ℕ → Option (List ℕ)
  after_at [] = none
  after_at (c ∷ cs) =
      let rest = after_at cs in
      if eqb c b'@' then some cs else if lib.is_space c then none else rest

  unfoldable pub is_domain : Option (List ℕ) → Bool
  unfolding is_plain
  is_domain none = false
  is_domain (some []) = false
  is_domain (some (c ∷ cs)) = is_plain (c ∷ cs)

  -- `^[^@\s]+@[^@\s]+$`
  unfoldable pub is_account_address : List ℕ → Bool
  unfolding is_domain after_at
  is_account_address [] = false
  is_account_address (c ∷ cs) = not (eqb c b'@') && is_domain (after_at (c ∷ cs))

  unfoldable pub normalize_account_address : String → Outcome String
  unfolding is_account_address
  normalize_account_address s =
      let normalized = lib.casefold (lib.strip s) in
      expect (not (normalized == "") && is_account_address (codes normalized)) (value normalized)

  unfoldable pub is_canonical_uuid4 : String → Option (ℕ × String) → Bool
  is_canonical_uuid4 s none = false
  is_canonical_uuid4 s (some (version, canonical)) = eqb version 4 && canonical == s

  unfoldable pub validate_session_account_key : String → Outcome String
  unfolding is_canonical_uuid4
  validate_session_account_key s =
      expect (s == lib.strip s) (expect (is_canonical_uuid4 s (lib.uuid s)) (value s))

  -- `SessionIdentity.__post_init__`
  unfoldable pub session_identity : String → String → Outcome SessionIdentity
  session_identity key address = and_then (validate_session_account_key key) λ k.
      and_then (normalize_account_address address)
        λ a. value (record { account_key = k; address = a })

unfoldable pub is_token : Option String → Bool
is_token none = true
is_token (some s) = not (s == "")

unfoldable pub is_nil : List String → Bool
is_nil [] = true
is_nil (s ∷ ss) = false

-- `CredentialBundle.__post_init__`
unfoldable pub credential_bundle :
    String → Option String → Datetime → List String → Outcome CredentialBundle
unfolding is_token is_nil utc_datetime all distinct
credential_bundle access refresh expires scopes = expect (not (access == "")) (
    expect (is_token refresh) (
      and_then (utc_datetime expires) λ t. expect (not (is_nil scopes)) (
        expect (all (λ s. not (s == "")) scopes) (
          expect (distinct scopes) (
            value record {
              access_token = access;
              refresh_token = refresh;
              expires_at = t;
              scopes = scopes;
            })))))

-- `AuthorizationCallback.__post_init__`
unfoldable pub authorization_callback :
    String → Option String → Option AuthorizationCallbackError → Outcome AuthorizationCallback
authorization_callback state (some code) none =
    expect (not (state == ""))
      (expect (not (code == "")) (value record { state = state; code = some code; error = none }))
authorization_callback state none (some e) =
    expect (not (state == "")) (value record { state = state; code = none; error = some e })
authorization_callback state none none = raised value_error
authorization_callback state (some code) (some e) = raised value_error

-- `scopes != (GMAIL_METADATA_SCOPE,)`, negated
unfoldable pub is_exact_scope : List String → Bool
is_exact_scope [] = false
is_exact_scope (s ∷ []) = s == gmail_metadata_scope
is_exact_scope (s ∷ t ∷ rest) = false

abbrev pub snapshot_of :
    SessionState → Option SessionIdentity → Option SessionErrorCode → SessionSnapshot
snapshot_of s i e = record { state = s; identity = i; error_code = e }
