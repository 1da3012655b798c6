-- ===== src/Session/Address.antt =====
-- src/mailmap/oauth_session.py: what is asked of a callback address and of an authorization address.
use mailcleanup.Prelude.{
  ℕ, ◌*◌, Bool, true, false, not, ◌&&◌, String, ◌==◌, Option, none, some, List, [], ◌∷◌, codes,
  length, eqb, leb, if◌then◌else◌,
}
use mailcleanup.Session.Result.{SessionErrorCode, session_error, Outcome, raised, value, and_then}
use mailcleanup.Session.Model.{
  Library, SplitResult, CallbackBinding, OAuthAuthorizationRequest, normalize_account_address,
  gmail_metadata_scope,
}
use mailcleanup.Session.Record.{compare_digest}

-- Times are in microseconds.
abbrev pub max_authorization_ttl : ℕ
max_authorization_ttl = 5 * 60 * 1000000

abbrev pub max_authorization_uri_length : ℕ
max_authorization_uri_length = 4096

unfoldable pub is_absent : Option String → Bool
is_absent none = true
is_absent (some s) = false

unfoldable pub is_text : Option String → String → Bool
is_text none t = false
is_text (some s) t = s == t

unfoldable pub is_loopback_port : Option ℕ → Bool
is_loopback_port none = false
is_loopback_port (some p) = leb 1 p && leb p 65535

unfoldable pub is_https_port : Option ℕ → Bool
is_https_port none = true
is_https_port (some p) = eqb p 443

unfoldable pub is_loopback_uri : SplitResult → Option ℕ → Bool
unfolding is_absent is_text is_loopback_port
is_loopback_uri parts port =
    (parts.scheme == "http")
    && is_text parts.hostname "127.0.0.1"
    && is_loopback_port port
    && is_absent parts.username
    && is_absent parts.password
    && (parts.path == "/oauth2/callback")
    && (parts.query == "")
    && (parts.fragment == "")

unfoldable pub is_authorization_endpoint : SplitResult → Option ℕ → Bool
unfolding is_absent is_text is_https_port
is_authorization_endpoint parts port =
    (parts.scheme == "https")
    && is_text parts.hostname "accounts.google.com"
    && is_https_port port
    && is_absent parts.username
    && is_absent parts.password
    && (parts.path == "/o/oauth2/v2/auth")
    && (parts.fragment == "")

unfoldable pub query_values : String → List (String × List String) → List String
query_values name [] = []
query_values name ((k, vs) ∷ rest) = if k == name then vs else query_values name rest

abbrev uri_invalid : {A : Type 0} → Outcome A
uri_invalid = raised (session_error SessionErrorCode.authorization_uri_invalid)

abbrev binding_invalid : Outcome CallbackBinding
binding_invalid = raised (session_error SessionErrorCode.callback_binding_invalid)

abbrev pub agreed : Bool → Outcome (Unit {0})
agreed true = value tt
agreed false = uri_invalid

-- One round of the loop over the required names: `none` asks for any value that is not empty.
unfoldable pub has_value : List String → Option String → Outcome (Unit {0})
unfolding compare_digest
has_value (v ∷ []) none = agreed (not (v == ""))
has_value (v ∷ []) (some expected) =
    and_then (agreed (not (v == ""))) λ _. and_then (compare_digest v expected) agreed
has_value [] expected = uri_invalid
has_value (v ∷ w ∷ vs) expected = uri_invalid

unfoldable pub has_values :
    List (String × List String) → List (String × Option String) → Outcome (Unit {0})
unfolding has_value query_values
has_values query [] = value tt
has_values query ((name, expected) ∷ rest) =
    and_then (has_value (query_values name query) expected) λ _. has_values query rest

unfoldable pub required_values : OAuthAuthorizationRequest → List (String × Option String)
required_values r =
    ("client_id", none)
    ∷ ("redirect_uri", some r.redirect_uri)
    ∷ ("response_type", some r.response_type)
    ∷ ("scope", some gmail_metadata_scope)
    ∷ ("access_type", some "offline")
    ∷ ("include_granted_scopes", some "true")
    ∷ ("state", some r.state)
    ∷ ("code_challenge", some r.code_challenge)
    ∷ ("code_challenge_method", some r.code_challenge_method)
    ∷ []

module _ (lib : Library) where
  unfoldable pub binding_port :
      CallbackBinding → SplitResult → Option (Option ℕ) → Outcome CallbackBinding
  unfolding is_loopback_uri
  binding_port b parts none = binding_invalid
  binding_port b parts (some port) = if is_loopback_uri parts port then value b else binding_invalid

  unfoldable pub binding_parts : CallbackBinding → Option SplitResult → Outcome CallbackBinding
  unfolding binding_port
  binding_parts b none = binding_invalid
  binding_parts b (some parts) = binding_port b parts (lib.port parts)

  -- `none` is a value that is no `CallbackBinding`.
  unfoldable pub validate_callback_binding : Option CallbackBinding → Outcome CallbackBinding
  unfolding binding_parts
  validate_callback_binding none = binding_invalid
  validate_callback_binding (some b) =
      if b.uses_ephemeral_port
      then binding_parts b (lib.urlsplit b.redirect_uri)
      else binding_invalid

  unfoldable pub parse_authorization_uri :
      String → Option (SplitResult × Option ℕ × List (String × List String))
  parse_authorization_uri uri = elim (lib.urlsplit uri) [
    | none ↦ none
    | some parts ↦ elim (lib.port parts) [
      | none ↦ none
      | some port ↦ elim (lib.parse_qs parts.query) [
        | none ↦ none
        | some query ↦ some (parts, port, query)
      ]
    ]
  ]

  unfoldable pub validate_parsed :
      OAuthAuthorizationRequest
      → Option (SplitResult × Option ℕ × List (String × List String))
      → Outcome (Unit {0})
  unfolding is_authorization_endpoint has_values required_values
  validate_parsed request none = uri_invalid
  validate_parsed request (some (parts, port, query)) =
      and_then (agreed (is_authorization_endpoint parts port))
        λ _. has_values query (required_values request)

  -- `none` is a value that is no text.
  unfoldable pub validate_authorization_uri :
      Option String → OAuthAuthorizationRequest → Outcome String
  unfolding validate_parsed parse_authorization_uri
  validate_authorization_uri none request = uri_invalid
  validate_authorization_uri (some uri) request =
      and_then (agreed (not (uri == "") && leb (length (codes uri)) max_authorization_uri_length))
        λ _. and_then (validate_parsed request (parse_authorization_uri uri)) λ _. value uri

  unfoldable pub pkce_challenge : String → String
  pkce_challenge verifier = lib.urlsafe_b64encode_unpadded (lib.sha256 verifier)

  abbrev pub request_for : (redirect_uri state code_verifier : String) → OAuthAuthorizationRequest
  request_for redirect_uri state verifier = record {
    redirect_uri = redirect_uri;
    state = state;
    code_challenge = pkce_challenge verifier;
    scopes = gmail_metadata_scope ∷ [];
    response_type = "code";
    code_challenge_method = "S256";
  }

  -- `normalize_account_address(expected_account)`, if there is one
  unfoldable pub normalize_expected : Option String → Outcome (Option String)
  unfolding normalize_account_address
  normalize_expected none = value none
  normalize_expected (some s) = and_then (normalize_account_address lib s) λ a. value (some a)
