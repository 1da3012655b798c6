-- ===== src/Session/Asked.antt =====
-- An authorization address that asks for a request is accepted, and no other is.
use mailcleanup.Prelude.{
  ◌≤◌, ◌≢◌, ◌↔◌, true, not, ◌&&◌, String, ◌==◌, Option, none, some, List, [], ◌∷◌, ◌≡◌, refl,
  eq_iff, eq_refl, is_ascii, arith, length, leb, codes,
}
use mailcleanup.Session.Result.{value}
use mailcleanup.Session.Model.{Library, OAuthAuthorizationRequest}
use mailcleanup.Session.Record.{compare_digest}
use mailcleanup.Session.Address.{
  query_values, has_value, has_values, required_values, parse_authorization_uri, validate_parsed,
  validate_authorization_uri,
}
use mailcleanup.Session.Endpoint.{IsEndpoint-is_authorization_endpoint}
use mailcleanup.Session.Prepared.{HasValue, Asks, accepted-Asks}

lem_short :
    (s : String)
    → s ≢ ""
    → length (codes s) ≤ 4096
    → (not (s == "") && leb (length (codes s)) 4096) ≡ true
lem_short s n h = ground (arith, eq_iff s "")

-- The texts of a request are ASCII, so that `hmac.compare_digest` compares them.
pub record IsAscii (request : OAuthAuthorizationRequest) : Type 0 where
  pub redirect_uri : is_ascii request.redirect_uri ≡ true
  pub response_type : is_ascii request.response_type ≡ true
  pub state : is_ascii request.state ≡ true
  pub code_challenge : is_ascii request.code_challenge ≡ true
  pub code_challenge_method : is_ascii request.code_challenge_method ≡ true

abbrev AsciiValue : Option String → Type 0
AsciiValue none = Unit
AsciiValue (some expected) = is_ascii expected ≡ true

-- a query has each of the values, which are ASCII
abbrev HasAll : List (String × List String) → List (String × Option String) → Type 0
HasAll query [] = Unit
HasAll query ((name, expected) ∷ rest) =
    HasValue (query_values name query) expected × AsciiValue expected × HasAll query rest

HasValue-value :
    (values : List String) (expected : Option String)
    → HasValue values expected
    → AsciiValue expected
    → has_value values expected ≡ value tt
unfolding has_value compare_digest
HasValue-value values none (v, e, filled) u = rw (e, filled) refl
HasValue-value values (some expected) (e, filled) a = rw (e, filled, a, eq_refl expected) refl

HasAll-values :
    (query : List (String × List String)) (required : List (String × Option String))
    → HasAll query required
    → has_values query required ≡ value tt
unfolding has_values
HasAll-values query [] h = refl
HasAll-values query ((name, expected) ∷ rest) (this, a, others) =
    rw (HasValue-value _ expected this a, HasAll-values query rest others) refl

module _ (lib : Library) where
  Asks-accepted :
      (uri : String) (request : OAuthAuthorizationRequest)
      → IsAscii request
      → Asks lib uri request
      → validate_authorization_uri lib (some uri) request ≡ value uri
  unfolding validate_authorization_uri required_values
  Asks-accepted uri request a h =
      let there : has_values h.query (required_values request) ≡ value tt =
        HasAll-values h.query (required_values request) (
          h.client,
          tt,
          (
            h.redirect,
            a.redirect_uri,
            (
              h.response_type,
              a.response_type,
              (
                h.scope,
                ascii_scope,
                (
                  h.access_type,
                  ascii_offline,
                  (
                    h.granted_scopes,
                    ascii_true,
                    (
                      h.state,
                      a.state,
                      (
                        h.challenge,
                        a.code_challenge,
                        (h.challenge_method, a.code_challenge_method, tt),
                      ),
                    ),
                  ),
                ),
              ),
            ),
          ),
        ) in
      let short = lem_short uri h.filled h.short in
      let parsed : parse_authorization_uri lib uri ≡ some (h.parts, h.port, h.query) =
        rw (parse_authorization_uri, h.split, h.has_port, h.decoded) refl in
      rw
        (
          short,
          parsed,
          validate_parsed,
          IsEndpoint-is_authorization_endpoint h.parts h.port h.endpoint,
          there,
        )
        refl
    where
      ascii_true : is_ascii "true" ≡ true
      ascii_true = unfold is_ascii in refl

      ascii_offline : is_ascii "offline" ≡ true
      ascii_offline = unfold is_ascii in refl

      ascii_scope : is_ascii "https://www.googleapis.com/auth/gmail.metadata" ≡ true
      ascii_scope = unfold is_ascii in refl

  -- For a request whose texts are ASCII, an authorization address is accepted exactly when it is not
  -- empty and at most 4096 characters long, is of the endpoint https://accounts.google.com/o/oauth2/v2/auth
  -- at the port 443 or at none, without credentials and without fragment, and its query has each of
  -- these once: a client that is not empty, the redirection, response type, state, challenge and
  -- challenge method of the request, none of them empty, and the metadata scope, offline access and
  -- granted scopes.
  pub validate_authorization_uri-Asks :
      (uri : String) (request : OAuthAuthorizationRequest)
      → IsAscii request
      → (validate_authorization_uri lib (some uri) request ≡ value uri) ↔ Asks lib uri request
  validate_authorization_uri-Asks uri request a =
      ((λ h. (accepted-Asks lib (some uri) request h).1), Asks-accepted uri request a)
