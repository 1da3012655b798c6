-- ===== src/Session/Prepared.antt =====
-- What an authorization that was prepared is bound to.
use mailcleanup.Prelude.{
  ◌≢◌, some_injective, ℕ, ◌≤◌, ◌⊎◌, eq_iff, Bool, true, false, not, ◌&&◌, String, ◌==◌, Option,
  none, some, List, [], ◌∷◌, ◌≡◌, refl, sym, ap, ◌∙◌, subst, arith, length, leb, codes, In, inl,
  inr,
}
use mailcleanup.Session.Result.{value, value_injective, and_then-eq-value}
use mailcleanup.Session.Model.{Library, SplitResult, OAuthAuthorizationRequest}
use mailcleanup.Session.Record.{compare_digest}
use mailcleanup.Session.Address.{
  is_authorization_endpoint, query_values, has_value, has_values, agreed, required_values,
  parse_authorization_uri, validate_parsed, validate_authorization_uri,
}
use mailcleanup.Session.Endpoint.{IsEndpoint, is_authorization_endpoint-IsEndpoint}
use mailcleanup.Session.Inversion.{compare_digest-inv}

-- The values of a query under a name: one that is not empty, and that is the expected one.
abbrev pub HasValue : List String → Option String → Type 0
HasValue values none = (v : String) × (values ≡ v ∷ []) × (not (v == "") ≡ true)
HasValue values (some expected) = (values ≡ expected ∷ []) × (not (expected == "") ≡ true)

agreed-inv : (b : Bool) {u : Unit {0}} → agreed b ≡ value u → b ≡ true
agreed-inv true h = refl
agreed-inv false h = cc

has_value-inv :
    (values : List String) (expected : Option String) {u : Unit {0}}
    → has_value values expected ≡ value u
    → HasValue values expected
unfolding has_value
has_value-inv [] none h = cc
has_value-inv [] (some e) h = cc
has_value-inv (v ∷ []) none h = (v, refl, agreed-inv _ h)
has_value-inv (v ∷ []) (some e) h =
    let (_, filled, h₁) = and_then-eq-value (agreed (not (v == ""))) _ h in
    let (same, at_same, h₂) = and_then-eq-value (compare_digest v e) agreed h₁ in
    let (equal, _) = compare_digest-inv v e (at_same ∙ ap value (agreed-inv same h₂)) in
    (ap (λ z. z ∷ []) equal, subst (λ z. not (z == "") ≡ true) equal (agreed-inv _ filled))
has_value-inv (v ∷ w ∷ vs) none h = cc
has_value-inv (v ∷ w ∷ vs) (some e) h = cc

has_values-inv :
    (query : List (String × List String)) (required : List (String × Option String)) {u : Unit {0}}
    → has_values query required ≡ value u
    → (name : String) (expected : Option String) → In (name, expected) required
    → HasValue (query_values name query) expected
unfolding has_values
has_values-inv query [] h name expected i = absurd i
has_values-inv query ((k, e) ∷ rest) h name expected i =
    let (_, first, h₁) = and_then-eq-value (has_value (query_values k query) e) _ h in
    elim i [
      | inl same ↦
          subst (λ (z : String × Option String). HasValue (query_values z.0 query) z.1) (sym same)
            (has_value-inv (query_values k query) e first)
      | inr later ↦ has_values-inv query rest h₁ name expected later
    ]

Option-cases : {A : Type 0} (o : Option A) → (o ≡ none) ⊎ ((a : A) × (o ≡ some a))
Option-cases none = inl refl
Option-cases (some a) = inr (a, refl)

-- A query has a name once, with this value, which is not empty.
abbrev pub Once : String → String → List (String × List String) → Type 0
Once name expected query = HasValue (query_values name query) (some expected)

-- An address that asks the provider for exactly this request.
pub record Asks (lib : Library) (uri : String) (request : OAuthAuthorizationRequest) : Type 0 where
  pub parts : SplitResult
  pub port : Option ℕ
  pub query : List (String × List String)
  pub split : lib.urlsplit uri ≡ some parts
  pub has_port : lib.port parts ≡ some port
  pub decoded : lib.parse_qs parts.query ≡ some query
  pub endpoint : IsEndpoint parts port
  pub client : HasValue (query_values "client_id" query) none
  pub redirect : Once "redirect_uri" request.redirect_uri query
  pub response_type : Once "response_type" request.response_type query
  pub scope : Once "scope" "https://www.googleapis.com/auth/gmail.metadata" query
  pub access_type : Once "access_type" "offline" query
  pub granted_scopes : Once "include_granted_scopes" "true" query
  pub state : Once "state" request.state query
  pub challenge : Once "code_challenge" request.code_challenge query
  pub challenge_method : Once "code_challenge_method" request.code_challenge_method query
  pub filled : uri ≢ ""
  pub short : length (codes uri) ≤ 4096

short_lem :
    (s : String)
    → (not (s == "") && leb (length (codes s)) 4096) ≡ true
    → (s ≢ "") × (length (codes s) ≤ 4096)
short_lem s h = ground (arith, eq_iff s "")

module _ (lib : Library) where
  abbrev Parsed : String → SplitResult × Option ℕ × List (String × List String) → Type 0
  Parsed uri p =
      (lib.urlsplit uri ≡ some p.0)
      × (lib.port p.0 ≡ some p.1)
      × (lib.parse_qs p.0.query ≡ some p.2)

  parse-inv :
      (uri : String) {p : SplitResult × Option ℕ × List (String × List String)}
      → parse_authorization_uri lib uri ≡ some p
      → Parsed uri p
  unfolding parse_authorization_uri
  parse-inv uri h = elim (Option-cases (lib.urlsplit uri)) [
    | inl e ↦ let k = rw (parse_authorization_uri, e) at h in cc
    | inr (parts, e) ↦ elim (Option-cases (lib.port parts)) [
      | inl f ↦ let k = rw (parse_authorization_uri, e, f) at h in cc
      | inr (port, f) ↦ elim (Option-cases (lib.parse_qs parts.query)) [
        | inl g ↦ let k = rw (parse_authorization_uri, e, f, g) at h in cc
        | inr (query, g) ↦
            subst (Parsed uri) (some_injective (rw (parse_authorization_uri, e, f, g) at h))
              (e, f, g)
      ]
    ]
  ]

  parsed-inv :
      (request : OAuthAuthorizationRequest)
      (o : Option (SplitResult × Option ℕ × List (String × List String))) {u : Unit {0}}
      → validate_parsed lib request o ≡ value u
      → (p : SplitResult × Option ℕ × List (String × List String)) × (o ≡ some p)
        × (is_authorization_endpoint p.0 p.1 ≡ true)
        × (has_values p.2 (required_values request) ≡ value tt)
  unfolding validate_parsed
  parsed-inv request none h = cc
  parsed-inv request (some (parts, port, query)) h =
      let (_, at_end, h₁) = and_then-eq-value (agreed (is_authorization_endpoint parts port)) _ h in
      ((parts, port, query), refl, agreed-inv _ at_end, h₁)

  pub accepted-Asks :
      (o : Option String) (request : OAuthAuthorizationRequest) {uri : String}
      → validate_authorization_uri lib o request ≡ value uri
      → (o ≡ some uri) × Asks lib uri request
  unfolding validate_authorization_uri required_values
  accepted-Asks none request h = cc
  accepted-Asks (some s) request h =
      let (_, fits, h₁) =
        and_then-eq-value (agreed (not (s == "") && leb (length (codes s)) 4096)) _ h in
      let (_, at_parsed, h₂) =
        and_then-eq-value (validate_parsed lib request (parse_authorization_uri lib s)) _ h₁ in
      let ((parts, port, query), parsed, endpoint, all_there) = parsed-inv request _ at_parsed in
      let (split, has_port, decoded) = parse-inv s parsed in
      let there = has_values-inv query (required_values request) all_there in
      let (filled, short) = short_lem s (agreed-inv _ fits) in
      let same = value_injective h₂ in
      (
        ap some same,
        subst (λ z. Asks lib z request) same
            record {
              parts = parts;
              port = port;
              query = query;
              split = split;
              has_port = has_port;
              decoded = decoded;
              endpoint = is_authorization_endpoint-IsEndpoint parts port endpoint;
              client = there _ _ (inl refl);
              redirect = there _ _ (inr (inl refl));
              response_type = there _ _ (inr (inr (inl refl)));
              scope = there _ _ (inr (inr (inr (inl refl))));
              access_type = there _ _ (inr (inr (inr (inr (inl refl)))));
              granted_scopes = there _ _ (inr (inr (inr (inr (inr (inl refl))))));
              state = there _ _ (inr (inr (inr (inr (inr (inr (inl refl)))))));
              challenge = there _ _ (inr (inr (inr (inr (inr (inr (inr (inl refl))))))));
              challenge_method =
                  there _ _ (inr (inr (inr (inr (inr (inr (inr (inr (inl refl)))))))));
              filled = filled;
              short = short;
            },
      )
