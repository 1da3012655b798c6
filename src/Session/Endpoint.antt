-- ===== src/Session/Endpoint.antt =====
-- The provider's authorization endpoint and the loopback callback, written out, against the tests of the code.
use mailcleanup.Prelude.{
  ℕ, ◌≤◌, true, String, Option, none, some, ◌≡◌, ◌⊎◌, refl, ap, arith, inl, inr, eq_iff, eq_refl,
}
use mailcleanup.Session.Model.{SplitResult}
use mailcleanup.Session.Address.{
  is_text, is_absent, is_https_port, is_loopback_port, is_authorization_endpoint, is_loopback_uri,
}

text_inv : (o : Option String) (t : String) → is_text o t ≡ true → o ≡ some t
unfolding is_text
text_inv none t h = cc
text_inv (some s) t h = ap some ((eq_iff s t).0 h)

absent_inv : (o : Option String) → is_absent o ≡ true → o ≡ none
unfolding is_absent
absent_inv none h = refl
absent_inv (some s) h = cc

https_port_inv : (o : Option ℕ) → is_https_port o ≡ true → (o ≡ none) ⊎ (o ≡ some 443)
unfolding is_https_port
https_port_inv none h = inl refl
https_port_inv (some n) h = let e : n ≡ 443 = ground arith in inr (ap some e)

-- The address of the provider's authorization endpoint, without credentials and without fragment.
pub record IsEndpoint (parts : SplitResult) (port : Option ℕ) : Type 0 where
  pub scheme : parts.scheme ≡ "https"
  pub hostname : parts.hostname ≡ some "accounts.google.com"
  pub port_443 : (port ≡ none) ⊎ (port ≡ some 443)
  pub no_username : parts.username ≡ none
  pub no_password : parts.password ≡ none
  pub path : parts.path ≡ "/o/oauth2/v2/auth"
  pub no_fragment : parts.fragment ≡ ""

pub is_authorization_endpoint-IsEndpoint :
    (parts : SplitResult) (port : Option ℕ)
    → is_authorization_endpoint parts port ≡ true
    → IsEndpoint parts port
unfolding is_authorization_endpoint
is_authorization_endpoint-IsEndpoint parts port h = record {
  scheme = ground (arith, eq_iff parts.scheme "https");
  hostname = text_inv _ _ (ground arith);
  port_443 = https_port_inv _ (ground arith);
  no_username = absent_inv _ (ground arith);
  no_password = absent_inv _ (ground arith);
  path = ground (arith, eq_iff parts.path "/o/oauth2/v2/auth");
  no_fragment = ground (arith, eq_iff parts.fragment "");
}

https_port_lem : (o : Option ℕ) → (o ≡ none) ⊎ (o ≡ some 443) → is_https_port o ≡ true
unfolding is_https_port
https_port_lem o (inl e) = rw e refl
https_port_lem o (inr e) = rw e refl

pub IsEndpoint-is_authorization_endpoint :
    (parts : SplitResult) (port : Option ℕ)
    → IsEndpoint parts port
    → is_authorization_endpoint parts port ≡ true
unfolding is_authorization_endpoint
IsEndpoint-is_authorization_endpoint parts port e = ground (
  arith,
  eq_iff parts.scheme "https",
  e.scheme,
  text_lem "accounts.google.com" e.hostname,
  https_port_lem port e.port_443,
  absent_lem e.no_username,
  absent_lem e.no_password,
  eq_iff parts.path "/o/oauth2/v2/auth",
  e.path,
  eq_iff parts.fragment "",
  e.no_fragment,
)
  where
    text_lem : {o : Option String} (t : String) → o ≡ some t → is_text o t ≡ true
    text_lem t e = unfold is_text in rw e (eq_refl t)

    absent_lem : {o : Option String} → o ≡ none → is_absent o ≡ true
    absent_lem e = unfold is_absent in rw e refl

-- The address of a callback on the loopback interface at some port, without credentials.
pub record IsCallback (parts : SplitResult) (port : Option ℕ) : Type 0 where
  pub scheme : parts.scheme ≡ "http"
  pub hostname : parts.hostname ≡ some "127.0.0.1"
  pub some_port : (p : ℕ) × (port ≡ some p) × (1 ≤ p) × (p ≤ 65535)
  pub no_username : parts.username ≡ none
  pub no_password : parts.password ≡ none
  pub path : parts.path ≡ "/oauth2/callback"
  pub no_query : parts.query ≡ ""
  pub no_fragment : parts.fragment ≡ ""

loopback_port_inv :
    (o : Option ℕ) → is_loopback_port o ≡ true → (p : ℕ) × (o ≡ some p) × (1 ≤ p) × (p ≤ 65535)
unfolding is_loopback_port
loopback_port_inv none h = cc
loopback_port_inv (some p) h = (p, refl, ground arith, ground arith)

pub loopback-IsCallback :
    (parts : SplitResult) (port : Option ℕ)
    → is_loopback_uri parts port ≡ true
    → IsCallback parts port
unfolding is_loopback_uri
loopback-IsCallback parts port h = record {
  scheme = ground (arith, eq_iff parts.scheme "http");
  hostname = text_inv _ _ (ground arith);
  some_port = loopback_port_inv _ (ground arith);
  no_username = absent_inv _ (ground arith);
  no_password = absent_inv _ (ground arith);
  path = ground (arith, eq_iff parts.path "/oauth2/callback");
  no_query = ground (arith, eq_iff parts.query "");
  no_fragment = ground (arith, eq_iff parts.fragment "");
}
