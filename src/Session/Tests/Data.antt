-- ===== src/Session/Tests/Data.antt =====
-- A world that answers well: a clock at 100 and a store of one plaintext for each key.
use mailcleanup.Prelude.{
  ℕ, zero, suc, Bool, true, false, String, ◌==◌, Option, none, some, List, [], ◌∷◌, if◌then◌else◌,
  codes, length, leb,
}
use mailcleanup.Session.Result.{answer}
use mailcleanup.Session.Model.{
  Library, SplitResult, Json, SessionIdentity, CredentialBundle, StoredSessionRecord,
  AuthorizationCallback, gmail_metadata_scope,
}
use mailcleanup.Session.Ports.{Ports, Attempt, Session}

abbrev pub key : String
key = "11111111-1111-4111-8111-111111111111"

abbrev pub state : String
state = "ssssssssssssssssssssssssssssssssssssssssssss"

abbrev pub verifier : String
verifier = "vvvvvvvvvvvvvvvvvvvvvvvvvvvvvvvvvvvvvvvvvvvv"

abbrev pub address : String
address = "ana@example.org"

abbrev pub provider_uri : String
provider_uri = "https://accounts.google.com/o/oauth2/v2/auth?query"

abbrev pub redirect : String
redirect = "http://127.0.0.1:5000/oauth2/callback"

abbrev pub credentials : CredentialBundle
credentials = record {
  access_token = "access";
  refresh_token = some "refresh";
  expires_at = 1000;
  scopes = gmail_metadata_scope ∷ [];
}

abbrev pub identity : SessionIdentity
identity = record { account_key = key; address = address }

abbrev pub stored : Bool → StoredSessionRecord
stored revoked = record { identity = identity; credentials = credentials; revoked = revoked }

abbrev loopback_parts : SplitResult
loopback_parts = record {
  scheme = "http";
  hostname = some "127.0.0.1";
  username = none;
  password = none;
  path = "/oauth2/callback";
  query = "";
  fragment = "";
}

abbrev provider_parts : SplitResult
provider_parts = record {
  scheme = "https";
  hostname = some "accounts.google.com";
  username = none;
  password = none;
  path = "/o/oauth2/v2/auth";
  query = "query";
  fragment = "";
}

abbrev query : List (String × List String)
query =
    ("client_id", "client" ∷ [])
    ∷ ("redirect_uri", redirect ∷ [])
    ∷ ("response_type", "code" ∷ [])
    ∷ ("scope", gmail_metadata_scope ∷ [])
    ∷ ("access_type", "offline" ∷ [])
    ∷ ("include_granted_scopes", "true" ∷ [])
    ∷ ("state", state ∷ [])
    ∷ ("code_challenge", "challenge" ∷ [])
    ∷ ("code_challenge_method", "S256" ∷ [])
    ∷ []

abbrev pub tally : ℕ → String
tally zero = ""
tally (suc n) = String.◌∷◌ "x" (tally n)

abbrev pub known_uuid : Bool → Option (ℕ × String)
known_uuid true = some (4, key)
known_uuid false = none

abbrev pub library : Library
library = record {
  Bytes = Json;
  size = λ j. 100;
  strip = λ s. s;
  casefold = λ s. s;
  is_space = λ c. false;
  uuid = λ s. known_uuid (s == key);
  sha256 = λ s. codes s;
  urlsafe_b64encode_unpadded = λ d. "challenge";
  urlsplit = λ s. if s == redirect then some loopback_parts else some provider_parts;
  port = λ p. if p.scheme == "http" then some (some 5000) else some none;
  parse_qs = λ s. some query;
  isoformat = tally;
  fromisoformat = λ s. some (record { instant = length (codes s); zoned = true });
  dumps = λ j. j;
  loads = λ j. some j;
}

abbrev pub found_in : String → List (String × Json) → Option Json
found_in k [] = none
found_in k ((j, v) ∷ rest) = if j == k then some v else found_in k rest

abbrev pub ports : Ports Json
ports = record {
  World = List (String × Json);
  authorization_uri = λ r w. (answer provider_uri, w);
  exchange_code = λ c v r w. (answer credentials, w);
  refresh = λ c w. (answer (record credentials { refresh_token = none; expires_at = 2000 }), w);
  revoke = λ t w. (answer true, w);
  account_address = λ c w. (answer address, w);
  save = λ k b w. (answer tt, (k, b) ∷ w);
  load = λ k w. (answer (found_in k w), w);
  delete = λ k w. (answer tt, []);
  now = λ w. (answer (record { instant = 100; zoned = true }), w);
  token_urlsafe = λ n w. (answer (if leb n 32 then state else verifier), w);
  uuid4 = λ w. (answer key, w);
  reserve_loopback =
      λ w. (answer (record { redirect_uri = redirect; uses_ephemeral_port = true }), w);
  open_external = λ u w. (answer tt, w);
}

abbrev pub attempt : String → Attempt
attempt s = record {
  authorization_uri = provider_uri;
  redirect_uri = redirect;
  state = s;
  code_verifier = verifier;
  expires_at = 200;
  expected_account = some address;
}

abbrev pub callback : String → AuthorizationCallback
callback s = record { state = s; code = some "code"; error = none }

abbrev pub session : Option Attempt → Session (List (String × Json))
session o = record { pending = o; consumed = []; snapshots = []; world = [] }
