-- ===== src/Session/Tests/Laws.antt =====
-- The small world is such as the session relies on.
use mailcleanup.Prelude.{
  ℕ, zero, suc, String, ◌==◌, none, some, [], ◌∷◌, true, false, ◌≡◌, ◌≢◌, refl, ap, subst, arith,
  eq_refl, all, any, contains, distinct, is_ascii, codes, length, Bool,
}
use mailcleanup.Session.Result.{value, answer, value_injective, expect-eq-value}
use mailcleanup.Session.Model.{SessionState, CredentialBundle, snapshot_of}
use mailcleanup.Session.Ports.{Attempt, public}
use mailcleanup.Session.Model.{
  normalize_account_address, validate_session_account_key, session_identity, credential_bundle,
  is_exact_scope,
}
use mailcleanup.Session.Record.{record_json, encode_record}
use mailcleanup.Session.Calls.{now, load_record}
use mailcleanup.Session.Address.{validate_authorization_uri}
use mailcleanup.Session.Authorize.{new_session, prepare_authorization}
use mailcleanup.Session.Complete.{callback_code, is_expected, complete_authorization}
use mailcleanup.Session.Lifecycle.{restore_session, refresh_session}
use mailcleanup.Session.Revoke.{revoke_remote}
use mailcleanup.Session.Monad.{◌>>=◌}
use mailcleanup.Session.RoundTrip.{LibraryLaws, IsIdentity, IsBundle}
use mailcleanup.Session.Stored.{Remembers, after_load}
use mailcleanup.Session.Address.{request_for}
use mailcleanup.Session.Revoke.{revocation}
use mailcleanup.Session.Success.{Cooperates}
use mailcleanup.Session.Tests.Data.{
  library, ports, session, attempt, callback, key, state, verifier, address, identity, stored,
  credentials, tally, known_uuid, found_in, redirect, provider_uri,
}
use mailcleanup.Session.Tests.Runs.{waiting, completed, prepared_session, revoked_session}

pub length-tally : (n : ℕ) → length (codes (tally n)) ≡ n
length-tally zero = refl
length-tally (suc n) = ap suc (length-tally n)

pub second : {a b : ℕ × String} → some a ≡ some b → a.1 ≡ b.1
second h = cc

pub uuid_text_lem : (b : Bool) (c : String) (n : ℕ) → known_uuid b ≡ some (n, c) → is_ascii c ≡ true
unfolding is_ascii all
uuid_text_lem true c n h = subst (λ z. is_ascii z ≡ true) (second h) refl
uuid_text_lem false c n h = cc

pub stable_lem :
    (s t : String)
    → normalize_account_address library s ≡ value t
    → normalize_account_address library t ≡ value t
unfolding normalize_account_address
stable_lem s t h =
    let same : s ≡ t = value_injective (expect-eq-value _ _ h).1 in
    subst (λ z. normalize_account_address library z ≡ value t) same h

pub laws : LibraryLaws library
laws = record {
  document = λ r. refl;
  not_empty = λ r. omega arith;
  time = λ t. ap (λ n. some (record { instant = n; zoned = true })) (length-tally t);
  uuid_text = λ s c n h. uuid_text_lem (s == key) c n h;
  stable = stable_lem;
}

pub found_lem : (k : String) (b : _) (rest : _) → found_in k ((k, b) ∷ rest) ≡ some b
found_lem k b rest = rw (eq_refl k) refl

pub remembers : Remembers ports
remembers k b w h = ap answer (found_lem k b w)

pub answer_injective : {A : Type 0} {a b : A} → answer a ≡ answer b → a ≡ b
answer_injective h = cc

pub state_is_ascii : is_ascii state ≡ true
unfolding is_ascii all
state_is_ascii = refl

pub pending_injective : {a b : Attempt} → some a ≡ some b → a ≡ b
pending_injective h = cc

pub other_state :
    (a : Attempt)
    → some (attempt state) ≡ some a
    → (is_ascii "other" ≡ true) × (is_ascii a.state ≡ true) × ("other" ≢ a.state)
unfolding is_ascii all
other_state a h =
    subst (λ z. (is_ascii "other" ≡ true) × (is_ascii z.state ≡ true) × ("other" ≢ z.state))
      (pending_injective h) (refl, refl, λ e. cc (ap (λ z. z == "other") e))

pub IsIdentity-valid : IsIdentity library identity
unfolding all any contains distinct is_ascii ◌>>=◌ normalize_account_address session_identity
    credential_bundle encode_record validate_session_account_key validate_authorization_uri
    new_session is_expected now load_record prepare_authorization complete_authorization
    restore_session refresh_session revoke_remote
IsIdentity-valid = refl

pub encodes : encode_record library (stored false) ≡ value (record_json library (stored false))
unfolding all any contains distinct is_ascii ◌>>=◌ normalize_account_address session_identity
    credential_bundle encode_record validate_session_account_key validate_authorization_uri
    new_session is_expected now load_record prepare_authorization complete_authorization
    restore_session refresh_session revoke_remote
encodes = refl

pub clock_reads : (now library ports (after_load library ports key completed)).0 ≡ value 100
unfolding all any contains distinct is_ascii ◌>>=◌ normalize_account_address session_identity
    credential_bundle encode_record validate_session_account_key validate_authorization_uri
    new_session is_expected now load_record prepare_authorization complete_authorization
    restore_session refresh_session revoke_remote
clock_reads = refl

pub key_valid : validate_session_account_key library key ≡ value key
unfolding all any contains distinct is_ascii ◌>>=◌ normalize_account_address session_identity
    credential_bundle encode_record validate_session_account_key validate_authorization_uri
    new_session is_expected now load_record prepare_authorization complete_authorization
    restore_session refresh_session revoke_remote
key_valid = refl

pub waiting_completes :
    complete_authorization library ports (callback state) waiting ≡ (value identity, completed)
unfolding all any contains distinct is_ascii ◌>>=◌ normalize_account_address session_identity
    credential_bundle encode_record validate_session_account_key validate_authorization_uri
    new_session is_expected now load_record prepare_authorization complete_authorization
    restore_session refresh_session revoke_remote
waiting_completes = refl

pub IsBundle-valid : IsBundle credentials
unfolding credential_bundle contains
IsBundle-valid = refl

pub answered-IsBundle : (c : CredentialBundle) → answer credentials ≡ answer c → IsBundle c
answered-IsBundle c h = subst (λ z. IsBundle z) (answer_injective h) IsBundle-valid

pub idle_prepares :
    prepare_authorization library ports 100 (some address) (session none)
    ≡ (value (public (attempt state)), prepared_session)
unfolding all any contains distinct is_ascii ◌>>=◌ normalize_account_address session_identity
    credential_bundle encode_record validate_session_account_key validate_authorization_uri
    new_session is_expected now load_record prepare_authorization complete_authorization
    restore_session refresh_session revoke_remote
idle_prepares = refl

pub provider_uri_valid :
    validate_authorization_uri library
      (some provider_uri)
      (request_for library redirect state verifier)
    ≡ value provider_uri
unfolding all any contains distinct is_ascii ◌>>=◌ normalize_account_address session_identity
    credential_bundle encode_record validate_session_account_key validate_authorization_uri
    new_session is_expected now load_record prepare_authorization complete_authorization
    restore_session refresh_session revoke_remote
provider_uri_valid = refl

pub new_session_made : new_session library ports 100 [] ≡ value (session none)
unfolding all any contains distinct is_ascii ◌>>=◌ normalize_account_address session_identity
    credential_bundle encode_record validate_session_account_key validate_authorization_uri
    new_session is_expected now load_record prepare_authorization complete_authorization
    restore_session refresh_session revoke_remote
new_session_made = refl

pub completed_refreshes : refresh_session library ports key completed ≡ (
  value (snapshot_of SessionState.connected (some identity) none),
  (refresh_session library ports key completed).1,
)
unfolding all any contains distinct is_ascii ◌>>=◌ normalize_account_address session_identity
    credential_bundle encode_record validate_session_account_key validate_authorization_uri
    new_session is_expected now load_record prepare_authorization complete_authorization
    restore_session refresh_session revoke_remote
completed_refreshes = refl

pub completed_loads :
    load_record library ports key completed ≡ (value (some (stored false)), completed)
unfolding all any contains distinct is_ascii ◌>>=◌ normalize_account_address session_identity
    credential_bundle encode_record validate_session_account_key validate_authorization_uri
    new_session is_expected now load_record prepare_authorization complete_authorization
    restore_session refresh_session revoke_remote
completed_loads = refl

pub completed_revokes : revoke_remote library ports key completed ≡ (
  value (revocation true SessionState.revoked none),
  (revoke_remote library ports key completed).1,
)
unfolding all any contains distinct is_ascii ◌>>=◌ normalize_account_address session_identity
    credential_bundle encode_record validate_session_account_key validate_authorization_uri
    new_session is_expected now load_record prepare_authorization complete_authorization
    restore_session refresh_session revoke_remote
completed_revokes = refl

pub revoked_loads :
    load_record library ports key revoked_session ≡ (value (some (stored true)), revoked_session)
unfolding all any contains distinct is_ascii ◌>>=◌ normalize_account_address session_identity
    credential_bundle encode_record validate_session_account_key validate_authorization_uri
    new_session is_expected now load_record prepare_authorization complete_authorization
    restore_session refresh_session revoke_remote
revoked_loads = refl

normalizes : normalize_account_address library address ≡ value address
unfolding all any contains distinct is_ascii ◌>>=◌ normalize_account_address session_identity
    credential_bundle encode_record validate_session_account_key validate_authorization_uri
    new_session is_expected now load_record prepare_authorization complete_authorization
    restore_session refresh_session revoke_remote
normalizes = refl

expects : is_expected address (some address) ≡ value true
unfolding all any contains distinct is_ascii ◌>>=◌ normalize_account_address session_identity
    credential_bundle encode_record validate_session_account_key validate_authorization_uri
    new_session is_expected now load_record prepare_authorization complete_authorization
    restore_session refresh_session revoke_remote
expects = refl

pub cooperation : Cooperates library ports (callback state) (attempt state) credentials identity
unfolding callback_code is_exact_scope
cooperation = record {
  time = 100;
  clock = λ w. refl;
  before_end = omega arith;
  before_expiry = omega arith;
  code = "code";
  has_code = refl;
  exchange = λ w. refl;
  scope = refl;
  raw = address;
  profile = λ w. refl;
  address = address;
  normalized = normalizes;
  expected = expects;
  key = key;
  random = λ w. refl;
  constructed = IsIdentity-valid;
  plaintext = record_json library (stored false);
  encoded = encodes;
  store = λ w. refl;
}
