-- ===== src/Session/Ports.antt =====
-- src/mailmap/oauth_session.py: what the session is connected to, and what it keeps.
use mailcleanup.Prelude.{ℕ, Bool, String, Option, List}
use mailcleanup.Session.Result.{Reply}
use mailcleanup.Session.Model.{
  Datetime, CredentialBundle, CallbackBinding, OAuthAuthorizationRequest, SessionSnapshot,
  PendingAuthorization,
}

-- The ports over one outer world, which every call may change: the authorization transport, the
-- mail profile, the secret store, the clock, the random source, the loopback callback and the
-- browser. A call raises (`failed`), or answers.
pub record Ports (Bytes : Type 0) : Type 1 where
  pub World : Type 0
  pub authorization_uri : OAuthAuthorizationRequest → World → Reply String × World
  pub exchange_code :
      (code code_verifier redirect_uri : String) → World → Reply CredentialBundle × World
  pub refresh : CredentialBundle → World → Reply CredentialBundle × World
  pub revoke : String → World → Reply Bool × World
  pub account_address : CredentialBundle → World → Reply String × World
  pub save : String → Bytes → World → Reply (Unit {0}) × World
  pub load : String → World → Reply (Option Bytes) × World
  pub delete : String → World → Reply (Unit {0}) × World
  pub now : World → Reply Datetime × World
  pub token_urlsafe : ℕ → World → Reply String × World
  pub uuid4 : World → Reply String × World
  pub reserve_loopback : World → Reply CallbackBinding × World
  pub open_external : String → World → Reply (Unit {0}) × World

-- `_PendingAttempt`
pub record Attempt : Type 0 where
  pub authorization_uri : String
  pub redirect_uri : String
  pub state : String
  pub code_verifier : String
  pub expires_at : ℕ
  pub expected_account : Option String

-- `SecureGmailSession`: its three fields that change, and the world behind the ports. The newest
-- digest of a consumed state stands last.
pub record Session (World : Type 0) : Type 0 where
  pub pending : Option Attempt
  pub consumed : List (List ℕ)
  pub snapshots : List (String × SessionSnapshot)
  pub world : World

abbrev pub public : Attempt → PendingAuthorization
public a = record {
  authorization_uri = a.authorization_uri;
  redirect_uri = a.redirect_uri;
  expires_at = a.expires_at;
}
