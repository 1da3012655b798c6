-- ===== src/Session/Calls.antt =====
-- src/mailmap/oauth_session.py: the private methods that ask a port and check its answer.
use mailcleanup.Prelude.{
  ℕ, Bool, true, false, ◌&&◌, ◌||◌, String, ◌==◌, Option, none, some, List, [], ◌∷◌, ◌++◌, all, any,
  codes, length, eqb, leb, if◌then◌else◌,
}
use mailcleanup.Session.Result.{SessionErrorCode, controlled}
use mailcleanup.Session.Model.{
  Library, CredentialBundle, SessionSnapshot, StoredSessionRecord, utc_datetime,
  normalize_account_address, is_exact_scope,
}
use mailcleanup.Session.Ports.{Ports, Attempt, Session}
use mailcleanup.Session.Monad.{Method, give, pure, write, ask, demand, settle, typed, ◌>>=◌, ◌>>◌}
use mailcleanup.Session.Record.{compare_digest, encode_record, decode_record}

-- `_PKCE_VALUE` and `_STATE_VALUE`: unreserved characters, so many at least and at most.
unfoldable pub is_unreserved : ℕ → Bool
is_unreserved c =
    (leb b'A' c && leb c b'Z')
    || (leb b'a' c && leb c b'z')
    || (leb b'0' c && leb c b'9')
    || eqb c b'.'
    || eqb c b'_'
    || eqb c b'~'
    || eqb c b'-'

unfoldable pub is_random_text : ℕ → ℕ → String → Bool
unfolding is_unreserved all
is_random_text low high s =
    let cs = codes s in all is_unreserved cs && leb low (length cs) && leb (length cs) high

unfoldable pub same_bytes : List ℕ → List ℕ → Bool
same_bytes [] [] = true
same_bytes (x ∷ xs) (y ∷ ys) = eqb x y && same_bytes xs ys
same_bytes _ _ = false

unfoldable pub same_optional : Option String → Option String → Bool
same_optional none none = true
same_optional (some s) (some t) = s == t
same_optional _ _ = false

-- `self._pending is attempt`, by contents
unfoldable pub same_attempt : Attempt → Attempt → Bool
unfolding same_optional
same_attempt a b =
    (a.authorization_uri == b.authorization_uri)
    && (a.redirect_uri == b.redirect_uri)
    && (a.state == b.state)
    && (a.code_verifier == b.code_verifier)
    && eqb a.expires_at b.expires_at
    && same_optional a.expected_account b.expected_account

unfoldable pub is_pending : Option Attempt → Attempt → Bool
unfolding same_attempt
is_pending none a = false
is_pending (some b) a = same_attempt b a

-- `deque(maxlen=64)`: at its limit the oldest entry goes.
abbrev pub max_consumed : ℕ
max_consumed = 64

unfoldable pub drop_oldest : List (List ℕ) → List (List ℕ)
drop_oldest [] = []
drop_oldest (d ∷ ds) = ds

unfoldable pub append_bounded : List (List ℕ) → List ℕ → List (List ℕ)
unfolding drop_oldest
append_bounded ds d = (if leb max_consumed (length ds) then drop_oldest ds else ds) ++ (d ∷ [])

-- The dictionary of snapshots: the entry that was written last stands first.
unfoldable pub snapshot_at : String → List (String × SessionSnapshot) → Option SessionSnapshot
snapshot_at key [] = none
snapshot_at key ((k, v) ∷ rest) = if k == key then some v else snapshot_at key rest

module _ (lib : Library) (ports : Ports lib.Bytes) where
  unfoldable pub set_snapshot : String → SessionSnapshot → Method ports.World SessionSnapshot
  set_snapshot key snapshot = do
    write (λ s. record s { snapshots = (key, snapshot) ∷ s.snapshots })
    give snapshot

  unfoldable pub remember_consumed_state : String → Method ports.World (Unit {0})
  unfolding append_bounded
  remember_consumed_state state =
      write (λ s. record s { consumed = append_bounded s.consumed (lib.sha256 state) })

  unfoldable pub clear_pending : Attempt → Session ports.World → Session ports.World
  unfolding is_pending
  clear_pending attempt s = record s {
    pending = if is_pending s.pending attempt then none else s.pending;
  }

  unfoldable pub consume_attempt : Attempt → Method ports.World (Unit {0})
  unfolding remember_consumed_state clear_pending
  consume_attempt attempt = do remember_consumed_state attempt.state; write (clear_pending attempt)

  unfoldable pub was_consumed : String → Session ports.World → Bool
  unfolding same_bytes any
  was_consumed state s = any (same_bytes (lib.sha256 state)) s.consumed

  unfoldable pub now : Method ports.World ℕ
  unfolding utc_datetime
  now = do
    reply ← ask ports.now
    found ← settle SessionErrorCode.clock_invalid reply
    t ← typed SessionErrorCode.clock_invalid found
    pure (controlled SessionErrorCode.clock_invalid (utc_datetime t))

  -- `pattern` by the least and the greatest length that it takes
  unfoldable pub random_value : ℕ → ℕ → ℕ → Method ports.World String
  unfolding is_random_text
  random_value byte_count low high = do
    reply ← ask (ports.token_urlsafe byte_count)
    found ← settle SessionErrorCode.random_source_invalid reply
    text ← typed SessionErrorCode.random_source_invalid found
    demand (is_random_text low high text) SessionErrorCode.random_source_invalid
    give text

  unfoldable pub verified_address : CredentialBundle → Method ports.World String
  unfolding normalize_account_address
  verified_address credentials = do
    reply ← ask (ports.account_address credentials)
    found ← settle SessionErrorCode.profile_failed reply
    address ← typed SessionErrorCode.profile_failed found
    pure (controlled SessionErrorCode.profile_failed (normalize_account_address lib address))

  -- The answer of `save` is not looked at.
  unfoldable pub save_record : StoredSessionRecord → Method ports.World (Unit {0})
  unfolding encode_record
  save_record r = do
    plaintext ← pure (encode_record lib r)
    reply ← ask (ports.save r.identity.account_key plaintext)
    done ← settle SessionErrorCode.store_failed reply
    give tt

  unfoldable pub decode_loaded :
      String → Option lib.Bytes → Method ports.World (Option StoredSessionRecord)
  unfolding decode_record compare_digest
  decode_loaded key plaintext = do
    r ← pure (decode_record lib plaintext)
    same ← pure (compare_digest r.identity.account_key key)
    demand same SessionErrorCode.stored_data_invalid
    give (some r)

  unfoldable pub loaded :
      String → Option (Option lib.Bytes) → Method ports.World (Option StoredSessionRecord)
  unfolding decode_loaded
  loaded key (some none) = give none
  loaded key (some (some bytes)) = decode_loaded key (some bytes)
  loaded key none = decode_loaded key none

  unfoldable pub load_record : String → Method ports.World (Option StoredSessionRecord)
  unfolding loaded
  load_record key = do
    reply ← ask (ports.load key)
    found ← settle SessionErrorCode.store_failed reply
    loaded key found

  unfoldable pub require_exact_scope : CredentialBundle → Method ports.World (Unit {0})
  unfolding is_exact_scope
  require_exact_scope c = demand (is_exact_scope c.scopes) SessionErrorCode.scope_mismatch
