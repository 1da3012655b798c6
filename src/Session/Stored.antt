-- ===== src/Session/Stored.antt =====
-- The store gives a record back: after a completed authorization the session is restored.
use mailcleanup.Prelude.{
  ℕ, true, String, Option, none, some, List, ◌≡◌, ◌≢◌, refl, sym, ap, ◌∙◌, subst, arith, eq_refl,
  eq_iff, is_ascii,
}
use mailcleanup.Session.Result.{
  value, failed, answer, expect-eq-value, and_then-eq-value, value_injective,
}
use mailcleanup.Session.Model.{
  Library, Datetime, SessionIdentity, CredentialBundle, StoredSessionRecord, session_identity,
  credential_bundle, normalize_account_address, validate_session_account_key, is_canonical_uuid4,
}
use mailcleanup.Session.Ports.{Ports, Session}
use mailcleanup.Session.Monad.{◌>>=◌}
use mailcleanup.Session.Record.{compare_digest, encode_record, decode_record}
use mailcleanup.Session.Calls.{load_record, loaded, decode_loaded}
use mailcleanup.Session.RoundTrip.{LibraryLaws, IsIdentity, IsBundle, decode_record-encode_record}

-- What was saved under a key is what is loaded next from it.
abbrev pub Remembers : {Bytes : Type 0} → Ports Bytes → Type 0
Remembers {Bytes} ports =
    (key : String) (plaintext : Bytes) (w : ports.World)
    → (ports.save key plaintext w).0 ≢ failed
    → (ports.load key (ports.save key plaintext w).1).0 ≡ answer (some plaintext)

-- The constructor's checks pass on what it made.
pub credential_bundle-IsBundle :
    (access : String) (refresh : Option String) (expires : Datetime) (scopes : List String)
    {c : CredentialBundle}
    → credential_bundle access refresh expires scopes ≡ value c
    → IsBundle c
unfolding credential_bundle
credential_bundle-IsBundle access refresh expires scopes h = ground arith

module _ (lib : Library) (laws : LibraryLaws lib) where
  uuid_lem :
      (s : String) (o : Option (ℕ × String))
      → lib.uuid s ≡ o
      → is_canonical_uuid4 lib s o ≡ true
      → is_ascii s ≡ true
  unfolding is_canonical_uuid4
  uuid_lem s none e h = cc
  uuid_lem s (some (n, c)) e h = ground (arith, eq_iff c s, laws.uuid_text s c n e)

  key_lem :
      (s : String) {k : String}
      → validate_session_account_key lib s ≡ value k
      → (s ≡ k) × (is_ascii s ≡ true)
  unfolding validate_session_account_key
  key_lem s h =
      let (_, h₁) = expect-eq-value _ _ h in
      let (canonical, h₂) = expect-eq-value _ _ h₁ in
      (value_injective h₂, uuid_lem s (lib.uuid s) refl canonical)

  IsIdentity-again :
      (k a : String)
      → validate_session_account_key lib k ≡ value k
      → normalize_account_address lib a ≡ value a
      → IsIdentity lib (record { account_key = k; address = a })
  unfolding session_identity
  IsIdentity-again k a p q = rw (p, q) refl

  -- What the constructor of an identity makes: it would make it again, and the key is in ASCII.
  abbrev pub IsMade : SessionIdentity → Type 0
  IsMade i =
      IsIdentity lib i
      × (validate_session_account_key lib i.account_key ≡ value i.account_key)
      × (is_ascii i.account_key ≡ true)

  pub session_identity-IsMade :
      (key address : String) {i : SessionIdentity}
      → session_identity lib key address ≡ value i
      → IsMade i
  unfolding session_identity
  session_identity-IsMade key address {i} h =
      let (k, at_k, h₁) = and_then-eq-value (validate_session_account_key lib key) _ h in
      let (a, at_a, h₂) = and_then-eq-value (normalize_account_address lib address) _ h₁ in
      let (same, ascii) = key_lem key at_k in
      let valid : validate_session_account_key lib k ≡ value k =
        ap (validate_session_account_key lib) (sym same) ∙ at_k in
      subst IsMade (value_injective h₂) (
        IsIdentity-again k a valid (laws.stable address a at_a),
        valid,
        ap is_ascii (sym same) ∙ ascii,
      )

compare_same : (s t : String) → s ≡ t → is_ascii t ≡ true → compare_digest s t ≡ value true
unfolding compare_digest
compare_same s t e h = rw (e, h, eq_refl t) refl

module _ (lib : Library) (ports : Ports lib.Bytes) where
  loads_lem :
      (key : String) (s : Session ports.World) (plaintext : lib.Bytes) (r : StoredSessionRecord)
      → (ports.load key s.world).0 ≡ answer (some plaintext)
      → decode_record lib (some plaintext) ≡ value r
      → compare_digest r.identity.account_key key ≡ value true
      → load_record lib ports key s
        ≡ (value (some r), record s { world = (ports.load key s.world).1 })
  unfolding load_record loaded decode_loaded ◌>>=◌
  loads_lem key s plaintext r p q c = rw (p, q, c) refl

  -- the session after a call of `load`
  abbrev pub after_load : String → Session ports.World → Session ports.World
  after_load key s = record s { world = (ports.load key s.world).1 }

  module _ (laws : LibraryLaws lib) (remembers : Remembers ports) where
    -- A record that was saved is loaded.
    pub load_record-save_record :
        (r : StoredSessionRecord) (t : Session ports.World)
        → IsMade lib laws r.identity
        → IsBundle r.credentials
        → (plaintext : lib.Bytes) → encode_record lib r ≡ value plaintext
        → (w : ports.World) → (ports.save r.identity.account_key plaintext w).0 ≢ failed
        → t.world ≡ (ports.save r.identity.account_key plaintext w).1
        → load_record lib ports r.identity.account_key t
          ≡ (value (some r), after_load r.identity.account_key t)
    load_record-save_record r t (made, _, ascii) good plaintext encoded w kept same =
        loads_lem r.identity.account_key t plaintext r
          (ap (λ z. (ports.load r.identity.account_key z).0) same
            ∙ remembers r.identity.account_key plaintext w kept)
          (decode_record-encode_record lib laws r made good encoded) (compare_same _ _ refl ascii)
