-- ===== src/Session/Identified.antt =====
-- What an identification of the account and a saved connection have gone through.
use mailcleanup.Prelude.{
  true, false, String, Option, none, some, List, ◌∷◌, ◌≡◌, ◌≢◌, refl, sym, ap, ◌∙◌, eq_refl,
  is_ascii,
}
use mailcleanup.Session.Result.{value, failed, answer, controlled-eq-value, value_injective}
use mailcleanup.Session.Model.{
  Library, SessionState, SessionIdentity, CredentialBundle, SessionSnapshot, snapshot_of,
  normalize_account_address, session_identity,
}
use mailcleanup.Session.Ports.{Ports, Session}
use mailcleanup.Session.Monad.{give, pure, ◌>>=◌}
use mailcleanup.Session.Record.{encode_record}
use mailcleanup.Session.Calls.{verified_address, save_record, set_snapshot, snapshot_at}
use mailcleanup.Session.Complete.{is_expected, new_identity, identified, connect}
use mailcleanup.Session.Inversion.{
  >>=-inv, demand-inv, answered, compare_digest-inv, asked, paired, save_record-inv,
}

-- The account of the credentials: its address came from the profile, is the expected one if there
-- is one, and stands in the identity under a random key.
pub record Identified (lib : Library) (ports : Ports lib.Bytes) (c : CredentialBundle)
    (expected : Option String) (identity : SessionIdentity) : Type 0 where
  pub profile_world : ports.World
  pub raw : String
  pub profile : (ports.account_address c profile_world).0 ≡ answer raw
  pub address : String
  pub normalized : normalize_account_address lib raw ≡ value address
  pub as_expected : (e : String) → expected ≡ some e → (address ≡ e) × (is_ascii e ≡ true)
  pub random_world : ports.World
  pub key : String
  pub random : (ports.uuid4 random_world).0 ≡ answer key
  pub constructed : session_identity lib key address ≡ value identity

-- The record was saved, and the snapshot says that the account is connected.
pub record Connected (lib : Library) (ports : Ports lib.Bytes) (identity : SessionIdentity)
    (c : CredentialBundle) (t : Session ports.World) : Type 0 where
  pub plaintext : lib.Bytes
  pub encoded :
      encode_record lib record { identity = identity; credentials = c; revoked = false }
      ≡ value plaintext
  pub save_world : ports.World
  pub accepted : (ports.save identity.account_key plaintext save_world).0 ≢ failed
  pub saved : t.world ≡ (ports.save identity.account_key plaintext save_world).1
  pub snapshot :
      snapshot_at identity.account_key t.snapshots
      ≡ some (snapshot_of SessionState.connected (some identity) none)

expected_lem :
    (address : String) (expected : Option String)
    → is_expected address expected ≡ value true
    → (e : String) → expected ≡ some e
    → (address ≡ e) × (is_ascii e ≡ true)
unfolding is_expected
expected_lem address none h e p = cc
expected_lem address (some f) h e p =
    let (same, ascii) = compare_digest-inv address f h in
    let q : f ≡ e = cc in (same ∙ q, ap is_ascii (sym q) ∙ ascii)

snapshot_at_self :
    (key : String) (snapshot : SessionSnapshot) (rest : List (String × SessionSnapshot))
    → snapshot_at key ((key, snapshot) ∷ rest) ≡ some snapshot
unfolding snapshot_at
snapshot_at_self key snapshot rest = rw (eq_refl key) refl

module _ (lib : Library) (ports : Ports lib.Bytes) where
  verified_address-inv :
      (c : CredentialBundle) (s : Session ports.World) {address : String} {t : Session ports.World}
      → verified_address lib ports c s ≡ (value address, t)
      → (raw : String) × ((ports.account_address c s.world).0 ≡ answer raw)
        × (normalize_account_address lib raw ≡ value address)
  unfolding verified_address pure
  verified_address-inv c s h =
      let (reply, at_reply, h₁) = >>=-inv _ _ _ h in
      let (raw, at_raw, h₂) = answered _ _ _ _ h₁ in
      (raw, asked _ _ at_reply ∙ at_raw, controlled-eq-value _ _ (ap (λ z. z.0) h₂))

  new_identity-inv :
      (address : String) (s : Session ports.World) {identity : SessionIdentity}
      {t : Session ports.World}
      → new_identity lib ports address s ≡ (value identity, t)
      → (key : String) × ((ports.uuid4 s.world).0 ≡ answer key)
        × (session_identity lib key address ≡ value identity)
  unfolding new_identity pure
  new_identity-inv address s h =
      let (reply, at_reply, h₁) = >>=-inv _ _ _ h in
      let (key, at_key, h₂) = answered _ _ _ _ h₁ in
      (key, asked _ _ at_reply ∙ at_key, controlled-eq-value _ _ (ap (λ z. z.0) h₂))

  pub identified-inv :
      (c : CredentialBundle) (expected : Option String) (s : Session ports.World)
      {identity : SessionIdentity} {t : Session ports.World}
      → identified lib ports c expected s ≡ (value identity, t)
      → Identified lib ports c expected identity
  unfolding identified pure
  identified-inv c expected s h =
      let (address, at_address, h₁) = >>=-inv _ _ _ h in
      let (raw, at_raw, normal) =
        verified_address-inv c s (paired (verified_address lib ports c) s at_address) in
      let (same, at_same, h₂) = >>=-inv _ _ _ h₁ in
      let (matched, h₃) = demand-inv _ _ _ _ h₂ in
      let (key, at_key, made) = new_identity-inv address _ h₃ in
      record {
        profile_world = _;
        raw = raw;
        profile = at_raw;
        address = address;
        normalized = normal;
        as_expected = expected_lem address expected (at_same ∙ ap value matched);
        random_world = _;
        key = key;
        random = at_key;
        constructed = made;
      }

  snapshot_given :
      (key : String) (snapshot : SessionSnapshot) (identity : SessionIdentity)
      (u : Session ports.World) {i : SessionIdentity} {t : Session ports.World}
      → (set_snapshot lib ports key snapshot >>= λ _. give identity) u ≡ (value i, t)
      → (identity ≡ i) × (record u { snapshots = (key, snapshot) ∷ u.snapshots } ≡ t)
  unfolding set_snapshot ◌>>=◌
  snapshot_given key snapshot identity u h = (value_injective (ap (λ z. z.0) h), ap (λ z. z.1) h)

  pub connect-inv :
      (identity : SessionIdentity) (c : CredentialBundle) (s : Session ports.World)
      {i : SessionIdentity} {t : Session ports.World}
      → connect lib ports identity c s ≡ (value i, t)
      → (i ≡ identity) × Connected lib ports identity c t
  unfolding connect
  connect-inv identity c s h =
      let (done, at_done, h₁) = >>=-inv _ _ _ h in
      let saved = save_record-inv lib ports _ s (paired (save_record lib ports _) s at_done) in
      let (same, left) = snapshot_given _ _ identity _ h₁ in
      (
        sym same,
        record {
          plaintext = saved.plaintext;
          encoded = saved.encoded;
          save_world = s.world;
          accepted = saved.accepted;
          saved = sym (ap (λ z. z.world) left) ∙ ap (λ z. z.world) saved.left;
          snapshot =
              sym (ap (λ z. snapshot_at identity.account_key z.snapshots) left)
              ∙ snapshot_at_self _ _ _;
        },
      )
