-- ===== src/Session/Frames.antt =====
-- What the private methods leave alone: everything but the world, or but the snapshots.
use mailcleanup.Prelude.{ℕ, String, Option, none, some}
use mailcleanup.Session.Model.{
  Library, CredentialBundle, StoredSessionRecord, AuthorizationCallback,
}
use mailcleanup.Session.Ports.{Ports, Attempt, Session}
use mailcleanup.Session.Preserves.{Preserves, IsInner, preserving}
use mailcleanup.Session.Calls.{
  now, random_value, verified_address, save_record, decode_loaded, loaded, load_record,
}
use mailcleanup.Session.Authorize.{offer_attempt, prepare_attempt}
use mailcleanup.Session.Complete.{exchanged, new_identity, granted, identified}

module _ (lib : Library) (ports : Ports lib.Bytes) {P : Session ports.World → Type 0}
    (inner : IsInner P) where
  pub now-Preserves : Preserves P (now lib ports)
  unfolding now
  now-Preserves = search (preserving, inner)

  pub random_value-Preserves : (n low high : ℕ) → Preserves P (random_value lib ports n low high)
  unfolding random_value
  random_value-Preserves n low high = search (preserving, inner)

  pub verified_address-Preserves :
      (c : CredentialBundle) → Preserves P (verified_address lib ports c)
  unfolding verified_address
  verified_address-Preserves c = search (preserving, inner)

  pub save_record-Preserves : (r : StoredSessionRecord) → Preserves P (save_record lib ports r)
  unfolding save_record
  save_record-Preserves r = search (preserving, inner)

  decode_loaded-Preserves :
      (key : String) (o : Option lib.Bytes) → Preserves P (decode_loaded lib ports key o)
  unfolding decode_loaded
  decode_loaded-Preserves key o = search (preserving)

  loaded-Preserves :
      (key : String) (o : Option (Option lib.Bytes)) → Preserves P (loaded lib ports key o)
  unfolding loaded
  loaded-Preserves key none = decode_loaded-Preserves key none
  loaded-Preserves key (some none) = search (preserving)
  loaded-Preserves key (some (some bytes)) = decode_loaded-Preserves key (some bytes)

  pub load_record-Preserves : (key : String) → Preserves P (load_record lib ports key)
  unfolding load_record
  load_record-Preserves key = search (preserving, inner, loaded-Preserves)

  pub exchanged-Preserves : (code : String) (a : Attempt) → Preserves P (exchanged lib ports code a)
  unfolding exchanged
  exchanged-Preserves code a = search (preserving, inner)

  pub granted-Preserves :
      (callback : AuthorizationCallback) (a : Attempt) → Preserves P (granted lib ports callback a)
  unfolding granted
  granted-Preserves callback a = search (preserving, now-Preserves, exchanged-Preserves) depth 20

  new_identity-Preserves : (address : String) → Preserves P (new_identity lib ports address)
  unfolding new_identity
  new_identity-Preserves address = search (preserving, inner)

  pub identified-Preserves :
      (c : CredentialBundle) (expected : Option String)
      → Preserves P (identified lib ports c expected)
  unfolding identified
  identified-Preserves c expected =
      search (preserving, verified_address-Preserves, new_identity-Preserves)

  offer_attempt-Preserves :
      (ttl : ℕ) (expected : Option String) (time : ℕ) (verifier state : String)
      → Preserves P (offer_attempt lib ports ttl expected time verifier state)
  unfolding offer_attempt
  offer_attempt-Preserves ttl expected time verifier state = search (preserving, inner) depth 20

  pub prepare_attempt-Preserves :
      (ttl : ℕ) (expected : Option String) → Preserves P (prepare_attempt lib ports ttl expected)
  unfolding prepare_attempt
  prepare_attempt-Preserves ttl expected =
      search (preserving, now-Preserves, random_value-Preserves, offer_attempt-Preserves) depth 20
