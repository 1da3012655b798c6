-- ===== src/Session/Valid.antt =====
-- What always holds of a session: few digests, coherent snapshots, a pending attempt in order.
use mailcleanup.Prelude.{
  ℕ, ◌≤◌, Bool, true, false, String, Option, none, some, List, [], ◌∷◌, ◌≡◌, refl, ap, ◌∙◌, subst,
  arith, length, length-append, codes, all, is_ascii, ltb,
}
use mailcleanup.Session.Result.{Outcome, raised, value, value_injective}
use mailcleanup.Session.Model.{
  Library, SessionState, SessionIdentity, StoredSessionRecord, SessionSnapshot,
}
use mailcleanup.Session.Ports.{Ports, Attempt, Session}
use mailcleanup.Session.Monad.{Method, give, pure, continue, ◌>>=◌}
use mailcleanup.Session.Record.{compare_digest, decode_record}
use mailcleanup.Session.Calls.{
  is_random_text, is_unreserved, append_bounded, drop_oldest, max_consumed, load_record, loaded,
  decode_loaded, random_value,
}
use mailcleanup.Session.Preserves.{Preserves, IsInner}
use mailcleanup.Session.Inversion.{>>=-inv, demand-inv, compare_digest-inv, answered}

-- The state and the verifier are texts of unreserved characters of the allowed lengths.
pub record InOrder (a : Attempt) : Type 0 where
  pub state : is_random_text 43 256 a.state ≡ true
  pub verifier : is_random_text 43 128 a.code_verifier ≡ true

abbrev pub PendingInOrder : Option Attempt → Type 0
PendingInOrder none = Unit
PendingInOrder (some a) = InOrder a

abbrev pub has_identity : Option SessionIdentity → Bool
has_identity none = false
has_identity (some i) = true

abbrev pub is_disconnected : SessionState → Bool
is_disconnected SessionState.disconnected = true
is_disconnected _ = false

abbrev pub OfKey : String → Option SessionIdentity → Type 0
OfKey key none = Unit
OfKey key (some i) = i.account_key ≡ key

-- A snapshot is of the account of its key, and lacks an identity exactly when it is disconnected.
pub record IsCoherent (key : String) (snapshot : SessionSnapshot) : Type 0 where
  pub of_key : OfKey key snapshot.identity
  pub without : is_disconnected snapshot.state ≡ true → has_identity snapshot.identity ≡ false
  pub within : has_identity snapshot.identity ≡ false → is_disconnected snapshot.state ≡ true

abbrev pub AllCoherent : List (String × SessionSnapshot) → Type 0
AllCoherent [] = Unit
AllCoherent ((key, snapshot) ∷ rest) = IsCoherent key snapshot × AllCoherent rest

pub record IsValid {W : Type 0} (s : Session W) : Type 0 where
  pub bounded : length s.consumed ≤ max_consumed
  pub in_order : PendingInOrder s.pending
  pub coherent : AllCoherent s.snapshots

pub IsValid-IsInner : {W : Type 0} → IsInner (IsValid {W = W})
IsValid-IsInner = record {
  world_free =
      λ s w v. record { bounded = v.bounded; in_order = v.in_order; coherent = v.coherent };
}

-- The digest that is appended to a full deque takes the place of the oldest.
pub length-append_bounded :
    (ds : List (List ℕ)) (d : List ℕ)
    → length ds ≤ max_consumed
    → length (append_bounded ds d) ≤ max_consumed
unfolding append_bounded drop_oldest
length-append_bounded [] d h = omega arith
length-append_bounded (c ∷ ds) d h =
    ground (arith, length-append ds (d ∷ []), length-append (c ∷ ds) (d ∷ []))

module _ {W A B : Type 0} {P : Session W → Type 0} where
  continue-Preserves :
      (o : Outcome A) (next : A → Method W B) (t : Session W)
      → ((a : A) → o ≡ value a → Preserves P (next a))
      → P t
      → P (continue o next t).1
  continue-Preserves (raised e) next t k p = p
  continue-Preserves (value a) next t k p = (k a refl).holds t p

  -- What follows may use that the first method returned.
  pub Preserves-bind-known :
      (m : Method W A) (next : A → Method W B)
      → Preserves P m
      → ((a : A) (s : Session W) → (m s).0 ≡ value a → Preserves P (next a))
      → Preserves P (m >>= next)
  unfolding ◌>>=◌
  Preserves-bind-known m next km k = record {
    holds = λ s p. continue-Preserves (m s).0 next (m s).1 (λ a e. k a s e) (km.holds s p);
  }

unreserved_ascii : (cs : List ℕ) → all is_unreserved cs ≡ true → all (λ c. ltb c 128) cs ≡ true
unfolding all is_unreserved
unreserved_ascii [] h = refl
unreserved_ascii (c ∷ cs) h = ground (arith, unreserved_ascii cs)

pub random_text-is_ascii :
    (low high : ℕ) (s : String) → is_random_text low high s ≡ true → is_ascii s ≡ true
unfolding is_random_text is_ascii
random_text-is_ascii low high s h = unreserved_ascii (codes s) (ground arith)

some_inj : {A : Type 0} {a b : A} → some a ≡ some b → a ≡ b
some_inj h = cc

module _ (lib : Library) (ports : Ports lib.Bytes) where
  decode_loaded_key :
      (key : String) (o : Option lib.Bytes) (s : Session ports.World) {r : StoredSessionRecord}
      {t : Session ports.World}
      → decode_loaded lib ports key o s ≡ (value (some r), t)
      → r.identity.account_key ≡ key
  unfolding decode_loaded pure give
  decode_loaded_key key o s h =
      let (r, at_r, h₁) = >>=-inv (pure (decode_record lib o)) _ s h in
      let (same, at_same, h₂) = >>=-inv (pure (compare_digest r.identity.account_key key)) _ s h₁ in
      let (matched, h₃) = demand-inv _ _ _ _ h₂ in
      let e = some_inj (value_injective (ap (λ z. z.0) h₃)) in
      subst (λ (z : StoredSessionRecord). z.identity.account_key ≡ key) e
        (compare_digest-inv _ _ (at_same ∙ ap value matched)).0

  loaded_key :
      (key : String) (o : Option (Option lib.Bytes)) (s : Session ports.World)
      {r : StoredSessionRecord} {t : Session ports.World}
      → loaded lib ports key o s ≡ (value (some r), t)
      → r.identity.account_key ≡ key
  unfolding loaded give
  loaded_key key none s h = decode_loaded_key key none s h
  loaded_key key (some none) s h = cc
  loaded_key key (some (some bytes)) s h = decode_loaded_key key (some bytes) s h

  -- The record that is loaded is of the key that was asked for.
  pub load_record_key :
      (key : String) (s : Session ports.World) {r : StoredSessionRecord} {t : Session ports.World}
      → load_record lib ports key s ≡ (value (some r), t)
      → r.identity.account_key ≡ key
  unfolding load_record
  load_record_key key s h =
      let (reply, _, h₁) = >>=-inv _ _ _ h in
      let (found, _, h₂) = >>=-inv _ _ _ h₁ in loaded_key key found _ h₂

  pub random_value-inv :
      (n low high : ℕ) (s : Session ports.World) {text : String} {t : Session ports.World}
      → random_value lib ports n low high s ≡ (value text, t)
      → is_random_text low high text ≡ true
  unfolding random_value give
  random_value-inv n low high s h =
      let (reply, _, h₁) = >>=-inv _ _ _ h in
      let (text, _, h₂) = answered _ _ _ _ h₁ in
      let (fits, h₃) = demand-inv _ _ _ _ h₂ in
      subst (λ z. is_random_text low high z ≡ true) (value_injective (ap (λ z. z.0) h₃)) fits
