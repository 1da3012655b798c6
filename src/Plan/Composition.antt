-- ===== src/Plan/Composition.antt =====
-- src/mailmap/cleanup_plan_domain.py: the composition of index, classification and policies that a
-- plan is made from, and `_index_composition`.
use Prim.Native.String.{len}
use mailcleanup.Prelude.{
  ℕ, Bool, true, false, ◌&&◌, String, ◌==◌, Option, none, some, List, [], ◌∷◌, ◌++◌, map, leb, all,
  contains, distinct, if◌then◌else◌,
}
use mailcleanup.Plan.Reasons.{ProtectionReason}
use mailcleanup.Plan.Model.{max_message_size}
use mailcleanup.Plan.Result.{Result, ok, err, study_unavailable, require, traverse, ◌>>=◌, ◌>>◌}

-- `IndexedMessageRecord`, with the fields that a plan reads.
pub record IndexedRecord : Type 0 where
  pub account_key : String
  pub provider_message_id : String
  pub received_at : ℕ
  pub sender_name : Option String
  pub sender_address : Option String
  pub subject : Option String
  pub label_ids : List String
  pub size_estimate_bytes : ℕ

-- `EffectiveMessage`, likewise.
pub record EffectiveMessage : Type 0 where
  pub provider_message_id : String
  pub effective_source_id : String
  pub effective_flow_id : String
  pub is_protected : Bool
  pub review_required : Bool
  pub hard_excluded : Bool
  pub protection_reasons : List ProtectionReason

pub record ClassifiedMessage : Type 0 where
  pub provider_message_id : String
  pub source_id : String

-- `ClassifiedSource`, with the sender addresses of its `identity_descriptor`.
pub record ClassifiedSource : Type 0 where
  pub source_id : String
  pub sender_addresses : List String

pub record ProjectedFlow : Type 0 where
  pub id : String
  pub display_name : String
  pub message_count : ℕ

pub record ProjectedSource : Type 0 where
  pub id : String
  pub display_name : String
  pub message_count : ℕ
  pub flows : List ProjectedFlow

pub record Projection : Type 0 where
  pub map_revision : String
  pub policy_revision : ℕ
  pub sources : List ProjectedSource

-- A selector enters only through its canonical key, a text.
pub record Composition : Type 0 where
  pub projection : Projection
  pub records : List IndexedRecord
  pub classification_account : Option String
  pub classified_messages : List ClassifiedMessage
  pub classified_sources : List ClassifiedSource
  pub effective_account : String
  pub effective_messages : List EffectiveMessage
  pub source_selectors : List (String × String)
  pub flow_selectors : List (String × String)

-- What the three dictionaries of `_CompositionIndex` hold under one provider id; their key sets
-- are equal, so they are one list of entries.
pub record Entry : Type 0 where
  pub indexed : IndexedRecord
  pub effective : EffectiveMessage
  pub sender_addresses : List String

pub record CompositionIndex : Type 0 where
  pub account_key : String
  pub projection : Projection
  pub entries : List Entry
  pub source_selectors : List (String × String)
  pub flow_selectors : List (String × String)

abbrev pub entry_id : Entry → String
entry_id e = e.indexed.provider_message_id

-- `dict(pairs).get(key)`: the last pair with the key.
unfoldable pub lookup {ℓ} : {V : Type ℓ} → String → List (String × V) → Option V
lookup k [] = none
lookup k ((j, v) ∷ rest) =
    let later = lookup k rest in
    elim later [ some w ↦ some w | none ↦ if j == k then some v else none ]

-- `set(xs) == set(ys)`
unfoldable pub same_set : List String → List String → Bool
same_set xs ys = all (contains ys) xs && all (contains xs) ys

unfoldable pub or_unavailable {ℓ} : {A : Type ℓ} → Option A → Result A
or_unavailable none = err study_unavailable
or_unavailable (some a) = ok a

unfoldable pub account_matches : Option String → String → Bool
account_matches none k = false
account_matches (some a) k = a == k

-- `_visible_metadata`: at most 16384 bytes of UTF-8.
unfoldable pub visible : Option String → Bool
visible none = true
visible (some s) = leb (len s) 16384

unfoldable pub record_ok : IndexedRecord → Bool
unfolding visible
record_ok r =
    leb r.size_estimate_bytes max_message_size
    && visible r.sender_name
    && visible r.sender_address
    && visible r.subject

unfoldable pub flow_ids : List ProjectedSource → List String
flow_ids [] = []
flow_ids (s ∷ ss) = map (λ (f : ProjectedFlow). f.id) s.flows ++ flow_ids ss

unfoldable pub index_entry : Composition → IndexedRecord → Result Entry
unfolding or_unavailable
index_entry c r = do
  effective ← or_unavailable (
      lookup r.provider_message_id
        (map (λ (m : EffectiveMessage). (m.provider_message_id, m)) c.effective_messages))
  classified ← or_unavailable (
      lookup r.provider_message_id
        (map (λ (m : ClassifiedMessage). (m.provider_message_id, m)) c.classified_messages))
  source ← or_unavailable (
      lookup classified.source_id
        (map (λ (s : ClassifiedSource). (s.source_id, s)) c.classified_sources))
  ok (record { indexed = r; effective = effective; sender_addresses = source.sender_addresses })

-- `_index_composition`; any mismatch of the parts is `STUDY_UNAVAILABLE`.
unfoldable pub index_composition : Composition → Result CompositionIndex
unfolding account_matches record_ok flow_ids index_entry
index_composition c = do
  let ids = map (λ (r : IndexedRecord). r.provider_message_id) c.records
  let account = c.effective_account
  require (account_matches c.classification_account account) study_unavailable
  require (all (λ (r : IndexedRecord). r.account_key == account) c.records) study_unavailable
  require (distinct ids) study_unavailable
  require
      (same_set (map (λ (m : EffectiveMessage). m.provider_message_id) c.effective_messages) ids)
      study_unavailable
  require
      (same_set (map (λ (m : ClassifiedMessage). m.provider_message_id) c.classified_messages) ids)
      study_unavailable
  entries ← traverse (index_entry c) c.records
  require (distinct (map (λ p. p.0) c.source_selectors)) study_unavailable
  require (distinct (map (λ p. p.0) c.flow_selectors)) study_unavailable
  require
      (same_set (map (λ (s : ProjectedSource). s.id) c.projection.sources)
        (map (λ p. p.0) c.source_selectors))
      study_unavailable
  require (same_set (flow_ids c.projection.sources) (map (λ p. p.0) c.flow_selectors))
      study_unavailable
  require (all (record_ok) c.records) study_unavailable
  ok (record {
    account_key = account;
    projection = c.projection;
    entries = entries;
    source_selectors = c.source_selectors;
    flow_selectors = c.flow_selectors;
  })
