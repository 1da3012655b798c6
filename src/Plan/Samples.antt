-- ===== src/Plan/Samples.antt =====
-- The previews of a plan: `_samples` of src/mailmap/cleanup_plan_domain.py, and what
-- src/mailmap/cleanup_plan_model.py demands of them.
use mailcleanup.Prelude.{
  ℕ, suc, Bool, true, false, not, ◌&&◌, String, ◌==◌, Option, none, some, List, [], ◌∷◌, ◌++◌, map,
  eqb, leb, leb_text, length, take, all, filter, distinct, sort_by, if◌then◌else◌,
}
use mailcleanup.Plan.Reasons.{is_empty, is_canonical}
use mailcleanup.Plan.Model.{
  Member, Sample, SampleKind, max_included_samples, max_excluded_samples, max_message_size,
  is_selected, selected_members, excluded_members,
}
use mailcleanup.Plan.Equality.{is_any, same_read, same_sample_kind, same_reasons}
use mailcleanup.Plan.Validate.{find_member}
use mailcleanup.Plan.Result.{Result, ok, value_error, check, ◌>>=◌, ◌>>◌}
use mailcleanup.Plan.Composition.{Entry, IndexedRecord, entry_id, visible}

unfoldable pub sample_limit : SampleKind → ℕ
sample_limit SampleKind.included = max_included_samples
sample_limit SampleKind.excluded = max_excluded_samples

unfoldable pub reasons_fit : SampleKind → Bool → Bool
reasons_fit SampleKind.included no_reason = no_reason
reasons_fit SampleKind.excluded no_reason = not no_reason

-- `CleanupPlanSample.__post_init__`
unfoldable pub sample_ok : Sample → Bool
unfolding sample_limit reasons_fit
sample_ok s =
    leb (suc s.position) (sample_limit s.kind)
    && visible s.sender_name
    && visible s.sender_address
    && visible s.subject
    && leb s.size_estimate_bytes max_message_size
    && not (is_any s.read_state)
    && is_canonical s.exclusion_reasons
    && reasons_fit s.kind (is_empty s.exclusion_reasons)

-- `_sample`
unfoldable pub sample_of : SampleKind → ℕ → Member → IndexedRecord → Result Sample
sample_of kind position m r = do
  let s : Sample = record {
    kind = kind;
    position = position;
    message_id = m.message_id;
    received_at = m.received_at;
    sender_name = r.sender_name;
    sender_address = r.sender_address;
    subject = r.subject;
    size_estimate_bytes = m.size_estimate_bytes;
    source_id = m.source_id;
    flow_id = m.flow_id;
    read_state = m.read_state;
    exclusion_reasons = m.reason_codes;
  }
  check (sample_ok s)
  ok s

unfoldable pub find_entry : String → List Entry → Option Entry
find_entry k [] = none
find_entry k (e ∷ es) = if entry_id e == k then some e else find_entry k es

-- `for position, member in enumerate(members)`
unfoldable pub number_samples : SampleKind → ℕ → List Entry → List Member → Result (List Sample)
unfolding find_entry
number_samples kind position entries [] = ok []
number_samples kind position entries (m ∷ ms) = elim (find_entry m.provider_message_id entries) [
  | none ↦ value_error
  | some e ↦ do
    s ← sample_of kind position m e.indexed
    rest ← number_samples kind (suc position) entries ms
    ok (s ∷ rest)
]

-- `sorted` by message id, then by time with the newest first.
unfoldable pub preview_order : List Member → List Member
preview_order ms =
    sort_by (λ a b. leb b.received_at a.received_at)
      (sort_by (λ a b. leb_text a.message_id b.message_id) ms)

-- `_samples`
unfoldable pub samples_of : List Member → List Entry → Result (List Sample)
unfolding number_samples preview_order
samples_of members entries = do
  included ←
      number_samples SampleKind.included 0 entries
        (take max_included_samples (preview_order (selected_members members)))
  excluded ←
      number_samples SampleKind.excluded 0 entries
        (take max_excluded_samples (preview_order (excluded_members members)))
  ok (included ++ excluded)

-- The snapshot that a sample repeats is the one of its member.
unfoldable pub repeats : Option Member → Sample → Bool
repeats none s = false
repeats (some m) s =
    same_sample_kind s.kind
      (if is_selected m.initial_state then SampleKind.included else SampleKind.excluded)
    && eqb s.received_at m.received_at
    && eqb s.size_estimate_bytes m.size_estimate_bytes
    && s.source_id == m.source_id
    && s.flow_id == m.flow_id
    && same_read s.read_state m.read_state
    && same_reasons s.exclusion_reasons m.reason_codes

unfoldable pub of_kind : SampleKind → List Sample → List Sample
of_kind kind ss = filter (λ s. same_sample_kind s.kind kind) ss

unfoldable pub positions_from : ℕ → List Sample → Bool
positions_from n [] = true
positions_from n (s ∷ ss) = eqb s.position n && positions_from (suc n) ss

unfoldable pub same_ids : List Sample → List Sample → Bool
same_ids [] [] = true
same_ids (a ∷ as') (b ∷ bs) = a.message_id == b.message_id && same_ids as' bs
same_ids _ _ = false

unfoldable pub kind_ok : SampleKind → List Sample → Bool
unfolding of_kind positions_from same_ids sample_limit
kind_ok kind ss =
    let values = of_kind kind ss in
    leb (length values) (sample_limit kind)
    && positions_from 0 values
    && same_ids values (
        sort_by (λ a b. leb b.received_at a.received_at)
          (sort_by (λ a b. leb_text a.message_id b.message_id) values))

-- What `PersistedCleanupPlan.__post_init__` demands of the samples.
unfoldable pub samples_ok : List Member → List Sample → Bool
unfolding repeats kind_ok
samples_ok members samples =
    all (λ s. repeats (find_member s.message_id members) s) samples
    && distinct (map (λ s. s.message_id) samples)
    && kind_ok SampleKind.included samples
    && kind_ok SampleKind.excluded samples
