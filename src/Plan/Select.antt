-- ===== src/Plan/Select.antt =====
-- src/mailmap/cleanup_plan_domain.py: which messages a plan may select, and the reasons that keep
-- the others out.
use mailcleanup.Prelude.{
  ℕ, ◌-◌, Bool, true, false, not, ◌&&◌, ◌||◌, String, ◌==◌, Option, none, some, List, [], ◌∷◌, ◌++◌,
  map, eqb, ltb, leb, leb_text, length, take, any, filter, contains, sort_by, if◌then◌else◌,
}
use mailcleanup.Plan.Reasons.{Reason, ProtectionReason, of_protection, ordered_reasons, is_empty}
use mailcleanup.Plan.Model.{
  ReadState, TargetKind, TemporalFilter, ResolvedFilter, Target, Selection, LabelSnapshot,
  max_considered_messages,
}
use mailcleanup.Plan.Equality.{is_any, same_read, same_kind}
use mailcleanup.Plan.Result.{
  Result, ok, err, invalid_filter, target_not_found, unsupported_target, plan_too_large,
  study_unavailable, require, traverse, ◌>>=◌, ◌>>◌,
}
use mailcleanup.Plan.Composition.{
  CompositionIndex, Entry, EffectiveMessage, IndexedRecord, entry_id,
}
use mailcleanup.Plan.Catalog.{
  Platform, CatalogItem, sender_item, item_kind, find_item, canonical_sender_address,
}

-- `_record_read_state`
unfoldable pub record_read_state : IndexedRecord → ReadState
record_read_state r = if contains r.label_ids "UNREAD" then ReadState.unread else ReadState.read

unfoldable pub protection_empty : List ProtectionReason → Bool
protection_empty [] = true
protection_empty (_ ∷ _) = false

-- `_policy_reasons`: the flags of a message and its protection reasons must agree.
unfoldable pub policy_reasons : EffectiveMessage → Result (List Reason)
unfolding protection_empty
policy_reasons m =
    let kept_out = m.is_protected || m.review_required || m.hard_excluded in
    let no_reason = protection_empty m.protection_reasons in
    if kept_out && no_reason
    then err study_unavailable
    else if not kept_out && not no_reason
    then err study_unavailable
    else ok (map of_protection m.protection_reasons)

unfoldable pub below : ℕ → Option ℕ → Bool
below t none = false
below t (some lower) = ltb t lower

unfoldable pub at_or_after : ℕ → Option ℕ → Bool
at_or_after t none = false
at_or_after t (some upper) = leb upper t

unfoldable pub outside_dates : IndexedRecord → Selection → Bool
unfolding below at_or_after
outside_dates r s =
    below r.received_at s.temporal_filter.on_or_after
    || at_or_after r.received_at s.temporal_filter.before

unfoldable pub read_mismatch : IndexedRecord → Selection → Bool
read_mismatch r s = not (is_any s.read_state) && not (same_read (record_read_state r) s.read_state)

unfoldable pub has_excluded_label : IndexedRecord → Selection → Bool
has_excluded_label r s =
    any (contains (map (λ (l : LabelSnapshot). l.provider_label_id) s.excluded_label_snapshots))
      r.label_ids

abbrev pub reason_if : Bool → Reason → List Reason
reason_if true r = r ∷ []
reason_if false r = []

-- The reasons of the filters, which are added to those of the policies.
unfoldable pub filter_reasons : IndexedRecord → Selection → List Reason
filter_reasons r s =
    reason_if (outside_dates r s) Reason.outside_date
    ++ (reason_if (read_mismatch r s) Reason.read_state_mismatch
        ++ reason_if (has_excluded_label r s) Reason.excluded_label)

-- `_base_reasons`
unfoldable pub base_reasons : Selection → Entry → Result (List Reason)
base_reasons s e = do
  reasons ← policy_reasons e.effective
  ok (ordered_reasons (reasons ++ filter_reasons e.indexed s))

-- One entry with what `_base_reasons` says of it.
abbrev pub judged : Selection → Entry → Result (Entry × List Reason)
judged s e = do reasons ← base_reasons s e; ok (e, reasons)

abbrev pub candidates : List (Entry × List Reason) → List Entry
candidates js = map (λ j. j.0) (filter (λ j. is_empty j.1) js)

-- `ordered.sort(key=received_at, reverse=True)` after `sorted(key=provider_message_id)`
unfoldable pub newest_first : List Entry → List Entry
newest_first es =
    sort_by (λ a b. leb b.indexed.received_at a.indexed.received_at)
      (sort_by (λ a b. leb_text (entry_id a) (entry_id b)) es)

unfoldable pub in_flow : String → List Entry → List Entry
in_flow flow es = filter (λ e. e.effective.effective_flow_id == flow) es

-- The entries that the quota of the flow of `e` lets through.
unfoldable pub flow_quota : ℕ → String → List Entry → List Entry
flow_quota n flow es = take n (newest_first (in_flow flow es))

-- `provider_message_id in quota_allowed`, for a candidate.
unfoldable pub within_quota : ℕ → List Entry → Entry → Bool
within_quota n es e =
    eqb n 0 || contains (map entry_id (flow_quota n e.effective.effective_flow_id es)) (entry_id e)

-- `_quota_allowed`: the candidates that are allowed.
unfoldable pub quota_allowed : Selection → List Entry → Result (List Entry)
quota_allowed s universe = do
  js ← traverse (judged s) universe
  ok (filter (within_quota s.keep_latest_per_flow (candidates js)) (candidates js))

module _ (platform : Platform) where
  -- The entries that `_provider_ids_for_target` reaches, as a test on the entries of the index.
  unfoldable pub sender_is : String → Entry → Result (Entry × Bool)
  sender_is address e = do
    found ← canonical_sender_address platform e
    elim found [ none ↦ ok (e, false) | some a ↦ ok (e, a == address) ]

  unfoldable pub reached : CompositionIndex → Target → CatalogItem → Result (List Entry)
  reached index t (sender_item _ address _) = do
    tests ← traverse (sender_is address) index.entries
    ok (map (λ p. p.0) (filter (λ p. p.1) tests))
  reached index t item = ok (
      if same_kind t.kind TargetKind.source
      then filter (λ e. e.effective.effective_source_id == t.target_id) index.entries
      else filter (λ e. e.effective.effective_flow_id == t.target_id) index.entries)

  -- `_provider_ids_for_target`
  unfoldable pub entries_for_target :
      Bool → CompositionIndex → List CatalogItem → Target → Result (List Entry)
  unfolding sender_is reached
  entries_for_target allow_missing_sender index catalog t = elim (find_item t.target_id catalog) [
    | none ↦
        if allow_missing_sender && same_kind t.kind TargetKind.sender
        then ok []
        else err target_not_found
    | some item ↦
        if not (same_kind (item_kind item) t.kind) || same_kind t.kind TargetKind.label
        then err unsupported_target
        else reached index t item
  ]

  -- `values.update(found)`
  unfoldable pub add_new : List Entry → List Entry → List Entry
  add_new [] values = values
  add_new (e ∷ es) values =
      add_new es (if contains (map entry_id values) (entry_id e) then values else values ++ e ∷ [])

  unfoldable pub collect :
      Bool → CompositionIndex → List CatalogItem → List Target → List Entry → Result (List Entry)
  collect allow index catalog [] values = ok values
  collect allow index catalog (t ∷ ts) values = do
    found ← entries_for_target allow index catalog t
    collect allow index catalog ts (add_new found values)

  -- `_target_universe`
  unfoldable pub target_universe :
      Bool → CompositionIndex → List CatalogItem → List Target → Result (List Entry)
  unfolding add_new collect
  target_universe allow_missing_sender index catalog targets = do
    values ← collect allow_missing_sender index catalog targets []
    require (leb (length values) max_considered_messages) plan_too_large
    ok values

  unfoldable pub midnight : ℕ → Result ℕ
  midnight date = elim (platform.civil_midnight date) [
    | none ↦ err invalid_filter
    | some instant ↦ ok instant
  ]

  -- `resolve_temporal_filter`; a range whose ends resolve in the wrong order is refused too.
  unfoldable pub resolve_temporal_filter : TemporalFilter → ℕ → Result ResolvedFilter
  unfolding midnight
  resolve_temporal_filter TemporalFilter.all now =
      ok (record { requested = TemporalFilter.all; on_or_after = none; before = none })
  resolve_temporal_filter (TemporalFilter.before_date date) now = do
    upper ← midnight date
    ok (record {
      requested = TemporalFilter.before_date date;
      on_or_after = none;
      before = some upper;
    })
  resolve_temporal_filter (TemporalFilter.date_range first last) now = do
    lower ← midnight first
    upper ← midnight last
    require (ltb lower upper) invalid_filter
    ok (record {
      requested = TemporalFilter.date_range first last;
      on_or_after = some lower;
      before = some upper;
    })
  resolve_temporal_filter (TemporalFilter.older_than_days days) now = do
    let today = platform.local_date now
    require (ltb days today) invalid_filter
    upper ← midnight (today - days)
    ok (record {
      requested = TemporalFilter.older_than_days days;
      on_or_after = none;
      before = some upper;
    })
