-- ===== src/Plan/Tests/Runs.antt =====
-- Runs of the plan engine that compute.
use mailcleanup.Prelude.{
  false, [], ◌∷◌, ◌≡◌, refl, arith, filter, any as any_of, all as all_of, sum_of, contains,
  distinct, is_ascending, insert_by, sort_by, In, inl, inr, subst, sym, true,
}
use mailcleanup.Plan.Completeness.{IsConsistent}
use mailcleanup.Plan.Reasons.{
  Reason, of_protection, reason_rank, same_reason, has_reason, is_creation_reason,
  is_protection_reason, is_empty, insert_reason, ordered_reasons, is_canonical, creation_reasons_ok,
  is_only_missing, same_truth, removal_reasons_ok,
}
use mailcleanup.Plan.Model.{
  storage_effect, last_event, selected_size, excluded_size, current_eligible_count, is_removed,
  current_eligible_size,
}
use mailcleanup.Plan.Equality.{
  same_read, same_state, same_kind, same_sample_kind, same_reasons, same_observed,
}
use mailcleanup.Plan.Validate.{
  member_ok, removal_ok, is_expired, is_some, event_type_ok, is_cancelled, event_ok, revisions_from,
  transition_type_ok, transition_ok, transitions_ok, in_window, is_created, first_ok, ledger_ok,
  find_member, recorded_in, member_matches, removal_matches, removed_at, removals_ok, state_ok,
  sizes_ok, header_ok,
}
use mailcleanup.Plan.Result.{traverse, ok}
use mailcleanup.Plan.Composition.{
  lookup, same_set, or_unavailable, account_matches, visible, record_ok, flow_ids, index_entry,
  index_composition, Entry,
}
use mailcleanup.Plan.Catalog.{
  catalog_rank, catalog_text, selector_of, count_sender, count_senders, concat, find_item,
  canonical_sender_address, text_before, catalog_le, flow_catalog_item, source_catalog_items,
  sender_catalog_item, label_catalog_items, build_catalog,
}
use mailcleanup.Plan.Select.{
  record_read_state, protection_empty, policy_reasons, below, at_or_after, outside_dates,
  read_mismatch, has_excluded_label, filter_reasons, base_reasons, newest_first, in_flow,
  flow_quota, within_quota, quota_allowed, sender_is, reached, entries_for_target, add_new, collect,
  target_universe, midnight, resolve_temporal_filter,
}
use mailcleanup.Plan.Samples.{
  sample_limit, reasons_fit, sample_ok, sample_of, find_entry, number_samples, preview_order,
  samples_of, repeats, of_kind, positions_from, same_ids, kind_ok, samples_ok,
}
use mailcleanup.Plan.Create.{
  plan_ok, make_plan, target_snapshot, snapshot_target, label_snapshot_of, snapshot_label,
  creation_reasons, aggregate_sizes_ok, member_of, consider, members_of, freeze, resolve_selection,
  create_from_catalog, create_plan,
}
use mailcleanup.Plan.Revise.{
  effective_plan_state, transition_error, require_active, source_current, flow_current,
  target_is_current, scope_of, present_reasons, revalidation_reasons, removal_of, new_removals,
  revalidation_outcome, revalidation_event, append_event, revalidate_plan, cancellation_event,
  cancel_plan, member_current_state,
}
use mailcleanup.Plan.Ledger.{appended}
use mailcleanup.Plan.Active.{IsValid}
use mailcleanup.Plan.Commands.{revalidate_plan-IsValid}
use mailcleanup.Plan.Trace.{Reach, revalidated, cancelled, start, then}
use mailcleanup.Plan.Tests.Data.{
  platform, composition, create, member_a, plan, created_receipt, later, revalidate, removal_b,
  reduced_event, reduced_plan, revalidated_receipt, later_cancel, index, whole, selection, entry,
  catalog, scope, member_b,
}

-- The two messages that nothing protects are selected, the starred one is kept out.
pub created :
    create_plan platform composition (create 0) "plan" 1000 "input" ≡ ok (plan, created_receipt)
unfolding any_of all_of filter sum_of contains distinct is_ascending insert_by sort_by traverse
    of_protection reason_rank same_reason has_reason is_creation_reason is_protection_reason
    is_empty insert_reason ordered_reasons is_canonical creation_reasons_ok is_only_missing
    same_truth removal_reasons_ok storage_effect last_event selected_size excluded_size
    current_eligible_count is_removed current_eligible_size same_read same_state same_kind
    same_sample_kind same_reasons same_observed member_ok removal_ok is_expired is_some
    event_type_ok is_cancelled event_ok revisions_from transition_type_ok transition_ok
    transitions_ok in_window is_created first_ok ledger_ok find_member recorded_in member_matches
    removal_matches removed_at removals_ok state_ok sizes_ok header_ok lookup same_set
    or_unavailable account_matches visible record_ok flow_ids index_entry index_composition
    catalog_rank catalog_text selector_of count_sender count_senders concat find_item
    canonical_sender_address text_before catalog_le flow_catalog_item source_catalog_items
    sender_catalog_item label_catalog_items build_catalog record_read_state protection_empty
    policy_reasons below at_or_after outside_dates read_mismatch has_excluded_label filter_reasons
    base_reasons newest_first in_flow flow_quota within_quota quota_allowed sender_is reached
    entries_for_target add_new collect target_universe midnight resolve_temporal_filter sample_limit
    reasons_fit sample_ok sample_of find_entry number_samples preview_order samples_of repeats
    of_kind positions_from same_ids kind_ok samples_ok plan_ok make_plan target_snapshot
    snapshot_target label_snapshot_of snapshot_label creation_reasons aggregate_sizes_ok member_of
    consider members_of freeze resolve_selection create_from_catalog create_plan
created = refl

pub plan-IsValid : IsValid plan
unfolding any_of all_of filter sum_of contains distinct is_ascending insert_by sort_by traverse
    of_protection reason_rank same_reason has_reason is_creation_reason is_protection_reason
    is_empty insert_reason ordered_reasons is_canonical creation_reasons_ok is_only_missing
    same_truth removal_reasons_ok storage_effect last_event selected_size excluded_size
    current_eligible_count is_removed current_eligible_size same_read same_state same_kind
    same_sample_kind same_reasons same_observed member_ok removal_ok is_expired is_some
    event_type_ok is_cancelled event_ok revisions_from transition_type_ok transition_ok
    transitions_ok in_window is_created first_ok ledger_ok find_member recorded_in member_matches
    removal_matches removed_at removals_ok state_ok sizes_ok header_ok lookup same_set
    or_unavailable account_matches visible record_ok flow_ids index_entry index_composition
    catalog_rank catalog_text selector_of count_sender count_senders concat find_item
    canonical_sender_address text_before catalog_le flow_catalog_item source_catalog_items
    sender_catalog_item label_catalog_items build_catalog record_read_state protection_empty
    policy_reasons below at_or_after outside_dates read_mismatch has_excluded_label filter_reasons
    base_reasons newest_first in_flow flow_quota within_quota quota_allowed sender_is reached
    entries_for_target add_new collect target_universe midnight resolve_temporal_filter sample_limit
    reasons_fit sample_ok sample_of find_entry number_samples preview_order samples_of repeats
    of_kind positions_from same_ids kind_ok samples_ok plan_ok make_plan target_snapshot
    snapshot_target label_snapshot_of snapshot_label creation_reasons aggregate_sizes_ok member_of
    consider members_of freeze resolve_selection create_from_catalog create_plan
plan-IsValid = record { plan_accepted = refl; events_accepted = refl }

-- The starred message is removed, and the plan is reduced to the other one.
pub run_revalidate :
    revalidate_plan platform later plan revalidate 2000
    ≡ ok (reduced_plan, reduced_event, removal_b ∷ [], revalidated_receipt)
unfolding any_of all_of filter sum_of contains distinct is_ascending insert_by sort_by traverse
    of_protection reason_rank same_reason has_reason is_creation_reason is_protection_reason
    is_empty insert_reason ordered_reasons is_canonical creation_reasons_ok is_only_missing
    same_truth removal_reasons_ok storage_effect last_event selected_size excluded_size
    current_eligible_count is_removed current_eligible_size same_read same_state same_kind
    same_sample_kind same_reasons same_observed member_ok removal_ok is_expired is_some
    event_type_ok is_cancelled event_ok revisions_from transition_type_ok transition_ok
    transitions_ok in_window is_created first_ok ledger_ok find_member recorded_in member_matches
    removal_matches removed_at removals_ok state_ok sizes_ok header_ok lookup same_set
    or_unavailable account_matches visible record_ok flow_ids index_entry index_composition
    catalog_rank catalog_text selector_of count_sender count_senders concat find_item
    canonical_sender_address text_before catalog_le flow_catalog_item source_catalog_items
    sender_catalog_item label_catalog_items build_catalog record_read_state protection_empty
    policy_reasons below at_or_after outside_dates read_mismatch has_excluded_label filter_reasons
    base_reasons newest_first in_flow flow_quota within_quota quota_allowed sender_is reached
    entries_for_target add_new collect target_universe midnight resolve_temporal_filter sample_limit
    reasons_fit sample_ok sample_of find_entry number_samples preview_order samples_of repeats
    of_kind positions_from same_ids kind_ok samples_ok plan_ok make_plan target_snapshot
    snapshot_target label_snapshot_of snapshot_label creation_reasons aggregate_sizes_ok member_of
    consider members_of freeze resolve_selection create_from_catalog create_plan
    effective_plan_state transition_error require_active source_current flow_current
    target_is_current scope_of present_reasons revalidation_reasons removal_of new_removals
    revalidation_outcome revalidation_event append_event revalidate_plan cancellation_event
    cancel_plan member_current_state
run_revalidate = refl

pub path_to_reduced : Reach platform plan reduced_plan
unfolding last_event
path_to_reduced = then (revalidated later revalidate 2000 (omega arith) run_revalidate) start

pub reduced-IsValid : IsValid reduced_plan
unfolding last_event
reduced-IsValid =
    (revalidate_plan-IsValid platform plan 2000 plan-IsValid (omega arith) later revalidate
      run_revalidate).0

pub reduced_cancelled :
    Reach platform reduced_plan (appended reduced_plan (cancellation_event reduced_plan 3000) [])
unfolding any_of all_of filter sum_of contains distinct is_ascending insert_by sort_by traverse
    of_protection reason_rank same_reason has_reason is_creation_reason is_protection_reason
    is_empty insert_reason ordered_reasons is_canonical creation_reasons_ok is_only_missing
    same_truth removal_reasons_ok storage_effect last_event selected_size excluded_size
    current_eligible_count is_removed current_eligible_size same_read same_state same_kind
    same_sample_kind same_reasons same_observed member_ok removal_ok is_expired is_some
    event_type_ok is_cancelled event_ok revisions_from transition_type_ok transition_ok
    transitions_ok in_window is_created first_ok ledger_ok find_member recorded_in member_matches
    removal_matches removed_at removals_ok state_ok sizes_ok header_ok lookup same_set
    or_unavailable account_matches visible record_ok flow_ids index_entry index_composition
    catalog_rank catalog_text selector_of count_sender count_senders concat find_item
    canonical_sender_address text_before catalog_le flow_catalog_item source_catalog_items
    sender_catalog_item label_catalog_items build_catalog record_read_state protection_empty
    policy_reasons below at_or_after outside_dates read_mismatch has_excluded_label filter_reasons
    base_reasons newest_first in_flow flow_quota within_quota quota_allowed sender_is reached
    entries_for_target add_new collect target_universe midnight resolve_temporal_filter sample_limit
    reasons_fit sample_ok sample_of find_entry number_samples preview_order samples_of repeats
    of_kind positions_from same_ids kind_ok samples_ok plan_ok make_plan target_snapshot
    snapshot_target label_snapshot_of snapshot_label creation_reasons aggregate_sizes_ok member_of
    consider members_of freeze resolve_selection create_from_catalog create_plan
    effective_plan_state transition_error require_active source_current flow_current
    target_is_current scope_of present_reasons revalidation_reasons removal_of new_removals
    revalidation_outcome revalidation_event append_event revalidate_plan cancellation_event
    cancel_plan member_current_state
reduced_cancelled = then (cancelled later_cancel 3000 (omega arith) refl) start

pub indexed : index_composition composition ≡ ok index
unfolding any_of all_of filter sum_of contains distinct is_ascending insert_by sort_by traverse
    of_protection reason_rank same_reason has_reason is_creation_reason is_protection_reason
    is_empty insert_reason ordered_reasons is_canonical creation_reasons_ok is_only_missing
    same_truth removal_reasons_ok storage_effect last_event selected_size excluded_size
    current_eligible_count is_removed current_eligible_size same_read same_state same_kind
    same_sample_kind same_reasons same_observed member_ok removal_ok is_expired is_some
    event_type_ok is_cancelled event_ok revisions_from transition_type_ok transition_ok
    transitions_ok in_window is_created first_ok ledger_ok find_member recorded_in member_matches
    removal_matches removed_at removals_ok state_ok sizes_ok header_ok lookup same_set
    or_unavailable account_matches visible record_ok flow_ids index_entry index_composition
    catalog_rank catalog_text selector_of count_sender count_senders concat find_item
    canonical_sender_address text_before catalog_le flow_catalog_item source_catalog_items
    sender_catalog_item label_catalog_items build_catalog record_read_state protection_empty
    policy_reasons below at_or_after outside_dates read_mismatch has_excluded_label filter_reasons
    base_reasons newest_first in_flow flow_quota within_quota quota_allowed sender_is reached
    entries_for_target add_new collect target_universe midnight resolve_temporal_filter sample_limit
    reasons_fit sample_ok sample_of find_entry number_samples preview_order samples_of repeats
    of_kind positions_from same_ids kind_ok samples_ok plan_ok make_plan target_snapshot
    snapshot_target label_snapshot_of snapshot_label creation_reasons aggregate_sizes_ok member_of
    consider members_of freeze resolve_selection create_from_catalog create_plan
indexed = refl

pub keep_latest_found :
    revalidation_reasons index plan whole member_a ≡ ok (Reason.keep_latest ∷ [])
unfolding any_of all_of filter sum_of contains distinct is_ascending insert_by sort_by traverse
    of_protection reason_rank same_reason has_reason is_creation_reason is_protection_reason
    is_empty insert_reason ordered_reasons is_canonical creation_reasons_ok is_only_missing
    same_truth removal_reasons_ok storage_effect last_event selected_size excluded_size
    current_eligible_count is_removed current_eligible_size same_read same_state same_kind
    same_sample_kind same_reasons same_observed member_ok removal_ok is_expired is_some
    event_type_ok is_cancelled event_ok revisions_from transition_type_ok transition_ok
    transitions_ok in_window is_created first_ok ledger_ok find_member recorded_in member_matches
    removal_matches removed_at removals_ok state_ok sizes_ok header_ok lookup same_set
    or_unavailable account_matches visible record_ok flow_ids index_entry index_composition
    catalog_rank catalog_text selector_of count_sender count_senders concat find_item
    canonical_sender_address text_before catalog_le flow_catalog_item source_catalog_items
    sender_catalog_item label_catalog_items build_catalog record_read_state protection_empty
    policy_reasons below at_or_after outside_dates read_mismatch has_excluded_label filter_reasons
    base_reasons newest_first in_flow flow_quota within_quota quota_allowed sender_is reached
    entries_for_target add_new collect target_universe midnight resolve_temporal_filter sample_limit
    reasons_fit sample_ok sample_of find_entry number_samples preview_order samples_of repeats
    of_kind positions_from same_ids kind_ok samples_ok plan_ok make_plan target_snapshot
    snapshot_target label_snapshot_of snapshot_label creation_reasons aggregate_sizes_ok member_of
    consider members_of freeze resolve_selection create_from_catalog create_plan
    revalidation_reasons present_reasons
keep_latest_found = refl

-- A quota of one message of each flow lets the newest one through.
pub newest_allowed :
    quota_allowed (selection 1) index.entries ≡ ok (entry "a" ("INBOX" ∷ []) 300 [] false ∷ [])
unfolding any_of all_of filter sum_of contains distinct is_ascending insert_by sort_by traverse
    of_protection reason_rank same_reason has_reason is_creation_reason is_protection_reason
    is_empty insert_reason ordered_reasons is_canonical creation_reasons_ok is_only_missing
    same_truth removal_reasons_ok storage_effect last_event selected_size excluded_size
    current_eligible_count is_removed current_eligible_size same_read same_state same_kind
    same_sample_kind same_reasons same_observed member_ok removal_ok is_expired is_some
    event_type_ok is_cancelled event_ok revisions_from transition_type_ok transition_ok
    transitions_ok in_window is_created first_ok ledger_ok find_member recorded_in member_matches
    removal_matches removed_at removals_ok state_ok sizes_ok header_ok lookup same_set
    or_unavailable account_matches visible record_ok flow_ids index_entry index_composition
    catalog_rank catalog_text selector_of count_sender count_senders concat find_item
    canonical_sender_address text_before catalog_le flow_catalog_item source_catalog_items
    sender_catalog_item label_catalog_items build_catalog record_read_state protection_empty
    policy_reasons below at_or_after outside_dates read_mismatch has_excluded_label filter_reasons
    base_reasons newest_first in_flow flow_quota within_quota quota_allowed sender_is reached
    entries_for_target add_new collect target_universe midnight resolve_temporal_filter sample_limit
    reasons_fit sample_ok sample_of find_entry number_samples preview_order samples_of repeats
    of_kind positions_from same_ids kind_ok samples_ok plan_ok make_plan target_snapshot
    snapshot_target label_snapshot_of snapshot_label creation_reasons aggregate_sizes_ok member_of
    consider members_of freeze resolve_selection create_from_catalog create_plan
newest_allowed = refl

pub listed : build_catalog platform index ≡ ok catalog
unfolding any_of all_of filter sum_of contains distinct is_ascending insert_by sort_by traverse
    of_protection reason_rank same_reason has_reason is_creation_reason is_protection_reason
    is_empty insert_reason ordered_reasons is_canonical creation_reasons_ok is_only_missing
    same_truth removal_reasons_ok storage_effect last_event selected_size excluded_size
    current_eligible_count is_removed current_eligible_size same_read same_state same_kind
    same_sample_kind same_reasons same_observed member_ok removal_ok is_expired is_some
    event_type_ok is_cancelled event_ok revisions_from transition_type_ok transition_ok
    transitions_ok in_window is_created first_ok ledger_ok find_member recorded_in member_matches
    removal_matches removed_at removals_ok state_ok sizes_ok header_ok lookup same_set
    or_unavailable account_matches visible record_ok flow_ids index_entry index_composition
    catalog_rank catalog_text selector_of count_sender count_senders concat find_item
    canonical_sender_address text_before catalog_le flow_catalog_item source_catalog_items
    sender_catalog_item label_catalog_items build_catalog record_read_state protection_empty
    policy_reasons below at_or_after outside_dates read_mismatch has_excluded_label filter_reasons
    base_reasons newest_first in_flow flow_quota within_quota quota_allowed sender_is reached
    entries_for_target add_new collect target_universe midnight resolve_temporal_filter sample_limit
    reasons_fit sample_ok sample_of find_entry number_samples preview_order samples_of repeats
    of_kind positions_from same_ids kind_ok samples_ok plan_ok make_plan target_snapshot
    snapshot_target label_snapshot_of snapshot_label creation_reasons aggregate_sizes_ok member_of
    consider members_of freeze resolve_selection create_from_catalog create_plan
listed = refl

pub scoped : scope_of platform index catalog plan ≡ ok scope
unfolding any_of all_of filter sum_of contains distinct is_ascending insert_by sort_by traverse
    of_protection reason_rank same_reason has_reason is_creation_reason is_protection_reason
    is_empty insert_reason ordered_reasons is_canonical creation_reasons_ok is_only_missing
    same_truth removal_reasons_ok storage_effect last_event selected_size excluded_size
    current_eligible_count is_removed current_eligible_size same_read same_state same_kind
    same_sample_kind same_reasons same_observed member_ok removal_ok is_expired is_some
    event_type_ok is_cancelled event_ok revisions_from transition_type_ok transition_ok
    transitions_ok in_window is_created first_ok ledger_ok find_member recorded_in member_matches
    removal_matches removed_at removals_ok state_ok sizes_ok header_ok lookup same_set
    or_unavailable account_matches visible record_ok flow_ids index_entry index_composition
    catalog_rank catalog_text selector_of count_sender count_senders concat find_item
    canonical_sender_address text_before catalog_le flow_catalog_item source_catalog_items
    sender_catalog_item label_catalog_items build_catalog record_read_state protection_empty
    policy_reasons below at_or_after outside_dates read_mismatch has_excluded_label filter_reasons
    base_reasons newest_first in_flow flow_quota within_quota quota_allowed sender_is reached
    entries_for_target add_new collect target_universe midnight resolve_temporal_filter sample_limit
    reasons_fit sample_ok sample_of find_entry number_samples preview_order samples_of repeats
    of_kind positions_from same_ids kind_ok samples_ok plan_ok make_plan target_snapshot
    snapshot_target label_snapshot_of snapshot_label creation_reasons aggregate_sizes_ok member_of
    consider members_of freeze resolve_selection create_from_catalog create_plan
    effective_plan_state transition_error require_active source_current flow_current
    target_is_current scope_of present_reasons revalidation_reasons removal_of new_removals
    revalidation_outcome revalidation_event append_event revalidate_plan cancellation_event
    cancel_plan member_current_state
scoped = refl

pub consistent : (e : Entry) → In e index.entries → IsConsistent e
unfolding policy_reasons protection_empty
consistent e (inl p) = subst IsConsistent (sym p) ([], refl)
consistent e (inr (inl p)) = subst IsConsistent (sym p) ([], refl)
consistent e (inr (inr (inl p))) = subst IsConsistent (sym p) (_, refl)
consistent e (inr (inr (inr p))) = absurd p

pub plain_b : base_reasons (selection 1) (entry "b" ("INBOX" ∷ []) 200 [] false) ≡ ok []
unfolding any_of all_of filter sum_of contains distinct is_ascending insert_by sort_by traverse
    of_protection reason_rank same_reason has_reason is_creation_reason is_protection_reason
    is_empty insert_reason ordered_reasons is_canonical creation_reasons_ok is_only_missing
    same_truth removal_reasons_ok storage_effect last_event selected_size excluded_size
    current_eligible_count is_removed current_eligible_size same_read same_state same_kind
    same_sample_kind same_reasons same_observed member_ok removal_ok is_expired is_some
    event_type_ok is_cancelled event_ok revisions_from transition_type_ok transition_ok
    transitions_ok in_window is_created first_ok ledger_ok find_member recorded_in member_matches
    removal_matches removed_at removals_ok state_ok sizes_ok header_ok lookup same_set
    or_unavailable account_matches visible record_ok flow_ids index_entry index_composition
    catalog_rank catalog_text selector_of count_sender count_senders concat find_item
    canonical_sender_address text_before catalog_le flow_catalog_item source_catalog_items
    sender_catalog_item label_catalog_items build_catalog record_read_state protection_empty
    policy_reasons below at_or_after outside_dates read_mismatch has_excluded_label filter_reasons
    base_reasons newest_first in_flow flow_quota within_quota quota_allowed sender_is reached
    entries_for_target add_new collect target_universe midnight resolve_temporal_filter sample_limit
    reasons_fit sample_ok sample_of find_entry number_samples preview_order samples_of repeats
    of_kind positions_from same_ids kind_ok samples_ok plan_ok make_plan target_snapshot
    snapshot_target label_snapshot_of snapshot_label creation_reasons aggregate_sizes_ok member_of
    consider members_of freeze resolve_selection create_from_catalog create_plan
plain_b = refl

pub member_b_accepted : member_ok member_b ≡ true
unfolding any_of all_of filter sum_of contains distinct is_ascending insert_by sort_by traverse
    of_protection reason_rank same_reason has_reason is_creation_reason is_protection_reason
    is_empty insert_reason ordered_reasons is_canonical creation_reasons_ok is_only_missing
    same_truth removal_reasons_ok storage_effect last_event selected_size excluded_size
    current_eligible_count is_removed current_eligible_size same_read same_state same_kind
    same_sample_kind same_reasons same_observed member_ok removal_ok is_expired is_some
    event_type_ok is_cancelled event_ok revisions_from transition_type_ok transition_ok
    transitions_ok in_window is_created first_ok ledger_ok find_member recorded_in member_matches
    removal_matches removed_at removals_ok state_ok sizes_ok header_ok lookup same_set
    or_unavailable account_matches visible record_ok flow_ids index_entry index_composition
    catalog_rank catalog_text selector_of count_sender count_senders concat find_item
    canonical_sender_address text_before catalog_le flow_catalog_item source_catalog_items
    sender_catalog_item label_catalog_items build_catalog record_read_state protection_empty
    policy_reasons below at_or_after outside_dates read_mismatch has_excluded_label filter_reasons
    base_reasons newest_first in_flow flow_quota within_quota quota_allowed sender_is reached
    entries_for_target add_new collect target_universe midnight resolve_temporal_filter sample_limit
    reasons_fit sample_ok sample_of find_entry number_samples preview_order samples_of repeats
    of_kind positions_from same_ids kind_ok samples_ok plan_ok make_plan target_snapshot
    snapshot_target label_snapshot_of snapshot_label creation_reasons aggregate_sizes_ok member_of
    consider members_of freeze resolve_selection create_from_catalog create_plan
member_b_accepted = refl

pub removals_accepted : all_of removal_ok reduced_plan.removals ≡ true
unfolding any_of all_of filter sum_of contains distinct is_ascending insert_by sort_by traverse
    of_protection reason_rank same_reason has_reason is_creation_reason is_protection_reason
    is_empty insert_reason ordered_reasons is_canonical creation_reasons_ok is_only_missing
    same_truth removal_reasons_ok storage_effect last_event selected_size excluded_size
    current_eligible_count is_removed current_eligible_size same_read same_state same_kind
    same_sample_kind same_reasons same_observed member_ok removal_ok is_expired is_some
    event_type_ok is_cancelled event_ok revisions_from transition_type_ok transition_ok
    transitions_ok in_window is_created first_ok ledger_ok find_member recorded_in member_matches
    removal_matches removed_at removals_ok state_ok sizes_ok header_ok lookup same_set
    or_unavailable account_matches visible record_ok flow_ids index_entry index_composition
    catalog_rank catalog_text selector_of count_sender count_senders concat find_item
    canonical_sender_address text_before catalog_le flow_catalog_item source_catalog_items
    sender_catalog_item label_catalog_items build_catalog record_read_state protection_empty
    policy_reasons below at_or_after outside_dates read_mismatch has_excluded_label filter_reasons
    base_reasons newest_first in_flow flow_quota within_quota quota_allowed sender_is reached
    entries_for_target add_new collect target_universe midnight resolve_temporal_filter sample_limit
    reasons_fit sample_ok sample_of find_entry number_samples preview_order samples_of repeats
    of_kind positions_from same_ids kind_ok samples_ok plan_ok make_plan target_snapshot
    snapshot_target label_snapshot_of snapshot_label creation_reasons aggregate_sizes_ok member_of
    consider members_of freeze resolve_selection create_from_catalog create_plan
removals_accepted = refl
