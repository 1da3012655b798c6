-- ===== src/Plan/Create.antt =====
-- src/mailmap/cleanup_plan_domain.py: `prepare_cleanup_plan_creation`.
use mailcleanup.Prelude.{
  ℕ, ◌+◌, Bool, false, not, ◌&&◌, String, ◌==◌, Option, none, some, List, [], ◌∷◌, map, eqb, ltb,
  leb, leb_text, length, contains, sort_by, if◌then◌else◌,
}
use mailcleanup.Plan.Reasons.{Reason, ordered_reasons, is_empty}
use mailcleanup.Plan.Model.{
  InitialState, PlanState, EventType, CommandStatus, Target, TargetSnapshot, LabelSnapshot,
  Selection, CreateCommand, Member, Event, Receipt, CleanupPlan, source_snapshot, flow_snapshot,
  sender_snapshot, validity, max_aggregate_size, selected_members, selected_size, excluded_size,
}
use mailcleanup.Plan.Equality.{same_kind}
use mailcleanup.Plan.Validate.{
  member_ok, event_ok, header_ok, ledger_ok, removals_ok, state_ok, sizes_ok,
}
use mailcleanup.Plan.Samples.{samples_of, samples_ok}
use mailcleanup.Plan.Result.{
  Result, ok, err, value_error, invalid_request, target_not_found, map_revision_conflict,
  policy_revision_conflict, unsupported_target, study_unavailable, require, check, traverse, ◌>>=◌,
  ◌>>◌,
}
use mailcleanup.Plan.Composition.{Composition, CompositionIndex, Entry, entry_id, index_composition}
use mailcleanup.Plan.Catalog.{
  Platform, CatalogItem, source_item, flow_item, sender_item, label_item, item_kind, find_item,
  build_catalog,
}
use mailcleanup.Plan.Select.{
  record_read_state, judged, quota_allowed, target_universe, resolve_temporal_filter,
}

-- `PersistedCleanupPlan.__post_init__` accepts the plan.
unfoldable pub plan_ok : CleanupPlan → Bool
plan_ok plan =
    header_ok plan
    && samples_ok plan.members plan.samples
    && ledger_ok plan
    && removals_ok plan
    && state_ok plan
    && sizes_ok plan

unfoldable pub make_plan : CleanupPlan → Result CleanupPlan
make_plan plan = do check (plan_ok plan); ok plan

-- `_target_snapshot`
unfoldable pub target_snapshot : CatalogItem → Result TargetSnapshot
target_snapshot (source_item id name _ fingerprint) = ok (source_snapshot id name fingerprint)
target_snapshot (flow_item id _ name _ fingerprint) = ok (flow_snapshot id name fingerprint)
target_snapshot (sender_item id address _) = ok (sender_snapshot id address)
target_snapshot (label_item _ _ _ _) = err unsupported_target

unfoldable pub snapshot_target : List CatalogItem → Target → Result TargetSnapshot
unfolding target_snapshot
snapshot_target catalog t = elim (find_item t.target_id catalog) [
  | none ↦ err target_not_found
  | some item ↦ do
    require (same_kind (item_kind item) t.kind) unsupported_target
    target_snapshot item
]

unfoldable pub label_snapshot_of : Option CatalogItem → Result LabelSnapshot
label_snapshot_of (some (label_item id name provider_label_id _)) =
    ok (record { label_id = id; display_name = name; provider_label_id = provider_label_id })
label_snapshot_of _ = err unsupported_target

unfoldable pub snapshot_label : List CatalogItem → String → Result LabelSnapshot
unfolding label_snapshot_of
snapshot_label catalog label_id = label_snapshot_of (find_item label_id catalog)

-- The reasons of a member, from its base reasons and the quota.
unfoldable pub creation_reasons : Bool → List Reason → List Reason
creation_reasons allowed base =
    ordered_reasons (if is_empty base && not allowed then Reason.keep_latest ∷ [] else base)

-- `_validate_aggregate_sizes`
unfoldable pub aggregate_sizes_ok : List Member → Bool
aggregate_sizes_ok ms =
    leb (selected_size ms) max_aggregate_size
    && leb (excluded_size ms) max_aggregate_size
    && leb (selected_size ms + excluded_size ms) max_aggregate_size

-- A `ValueError` of the plan's own constructor becomes `INVALID_REQUEST`.
abbrev pub as_invalid_request {ℓ} : {A : Type ℓ} → Result A → Result A
as_invalid_request (ok a) = ok a
as_invalid_request (err e) = err e
as_invalid_request value_error = err invalid_request

module _ (platform : Platform) where
  open platform use {message_digest, create_fingerprint}

  -- `_member`
  unfoldable pub member_of : String → Entry → List Reason → Result Member
  member_of account e reasons = do
    let m : Member = record {
      provider_message_id = entry_id e;
      message_id = message_digest account (entry_id e);
      initial_state = if is_empty reasons then InitialState.selected else InitialState.excluded;
      received_at = e.indexed.received_at;
      size_estimate_bytes = e.indexed.size_estimate_bytes;
      source_id = e.effective.effective_source_id;
      flow_id = e.effective.effective_flow_id;
      read_state = record_read_state e.indexed;
      reason_codes = reasons;
    }
    check (member_ok m)
    ok m

  -- One round of the loop over the universe.
  unfoldable pub consider : String → List Entry → Entry × List Reason → Result Member
  consider account allowed (e, base) =
      member_of account e (creation_reasons (contains (map entry_id allowed) (entry_id e)) base)

  unfoldable pub members_of : String → Selection → List Entry → Result (List Member)
  members_of account selection universe = do
    allowed ← quota_allowed selection universe
    js ← traverse (judged selection) universe
    members ← traverse (consider account allowed) js
    ok (sort_by (λ a b. leb_text a.message_id b.message_id) members)

  abbrev pub created_event : CompositionIndex → List Member → ℕ → Event
  created_event index members now =
      let selected_count = length (selected_members members) in
      record {
        revision = 1;
        type = EventType.created;
        recorded_at = now;
        state = if ltb 0 selected_count then PlanState.frozen else PlanState.invalidated;
        observed = some (record {
          map_revision = index.projection.map_revision;
          policy_revision = index.projection.policy_revision;
        });
        removed_count = 0;
        remaining_count = selected_count;
      }

  -- The plan that is frozen, once the members are known.
  unfoldable pub freeze :
      CompositionIndex
      → Selection
      → List Entry
      → List Member
      → String
      → ℕ
      → String
      → Result CleanupPlan
  freeze index selection universe members plan_id now input_revision = do
    require (aggregate_sizes_ok members) study_unavailable
    let event = created_event index members now
    check (event_ok event)
    as_invalid_request (do
      samples ← samples_of members universe
      make_plan (record {
        account_key = index.account_key;
        plan_id = plan_id;
        selection = selection;
        created_from_input_revision = input_revision;
        created_from = record {
          map_revision = index.projection.map_revision;
          policy_revision = index.projection.policy_revision;
        };
        created_at = now;
        expires_at = now + validity;
        members = members;
        samples = samples;
        events = event ∷ [];
        removals = [];
      }))

  -- The selection of the command, with its targets, labels and dates resolved.
  unfoldable pub resolve_selection :
      List CatalogItem
      → CreateCommand
      → ℕ
      → List TargetSnapshot
      → List LabelSnapshot
      → Result Selection
  resolve_selection catalog command now targets labels = do
    resolved ← resolve_temporal_filter platform command.temporal_filter now
    ok (record {
      disposition = command.disposition;
      targets = command.targets;
      target_snapshots = targets;
      temporal_filter = resolved;
      read_state = command.read_state;
      excluded_label_ids = command.excluded_label_ids;
      excluded_label_snapshots = labels;
      keep_latest_per_flow = command.keep_latest_per_flow;
    })

  -- `prepare_cleanup_plan_creation`, from the catalog on.
  unfoldable pub create_from_catalog :
      CompositionIndex
      → List CatalogItem
      → CreateCommand
      → String
      → ℕ
      → String
      → Result (CleanupPlan × Receipt)
  create_from_catalog index catalog command plan_id now input_revision = do
    targets ← traverse (snapshot_target catalog) command.targets
    labels ← traverse (snapshot_label catalog) command.excluded_label_ids
    universe ← target_universe platform false index catalog command.targets
    require (not (eqb (length universe) 0)) target_not_found
    selection ← resolve_selection catalog command now targets labels
    members ← members_of index.account_key selection universe
    plan ← freeze index selection universe members plan_id now input_revision
    ok (
      plan,
      record {
        command_id = command.command_id;
        request_fingerprint = create_fingerprint command;
        status = CommandStatus.created;
        replayed = false;
        command_revision = 1;
        plan_id = plan.plan_id;
        removed_count = none;
      },
    )

  -- `prepare_cleanup_plan_creation`
  unfoldable pub create_plan :
      Composition → CreateCommand → String → ℕ → String → Result (CleanupPlan × Receipt)
  create_plan composition command plan_id now input_revision = do
    index ← index_composition composition
    require (command.expected_map_revision == index.projection.map_revision) map_revision_conflict
    require (eqb command.expected_policy_revision index.projection.policy_revision)
        policy_revision_conflict
    catalog ← build_catalog platform index
    create_from_catalog index catalog command plan_id now input_revision
