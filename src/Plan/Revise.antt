-- ===== src/Plan/Revise.antt =====
-- src/mailmap/cleanup_plan_domain.py: `effective_plan_state`, revalidation, cancellation, and what a
-- member is now.
use mailcleanup.Prelude.{
  ℕ, ◌+◌, ◌-◌, Bool, true, false, not, ◌&&◌, String, ◌==◌, Option, none, some, List, [], ◌∷◌, ◌++◌,
  map, eqb, leb, length, all, contains, if◌then◌else◌,
}
use mailcleanup.Plan.Reasons.{Reason, ordered_reasons, is_empty}
use mailcleanup.Plan.Model.{
  PlanState, EventType, CommandStatus, CurrentState, TargetSnapshot, source_snapshot, flow_snapshot,
  sender_snapshot, RevalidateCommand, CancelCommand, Member, Removal, Event, Receipt, CleanupPlan,
  is_selected, plan_revision, persisted_state, is_removed, eligible_members, current_eligible_count,
}
use mailcleanup.Plan.Equality.{is_terminal}
use mailcleanup.Plan.Validate.{removal_ok, event_ok}
use mailcleanup.Plan.Create.{make_plan}
use mailcleanup.Plan.Samples.{find_entry}
use mailcleanup.Plan.Result.{
  Result, ok, err, map_revision_conflict, policy_revision_conflict, plan_revision_conflict,
  invalid_transition, plan_expired, account_unavailable, require, check, ◌>>=◌, ◌>>◌,
}
use mailcleanup.Plan.Composition.{Composition, CompositionIndex, Entry, entry_id, index_composition}
use mailcleanup.Plan.Catalog.{
  Platform, CatalogItem, source_item, flow_item, find_item, build_catalog,
}
use mailcleanup.Plan.Select.{policy_reasons, base_reasons, quota_allowed, target_universe}

-- `effective_plan_state`
unfoldable pub effective_plan_state : CleanupPlan → ℕ → PlanState
effective_plan_state plan now =
    if is_terminal (persisted_state plan)
    then persisted_state plan
    else if leb plan.expires_at now
    then PlanState.expired
    else persisted_state plan

-- The guard that revalidation and cancellation share: active, in time, at the expected revision.
unfoldable pub transition_error : PlanState → Result (Unit {0})
transition_error PlanState.expired = err plan_expired
transition_error PlanState.cancelled = err invalid_transition
transition_error PlanState.invalidated = err invalid_transition
transition_error _ = ok tt

unfoldable pub require_active : CleanupPlan → ℕ → ℕ → Result (Unit {0})
unfolding transition_error
require_active plan expected_revision now = do
  transition_error (effective_plan_state plan now)
  require (eqb expected_revision (plan_revision plan)) plan_revision_conflict

unfoldable pub source_current : Option CatalogItem → String → Bool
source_current (some (source_item _ _ _ current)) fingerprint = current == fingerprint
source_current _ fingerprint = false

unfoldable pub flow_current : Option CatalogItem → String → Bool
flow_current (some (flow_item _ _ _ _ current)) fingerprint = current == fingerprint
flow_current _ fingerprint = false

-- One round of `_structural_targets_are_current`.
unfoldable pub target_is_current : List CatalogItem → TargetSnapshot → Bool
unfolding source_current flow_current
target_is_current catalog (source_snapshot id _ fingerprint) =
    source_current (find_item id catalog) fingerprint
target_is_current catalog (flow_snapshot id _ fingerprint) =
    flow_current (find_item id catalog) fingerprint
target_is_current catalog (sender_snapshot _ _) = true

-- What revalidation looks at: whether the targets are current, the universe and the quota.
pub record Scope : Type 0 where
  pub current : Bool
  pub universe : List Entry
  pub allowed : List Entry

unfoldable pub scope_of :
    Platform → CompositionIndex → List CatalogItem → CleanupPlan → Result Scope
scope_of platform index catalog plan =
    if all (target_is_current catalog) plan.selection.target_snapshots
    then (do
      universe ← target_universe platform true index catalog plan.selection.targets
      allowed ← quota_allowed plan.selection universe
      ok (record { current = true; universe = universe; allowed = allowed }))
    else ok (record { current = false; universe = []; allowed = [] })

abbrev pub reason_when : Bool → Reason → List Reason
reason_when true r = r ∷ []
reason_when false r = []

-- The reasons of a member whose record is still in the index.
unfoldable pub present_reasons : CleanupPlan → Scope → Member → Entry → Result (List Reason)
present_reasons plan scope m e = do
  base ← base_reasons plan.selection e
  protection ← policy_reasons e.effective
  let found =
      reason_when (not (contains (map entry_id scope.universe) m.provider_message_id))
        Reason.scope_changed
      ++ (base ++ reason_when (not (is_empty protection)) Reason.protection_changed)
  let late = is_empty found && not (contains (map entry_id scope.allowed) m.provider_message_id)
  ok (if late then Reason.keep_latest ∷ [] else found)

-- The reasons that a member, still eligible before, is removed for; none keeps it.
unfoldable pub revalidation_reasons :
    CompositionIndex → CleanupPlan → Scope → Member → Result (List Reason)
revalidation_reasons index plan scope m =
    if not scope.current
    then ok (Reason.scope_changed ∷ [])
    else elim (find_entry m.provider_message_id index.entries) [
      | none ↦ ok (Reason.missing_after_creation ∷ [])
      | some e ↦ present_reasons plan scope m e
    ]

unfoldable pub removal_of : ℕ → ℕ → Member → List Reason → Result (List Removal)
removal_of revision now m reasons = if is_empty reasons then ok [] else do
  let r : Removal = record {
    provider_message_id = m.provider_message_id;
    message_id = m.message_id;
    revision = revision;
    recorded_at = now;
    reason_codes = ordered_reasons reasons;
  }
  check (removal_ok r)
  ok (r ∷ [])

-- The loop over the members that are still eligible.
unfoldable pub new_removals :
    CompositionIndex → CleanupPlan → Scope → ℕ → ℕ → List Member → Result (List Removal)
new_removals index plan scope revision now [] = ok []
new_removals index plan scope revision now (m ∷ ms) = do
  reasons ← revalidation_reasons index plan scope m
  here ← removal_of revision now m reasons
  later ← new_removals index plan scope revision now ms
  ok (here ++ later)

-- The type and the state of the event, from the number of removals and of members left.
unfoldable pub revalidation_outcome : PlanState → ℕ → ℕ → EventType × PlanState
revalidation_outcome before removed remaining =
    if eqb removed 0
    then (EventType.revalidated, before)
    else if not (eqb remaining 0)
    then (EventType.reduced, PlanState.reduced)
    else (EventType.invalidated, PlanState.invalidated)

unfoldable pub revalidation_event : CompositionIndex → CleanupPlan → ℕ → List Removal → Event
revalidation_event index plan now removals =
    let removed = length removals in
    let remaining = length (eligible_members plan) - removed in
    let (type, state) = revalidation_outcome (persisted_state plan) removed remaining in
    record {
      revision = plan_revision plan + 1;
      type = type;
      recorded_at = now;
      state = state;
      observed = some (record {
        map_revision = index.projection.map_revision;
        policy_revision = index.projection.policy_revision;
      });
      removed_count = removed;
      remaining_count = remaining;
    }

-- `replace(plan, events=..., removals=...)`, which runs the checks of the constructor again.
unfoldable pub append_event : CleanupPlan → Event → List Removal → Result CleanupPlan
append_event plan event removals = do
  check (event_ok event)
  make_plan
      (record plan { events = plan.events ++ event ∷ []; removals = plan.removals ++ removals })

-- `prepare_cleanup_plan_revalidation`
unfoldable pub revalidate_plan :
    Platform
    → Composition
    → CleanupPlan
    → RevalidateCommand
    → ℕ
    → Result (CleanupPlan × Event × List Removal × Receipt)
revalidate_plan platform composition plan command now = do
  require_active plan command.expected_plan_revision now
  index ← index_composition composition
  require (index.account_key == plan.account_key) account_unavailable
  require (command.expected_map_revision == index.projection.map_revision) map_revision_conflict
  require (eqb command.expected_policy_revision index.projection.policy_revision)
      policy_revision_conflict
  catalog ← build_catalog platform index
  scope ← scope_of platform index catalog plan
  removals ← new_removals index plan scope (plan_revision plan + 1) now (eligible_members plan)
  let event = revalidation_event index plan now removals
  updated ← append_event plan event removals
  ok (
    updated,
    event,
    removals,
    record {
      command_id = command.command_id;
      request_fingerprint = platform.revalidate_fingerprint command plan.plan_id;
      status = CommandStatus.revalidated;
      replayed = false;
      command_revision = plan_revision plan + 1;
      plan_id = plan.plan_id;
      removed_count = some (length removals);
    },
  )

unfoldable pub cancellation_event : CleanupPlan → ℕ → Event
cancellation_event plan now = record {
  revision = plan_revision plan + 1;
  type = EventType.cancelled;
  recorded_at = now;
  state = PlanState.cancelled;
  observed = none;
  removed_count = 0;
  remaining_count = current_eligible_count plan;
}

-- `prepare_cleanup_plan_cancellation`
unfoldable pub cancel_plan :
    Platform → CleanupPlan → CancelCommand → ℕ → Result (CleanupPlan × Event × Receipt)
cancel_plan platform plan command now = do
  require_active plan command.expected_plan_revision now
  let event = cancellation_event plan now
  updated ← append_event plan event []
  ok (
    updated,
    event,
    record {
      command_id = command.command_id;
      request_fingerprint = platform.cancel_fingerprint command plan.plan_id;
      status = CommandStatus.cancelled;
      replayed = false;
      command_revision = plan_revision plan + 1;
      plan_id = plan.plan_id;
      removed_count = none;
    },
  )

-- `cleanup_member_current_state`, for a member of the plan.
unfoldable pub member_current_state : CleanupPlan → Member → CurrentState
member_current_state plan m =
    if not (is_selected m.initial_state)
    then CurrentState.excluded
    else if is_removed plan.removals m.message_id
    then CurrentState.removed
    else CurrentState.eligible

-- `next(item for item in removals if item.message_id == message_id)`
unfoldable pub find_removal : String → List Removal → Option Removal
find_removal k [] = none
find_removal k (r ∷ rs) = if r.message_id == k then some r else find_removal k rs

unfoldable pub reasons_in : CurrentState → CleanupPlan → Member → List Reason
unfolding find_removal
reasons_in CurrentState.excluded plan m = m.reason_codes
reasons_in CurrentState.removed plan m = elim (find_removal m.message_id plan.removals) [
  | none ↦ []
  | some r ↦ r.reason_codes
]
reasons_in CurrentState.eligible plan m = []

-- `cleanup_member_reason_codes`, for a member of the plan.
unfoldable pub member_reason_codes : CleanupPlan → Member → List Reason
unfolding reasons_in
member_reason_codes plan m = reasons_in (member_current_state plan m) plan m
