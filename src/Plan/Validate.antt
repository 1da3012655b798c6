-- ===== src/Plan/Validate.antt =====
-- The `__post_init__` of members, removals, events and plans in
-- src/mailmap/cleanup_plan_model.py: what a constructor accepts. The shapes of identifiers and the
-- Python types of fields are left to the types.
use mailcleanup.Prelude.{
  ℕ, suc, ◌+◌, Bool, true, false, not, ◌&&◌, ◌||◌, String, ◌==◌, Option, none, some, List, [], ◌∷◌,
  map, eqb, ltb, leb, length, all, distinct, is_ascending, if◌then◌else◌,
}
use mailcleanup.Plan.Reasons.{is_empty, creation_reasons_ok, removal_reasons_ok}
use mailcleanup.Plan.Model.{
  PlanState, EventType, Member, Removal, Event, Observed, CleanupPlan, validity, is_selected,
  max_considered_messages, max_message_size, max_aggregate_size, latest, persisted_state,
  selected_at_creation_count, current_eligible_count, current_eligible_size, selected_size,
  excluded_size,
}
use mailcleanup.Plan.Equality.{is_any, same_state, is_terminal, same_observed}

unfoldable pub member_ok : Member → Bool
member_ok m =
    leb m.size_estimate_bytes max_message_size
    && not (is_any m.read_state)
    && creation_reasons_ok m.reason_codes
    && (if is_selected m.initial_state
        then is_empty m.reason_codes
        else not (is_empty m.reason_codes))

unfoldable pub removal_ok : Removal → Bool
removal_ok r = leb 2 r.revision && removal_reasons_ok r.reason_codes

unfoldable pub is_expired : PlanState → Bool
is_expired PlanState.expired = true
is_expired _ = false

unfoldable pub is_some : Option Observed → Bool
is_some none = false
is_some (some _) = true

-- The last `if`/`elif` of `CleanupPlanEvent.__post_init__`, by the type of the event.
unfoldable pub event_type_ok : EventType → Event → Bool
event_type_ok EventType.created e =
    eqb e.revision 1
    && eqb e.removed_count 0
    && (if same_state e.state PlanState.frozen
        then ltb 0 e.remaining_count
        else same_state e.state PlanState.invalidated && eqb e.remaining_count 0)
event_type_ok EventType.revalidated e =
    (same_state e.state PlanState.frozen || same_state e.state PlanState.reduced)
    && eqb e.removed_count 0
    && not (eqb e.remaining_count 0)
event_type_ok EventType.reduced e =
    same_state e.state PlanState.reduced
    && not (eqb e.removed_count 0)
    && not (eqb e.remaining_count 0)
event_type_ok EventType.invalidated e =
    same_state e.state PlanState.invalidated
    && not (eqb e.removed_count 0)
    && eqb e.remaining_count 0
event_type_ok EventType.cancelled e =
    same_state e.state PlanState.cancelled && eqb e.removed_count 0 && not (eqb e.remaining_count 0)

unfoldable pub is_cancelled : EventType → Bool
is_cancelled EventType.cancelled = true
is_cancelled _ = false

unfoldable pub event_ok : Event → Bool
unfolding is_expired is_some event_type_ok is_cancelled same_state
event_ok e =
    leb 1 e.revision
    && not (is_expired e.state)
    && (if is_cancelled e.type then not (is_some e.observed) else is_some e.observed)
    && event_type_ok e.type e

-- `tuple(item.revision for item in events) == tuple(range(first, ...))`
unfoldable pub revisions_from : ℕ → List Event → Bool
revisions_from n [] = true
revisions_from n (e ∷ es) = eqb e.revision n && revisions_from (suc n) es

-- The transition from one event of the ledger to the next.
unfoldable pub transition_type_ok : EventType → Event → Event → Bool
transition_type_ok EventType.created p c = false
transition_type_ok EventType.revalidated p c =
    same_state c.state p.state && eqb c.remaining_count p.remaining_count
transition_type_ok EventType.cancelled p c = eqb c.remaining_count p.remaining_count
transition_type_ok _ p c = eqb (c.remaining_count + c.removed_count) p.remaining_count

unfoldable pub transition_ok : Event → Event → Bool
unfolding transition_type_ok same_state
transition_ok p c =
    not (is_terminal p.state) && leb p.recorded_at c.recorded_at && transition_type_ok c.type p c

-- `for previous, current in zip(self.events, self.events[1:])`
unfoldable pub transitions_ok : Event → List Event → Bool
transitions_ok p [] = true
transitions_ok p (c ∷ cs) = transition_ok p c && transitions_ok c cs

unfoldable pub in_window : CleanupPlan → Event → Bool
in_window plan e = leb plan.created_at e.recorded_at && ltb e.recorded_at plan.expires_at

unfoldable pub is_created : EventType → Bool
is_created EventType.created = true
is_created _ = false

unfoldable pub first_ok : CleanupPlan → List Event → Bool
unfolding is_created
first_ok plan [] = false
first_ok plan (e ∷ es) =
    is_created e.type
    && eqb e.recorded_at plan.created_at
    && same_observed e.observed plan.created_from
    && eqb e.remaining_count (selected_at_creation_count plan)
    && transitions_ok e es

-- The event ledger of a plan: complete revisions, a first event that matches the header, times
-- within the validity, and legal transitions.
unfoldable pub ledger_ok : CleanupPlan → Bool
unfolding first_ok
ledger_ok plan =
    revisions_from 1 plan.events && first_ok plan plan.events && all (in_window plan) plan.events

-- `members_by_message_id.get(message_id)`
unfoldable pub find_member : String → List Member → Option Member
find_member k [] = none
find_member k (m ∷ ms) = if m.message_id == k then some m else find_member k ms

-- `events[revision - 1].recorded_at == recorded_at`, with `revision <= len(events)`.
unfoldable pub recorded_in : List Event → Removal → Bool
recorded_in [] r = false
recorded_in (e ∷ es) r =
    eqb e.revision r.revision && eqb e.recorded_at r.recorded_at || recorded_in es r

unfoldable pub member_matches : Option Member → Removal → Bool
member_matches none r = false
member_matches (some m) r =
    is_selected m.initial_state && r.provider_message_id == m.provider_message_id

unfoldable pub removal_matches : CleanupPlan → Removal → Bool
unfolding member_matches
removal_matches plan r =
    member_matches (find_member r.message_id plan.members) r && recorded_in plan.events r

-- `sum(removal.revision == event.revision for removal in removals)`
unfoldable pub removed_at : List Removal → ℕ → ℕ
removed_at [] n = 0
removed_at (r ∷ rs) n = let rest = removed_at rs n in if eqb r.revision n then suc rest else rest

abbrev pub removal_ids : List Removal → List String
removal_ids rs = map (λ r. r.message_id) rs

unfoldable pub removals_ok : CleanupPlan → Bool
removals_ok plan =
    distinct (removal_ids plan.removals)
    && all (removal_matches plan) plan.removals
    && all (λ e. eqb e.removed_count (removed_at plan.removals e.revision)) plan.events

-- What the persisted state says of the removals and of what is left.
unfoldable pub state_ok : CleanupPlan → Bool
state_ok plan =
    eqb (latest plan).remaining_count (current_eligible_count plan)
    && (if same_state (persisted_state plan) PlanState.frozen
        then eqb (length plan.removals) 0
        else if same_state (persisted_state plan) PlanState.reduced
        then not (eqb (length plan.removals) 0) && not (eqb (current_eligible_count plan) 0)
        else if same_state (persisted_state plan) PlanState.invalidated
        then eqb (current_eligible_count plan) 0
        else true)

unfoldable pub sizes_ok : CleanupPlan → Bool
sizes_ok plan =
    leb (selected_size plan.members) max_aggregate_size
    && leb (excluded_size plan.members) max_aggregate_size
    && leb (current_eligible_size plan) max_aggregate_size

unfoldable pub header_ok : CleanupPlan → Bool
header_ok plan =
    eqb plan.expires_at (plan.created_at + validity)
    && not (eqb (length plan.members) 0)
    && leb (length plan.members) max_considered_messages
    && distinct (map (λ m. m.message_id) plan.members)
    && is_ascending (map (λ m. m.message_id) plan.members)
    && distinct (map (λ m. m.provider_message_id) plan.members)
