-- ===== src/Plan/Model.antt =====
-- src/mailmap/cleanup_plan_model.py: filters, targets, members, events and the plan itself. Times
-- are UTC instants in microseconds, civil dates are ordinals; both are numbers.
use mailcleanup.Prelude.{
  ℕ, ◌-◌, ◌*◌, Bool, true, false, not, ◌&&◌, String, List, Option, filter, length, sum_of,
  any as any_of, ◌==◌,
}
use mailcleanup.Plan.Reasons.{Reason}

abbrev pub validity : ℕ
validity = 86400 * 1000000

abbrev pub max_considered_messages : ℕ
max_considered_messages = 100000

abbrev pub max_message_size : ℕ
max_message_size = 2147483647

abbrev pub max_aggregate_size : ℕ
max_aggregate_size = 214748364700000

abbrev pub max_included_samples : ℕ
max_included_samples = 5

abbrev pub max_excluded_samples : ℕ
max_excluded_samples = 5

pub data Disposition : Type 0 where
  archive trash : Disposition

pub data StorageEffect : Type 0 where
  none not_guaranteed : StorageEffect

pub data PlanState : Type 0 where
  frozen reduced invalidated cancelled expired : PlanState

pub data ReadState : Type 0 where
  any read unread : ReadState

pub data TargetKind : Type 0 where
  source flow sender label : TargetKind

pub data InitialState : Type 0 where
  selected excluded : InitialState

pub data CurrentState : Type 0 where
  eligible excluded removed : CurrentState

pub data SampleKind : Type 0 where
  included excluded : SampleKind

pub data EventType : Type 0 where
  created revalidated reduced invalidated cancelled : EventType

pub data CommandStatus : Type 0 where
  created revalidated cancelled : CommandStatus

pub data TemporalFilter : Type 0 where
  all : TemporalFilter
  before_date : ℕ → TemporalFilter
  date_range : (on_or_after before : ℕ) → TemporalFilter
  older_than_days : ℕ → TemporalFilter

pub record ResolvedFilter : Type 0 where
  pub requested : TemporalFilter
  pub on_or_after : Option ℕ
  pub before : Option ℕ

pub record Target : Type 0 where
  pub kind : TargetKind
  pub target_id : String

pub data TargetSnapshot : Type 0 where
  source_snapshot : (target_id display_name fingerprint : String) → TargetSnapshot
  flow_snapshot : (target_id display_name fingerprint : String) → TargetSnapshot
  sender_snapshot : (target_id display_address : String) → TargetSnapshot

pub record LabelSnapshot : Type 0 where
  pub label_id : String
  pub display_name : String
  pub provider_label_id : String

pub record Selection : Type 0 where
  pub disposition : Disposition
  pub targets : List Target
  pub target_snapshots : List TargetSnapshot
  pub temporal_filter : ResolvedFilter
  pub read_state : ReadState
  pub excluded_label_ids : List String
  pub excluded_label_snapshots : List LabelSnapshot
  pub keep_latest_per_flow : ℕ

pub record CreateCommand : Type 0 where
  pub command_id : String
  pub expected_map_revision : String
  pub expected_policy_revision : ℕ
  pub disposition : Disposition
  pub targets : List Target
  pub temporal_filter : TemporalFilter
  pub read_state : ReadState
  pub excluded_label_ids : List String
  pub keep_latest_per_flow : ℕ

pub record RevalidateCommand : Type 0 where
  pub command_id : String
  pub expected_plan_revision : ℕ
  pub expected_map_revision : String
  pub expected_policy_revision : ℕ

pub record CancelCommand : Type 0 where
  pub command_id : String
  pub expected_plan_revision : ℕ

pub record Member : Type 0 where
  pub provider_message_id : String
  pub message_id : String
  pub initial_state : InitialState
  pub received_at : ℕ
  pub size_estimate_bytes : ℕ
  pub source_id : String
  pub flow_id : String
  pub read_state : ReadState
  pub reason_codes : List Reason

pub record Removal : Type 0 where
  pub provider_message_id : String
  pub message_id : String
  pub revision : ℕ
  pub recorded_at : ℕ
  pub reason_codes : List Reason

pub record Sample : Type 0 where
  pub kind : SampleKind
  pub position : ℕ
  pub message_id : String
  pub received_at : ℕ
  pub sender_name : Option String
  pub sender_address : Option String
  pub subject : Option String
  pub size_estimate_bytes : ℕ
  pub source_id : String
  pub flow_id : String
  pub read_state : ReadState
  pub exclusion_reasons : List Reason

pub record Observed : Type 0 where
  pub map_revision : String
  pub policy_revision : ℕ

-- `observed` stands for the two observed revisions, which are both present or both absent.
pub record Event : Type 0 where
  pub revision : ℕ
  pub type : EventType
  pub recorded_at : ℕ
  pub state : PlanState
  pub observed : Option Observed
  pub removed_count : ℕ
  pub remaining_count : ℕ

pub record Receipt : Type 0 where
  pub command_id : String
  pub request_fingerprint : String
  pub status : CommandStatus
  pub replayed : Bool
  pub command_revision : ℕ
  pub plan_id : String
  pub removed_count : Option ℕ

pub record CleanupPlan : Type 0 where
  pub account_key : String
  pub plan_id : String
  pub selection : Selection
  pub created_from_input_revision : String
  pub created_from : Observed
  pub created_at : ℕ
  pub expires_at : ℕ
  pub members : List Member
  pub samples : List Sample
  pub events : List Event
  pub removals : List Removal

unfoldable pub storage_effect : Disposition → StorageEffect
storage_effect Disposition.archive = StorageEffect.none
storage_effect Disposition.trash = StorageEffect.not_guaranteed

abbrev pub is_selected : InitialState → Bool
is_selected InitialState.selected = true
is_selected InitialState.excluded = false

-- `events[-1]`; a constructed plan has an event, so the given one is never used.
unfoldable pub last_event : Event → List Event → Event
last_event e List.[] = e
last_event e (List.◌∷◌ f fs) = last_event f fs

abbrev pub blank_event : Event
blank_event = record {
  revision = 0;
  type = EventType.created;
  recorded_at = 0;
  state = PlanState.invalidated;
  observed = Option.none;
  removed_count = 0;
  remaining_count = 0;
}

abbrev pub latest : CleanupPlan → Event
latest plan = last_event blank_event plan.events

abbrev pub plan_revision : CleanupPlan → ℕ
plan_revision plan = (latest plan).revision

abbrev pub persisted_state : CleanupPlan → PlanState
persisted_state plan = (latest plan).state

abbrev pub selected_members : List Member → List Member
selected_members ms = filter (λ m. is_selected m.initial_state) ms

abbrev pub excluded_members : List Member → List Member
excluded_members ms = filter (λ m. not (is_selected m.initial_state)) ms

abbrev pub selected_at_creation_count : CleanupPlan → ℕ
selected_at_creation_count plan = length (selected_members plan.members)

unfoldable pub selected_size : List Member → ℕ
selected_size ms = sum_of (λ m. m.size_estimate_bytes) (selected_members ms)

unfoldable pub excluded_size : List Member → ℕ
excluded_size ms = sum_of (λ m. m.size_estimate_bytes) (excluded_members ms)

-- A constructed plan has at most as many removals as selected members, so `-` is exact.
unfoldable pub current_eligible_count : CleanupPlan → ℕ
current_eligible_count plan = selected_at_creation_count plan - length plan.removals

-- `message_id in already_removed`
unfoldable pub is_removed : List Removal → String → Bool
is_removed removals message_id = any_of (λ r. r.message_id == message_id) removals

-- The members selected at creation that no removal names.
abbrev pub eligible_members : CleanupPlan → List Member
eligible_members plan =
    filter (λ m. is_selected m.initial_state && not (is_removed plan.removals m.message_id))
      plan.members

unfoldable pub current_eligible_size : CleanupPlan → ℕ
current_eligible_size plan = sum_of (λ m. m.size_estimate_bytes) (eligible_members plan)
