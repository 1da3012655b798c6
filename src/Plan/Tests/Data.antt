-- ===== src/Plan/Tests/Data.antt =====
-- A small account: three messages, its plan, and the commands on it.
use mailcleanup.Prelude.{ℕ, ◌+◌, ◌*◌, Bool, true, false, List, [], ◌∷◌, some, none, String}
use mailcleanup.Plan.Reasons.{Reason, ProtectionReason}
use mailcleanup.Plan.Model.{
  validity, Disposition, PlanState, ReadState, TargetKind, InitialState, SampleKind, EventType,
  CommandStatus, TemporalFilter, Selection, CreateCommand, RevalidateCommand, CancelCommand, Member,
  Removal, Sample, Observed, Event, Receipt, CleanupPlan, source_snapshot,
}
use mailcleanup.Plan.Composition.{
  IndexedRecord, EffectiveMessage, ClassifiedMessage, Projection, Composition, Entry,
  CompositionIndex,
}
use mailcleanup.Plan.Catalog.{Platform, CatalogItem, source_item, flow_item, label_item}
use mailcleanup.Plan.Revise.{cancellation_event, Scope}
use mailcleanup.Plan.Ledger.{appended}

abbrev pub platform : Platform
platform = record {
  strip = λ s. s;
  casefold = λ s. s;
  message_digest = λ a m. m;
  sender_digest = λ a s. s;
  label_digest = λ a l. l;
  selector_digest = λ s. s;
  create_fingerprint = λ c. "create";
  revalidate_fingerprint = λ c p. "revalidate";
  cancel_fingerprint = λ c p. "cancel";
  civil_midnight = λ d. some (d * validity);
  local_date = λ t. 20000;
}

abbrev pub message : String → List String → ℕ → IndexedRecord
message id labels time = record {
  account_key = "account";
  provider_message_id = id;
  received_at = time;
  sender_name = none;
  sender_address = none;
  subject = some "Boletín";
  label_ids = labels;
  size_estimate_bytes = 1000;
}

abbrev pub judgement : String → List ProtectionReason → Bool → EffectiveMessage
judgement id reasons protected = record {
  provider_message_id = id;
  effective_source_id = "source";
  effective_flow_id = "flow";
  is_protected = protected;
  review_required = false;
  hard_excluded = false;
  protection_reasons = reasons;
}

abbrev pub projection : Projection
projection = record {
  map_revision = "map";
  policy_revision = 7;
  sources =
      record {
        id = "source";
        display_name = "Tienda";
        message_count = 3;
        flows = record { id = "flow"; display_name = "Ofertas"; message_count = 3 } ∷ [];
      }
      ∷ [];
}

abbrev pub classified : String → ClassifiedMessage
classified id = record { provider_message_id = id; source_id = "source" }

-- Three messages of one flow: a newer and an older one, and one that is starred.
abbrev pub composition : Composition
composition = record {
  projection = projection;
  records =
      message "a" ("INBOX" ∷ []) 300
      ∷ message "b" ("INBOX" ∷ []) 200
      ∷ message "c" ("STARRED" ∷ []) 100
      ∷ [];
  classification_account = some "account";
  classified_messages = classified "a" ∷ classified "b" ∷ classified "c" ∷ [];
  classified_sources = record { source_id = "source"; sender_addresses = [] } ∷ [];
  effective_account = "account";
  effective_messages =
      judgement "a" [] false
      ∷ judgement "b" [] false
      ∷ judgement "c" (ProtectionReason.starred ∷ []) true
      ∷ [];
  source_selectors = ("source", "sender") ∷ [];
  flow_selectors = ("flow", "list") ∷ [];
}

abbrev pub create : ℕ → CreateCommand
create keep = record {
  command_id = "one";
  expected_map_revision = "map";
  expected_policy_revision = 7;
  disposition = Disposition.archive;
  targets = record { kind = TargetKind.source; target_id = "source" } ∷ [];
  temporal_filter = TemporalFilter.all;
  read_state = ReadState.any;
  excluded_label_ids = [];
  keep_latest_per_flow = keep;
}

abbrev pub observed : Observed
observed = record { map_revision = "map"; policy_revision = 7 }

abbrev pub member : String → InitialState → ℕ → List Reason → Member
member id state time reasons = record {
  provider_message_id = id;
  message_id = id;
  initial_state = state;
  received_at = time;
  size_estimate_bytes = 1000;
  source_id = "source";
  flow_id = "flow";
  read_state = ReadState.read;
  reason_codes = reasons;
}

abbrev pub preview : SampleKind → ℕ → Member → Sample
preview kind position m = record {
  kind = kind;
  position = position;
  message_id = m.message_id;
  received_at = m.received_at;
  sender_name = none;
  sender_address = none;
  subject = some "Boletín";
  size_estimate_bytes = 1000;
  source_id = "source";
  flow_id = "flow";
  read_state = ReadState.read;
  exclusion_reasons = m.reason_codes;
}

abbrev pub selection : ℕ → Selection
selection keep = record {
  disposition = Disposition.archive;
  targets = record { kind = TargetKind.source; target_id = "source" } ∷ [];
  target_snapshots = source_snapshot "source" "Tienda" "sender" ∷ [];
  temporal_filter = record { requested = TemporalFilter.all; on_or_after = none; before = none };
  read_state = ReadState.any;
  excluded_label_ids = [];
  excluded_label_snapshots = [];
  keep_latest_per_flow = keep;
}

abbrev pub member_a : Member
member_a = member "a" InitialState.selected 300 []

abbrev pub member_b : Member
member_b = member "b" InitialState.selected 200 []

abbrev pub member_c : Member
member_c = member "c" InitialState.excluded 100 (Reason.starred ∷ [])

abbrev pub frozen_event : Event
frozen_event = record {
  revision = 1;
  type = EventType.created;
  recorded_at = 1000;
  state = PlanState.frozen;
  observed = some observed;
  removed_count = 0;
  remaining_count = 2;
}

abbrev pub plan : CleanupPlan
plan = record {
  account_key = "account";
  plan_id = "plan";
  selection = selection 0;
  created_from_input_revision = "input";
  created_from = observed;
  created_at = 1000;
  expires_at = 1000 + validity;
  members = member_a ∷ member_b ∷ member_c ∷ [];
  samples =
      preview SampleKind.included 0 member_a
      ∷ preview SampleKind.included 1 member_b
      ∷ preview SampleKind.excluded 0 member_c
      ∷ [];
  events = frozen_event ∷ [];
  removals = [];
}

abbrev pub created_receipt : Receipt
created_receipt = record {
  command_id = "one";
  request_fingerprint = "create";
  status = CommandStatus.created;
  replayed = false;
  command_revision = 1;
  plan_id = "plan";
  removed_count = none;
}

-- Later the second message is starred too.
abbrev pub later : Composition
later = record composition {
  projection = record projection { map_revision = "map2" };
  effective_messages =
      judgement "a" [] false
      ∷ judgement "b" (ProtectionReason.starred ∷ []) true
      ∷ judgement "c" (ProtectionReason.starred ∷ []) true
      ∷ [];
}

abbrev pub revalidate : RevalidateCommand
revalidate = record {
  command_id = "two";
  expected_plan_revision = 1;
  expected_map_revision = "map2";
  expected_policy_revision = 7;
}

abbrev pub removal_b : Removal
removal_b = record {
  provider_message_id = "b";
  message_id = "b";
  revision = 2;
  recorded_at = 2000;
  reason_codes = Reason.starred ∷ Reason.protection_changed ∷ [];
}

abbrev pub reduced_event : Event
reduced_event = record {
  revision = 2;
  type = EventType.reduced;
  recorded_at = 2000;
  state = PlanState.reduced;
  observed = some (record { map_revision = "map2"; policy_revision = 7 });
  removed_count = 1;
  remaining_count = 1;
}

abbrev pub reduced_plan : CleanupPlan
reduced_plan = record plan { events = frozen_event ∷ reduced_event ∷ []; removals = removal_b ∷ [] }

abbrev pub revalidated_receipt : Receipt
revalidated_receipt = record {
  command_id = "two";
  request_fingerprint = "revalidate";
  status = CommandStatus.revalidated;
  replayed = false;
  command_revision = 2;
  plan_id = "plan";
  removed_count = some 1;
}

abbrev pub cancel : CancelCommand
cancel = record { command_id = "three"; expected_plan_revision = 1 }

abbrev pub cancelled_plan : CleanupPlan
cancelled_plan = appended plan (cancellation_event plan 3000) []

abbrev pub later_cancel : CancelCommand
later_cancel = record { command_id = "four"; expected_plan_revision = 2 }

abbrev pub entry : String → List String → ℕ → List ProtectionReason → Bool → Entry
entry id labels time reasons protected = record {
  indexed = message id labels time;
  effective = judgement id reasons protected;
  sender_addresses = [];
}

abbrev pub index : CompositionIndex
index = record {
  account_key = "account";
  projection = projection;
  entries =
      entry "a" ("INBOX" ∷ []) 300 [] false
      ∷ entry "b" ("INBOX" ∷ []) 200 [] false
      ∷ entry "c" ("STARRED" ∷ []) 100 (ProtectionReason.starred ∷ []) true
      ∷ [];
  source_selectors = ("source", "sender") ∷ [];
  flow_selectors = ("flow", "list") ∷ [];
}

abbrev pub whole : Scope
whole = record { current = true; universe = index.entries; allowed = [] }

-- A revalidation without news, with the catalog and the scope that it computes.
abbrev pub recheck : RevalidateCommand
recheck = record revalidate { expected_map_revision = "map" }

abbrev pub catalog : List CatalogItem
catalog =
    source_item "source" "Tienda" 3 "sender"
    ∷ flow_item "flow" "source" "Ofertas" 3 "list"
    ∷ label_item "INBOX" "Recibidos" "INBOX" 2
    ∷ []

abbrev pub scope : Scope
scope = record {
  current = true;
  universe = index.entries;
  allowed = entry "a" ("INBOX" ∷ []) 300 [] false ∷ entry "b" ("INBOX" ∷ []) 200 [] false ∷ [];
}
