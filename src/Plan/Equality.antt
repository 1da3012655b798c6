-- ===== src/Plan/Equality.antt =====
-- `is` on the closed vocabularies of the plan, and `==` on what a sample repeats of its member.
use mailcleanup.Prelude.{Bool, true, false, ◌&&◌, List, [], ◌∷◌, Option, none, some, ◌==◌, eqb}
use mailcleanup.Plan.Reasons.{Reason, same_reason}
use mailcleanup.Plan.Model.{PlanState, ReadState, TargetKind, SampleKind, Observed}

abbrev pub is_any : ReadState → Bool
is_any ReadState.any = true
is_any _ = false

unfoldable pub same_read : ReadState → ReadState → Bool
same_read ReadState.any ReadState.any = true
same_read ReadState.read ReadState.read = true
same_read ReadState.unread ReadState.unread = true
same_read _ _ = false

unfoldable pub same_state : PlanState → PlanState → Bool
same_state PlanState.frozen PlanState.frozen = true
same_state PlanState.reduced PlanState.reduced = true
same_state PlanState.invalidated PlanState.invalidated = true
same_state PlanState.cancelled PlanState.cancelled = true
same_state PlanState.expired PlanState.expired = true
same_state _ _ = false

unfoldable pub same_kind : TargetKind → TargetKind → Bool
same_kind TargetKind.source TargetKind.source = true
same_kind TargetKind.flow TargetKind.flow = true
same_kind TargetKind.sender TargetKind.sender = true
same_kind TargetKind.label TargetKind.label = true
same_kind _ _ = false

unfoldable pub same_sample_kind : SampleKind → SampleKind → Bool
same_sample_kind SampleKind.included SampleKind.included = true
same_sample_kind SampleKind.excluded SampleKind.excluded = true
same_sample_kind _ _ = false

-- `state in (CANCELLED, INVALIDATED)`
abbrev pub is_terminal : PlanState → Bool
is_terminal PlanState.cancelled = true
is_terminal PlanState.invalidated = true
is_terminal _ = false

unfoldable pub same_reasons : List Reason → List Reason → Bool
same_reasons [] [] = true
same_reasons (x ∷ xs) (y ∷ ys) = same_reason x y && same_reasons xs ys
same_reasons _ _ = false

unfoldable pub same_observed : Option Observed → Observed → Bool
same_observed none _ = false
same_observed (some o) p =
    o.map_revision == p.map_revision && eqb o.policy_revision p.policy_revision
