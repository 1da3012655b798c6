-- ===== src/Plan/Tests/Examples.antt =====
-- The theorems on plans, applied to the runs.
use mailcleanup.Prelude.{
  false, ◌+◌, ◌≤◌, List, [], ◌∷◌, ◌≡◌, ◌≢◌, refl, In, inl, arith, filter, any as any_of, length,
  distinct, contains, inr,
}
use mailcleanup.Plan.MemberReasons.{is_eligible_state, member_reason_codes-is_empty}
use mailcleanup.Plan.Newest.{quota_allowed-newest}
use mailcleanup.Plan.Completeness.{revalidate_plan-active}
use mailcleanup.Plan.Quota.{quota_allowed-le}
use mailcleanup.Plan.Reasons.{Reason, has_reason, ordered_reasons, is_empty}
use mailcleanup.Plan.Model.{
  validity, PlanState, Receipt, last_event, plan_revision, persisted_state, selected_size,
  current_eligible_count, is_removed, eligible_members, current_eligible_size, CleanupPlan, Event,
  Removal,
}
use mailcleanup.Plan.Result.{value_error, err, ErrorCode, ok}
use mailcleanup.Plan.Composition.{Entry}
use mailcleanup.Plan.Select.{quota_allowed, in_flow}
use mailcleanup.Plan.Revise.{
  removal_of, revalidate_plan, cancellation_event, cancel_plan, member_reason_codes,
  member_current_state,
}
use mailcleanup.Plan.Contract.{contractual_order, ordered_reasons-filter}
use mailcleanup.Plan.RemovalCodes.{removal_of-ne-value_error}
use mailcleanup.Plan.Sizes.{removed_size, current_eligible_size_exact}
use mailcleanup.Plan.Ledger.{appended}
use mailcleanup.Plan.Removed.{Picked}
use mailcleanup.Plan.Active.{IsValid, is_active, current_eligible_count_exact}
use mailcleanup.Plan.Commands.{cancel_plan-active, revalidate_plan-IsValid}
use mailcleanup.Plan.Inversion.{IsRevalidation}
use mailcleanup.Plan.Kept.{StillPasses, revalidate_plan-keeps}
use mailcleanup.Plan.Refusals.{terminal_refuses, expired_refuses}
use mailcleanup.Plan.Trace.{start, Reach-IsValid, eligible_shrinks, terminal_absorbs, reduced_stays}
use mailcleanup.Plan.Selected.{IsMemberOf}
use mailcleanup.Plan.Creation.{IsCreation, create_plan-selects}
use mailcleanup.Plan.Tests.Data.{
  platform, composition, create, member_a, plan, later, revalidate, removal_b, reduced_event,
  reduced_plan, cancel, cancelled_plan, index, whole, selection, entry, catalog, scope, recheck,
  member_b,
}
use mailcleanup.Plan.Tests.Runs.{
  created, plan-IsValid, run_revalidate, path_to_reduced, reduced-IsValid, reduced_cancelled,
  indexed, keep_latest_found, newest_allowed, listed, scoped, consistent, plain_b,
  member_b_accepted, removals_accepted,
}

revalidate_plan-IsValid_example :
    IsValid reduced_plan
    × (reduced_plan ≡ appended plan reduced_event (removal_b ∷ []))
    × (reduced_event.revision ≡ plan_revision plan + 1)
    × (reduced_event.remaining_count + length (removal_b ∷ []) ≡ length (eligible_members plan))
    × Picked (plan_revision plan + 1) 2000 (eligible_members plan) (removal_b ∷ [])
unfolding last_event
revalidate_plan-IsValid_example =
    revalidate_plan-IsValid platform plan 2000 plan-IsValid (omega arith) later revalidate
      run_revalidate

revalidate_plan-keeps_example :
    (v : IsRevalidation platform later plan revalidate 2000 reduced_plan reduced_event
      (removal_b ∷ []))
    × In member_a (eligible_members plan)
    × StillPasses v.index plan v.scope member_a
unfolding last_event filter is_removed any_of
revalidate_plan-keeps_example =
    revalidate_plan-keeps platform later plan revalidate 2000 plan-IsValid (omega arith)
      run_revalidate member_a (inl refl)

create_plan-selects_example :
    IsValid plan
    × (plan_revision plan ≡ 1)
    × (c : IsCreation platform composition (create 0) 1000 plan) × (allowed : List Entry)
    × (quota_allowed plan.selection c.made.universe ≡ ok allowed)
    × IsMemberOf plan.selection allowed c.made.universe member_a
create_plan-selects_example =
    create_plan-selects platform composition (create 0) "plan" 1000 "input" created member_a
      (inl refl)

cancel_plan-active_example :
    ((r : Receipt) × (cancel_plan platform plan cancel 3000
        ≡ ok (cancelled_plan, cancellation_event plan 3000, r)))
    × IsValid cancelled_plan
unfolding last_event is_active
cancel_plan-active_example =
    cancel_plan-active platform plan 3000 plan-IsValid (omega arith) cancel refl (omega arith) refl

Reach-IsValid_example :
    IsValid reduced_plan
    × (reduced_plan.members ≡ plan.members)
    × (reduced_plan.selection ≡ plan.selection)
    × (reduced_plan.expires_at ≡ plan.expires_at)
    × (plan_revision plan ≤ plan_revision reduced_plan)
    × (length plan.removals ≤ length reduced_plan.removals)
Reach-IsValid_example = Reach-IsValid platform path_to_reduced plan-IsValid

eligible_shrinks_example : In member_a (eligible_members plan)
unfolding filter is_removed any_of
eligible_shrinks_example =
    eligible_shrinks platform path_to_reduced plan-IsValid member_a (inl refl)

terminal_absorbs_example : cancelled_plan ≡ cancelled_plan
unfolding last_event cancellation_event
terminal_absorbs_example = terminal_absorbs platform start refl

reduced_stays_example :
    persisted_state (appended reduced_plan (cancellation_event reduced_plan 3000) [])
    ≢ PlanState.frozen
unfolding last_event
reduced_stays_example = reduced_stays platform reduced_cancelled reduced-IsValid refl

terminal_refuses_example :
    (revalidate_plan platform later cancelled_plan revalidate 4000
      ≡ err ErrorCode.invalid_transition)
    × (cancel_plan platform cancelled_plan cancel 4000 ≡ err ErrorCode.invalid_transition)
unfolding last_event cancellation_event
terminal_refuses_example =
    terminal_refuses platform later cancelled_plan revalidate cancel 4000 refl

expired_refuses_example :
    (revalidate_plan platform later plan revalidate (1000 + validity) ≡ err ErrorCode.plan_expired)
    × (cancel_plan platform plan cancel (1000 + validity) ≡ err ErrorCode.plan_expired)
unfolding last_event
expired_refuses_example =
    expired_refuses platform later plan revalidate cancel (1000 + validity) refl (omega arith)

current_eligible_count_example :
    current_eligible_count reduced_plan ≡ length (eligible_members reduced_plan)
current_eligible_count_example = current_eligible_count_exact reduced_plan reduced-IsValid

current_eligible_size_example :
    current_eligible_size reduced_plan + removed_size reduced_plan.members reduced_plan.removals
    ≡ selected_size reduced_plan.members
current_eligible_size_example = current_eligible_size_exact reduced_plan reduced-IsValid

ordered_reasons_example :
    ordered_reasons (Reason.protection_changed ∷ Reason.starred ∷ [])
    ≡ filter (has_reason (Reason.protection_changed ∷ Reason.starred ∷ [])) contractual_order
ordered_reasons_example = ordered_reasons-filter (Reason.protection_changed ∷ Reason.starred ∷ [])

removal_of_example : removal_of 2 2000 member_a (Reason.keep_latest ∷ []) ≢ value_error
removal_of_example =
    removal_of-ne-value_error index plan whole member_a 2 2000 (Reason.keep_latest ∷ [])
      (omega arith) keep_latest_found

quota_allowed-le_example : length (in_flow "flow" (entry "a" ("INBOX" ∷ []) 300 [] false ∷ [])) ≤ 1
unfolding distinct contains
quota_allowed-le_example =
    quota_allowed-le (selection 1) index.entries "flow" (omega arith) refl newest_allowed

revalidate_plan-active_example :
    (result : CleanupPlan × Event × List Removal × Receipt) × (revalidate_plan platform composition
        plan recheck 2000
      ≡ ok result)
unfolding last_event is_active
revalidate_plan-active_example =
    revalidate_plan-active platform composition plan recheck 2000 index catalog scope plan-IsValid
      refl (omega arith) (omega arith) refl indexed refl refl refl listed scoped consistent

quota_allowed-newest_example :
    (entry "b" ("INBOX" ∷ []) 200 [] false).indexed.received_at
    ≤ (entry "a" ("INBOX" ∷ []) 300 [] false).indexed.received_at
unfolding distinct contains
quota_allowed-newest_example =
    quota_allowed-newest (selection 1) index.entries (entry "a" ("INBOX" ∷ []) 300 [] false)
      (entry "b" ("INBOX" ∷ []) 200 [] false) (omega arith) refl newest_allowed (inl refl)
      (inr (inl refl)) plain_b refl refl

member_reason_codes-is_empty_example :
    is_empty (member_reason_codes reduced_plan member_b)
    ≡ is_eligible_state (member_current_state reduced_plan member_b)
member_reason_codes-is_empty_example =
    member_reason_codes-is_empty reduced_plan member_b member_b_accepted removals_accepted
