-- ===== src/Plan/Preservation.antt =====
-- The commands on an active plan: the constructor accepts what they build.
use mailcleanup.Prelude.{
  ◌+◌, ◌≤◌, true, List, [], ◌∷◌, ◌≡◌, arith, length, all, length-append, all-append,
}
use mailcleanup.Plan.Model.{
  PlanState, Event, Removal, CleanupPlan, blank_event, latest, plan_revision, eligible_members,
  current_eligible_count,
}
use mailcleanup.Plan.Equality.{same_state}
use mailcleanup.Plan.Validate.{
  event_ok, event_type_ok, is_expired, state_ok, header_ok, sizes_ok, is_cancelled, is_some,
}
use mailcleanup.Plan.Counting.{eligible_size-le}
use mailcleanup.Plan.RemovalLedger.{removals-append}
use mailcleanup.Plan.Ledger.{appended, last-append, IsNext, ledger-append}
use mailcleanup.Plan.Removed.{Picked}
use mailcleanup.Plan.Create.{plan_ok, make_plan}
use mailcleanup.Plan.Result.{ok}
use mailcleanup.Plan.Revise.{append_event}
use mailcleanup.Plan.Active.{
  IsValid, ledger_accepted, removals_accepted, members_distinct, eligible_members_count,
}

-- What the event of a command says: it is the next one, it counts the removals, and its state
-- agrees with what is left.
pub record IsOutcome (plan : CleanupPlan) (e : Event) (new : List Removal) : Type 0 where
  pub next : IsNext plan e
  pub accepted : event_ok e ≡ true
  pub counted : e.removed_count ≡ length new
  pub picked : Picked (plan_revision plan + 1) e.recorded_at (eligible_members plan) new
  pub left : e.remaining_count + length new ≡ length (eligible_members plan)
  pub reduced_from :
      same_state e.state PlanState.frozen ≡ true → length plan.removals + length new ≡ 0
  pub reduced_to :
      same_state e.state PlanState.reduced ≡ true → 1 ≤ length plan.removals + length new

module _ (plan : CleanupPlan) (valid : IsValid plan) (e : Event) (new : List Removal)
    (outcome : IsOutcome plan e new) where
  latest-appended : latest (appended plan e new) ≡ e
  latest-appended = last-append blank_event e plan.events

  count_appended : current_eligible_count (appended plan e new) ≡ e.remaining_count
  unfolding current_eligible_count
  count_appended =
      omega
        (arith, length-append plan.removals new, eligible_members_count plan valid, outcome.left)

  state-append : state_ok (appended plan e new) ≡ true
  unfolding state_ok event_ok event_type_ok same_state is_expired is_cancelled is_some
  state-append = ground (
    arith,
    latest-appended,
    count_appended,
    length-append plan.removals new,
    outcome.accepted,
    outcome.reduced_from,
    outcome.reduced_to,
  )

  sizes-append : sizes_ok (appended plan e new) ≡ true
  unfolding plan_ok sizes_ok
  sizes-append = ground (arith, valid.plan_accepted, eligible_size-le (appended plan e new))

  plan-append : plan_ok (appended plan e new) ≡ true
  unfolding plan_ok header_ok
  plan-append = ground (
    arith,
    valid.plan_accepted,
    ledger-append plan e new (ledger_accepted plan valid) outcome.next,
    removals-append plan e new (members_distinct plan valid) (ledger_accepted plan valid)
        (removals_accepted plan valid) outcome.next.revision outcome.counted outcome.picked,
    state-append,
    sizes-append,
  )

  -- The checks of the event and of the plan pass, and the new plan is valid again.
  pub append_event-ok : append_event plan e new ≡ ok (appended plan e new)
  unfolding append_event make_plan
  append_event-ok = ground (arith, outcome.accepted, plan-append)

  pub IsValid-append : IsValid (appended plan e new)
  unfolding all
  IsValid-append = record {
    plan_accepted = plan-append;
    events_accepted =
        ground (
          arith,
          all-append event_ok plan.events (e ∷ []),
          valid.events_accepted,
          outcome.accepted,
        );
  }
