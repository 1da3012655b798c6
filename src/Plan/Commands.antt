-- ===== src/Plan/Commands.antt =====
-- `cancel_plan` and `revalidate_plan` on a plan that its constructor accepted.
use mailcleanup.Prelude.{ℕ, ◌+◌, ◌≤◌, ◌<◌, true, List, [], ◌≡◌, refl, sym, subst, length}
use mailcleanup.Plan.Model.{
  Event, Removal, CleanupPlan, CancelCommand, RevalidateCommand, Receipt, latest, plan_revision,
  persisted_state, eligible_members,
}
use mailcleanup.Plan.Ledger.{appended}
use mailcleanup.Plan.Removed.{Picked}
use mailcleanup.Plan.Result.{ok}
use mailcleanup.Plan.Composition.{Composition}
use mailcleanup.Plan.Catalog.{Platform}
use mailcleanup.Plan.Revise.{append_event, cancellation_event, cancel_plan, revalidate_plan}
use mailcleanup.Plan.Active.{IsValid, is_active, require_active-active}
use mailcleanup.Plan.Preservation.{IsOutcome, append_event-ok, IsValid-append}
use mailcleanup.Plan.Outcomes.{new_removals-Picked, cancellation-IsOutcome, revalidation-IsOutcome}
use mailcleanup.Plan.Inversion.{cancellation_receipt, revalidate_plan-inv}

module _ (platform : Platform) (plan : CleanupPlan) (now : ℕ) (valid : IsValid plan)
    (clock : (latest plan).recorded_at ≤ now) where
  -- Cancelling a valid active plan at its revision, before its end and not before its latest event,
  -- succeeds: the ledger gets the
  -- cancellation event, no removal is added, and the plan is valid again.
  pub cancel_plan-active :
      (command : CancelCommand)
      → is_active (persisted_state plan) ≡ true
      → now < plan.expires_at
      → command.expected_plan_revision ≡ plan_revision plan
      → let e = cancellation_event plan now in
        ((r : Receipt) × (cancel_plan platform plan command now ≡ ok (appended plan e [], e, r)))
        × IsValid (appended plan e [])
  unfolding cancel_plan
  cancel_plan-active command active in_time expected =
      let e = cancellation_event plan now in
      let outcome = cancellation-IsOutcome plan valid now active in_time clock in
      let made = append_event-ok plan valid e [] outcome in
      let guard =
        require_active-active plan command.expected_plan_revision now active in_time expected in
      let result : cancel_plan platform plan command now
          ≡ ok (appended plan e [], e, cancellation_receipt platform plan command) =
        rw (guard, made) refl in
      ((cancellation_receipt platform plan command, result), IsValid-append plan valid e [] outcome)

  -- A revalidation that succeeds on a valid plan, not before its latest event, gives a valid plan:
  -- the old one with one event at the next revision and the new removals appended. The removals are
  -- of eligible members, and the event's remaining count is what they leave.
  pub revalidate_plan-IsValid :
      (composition : Composition) (command : RevalidateCommand) {updated : CleanupPlan} {e : Event}
      {new : List Removal} {r : Receipt}
      → revalidate_plan platform composition plan command now ≡ ok (updated, e, new, r)
      → IsValid updated
        × (updated ≡ appended plan e new)
        × (e.revision ≡ plan_revision plan + 1)
        × (e.remaining_count + length new ≡ length (eligible_members plan))
        × Picked (plan_revision plan + 1) now (eligible_members plan) new
  revalidate_plan-IsValid composition command {updated} {e} {new} {r} h =
      let v = revalidate_plan-inv platform composition plan command now h in
      let p =
        new_removals-Picked v.index plan v.scope (plan_revision plan + 1) now
          (eligible_members plan) v.removals in
      let outcome =
        subst (λ z. IsOutcome plan z new) (sym v.event)
          (revalidation-IsOutcome plan valid now v.is_active_before v.in_time clock v.index new
            p) in
      let made : append_event plan e new ≡ ok updated =
        subst (λ z. append_event plan z new ≡ ok updated) (sym v.event) v.built in
      let same : updated ≡ appended plan e new =
        cc (made, append_event-ok plan valid e new outcome) in
      (
        subst IsValid (sym same) (IsValid-append plan valid e new outcome),
        same,
        outcome.next.revision,
        outcome.left,
        p,
      )
