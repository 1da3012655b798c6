-- ===== src/Plan/Refusals.antt =====
-- The commands that a plan refuses, whatever the composition, and with which code.
use mailcleanup.Prelude.{ℕ, ◌≤◌, true, false, ◌≡◌, arith}
use mailcleanup.Plan.Model.{CleanupPlan, CancelCommand, RevalidateCommand, persisted_state}
use mailcleanup.Plan.Equality.{is_terminal}
use mailcleanup.Plan.Result.{err, plan_expired, invalid_transition}
use mailcleanup.Plan.Composition.{Composition}
use mailcleanup.Plan.Catalog.{Platform}
use mailcleanup.Plan.Revise.{
  effective_plan_state, transition_error, require_active, cancel_plan, revalidate_plan,
}

module _ (platform : Platform) (composition : Composition) (plan : CleanupPlan)
    (revalidate : RevalidateCommand) (cancel : CancelCommand) (now : ℕ) where
  -- A cancelled or invalidated plan refuses both commands with INVALID_TRANSITION, also after the
  -- end of its validity.
  pub terminal_refuses :
      is_terminal (persisted_state plan) ≡ true
      → (revalidate_plan platform composition plan revalidate now ≡ err invalid_transition)
        × (cancel_plan platform plan cancel now ≡ err invalid_transition)
  unfolding revalidate_plan cancel_plan require_active transition_error effective_plan_state
  terminal_refuses h = (ground arith, ground arith)

  -- A plan that is not terminal refuses both commands with PLAN_EXPIRED from its end on.
  pub expired_refuses :
      is_terminal (persisted_state plan) ≡ false
      → plan.expires_at ≤ now
      → (revalidate_plan platform composition plan revalidate now ≡ err plan_expired)
        × (cancel_plan platform plan cancel now ≡ err plan_expired)
  unfolding revalidate_plan cancel_plan require_active transition_error effective_plan_state
  expired_refuses h t = (ground arith, ground arith)
