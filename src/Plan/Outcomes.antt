-- ===== src/Plan/Outcomes.antt =====
-- The events of the two commands on a valid active plan, and the removals of a revalidation.
use mailcleanup.Prelude.{
  ℕ, ◌+◌, ◌≤◌, ◌<◌, true, List, [], ◌∷◌, ◌++◌, ◌≡◌, refl, sym, ap, ◌∙◌, subst, arith, length,
  Bool-cases, inl, inr, ◌⊎◌,
}
use mailcleanup.Plan.Reasons.{Reason, ordered_reasons, is_empty}
use mailcleanup.Plan.Model.{
  PlanState, Removal, Member, CleanupPlan, latest, plan_revision, persisted_state, eligible_members,
}
use mailcleanup.Plan.Equality.{same_state}
use mailcleanup.Plan.Validate.{
  event_ok, event_type_ok, is_expired, state_ok, in_window, is_cancelled, is_some, transition_ok,
  transition_type_ok,
}
use mailcleanup.Plan.Removed.{Picked, done, keep, drop, Picked-length}
use mailcleanup.Plan.Create.{plan_ok}
use mailcleanup.Plan.Result.{ok, >>=-eq-ok}
use mailcleanup.Plan.Composition.{CompositionIndex}
use mailcleanup.Plan.Revise.{
  Scope, revalidation_reasons, removal_of, new_removals, revalidation_outcome, revalidation_event,
  cancellation_event,
}
use mailcleanup.Plan.Active.{
  IsValid, is_active, latest_accepted, latest-in_window, current_eligible_count_exact,
  remaining_exact, active_remaining,
}
use mailcleanup.Plan.Preservation.{IsOutcome}

same_state_refl : (s : PlanState) → same_state s s ≡ true
unfolding same_state
same_state_refl PlanState.frozen = refl
same_state_refl PlanState.reduced = refl
same_state_refl PlanState.invalidated = refl
same_state_refl PlanState.cancelled = refl
same_state_refl PlanState.expired = refl

-- the members that a plan keeps, none picked
Picked-none : {revision now : ℕ} (ms : List Member) → Picked revision now ms []
Picked-none [] = done
Picked-none (m ∷ ms) = keep (Picked-none ms)

removal_of-cases :
    (revision now : ℕ) (m : Member) (reasons : List Reason) {here : List Removal}
    → removal_of revision now m reasons ≡ ok here
    → (here ≡ [])
      ⊎ ((r : Removal) × (here ≡ r ∷ [])
          × (r.provider_message_id ≡ m.provider_message_id)
          × (r.message_id ≡ m.message_id)
          × (r.revision ≡ revision)
          × (r.recorded_at ≡ now))
unfolding removal_of
removal_of-cases revision now m reasons h = elim (Bool-cases (is_empty reasons)) [
  | inl e ↦ inl (ground arith)
  | inr e ↦
      let r : Removal = record {
        provider_message_id = m.provider_message_id;
        message_id = m.message_id;
        revision = revision;
        recorded_at = now;
        reason_codes = ordered_reasons reasons;
      } in
      inr (r, ground arith, refl, refl, refl, refl)
]

-- What the loop builds is picked from the members, in their order.
pub new_removals-Picked :
    (index : CompositionIndex) (plan : CleanupPlan) (scope : Scope) (revision now : ℕ)
    (ms : List Member) {rs : List Removal}
    → new_removals index plan scope revision now ms ≡ ok rs
    → Picked revision now ms rs
unfolding new_removals
new_removals-Picked index plan scope revision now [] {rs} h =
    let e : [] ≡ rs = cc in subst (Picked revision now []) e done
new_removals-Picked index plan scope revision now (m ∷ ms) {rs} h =
    let (reasons, _, h1) = >>=-eq-ok (revalidation_reasons index plan scope m) _ h in
    let (here, eh, h2) = >>=-eq-ok (removal_of revision now m reasons) _ h1 in
    let (later, el, h3) = >>=-eq-ok (new_removals index plan scope revision now ms) _ h2 in
    let rest = new_removals-Picked index plan scope revision now ms el in
    let same : here ++ later ≡ rs = cc in
    elim (removal_of-cases revision now m reasons eh) [
      | inl kept ↦
          subst (Picked revision now (m ∷ ms)) (ap (λ z. z ++ later) (sym kept) ∙ same) (keep rest)
      | inr (r, one, a, b, c, d) ↦
          subst (Picked revision now (m ∷ ms)) (ap (λ z. z ++ later) (sym one) ∙ same)
            (drop a b c d rest)
    ]

module _ (plan : CleanupPlan) (valid : IsValid plan) where
  pub revision_positive : 1 ≤ plan_revision plan
  unfolding event_ok
  revision_positive = ground (arith, latest_accepted plan valid)

  removals_of_state :
      is_active (persisted_state plan) ≡ true
      → (same_state (persisted_state plan) PlanState.frozen ≡ true → length plan.removals ≡ 0)
        × (same_state (persisted_state plan) PlanState.reduced ≡ true → 1 ≤ length plan.removals)
  unfolding plan_ok state_ok same_state is_active
  removals_of_state h =
      (λ e. ground (arith, valid.plan_accepted), λ e. ground (arith, valid.plan_accepted))

  module _ (now : ℕ) (active : is_active (persisted_state plan) ≡ true)
      (in_time : now < plan.expires_at) (clock : (latest plan).recorded_at ≤ now) where
    pub cancellation-IsOutcome : IsOutcome plan (cancellation_event plan now) []
    unfolding cancellation_event event_ok event_type_ok is_expired is_cancelled is_some same_state
        transition_ok transition_type_ok in_window is_active
    cancellation-IsOutcome = record {
      next = record {
        revision = refl;
        transition =
            ground (arith, current_eligible_count_exact plan valid, remaining_exact plan valid);
        window = ground (arith, latest-in_window plan valid);
      };
      accepted =
          ground
            (arith, current_eligible_count_exact plan valid, active_remaining plan valid active);
      counted = refl;
      picked = Picked-none (eligible_members plan);
      left = omega (arith, current_eligible_count_exact plan valid);
      reduced_from = λ h. cc;
      reduced_to = λ h. cc;
    }

    pub revalidation-IsOutcome :
        (index : CompositionIndex) (new : List Removal)
        → Picked (plan_revision plan + 1) now (eligible_members plan) new
        → IsOutcome plan (revalidation_event index plan now new) new
    unfolding revalidation_event revalidation_outcome event_ok event_type_ok is_expired is_cancelled
        is_some same_state transition_ok transition_type_ok in_window is_active
    revalidation-IsOutcome index new p = record {
      next = record {
        revision = refl;
        transition = ground (
          arith,
          Picked-length p,
          remaining_exact plan valid,
          same_state_refl (persisted_state plan),
        );
        window = ground (arith, latest-in_window plan valid);
      };
      accepted =
          ground (arith, Picked-length p, revision_positive, active_remaining plan valid active);
      counted = refl;
      picked = p;
      left = omega (arith, Picked-length p);
      reduced_from = λ h. ground (arith, removals_of_state active);
      reduced_to = λ h. ground (arith, removals_of_state active);
    }
