-- ===== src/Plan/Trace.antt =====
-- The life of a plan: the commands that it accepts, one after the other.
use mailcleanup.Prelude.{
  ℕ, ◌+◌, ◌≤◌, true, List, [], ◌++◌, ◌≡◌, ◌≢◌, refl, sym, ap, ◌∙◌, subst, arith, length,
  length-append, In, In-filter, In-of-filter,
}
use mailcleanup.Plan.Model.{
  PlanState, Member, Removal, Event, CleanupPlan, RevalidateCommand, CancelCommand, Receipt, latest,
  plan_revision, persisted_state, blank_event, eligible_members,
}
use mailcleanup.Plan.Equality.{is_terminal, same_state}
use mailcleanup.Plan.Result.{ok, ok_injective}
use mailcleanup.Plan.Validate.{state_ok}
use mailcleanup.Plan.Create.{plan_ok}
use mailcleanup.Plan.Composition.{Composition}
use mailcleanup.Plan.Catalog.{Platform}
use mailcleanup.Plan.Revise.{cancel_plan, revalidate_plan, cancellation_event}
use mailcleanup.Plan.Ledger.{appended, last-append}
use mailcleanup.Plan.Active.{IsValid, is_active}
use mailcleanup.Plan.Kept.{left-append, is_left}
use mailcleanup.Plan.Commands.{cancel_plan-active, revalidate_plan-IsValid}
use mailcleanup.Plan.Inversion.{cancel_plan-inv, revalidate_plan-inv}

-- One accepted command, at a time that is not before the latest event.
pub data Step (platform : Platform) : CleanupPlan → CleanupPlan → Type 0 where
  revalidated :
      {plan updated : CleanupPlan} {e : Event} {new : List Removal} {r : Receipt}
      (composition : Composition) (command : RevalidateCommand) (now : ℕ)
      → (latest plan).recorded_at ≤ now
      → revalidate_plan platform composition plan command now ≡ ok (updated, e, new, r)
      → Step platform plan updated
  cancelled :
      {plan updated : CleanupPlan} {e : Event} {r : Receipt} (command : CancelCommand) (now : ℕ)
      → (latest plan).recorded_at ≤ now
      → cancel_plan platform plan command now ≡ ok (updated, e, r)
      → Step platform plan updated

pub data Reach (platform : Platform) : CleanupPlan → CleanupPlan → Type 0 where
  start : {plan : CleanupPlan} → Reach platform plan plan
  then :
      {plan next last : CleanupPlan}
      → Step platform plan next
      → Reach platform next last
      → Reach platform plan last

-- What no command changes, and what only grows or only shrinks.
pub record Keeps (p q : CleanupPlan) : Type 0 where
  pub members : q.members ≡ p.members
  pub selection : q.selection ≡ p.selection
  pub expires_at : q.expires_at ≡ p.expires_at
  pub revision : plan_revision p ≤ plan_revision q
  pub removals : length p.removals ≤ length q.removals
  pub eligible : (m : Member) → In m (eligible_members q) → In m (eligible_members p)

Keeps-refl : (p : CleanupPlan) → Keeps p p
Keeps-refl p = record {
  members = refl;
  selection = refl;
  expires_at = refl;
  revision = omega arith;
  removals = omega arith;
  eligible = λ m i. i;
}

Keeps-trans : {p q r : CleanupPlan} → Keeps p q → Keeps q r → Keeps p r
Keeps-trans a b = record {
  members = b.members ∙ a.members;
  selection = b.selection ∙ a.selection;
  expires_at = b.expires_at ∙ a.expires_at;
  revision = omega (arith, a.revision, b.revision);
  removals = omega (arith, a.removals, b.removals);
  eligible = λ m i. a.eligible m (b.eligible m i);
}

Keeps-appended :
    (plan : CleanupPlan) (e : Event) (new : List Removal)
    → e.revision ≡ plan_revision plan + 1
    → Keeps plan (appended plan e new)
Keeps-appended plan e new h = record {
  members = refl;
  selection = refl;
  expires_at = refl;
  revision =
      omega (arith, h, ap (λ (z : Event). z.revision) (last-append blank_event e plan.events));
  removals = omega (arith, length-append plan.removals new);
  eligible = λ m i.
      let (j, t) = In-of-filter (is_left (plan.removals ++ new)) m plan.members i in
      In-filter (is_left plan.removals) m plan.members (left-append plan.removals new m t).0 j;
}

module _ (platform : Platform) where
  Step-Keeps : {p q : CleanupPlan} → Step platform p q → IsValid p → IsValid q × Keeps p q
  unfolding cancellation_event
  Step-Keeps {p = p} (revalidated composition command now clock h) valid =
      let (good, same, next, _, _) =
        revalidate_plan-IsValid platform p now valid clock composition command h in
      (good, subst (Keeps p) (sym same) (Keeps-appended p _ _ next))
  Step-Keeps {p = p} (cancelled command now clock h) valid =
      let (active, in_time, expected) = cancel_plan-inv platform p command now h in
      let ((r, done), good) =
        cancel_plan-active platform p now valid clock command active in_time expected in
      let parts = ok_injective (sym done ∙ h) in
      let same : appended p (cancellation_event p now) [] ≡ _ = ap (λ z. z.0) parts in
      (
        subst IsValid same good,
        subst (Keeps p) same (Keeps-appended p (cancellation_event p now) [] refl),
      )

  Reach-Keeps : {p q : CleanupPlan} → Reach platform p q → IsValid p → IsValid q × Keeps p q
  Reach-Keeps {p = p} start valid = (valid, Keeps-refl p)
  Reach-Keeps (then s rest) valid =
      let (good, kept) = Step-Keeps s valid in
      let (last, more) = Reach-Keeps rest good in (last, Keeps-trans kept more)

  -- A plan that is reached from a valid one by accepted commands is valid; it has the same members,
  -- selection and end, and its revision and its number of removals are no smaller.
  pub Reach-IsValid :
      {p q : CleanupPlan}
      → Reach platform p q
      → IsValid p
      → IsValid q
        × (q.members ≡ p.members)
        × (q.selection ≡ p.selection)
        × (q.expires_at ≡ p.expires_at)
        × (plan_revision p ≤ plan_revision q)
        × (length p.removals ≤ length q.removals)
  Reach-IsValid path valid =
      let (good, k) = Reach-Keeps path valid in
      (good, k.members, k.selection, k.expires_at, k.revision, k.removals)

  -- A member that is eligible in a plan reached from a valid one was eligible in that one.
  pub eligible_shrinks :
      {p q : CleanupPlan}
      → Reach platform p q
      → IsValid p
      → (m : Member) → In m (eligible_members q)
      → In m (eligible_members p)
  eligible_shrinks path valid m i = (Reach-Keeps path valid).1.eligible m i

  inactive_stuck : {p q : CleanupPlan} → Step platform p q → is_active (persisted_state p) ≡ true
  inactive_stuck {p = p} (revalidated composition command now _ h) =
      (revalidate_plan-inv platform composition p command now h).is_active_before
  inactive_stuck {p = p} (cancelled command now _ h) = (cancel_plan-inv platform p command now h).0

  -- From a cancelled or an invalidated plan nothing but that plan is reached.
  pub terminal_absorbs :
      {p q : CleanupPlan} → Reach platform p q → is_terminal (persisted_state p) ≡ true → q ≡ p
  unfolding is_active
  terminal_absorbs start h = refl
  terminal_absorbs (then s rest) h = ground (arith, inactive_stuck s)

  removals_of_valid :
      (p : CleanupPlan)
      → IsValid p
      → (persisted_state p ≡ PlanState.frozen → length p.removals ≡ 0)
        × (persisted_state p ≡ PlanState.reduced → 1 ≤ length p.removals)
  unfolding plan_ok state_ok same_state
  removals_of_valid p valid =
      (λ e. ground (arith, valid.plan_accepted), λ e. ground (arith, valid.plan_accepted))

  -- Once a valid plan is reduced, no later plan is frozen again.
  pub reduced_stays :
      {p q : CleanupPlan}
      → Reach platform p q
      → IsValid p
      → persisted_state p ≡ PlanState.reduced
      → persisted_state q ≢ PlanState.frozen
  reduced_stays {p = p} {q = q} path valid h k =
      let (good, kept) = Reach-Keeps path valid in
      let some_left = (removals_of_valid p valid).1 h in
      let none_left = (removals_of_valid q good).0 k in omega (arith, kept.removals)
