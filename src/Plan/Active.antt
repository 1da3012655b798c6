-- ===== src/Plan/Active.antt =====
-- A plan that the constructor accepted and that still takes commands.
use mailcleanup.Prelude.{
  ℕ, ◌+◌, ◌≤◌, ◌<◌, Bool, true, false, List, [], ◌∷◌, ◌≡◌, arith, length, all, distinct,
}
use mailcleanup.Plan.Model.{
  PlanState, Event, CleanupPlan, last_event, blank_event, latest, plan_revision, persisted_state,
  eligible_members, current_eligible_count, selected_members,
}
use mailcleanup.Plan.Equality.{same_state}
use mailcleanup.Plan.Validate.{
  event_ok, event_type_ok, is_expired, first_ok, ledger_ok, removals_ok, state_ok, header_ok,
  in_window, is_cancelled,
}
use mailcleanup.Plan.Counting.{member_ids, eligible_count}
use mailcleanup.Plan.RemovalLedger.{all-matches}
use mailcleanup.Plan.Create.{plan_ok}
use mailcleanup.Plan.Result.{ok}
use mailcleanup.Plan.Revise.{effective_plan_state, transition_error, require_active}

-- The plan and each of its events were accepted by their constructors.
pub record IsValid (plan : CleanupPlan) : Type 0 where
  pub plan_accepted : plan_ok plan ≡ true
  pub events_accepted : all event_ok plan.events ≡ true

-- `state not in (CANCELLED, INVALIDATED)` and not expired.
unfoldable pub is_active : PlanState → Bool
is_active PlanState.frozen = true
is_active PlanState.reduced = true
is_active _ = false

-- The guard passes for an active plan, before its end and at its revision.
pub require_active-ok :
    (plan : CleanupPlan) (expected now : ℕ)
    → require_active plan expected now ≡ ok tt
    → (is_active (persisted_state plan) ≡ true)
      × (now < plan.expires_at)
      × (expected ≡ plan_revision plan)
unfolding require_active effective_plan_state transition_error is_active
require_active-ok plan expected now h = ground arith

pub require_active-active :
    (plan : CleanupPlan) (expected now : ℕ)
    → is_active (persisted_state plan) ≡ true
    → now < plan.expires_at
    → expected ≡ plan_revision plan
    → require_active plan expected now ≡ ok tt
unfolding require_active effective_plan_state transition_error is_active
require_active-active plan expected now a t e = ground arith

all-last_event :
    (p : Event → Bool) (e : Event) (es : List Event)
    → p e ≡ true
    → all p es ≡ true
    → p (last_event e es) ≡ true
unfolding last_event all
all-last_event p e [] h k = h
all-last_event p e (x ∷ xs) h k = all-last_event p x xs (ground arith) (ground arith)

all-last :
    (plan : CleanupPlan) (p : Event → Bool) (d : Event) (es : List Event)
    → first_ok plan es ≡ true
    → all p es ≡ true
    → p (last_event d es) ≡ true
unfolding first_ok last_event all
all-last plan p d [] f a = cc
all-last plan p d (e ∷ es) f a = all-last_event p e es (ground arith) (ground arith)

module _ (plan : CleanupPlan) (valid : IsValid plan) where
  pub ledger_accepted : ledger_ok plan ≡ true
  unfolding plan_ok
  ledger_accepted = ground (arith, valid.plan_accepted)

  pub removals_accepted : removals_ok plan ≡ true
  unfolding plan_ok
  removals_accepted = ground (arith, valid.plan_accepted)

  pub members_distinct : distinct (member_ids plan.members) ≡ true
  unfolding plan_ok header_ok
  members_distinct = ground (arith, valid.plan_accepted)

  pub latest_accepted : event_ok (latest plan) ≡ true
  unfolding ledger_ok
  latest_accepted =
      all-last plan event_ok blank_event plan.events (ground (arith, ledger_accepted))
        valid.events_accepted

  pub latest-in_window : in_window plan (latest plan) ≡ true
  unfolding ledger_ok
  latest-in_window =
      all-last plan (in_window plan) blank_event plan.events (ground (arith, ledger_accepted))
        (ground (arith, ledger_accepted))

  -- the count of what is eligible is the number of eligible members
  pub eligible_members_count :
      length (eligible_members plan) + length plan.removals ≡ length (selected_members plan.members)
  unfolding removals_ok
  eligible_members_count =
      eligible_count plan.members plan.removals members_distinct (ground (arith, removals_accepted))
        (ground (arith, removals_accepted, all-matches plan plan.removals))

  -- In a valid plan the current eligible count, a difference, is the number of eligible members.
  pub current_eligible_count_exact : current_eligible_count plan ≡ length (eligible_members plan)
  unfolding current_eligible_count
  current_eligible_count_exact = omega (arith, eligible_members_count)

  pub remaining_exact : (latest plan).remaining_count ≡ length (eligible_members plan)
  unfolding plan_ok state_ok
  remaining_exact = ground (arith, valid.plan_accepted, current_eligible_count_exact)

  -- an active plan has a member left
  pub active_remaining :
      is_active (persisted_state plan) ≡ true → 1 ≤ length (eligible_members plan)
  unfolding is_active event_ok event_type_ok same_state is_expired is_cancelled
  active_remaining h = ground (arith, latest_accepted, remaining_exact)
