-- ===== src/Plan/Ledger.antt =====
-- One more event at the end of a ledger.
use mailcleanup.Prelude.{
  ℕ, suc, ◌+◌, true, List, [], ◌∷◌, ◌++◌, ◌≡◌, refl, arith, length, all, all-append,
}
use mailcleanup.Plan.Model.{
  Event, Removal, CleanupPlan, last_event, blank_event, latest, plan_revision,
}
use mailcleanup.Plan.Validate.{
  revisions_from, transition_ok, transitions_ok, in_window, first_ok, ledger_ok,
}

-- A plan with one event and some removals appended: what `replace` builds.
abbrev pub appended : CleanupPlan → Event → List Removal → CleanupPlan
appended plan e new = record plan {
  events = plan.events ++ e ∷ [];
  removals = plan.removals ++ new;
}

pub last-append : (d e : Event) (es : List Event) → last_event d (es ++ e ∷ []) ≡ e
unfolding last_event
last-append d e [] = refl
last-append d e (x ∷ xs) = last-append x e xs

-- the revisions run without a gap, so the last one is as large as the ledger is long
pub last_revision :
    (n : ℕ) (d : Event) (es : List Event)
    → d.revision + 1 ≡ n
    → revisions_from n es ≡ true
    → (last_event d es).revision + 1 ≡ n + length es
unfolding revisions_from last_event
last_revision n d [] e h = omega arith
last_revision n d (x ∷ xs) e h = ground (arith, last_revision (suc n) x xs)

revisions-append :
    (n : ℕ) (e : Event) (es : List Event)
    → revisions_from n es ≡ true
    → e.revision ≡ n + length es
    → revisions_from n (es ++ e ∷ []) ≡ true
unfolding revisions_from
revisions-append n e [] h r = ground arith
revisions-append n e (x ∷ xs) h r = ground (arith, revisions-append (suc n) e xs)

transitions-append :
    (p e : Event) (es : List Event)
    → transitions_ok p es ≡ true
    → transition_ok (last_event p es) e ≡ true
    → transitions_ok p (es ++ e ∷ []) ≡ true
unfolding transitions_ok last_event
transitions-append p e [] h t = ground arith
transitions-append p e (x ∷ xs) h t = ground (arith, transitions-append x e xs)

-- What a new event must satisfy to be the next one of the ledger.
pub record IsNext (plan : CleanupPlan) (e : Event) : Type 0 where
  pub revision : e.revision ≡ plan_revision plan + 1
  pub transition : transition_ok (latest plan) e ≡ true
  pub window : in_window plan e ≡ true

module _ (plan : CleanupPlan) (e : Event) (new : List Removal) (valid : ledger_ok plan ≡ true)
    (next : IsNext plan e) where
  first-append :
      (es : List Event)
      → first_ok plan es ≡ true
      → transition_ok (last_event blank_event es) e ≡ true
      → first_ok (appended plan e new) (es ++ e ∷ []) ≡ true
  unfolding first_ok last_event
  first-append [] h t = cc
  first-append (x ∷ xs) h t = ground (arith, transitions-append x e xs)

  pub ledger-append : ledger_ok (appended plan e new) ≡ true
  unfolding ledger_ok in_window all
  ledger-append = ground (
    arith,
    last_revision 1 blank_event plan.events refl,
    revisions-append 1 e plan.events,
    first-append plan.events,
    all-append (in_window plan) plan.events (e ∷ []),
    next.revision,
    next.transition,
    next.window,
  )
