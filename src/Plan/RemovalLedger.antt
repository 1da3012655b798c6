-- ===== src/Plan/RemovalLedger.antt =====
-- A revalidation's removals in the ledger: what the constructor checks of removals still holds.
use mailcleanup.Prelude.{
  ℕ, suc, ◌+◌, ◌≤◌, ◌<◌, Bool, true, false, ◌&&◌, ◌==◌, some, List, [], ◌∷◌, ◌++◌, ◌≡◌, refl, sym,
  ap, ◌∙◌, arith, eqb, length, all, all-append, contains, distinct, distinct-append, eq_iff, In,
  Bool-cases, inl, inr, In-of-filter,
}
use mailcleanup.Plan.Model.{
  Event, Removal, Member, CleanupPlan, is_selected, eligible_members, plan_revision, blank_event,
}
use mailcleanup.Plan.Validate.{
  revisions_from, ledger_ok, recorded_in, removed_at, removal_ids, removal_matches, removals_ok,
  member_matches, find_member,
}
use mailcleanup.Plan.Counting.{member_ids, matches}
use mailcleanup.Plan.Ledger.{appended, last_revision}
use mailcleanup.Plan.Removed.{
  Picked, done, keep, drop, contains-Picked, distinct-Picked, removed_at-Picked, removed_at-other,
  distinct-filter, eligible-fresh,
}

In-contains :
    (m : Member) (ms : List Member) → In m ms → contains (member_ids ms) m.message_id ≡ true
unfolding contains
In-contains m [] i = absurd i
In-contains m (x ∷ xs) (inl e) =
    ground (arith, eq_iff m.message_id x.message_id, ap (λ (y : Member). y.message_id) e)
In-contains m (x ∷ xs) (inr i) = ground (arith, In-contains m xs i)

pub find_member-In :
    (m : Member) (ms : List Member)
    → distinct (member_ids ms) ≡ true
    → In m ms
    → find_member m.message_id ms ≡ some m
unfolding find_member distinct
find_member-In m [] d i = absurd i
find_member-In m (x ∷ xs) d (inl e) =
    ground (arith, eq_iff x.message_id m.message_id, ap (λ (y : Member). y.message_id) e)
find_member-In m (x ∷ xs) d (inr i) = elim (Bool-cases (x.message_id == m.message_id)) [
  | inl hit ↦ cc (
    In-contains m xs i,
    ap (contains (member_ids xs)) ((eq_iff x.message_id m.message_id).0 hit),
    (let absent : contains (member_ids xs) x.message_id ≡ false = ground arith in absent),
  )
  | inr miss ↦ ground (arith, find_member-In m xs)
]

matches-drop :
    (ms : List Member) (m : Member) (r : Removal)
    → find_member m.message_id ms ≡ some m
    → is_selected m.initial_state ≡ true
    → r.provider_message_id ≡ m.provider_message_id
    → r.message_id ≡ m.message_id
    → matches ms r ≡ true
unfolding member_matches
matches-drop ms m r f s p e =
    let found : find_member r.message_id ms ≡ some m = ap (λ k. find_member k ms) e ∙ f in
    ground (arith, eq_iff r.provider_message_id m.provider_message_id)

-- the removals of some of the selected members match the plan
Picked-matches :
    {revision now : ℕ} (ms xs : List Member) (rs : List Removal)
    → distinct (member_ids ms) ≡ true
    → ((m : Member) → In m xs → In m ms × (is_selected m.initial_state ≡ true))
    → Picked revision now xs rs
    → all (matches ms) rs ≡ true
unfolding all
Picked-matches ms xs rs d h done = refl
Picked-matches ms (x ∷ xs) rs d h (keep p) = Picked-matches ms xs rs d (λ m i. h m (inr i)) p
Picked-matches ms (x ∷ xs) (r ∷ rs) d h (drop ep em _ _ p) =
    let (i, s) = h x (inl refl) in
    ground (
      arith,
      matches-drop ms x r (find_member-In x ms d i) s ep em,
      Picked-matches ms xs rs d (λ m j. h m (inr j)) p,
    )

recorded_in-old :
    (es : List Event) (e : Event) (r : Removal)
    → recorded_in es r ≡ true
    → recorded_in (es ++ e ∷ []) r ≡ true
unfolding recorded_in
recorded_in-old [] e r h = cc
recorded_in-old (x ∷ xs) e r h = ground (arith, recorded_in-old xs e r)

recorded_in-new :
    (es : List Event) (e : Event) (r : Removal)
    → r.revision ≡ e.revision
    → r.recorded_at ≡ e.recorded_at
    → recorded_in (es ++ e ∷ []) r ≡ true
unfolding recorded_in
recorded_in-new [] e r h k = ground arith
recorded_in-new (x ∷ xs) e r h k = ground (arith, recorded_in-new xs e r h k)

recorded_before :
    (n : ℕ) (es : List Event) (r : Removal)
    → revisions_from n es ≡ true
    → recorded_in es r ≡ true
    → r.revision < n + length es
unfolding revisions_from recorded_in
recorded_before n [] r h k = cc
recorded_before n (x ∷ xs) r h k = ground (arith, recorded_before (suc n) xs r)

Picked-recorded :
    {revision now : ℕ} {xs : List Member} {rs : List Removal} (es : List Event) (e : Event)
    → e.revision ≡ revision
    → e.recorded_at ≡ now
    → Picked revision now xs rs
    → all (recorded_in (es ++ e ∷ [])) rs ≡ true
unfolding all
Picked-recorded es e a b done = refl
Picked-recorded es e a b (keep p) = Picked-recorded es e a b p
Picked-recorded es e a b (drop {r = r} _ _ u v p) =
    ground (arith, recorded_in-new es e r (u ∙ sym a) (v ∙ sym b), Picked-recorded es e a b p)

pub all-matches :
    (plan : CleanupPlan) (rs : List Removal)
    → all (removal_matches plan) rs
      ≡ (all (matches plan.members) rs && all (recorded_in plan.events) rs)
unfolding all removal_matches
all-matches plan [] = refl
all-matches plan (r ∷ rs) = ground (arith, all-matches plan rs)

all_recorded-old :
    (es : List Event) (e : Event) (rs : List Removal)
    → all (recorded_in es) rs ≡ true
    → all (recorded_in (es ++ e ∷ [])) rs ≡ true
unfolding all
all_recorded-old es e [] h = refl
all_recorded-old es e (r ∷ rs) h = ground (arith, recorded_in-old es e r, all_recorded-old es e rs)

removed_at-append :
    (xs ys : List Removal) (n : ℕ) → removed_at (xs ++ ys) n ≡ removed_at xs n + removed_at ys n
unfolding removed_at
removed_at-append [] ys n = omega arith
removed_at-append (x ∷ xs) ys n = ground (arith, removed_at-append xs ys n)

-- nothing recorded in the ledger has the next revision
removed_at-next :
    (n : ℕ) (es : List Event) (rs : List Removal) (next : ℕ)
    → revisions_from n es ≡ true
    → n + length es ≤ next
    → all (recorded_in es) rs ≡ true
    → removed_at rs next ≡ 0
unfolding removed_at all
removed_at-next n es [] next h k a = refl
removed_at-next n es (r ∷ rs) next h k a =
    ground (arith, recorded_before n es r, removed_at-next n es rs next)

abbrev counted : List Removal → Event → Bool
counted rs e = eqb e.removed_count (removed_at rs e.revision)

counted-append :
    (n : ℕ) (es : List Event) (old new : List Removal) {revision now : ℕ} {xs : List Member}
    → revisions_from n es ≡ true
    → n + length es ≤ revision
    → Picked revision now xs new
    → all (counted old) es ≡ true
    → all (counted (old ++ new)) es ≡ true
unfolding all revisions_from
counted-append n [] old new h k p a = refl
counted-append n (e ∷ es) old new {revision = revision} h k p a =
    let early : e.revision < revision = ground arith in
    ground (
      arith,
      removed_at-append old new e.revision,
      removed_at-other e.revision early p,
      counted-append (suc n) es old new {revision = revision} (ground arith) (omega arith) p,
    )

removal_ids-append :
    (xs ys : List Removal) → removal_ids (xs ++ ys) ≡ removal_ids xs ++ removal_ids ys
removal_ids-append [] ys = refl
removal_ids-append (x ∷ xs) ys = ap (◌∷◌ x.message_id) (removal_ids-append xs ys)

-- The removals that a revalidation adds keep the removals of the plan in order.
pub removals-append :
    (plan : CleanupPlan) (e : Event) (new : List Removal)
    → distinct (member_ids plan.members) ≡ true
    → ledger_ok plan ≡ true
    → removals_ok plan ≡ true
    → e.revision ≡ plan_revision plan + 1
    → e.removed_count ≡ length new
    → Picked (plan_revision plan + 1) e.recorded_at (eligible_members plan) new
    → removals_ok (appended plan e new) ≡ true
unfolding removals_ok ledger_ok all
removals-append plan e new d l h r c p =
    let complete : revisions_from 1 plan.events ≡ true = ground arith in
    let matched : all (removal_matches plan) plan.removals ≡ true = ground arith in
    let listed = last_revision 1 blank_event plan.events refl complete in
    let parts = all-matches plan plan.removals in
    let recorded : all (recorded_in plan.events) plan.removals ≡ true = ground arith in
    let fresh : all (matches plan.members) new ≡ true =
      Picked-matches plan.members (eligible_members plan) new d
        (λ m i. let (j, t) = In-of-filter _ m plan.members i in (j, ground arith)) p in
    let unique : distinct (removal_ids (plan.removals ++ new)) ≡ true =
      rw (removal_ids-append plan.removals new) (
        distinct-append (removal_ids plan.removals) (removal_ids new) (ground arith)
          (distinct-Picked p (distinct-filter _ plan.members d))
          (λ k t. eligible-fresh plan.removals k plan.members (contains-Picked k p t))) in
    let last : removed_at (plan.removals ++ new) e.revision ≡ length new = omega (
      arith,
      removed_at-append plan.removals new e.revision,
      removed_at-next 1 plan.events plan.removals e.revision complete (omega (arith, listed, r))
          recorded,
      ap (removed_at new) r ∙ removed_at-Picked p,
    ) in
    let earlier : all (counted (plan.removals ++ new)) plan.events ≡ true =
      counted-append 1 plan.events plan.removals new complete (omega (arith, listed)) p
        (ground arith) in
    let lasts : counted (plan.removals ++ new) e ≡ true = ground (arith) in
    let counts : all (counted (plan.removals ++ new)) (plan.events ++ e ∷ []) ≡ true =
      ground (arith, all-append (counted (plan.removals ++ new)) plan.events (e ∷ [])) in
    let known : all (removal_matches (appended plan e new)) (plan.removals ++ new) ≡ true = ground (
      arith,
      all-matches (appended plan e new) (plan.removals ++ new),
      all-append (matches plan.members) plan.removals new,
      all-append (recorded_in (plan.events ++ e ∷ [])) plan.removals new,
      all_recorded-old plan.events e plan.removals recorded,
      Picked-recorded plan.events e r refl p,
    ) in
    ground arith
