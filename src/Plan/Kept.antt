-- ===== src/Plan/Kept.antt =====
-- Revalidation: what a member that it keeps satisfies.
use mailcleanup.Prelude.{
  ℕ, ◌+◌, ◌≤◌, Bool, true, false, not, ◌&&◌, ◌||◌, List, [], ◌∷◌, ◌++◌, map, ◌≡◌, refl, sym, ap,
  ◌∙◌, subst, arith, any, any-append, Bool-cases, inl, inr, Option, some, none, contains, String,
  In, In-filter, In-of-filter, eq_iff, if◌then◌else◌,
}
use mailcleanup.Plan.Reasons.{Reason, ordered_reasons, is_empty}
use mailcleanup.Plan.Model.{
  Event, Removal, Member, CleanupPlan, RevalidateCommand, Receipt, latest, plan_revision,
  is_selected, is_removed, eligible_members,
}
use mailcleanup.Plan.Result.{ok, >>=-eq-ok, check-eq-ok, ok_injective}
use mailcleanup.Plan.Composition.{Composition, CompositionIndex, Entry, entry_id}
use mailcleanup.Plan.Catalog.{Platform}
use mailcleanup.Plan.Select.{policy_reasons, base_reasons}
use mailcleanup.Plan.Revise.{
  Scope, present_reasons, reason_when, revalidation_reasons, removal_of, new_removals,
  revalidate_plan,
}
use mailcleanup.Plan.Samples.{find_entry}
use mailcleanup.Plan.Validate.{removal_ok}
use mailcleanup.Plan.Active.{IsValid}
use mailcleanup.Plan.Commands.{revalidate_plan-IsValid}
use mailcleanup.Plan.Inversion.{IsRevalidation, revalidate_plan-inv}

-- The record of the member is there, no policy and no filter speaks against it, it is in the
-- universe of the targets and within the quota of its flow.
pub record StillPasses (index : CompositionIndex) (plan : CleanupPlan) (scope : Scope) (m : Member)
    : Type 0 where
  pub entry : Entry
  pub current : scope.current ≡ true
  pub present : find_entry m.provider_message_id index.entries ≡ some entry
  pub unprotected : policy_reasons entry.effective ≡ ok []
  pub passes : base_reasons plan.selection entry ≡ ok []
  pub in_scope : contains (map entry_id scope.universe) m.provider_message_id ≡ true
  pub in_quota : contains (map entry_id scope.allowed) m.provider_message_id ≡ true

late_empty :
    (found : List Reason) (inside : Bool) {rs : List Reason}
    → (if is_empty found && not inside then Reason.keep_latest ∷ [] else found) ≡ rs
    → is_empty rs ≡ true
    → (is_empty found ≡ true) × (inside ≡ true)
unfolding is_empty
late_empty [] true h e = (refl, refl)
late_empty [] false {rs = []} h e = cc
late_empty [] false {rs = r ∷ rs} h e = cc
late_empty (x ∷ xs) inside {rs = []} h e = cc
late_empty (x ∷ xs) inside {rs = r ∷ rs} h e = cc

parts_empty :
    (inside : Bool) (base ps : List Reason)
    → is_empty (
        reason_when (not inside) Reason.scope_changed
        ++ (base ++ reason_when (not (is_empty ps)) Reason.protection_changed))
      ≡ true
    → (inside ≡ true) × (base ≡ []) × (ps ≡ [])
unfolding is_empty
parts_empty false base ps h = cc
parts_empty true [] [] h = (refl, refl, refl)
parts_empty true [] (p ∷ ps) h = cc
parts_empty true (x ∷ xs) ps h = cc

module _ (index : CompositionIndex) (plan : CleanupPlan) (scope : Scope) (m : Member) where
  present_none :
      (e : Entry) {rs : List Reason}
      → find_entry m.provider_message_id index.entries ≡ some e
      → scope.current ≡ true
      → present_reasons plan scope m e ≡ ok rs
      → is_empty rs ≡ true
      → StillPasses index plan scope m
  unfolding present_reasons is_empty
  present_none e {rs} f c h empty =
      let (base, eb, h') = >>=-eq-ok (base_reasons plan.selection e) _ h in
      let (ps, ep, h'') = >>=-eq-ok (policy_reasons e.effective) _ h' in
      let inside = contains (map entry_id scope.universe) m.provider_message_id in
      let found =
        reason_when (not inside) Reason.scope_changed
        ++ (base ++ reason_when (not (is_empty ps)) Reason.protection_changed) in
      let (gone, allowed) =
        late_empty found (contains (map entry_id scope.allowed) m.provider_message_id)
          (ok_injective h'') empty in
      let (within, base_none, ps_none) = parts_empty inside base ps gone in
      record {
        entry = e;
        current = c;
        present = f;
        unprotected = ep ∙ ap ok ps_none;
        passes = eb ∙ ap ok base_none;
        in_scope = within;
        in_quota = allowed;
      }

  -- no reason at all, for a member that stays
  kept_passes : revalidation_reasons index plan scope m ≡ ok [] → StillPasses index plan scope m
  unfolding revalidation_reasons is_empty
  kept_passes h = elim (Bool-cases scope.current) [
    | inr gone ↦ cc (ok_injective (rw gone at h))
    | inl current ↦
        found_or_missing (find_entry m.provider_message_id index.entries) refl current
          (rw current at h)
  ]
    where
      found_or_missing :
          (o : Option Entry)
          → find_entry m.provider_message_id index.entries ≡ o
          → scope.current ≡ true
          → (elim o [
            | none ↦ ok (Reason.missing_after_creation ∷ [])
            | some e ↦ present_reasons plan scope m e
          ])
            ≡ ok []
          → StillPasses index plan scope m
      found_or_missing none e c k = cc (ok_injective k)
      found_or_missing (some e) q c k = present_none e q c k refl

is_removed-append :
    (xs ys : List Removal) (k : String)
    → is_removed (xs ++ ys) k ≡ (is_removed xs k || is_removed ys k)
unfolding is_removed
is_removed-append xs ys k = any-append _ xs ys

-- a member with reasons is removed
removal_of-empty :
    (revision now : ℕ) (m : Member) (reasons : List Reason) {here : List Removal}
    → removal_of revision now m reasons ≡ ok here
    → is_removed here m.message_id ≡ false
    → reasons ≡ []
unfolding removal_of is_removed any is_empty
removal_of-empty revision now m [] h n = refl
removal_of-empty revision now m (r ∷ rs) {here} h n =
    let made : Removal = record {
      provider_message_id = m.provider_message_id;
      message_id = m.message_id;
      revision = revision;
      recorded_at = now;
      reason_codes = ordered_reasons (r ∷ rs);
    } in
    let (_, h') = check-eq-ok (removal_ok made) (ok (made ∷ [])) h in
    let same : made ∷ [] ≡ here = ok_injective h' in
    let found : is_removed (made ∷ []) m.message_id ≡ true =
      ground (arith, eq_iff m.message_id m.message_id) in
    cc (ap (λ z. is_removed z m.message_id) same, found, n)

new_removals-kept :
    (index : CompositionIndex) (plan : CleanupPlan) (scope : Scope) (revision now : ℕ) (m : Member)
    (ms : List Member) {rs : List Removal}
    → new_removals index plan scope revision now ms ≡ ok rs
    → In m ms
    → is_removed rs m.message_id ≡ false
    → revalidation_reasons index plan scope m ≡ ok []
unfolding new_removals
new_removals-kept index plan scope revision now m [] h i n = absurd i
new_removals-kept index plan scope revision now m (x ∷ xs) {rs} h i n =
    let (reasons, er, h1) = >>=-eq-ok (revalidation_reasons index plan scope x) _ h in
    let (here, eh, h2) = >>=-eq-ok (removal_of revision now x reasons) _ h1 in
    let (later, el, h3) = >>=-eq-ok (new_removals index plan scope revision now xs) _ h2 in
    let parts : (is_removed here m.message_id || is_removed later m.message_id) ≡ false =
      sym (is_removed-append here later m.message_id)
      ∙ ap (λ z. is_removed z m.message_id) (ok_injective h3)
      ∙ n in
    let not_here : is_removed here m.message_id ≡ false = ground arith in
    let not_later : is_removed later m.message_id ≡ false = ground arith in
    elim i [
      | inl e ↦
          ap (revalidation_reasons index plan scope) e
          ∙ er
          ∙ ap ok (
              removal_of-empty revision now x reasons eh
                (ap (λ (z : Member). is_removed here z.message_id) (sym e) ∙ not_here))
      | inr j ↦ new_removals-kept index plan scope revision now m xs el j not_later
    ]

abbrev pub is_left : List Removal → Member → Bool
is_left rs m = is_selected m.initial_state && not (is_removed rs m.message_id)

pub left-append :
    (old new : List Removal) (m : Member)
    → is_left (old ++ new) m ≡ true
    → (is_left old m ≡ true) × (is_removed new m.message_id ≡ false)
left-append old new m h = ground (arith, is_removed-append old new m.message_id)

-- A member that is still eligible after a successful revalidation of a valid plan, not before its
-- latest event, was eligible before it, its record is in the
-- index the revalidation looked at, no policy protects it, no filter excludes it, and it is in the
-- universe of the plan's targets and within the quota of its flow.
pub revalidate_plan-keeps :
    (platform : Platform) (composition : Composition) (plan : CleanupPlan)
    (command : RevalidateCommand) (now : ℕ) {updated : CleanupPlan} {e : Event} {new : List Removal}
    {r : Receipt}
    → IsValid plan
    → (latest plan).recorded_at ≤ now
    → revalidate_plan platform composition plan command now ≡ ok (updated, e, new, r)
    → (m : Member) → In m (eligible_members updated)
    → (v : IsRevalidation platform composition plan command now updated e new) × In m
        (eligible_members plan)
      × StillPasses v.index plan v.scope m
revalidate_plan-keeps platform composition plan command now {updated} {e} {new} valid clock h m i =
    let v = revalidate_plan-inv platform composition plan command now h in
    let (_, same, _, _, _) =
      revalidate_plan-IsValid platform plan now valid clock composition command h in
    let (j, t) =
      In-of-filter (is_left (plan.removals ++ new)) m plan.members
        (subst (λ z. In m (eligible_members z)) same i) in
    let (old, fresh) = left-append plan.removals new m t in
    let before = In-filter (is_left plan.removals) m plan.members old j in
    (
      v,
      before,
      kept_passes v.index plan v.scope m (
          new_removals-kept v.index plan v.scope (plan_revision plan + 1) now m
            (eligible_members plan) v.removals before fresh),
    )
