-- ===== src/Plan/Completeness.antt =====
-- Revalidation gives a result wherever its guards pass.
use mailcleanup.Prelude.{
  ℕ, ◌+◌, ◌≤◌, ◌<◌, true, not, Option, none, some, List, [], ◌∷◌, ◌≡◌, ◌≢◌, refl, sym, ap, ◌∙◌,
  arith, eqb, Bool-cases, inl, inr, ◌==◌, String, In, if◌then◌else◌,
}
use mailcleanup.Plan.Reasons.{Reason, ordered_reasons, is_empty}
use mailcleanup.Plan.Model.{
  Event, Removal, Member, CleanupPlan, RevalidateCommand, Receipt, latest, plan_revision,
  persisted_state, eligible_members,
}
use mailcleanup.Plan.Validate.{removal_ok}
use mailcleanup.Plan.Result.{
  Result, ok, value_error, account_unavailable, map_revision_conflict, policy_revision_conflict,
  require, ◌>>=◌,
}
use mailcleanup.Plan.Composition.{Composition, CompositionIndex, Entry, entry_id, index_composition}
use mailcleanup.Plan.Catalog.{Platform, CatalogItem, build_catalog}
use mailcleanup.Plan.Select.{policy_reasons, base_reasons}
use mailcleanup.Plan.Samples.{find_entry}
use mailcleanup.Plan.RemovalCodes.{removal_of-ne-value_error}
use mailcleanup.Plan.Revise.{
  Scope, scope_of, require_active, present_reasons, revalidation_reasons, removal_of, new_removals,
  revalidation_event, append_event, revalidate_plan,
}
use mailcleanup.Plan.Active.{IsValid, is_active, require_active-active}
use mailcleanup.Plan.Preservation.{append_event-ok}
use mailcleanup.Plan.Outcomes.{new_removals-Picked, revalidation-IsOutcome, revision_positive}

find_entry-In : (k : String) (es : List Entry) {e : Entry} → find_entry k es ≡ some e → In e es
unfolding find_entry
find_entry-In k [] h = cc
find_entry-In k (x ∷ xs) {e} h = elim (Bool-cases (entry_id x == k)) [
  | inl hit ↦ let same : x ≡ e = ground arith in inl (sym same)
  | inr miss ↦ inr (find_entry-In k xs (ground arith))
]

-- a chain whose first call gives a value, and whose rest gives one of it, gives one
chain_found :
    {V W : Type 0} (first : Result V) (next : V → Result W) {v : V}
    → first ≡ ok v
    → (w : W) × (next v ≡ ok w)
    → (w : W) × ((first >>= next) ≡ ok w)
chain_found first next h (w, k) = (w, ap (λ z. z >>= next) h ∙ k)

-- The flags and the protection reasons of a message agree.
abbrev pub IsConsistent : Entry → Type 0
IsConsistent e = (found : List Reason) × (policy_reasons e.effective ≡ ok found)

base_found :
    (plan : CleanupPlan) (e : Entry)
    → IsConsistent e
    → (base : List Reason) × (base_reasons plan.selection e ≡ ok base)
unfolding base_reasons
base_found plan e (found, h) = chain_found (policy_reasons e.effective) _ h (_, refl)

module _ (index : CompositionIndex) (plan : CleanupPlan) (scope : Scope)
    (consistent : (e : Entry) → In e index.entries → IsConsistent e) where
  present_found :
      (m : Member) (e : Entry)
      → In e index.entries
      → (reasons : List Reason) × (present_reasons plan scope m e ≡ ok reasons)
  unfolding present_reasons
  present_found m e i =
      let (found, h) = consistent e i in
      let (base, k) = base_found plan e (found, h) in
      chain_found (base_reasons plan.selection e) _ k
        (chain_found (policy_reasons e.effective) _ h (_, refl))

  reasons_found :
      (m : Member)
      → (reasons : List Reason) × (revalidation_reasons index plan scope m ≡ ok reasons)
  unfolding revalidation_reasons
  reasons_found m = elim (Bool-cases scope.current) [
    | inr gone ↦ (Reason.scope_changed ∷ [], rw gone refl)
    | inl current ↦
        let (reasons, h) = found_or_missing (find_entry m.provider_message_id index.entries) refl in
        (reasons, current_found current reasons h)
  ]
    where
      current_found :
          scope.current ≡ true
          → (reasons : List Reason)
          → (elim (find_entry m.provider_message_id index.entries) [
            | none ↦ ok (Reason.missing_after_creation ∷ [])
            | some e ↦ present_reasons plan scope m e
          ])
            ≡ ok reasons
          → revalidation_reasons index plan scope m ≡ ok reasons
      current_found c reasons h =
          ap
            (λ b.
              if not b
              then ok (Reason.scope_changed ∷ [])
              else elim (find_entry m.provider_message_id index.entries) [
                | none ↦ ok (Reason.missing_after_creation ∷ [])
                | some e ↦ present_reasons plan scope m e
              ])
            c
          ∙ h

      found_or_missing :
          (o : Option Entry)
          → find_entry m.provider_message_id index.entries ≡ o
          → (reasons : List Reason) × ((elim o [
            | none ↦ ok (Reason.missing_after_creation ∷ [])
            | some e ↦ present_reasons plan scope m e
          ])
              ≡ ok reasons)
      found_or_missing none e = (Reason.missing_after_creation ∷ [], refl)
      found_or_missing (some e) q =
          present_found m e (find_entry-In m.provider_message_id index.entries q)

  removal_found :
      (revision now : ℕ) (m : Member) (reasons : List Reason)
      → removal_of revision now m reasons ≢ value_error
      → (here : List Removal) × (removal_of revision now m reasons ≡ ok here)
  unfolding removal_of
  removal_found revision now m reasons h = elim (Bool-cases (is_empty reasons)) [
    | inl e ↦ ([], rw e refl)
    | inr e ↦
        let r : Removal = record {
          provider_message_id = m.provider_message_id;
          message_id = m.message_id;
          revision = revision;
          recorded_at = now;
          reason_codes = ordered_reasons reasons;
        } in
        elim (Bool-cases (removal_ok r)) [
          | inl t ↦ (r ∷ [], rw (e, t) refl)
          | inr t ↦ absurd (h (rw (e, t) refl))
        ]
  ]

  removals_found :
      (revision now : ℕ) (ms : List Member)
      → 2 ≤ revision
      → (new : List Removal) × (new_removals index plan scope revision now ms ≡ ok new)
  unfolding new_removals
  removals_found revision now [] two = ([], refl)
  removals_found revision now (m ∷ ms) two =
      let (reasons, h) = reasons_found m in
      let (here, k) =
        removal_found revision now m reasons
          (removal_of-ne-value_error index plan scope m revision now reasons two h) in
      let (later, l) = removals_found revision now ms two in
      chain_found (revalidation_reasons index plan scope m) _ h (
        chain_found (removal_of revision now m reasons) _ k
          (chain_found (new_removals index plan scope revision now ms) _ l (_, refl)))

-- Revalidating a valid active plan at its revision, before its end and not before its latest event,
-- succeeds, where the composition can be indexed, is of the plan's account and at the command's map
-- and policy revisions, where the catalog, the universe and the quota can be made of it, and where
-- the flags of each of its messages agree with its protection reasons.
pub revalidate_plan-active :
    (platform : Platform) (composition : Composition) (plan : CleanupPlan)
    (command : RevalidateCommand) (now : ℕ) (index : CompositionIndex) (catalog : List CatalogItem)
    (scope : Scope)
    → IsValid plan
    → is_active (persisted_state plan) ≡ true
    → now < plan.expires_at
    → (latest plan).recorded_at ≤ now
    → command.expected_plan_revision ≡ plan_revision plan
    → index_composition composition ≡ ok index
    → (index.account_key == plan.account_key) ≡ true
    → (command.expected_map_revision == index.projection.map_revision) ≡ true
    → eqb command.expected_policy_revision index.projection.policy_revision ≡ true
    → build_catalog platform index ≡ ok catalog
    → scope_of platform index catalog plan ≡ ok scope
    → ((e : Entry) → In e index.entries → IsConsistent e)
    → (result : CleanupPlan × Event × List Removal × Receipt) × (revalidate_plan platform
          composition plan command now
        ≡ ok result)
unfolding revalidate_plan
revalidate_plan-active platform composition plan command now index catalog scope valid active
      in_time clock expected ei ea em ep ec es consistent =
    let revision = plan_revision plan + 1 in
    let (new, en) =
      removals_found index plan scope consistent revision now (eligible_members plan)
        (omega (arith, revision_positive plan valid)) in
    let p = new_removals-Picked index plan scope revision now (eligible_members plan) en in
    let outcome = revalidation-IsOutcome plan valid now active in_time clock index new p in
    let made = append_event-ok plan valid (revalidation_event index plan now new) new outcome in
    let guard =
      require_active-active plan command.expected_plan_revision now active in_time expected in
    chain_found (require_active plan command.expected_plan_revision now) _ guard (
      chain_found (index_composition composition) _ ei (
        chain_found (require (index.account_key == plan.account_key) account_unavailable) _
          (ap (λ t. require t account_unavailable) ea)
          (chain_found
            (require (command.expected_map_revision == index.projection.map_revision)
              map_revision_conflict)
            _ (ap (λ t. require t map_revision_conflict) em)
            (chain_found
              (require (eqb command.expected_policy_revision index.projection.policy_revision)
                policy_revision_conflict)
              _ (ap (λ t. require t policy_revision_conflict) ep)
              (chain_found (build_catalog platform index) _ ec (
                chain_found (scope_of platform index catalog plan) _ es (
                  chain_found (new_removals index plan scope revision now (eligible_members plan)) _
                    en
                    (chain_found (append_event plan (revalidation_event index plan now new) new) _
                      made (_, refl)))))))))
