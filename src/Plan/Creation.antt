-- ===== src/Plan/Creation.antt =====
-- Creation: what a plan that `create_plan` gives went through, and that its constructor accepts it.
use mailcleanup.Prelude.{
  ℕ, true, false, not, List, [], ◌∷◌, ◌≡◌, ◌≢◌, refl, sym, ap, ◌∙◌, arith, ◌==◌, String, In, eqb,
  length, all,
}
use mailcleanup.Plan.Model.{
  Member, Selection, CleanupPlan, CreateCommand, Receipt, plan_revision, last_event,
}
use mailcleanup.Plan.Result.{
  Result, ok, err, value_error, traverse, >>=-eq-ok, check-eq-ok, require-eq-ok, ok_injective,
  map_revision_conflict, policy_revision_conflict, target_not_found, study_unavailable,
}
use mailcleanup.Plan.Composition.{Composition, CompositionIndex, index_composition, Entry}
use mailcleanup.Plan.Catalog.{Platform, CatalogItem, build_catalog}
use mailcleanup.Plan.Select.{quota_allowed, target_universe}
use mailcleanup.Plan.Samples.{samples_of}
use mailcleanup.Plan.Validate.{event_ok}
use mailcleanup.Plan.Create.{
  members_of, freeze, resolve_selection, snapshot_target, snapshot_label, create_plan,
  create_from_catalog, plan_ok, make_plan, as_invalid_request, created_event, aggregate_sizes_ok,
}
use mailcleanup.Plan.Active.{IsValid}
use mailcleanup.Plan.Selected.{IsMemberOf, members_of-made}

as_invalid_request-eq-ok :
    {A : Type 0} (m : Result A) {a : A} → as_invalid_request m ≡ ok a → m ≡ ok a
as_invalid_request-eq-ok (ok b) h = h
as_invalid_request-eq-ok (err e) h = h
as_invalid_request-eq-ok value_error h = cc

make_plan-eq-ok :
    (p : CleanupPlan) {q : CleanupPlan} → make_plan p ≡ ok q → (p ≡ q) × (plan_ok q ≡ true)
unfolding make_plan
make_plan-eq-ok p {q} h =
    let (t, h') = check-eq-ok (plan_ok p) (ok p) h in
    let same = ok_injective h' in (same, ap plan_ok (sym same) ∙ t)

-- What `freeze` gives is made of the members, with its one event.
pub record IsFrozen (platform : Platform) (index : CompositionIndex) (selection : Selection)
    (members : List Member) (now : ℕ) (plan : CleanupPlan) : Type 0 where
  pub selection_kept : plan.selection ≡ selection
  pub members_kept : plan.members ≡ members
  pub events : plan.events ≡ created_event platform index members now ∷ []
  pub removals : plan.removals ≡ []
  pub valid : IsValid plan

freeze-made :
    (platform : Platform) (index : CompositionIndex) (selection : Selection) (universe : List Entry)
    (members : List Member) (plan_id : String) (now : ℕ) (input_revision : String)
    {plan : CleanupPlan}
    → freeze platform index selection universe members plan_id now input_revision ≡ ok plan
    → IsFrozen platform index selection members now plan
unfolding freeze all
freeze-made platform index selection universe members plan_id now input_revision {plan} h =
    let event = created_event platform index members now in
    let (_, h1) = require-eq-ok (aggregate_sizes_ok members) study_unavailable _ h in
    let (event_good, h2) = check-eq-ok (event_ok event) _ h1 in
    let h3 = as_invalid_request-eq-ok _ h2 in
    let (samples, _, h4) = >>=-eq-ok (samples_of members universe) _ h3 in
    let (same, good) = make_plan-eq-ok _ h4 in
    let events : plan.events ≡ event ∷ [] = ap (λ (z : CleanupPlan). z.events) (sym same) in
    let one : all event_ok (event ∷ []) ≡ true = ground (arith, event_good) in
    record {
      selection_kept = ap (λ (z : CleanupPlan). z.selection) (sym same);
      members_kept = ap (λ (z : CleanupPlan). z.members) (sym same);
      events = events;
      removals = ap (λ (z : CleanupPlan). z.removals) (sym same);
      valid = record { plan_accepted = good; events_accepted = ap (all event_ok) events ∙ one };
    }

-- What a creation went through before it gave its plan: first from the catalog on, then all.
pub record IsMade (platform : Platform) (index : CompositionIndex) (catalog : List CatalogItem)
    (command : CreateCommand) (now : ℕ) (plan : CleanupPlan) : Type 0 where
  pub universe : List Entry
  pub reached : target_universe platform false index catalog command.targets ≡ ok universe
  pub reached_some : length universe ≢ 0
  pub members : members_of platform index.account_key plan.selection universe ≡ ok plan.members
  pub valid : IsValid plan
  pub events : plan.events ≡ created_event platform index plan.members now ∷ []
  pub removals : plan.removals ≡ []

pub record IsCreation (platform : Platform) (composition : Composition) (command : CreateCommand)
    (now : ℕ) (plan : CleanupPlan) : Type 0 where
  pub index : CompositionIndex
  pub catalog : List CatalogItem
  pub indexed : index_composition composition ≡ ok index
  pub same_map : (command.expected_map_revision == index.projection.map_revision) ≡ true
  pub same_policy : eqb command.expected_policy_revision index.projection.policy_revision ≡ true
  pub listed : build_catalog platform index ≡ ok catalog
  pub made : IsMade platform index catalog command now plan

IsMade-frozen :
    (platform : Platform) (index : CompositionIndex) (catalog : List CatalogItem)
    (command : CreateCommand) (now : ℕ) (selection : Selection) (universe : List Entry)
    (members : List Member) {plan : CleanupPlan}
    → target_universe platform false index catalog command.targets ≡ ok universe
    → not (eqb (length universe) 0) ≡ true
    → members_of platform index.account_key selection universe ≡ ok members
    → IsFrozen platform index selection members now plan
    → IsMade platform index catalog command now plan
IsMade-frozen platform index catalog command now selection universe members reached some_reached em
      f =
    record {
      universe = universe;
      reached = reached;
      reached_some = ground arith;
      members = rw (f.selection_kept, f.members_kept) em;
      valid = f.valid;
      events = rw f.members_kept f.events;
      removals = f.removals;
    }

create_from_catalog-IsMade :
    (platform : Platform) (index : CompositionIndex) (catalog : List CatalogItem)
    (command : CreateCommand) (plan_id : String) (now : ℕ) (input_revision : String)
    {plan : CleanupPlan} {r : Receipt}
    → create_from_catalog platform index catalog command plan_id now input_revision ≡ ok (plan, r)
    → IsMade platform index catalog command now plan
unfolding create_from_catalog
create_from_catalog-IsMade platform index catalog command plan_id now input_revision {plan} {r} h =
    let (targets, _, h5) = >>=-eq-ok (traverse (snapshot_target catalog) command.targets) _ h in
    let (labels, _, h6) =
      >>=-eq-ok (traverse (snapshot_label catalog) command.excluded_label_ids) _ h5 in
    let (universe, eu, h7) =
      >>=-eq-ok (target_universe platform false index catalog command.targets) _ h6 in
    let (some_reached, h8) = require-eq-ok (not (eqb (length universe) 0)) target_not_found _ h7 in
    let (selection, _, h9) =
      >>=-eq-ok (resolve_selection platform catalog command now targets labels) _ h8 in
    let (members, em, h10) =
      >>=-eq-ok (members_of platform index.account_key selection universe) _ h9 in
    let (frozen, ef, h11) =
      >>=-eq-ok (freeze platform index selection universe members plan_id now input_revision) _
        h10 in
    let same : frozen ≡ plan = ap (λ z. z.0) (ok_injective h11) in
    IsMade-frozen platform index catalog command now selection universe members eu some_reached em (
      freeze-made platform index selection universe members plan_id now input_revision
        (ef ∙ ap ok same))

create_plan-made :
    (platform : Platform) (composition : Composition) (command : CreateCommand) (plan_id : String)
    (now : ℕ) (input_revision : String) {plan : CleanupPlan} {r : Receipt}
    → create_plan platform composition command plan_id now input_revision ≡ ok (plan, r)
    → IsCreation platform composition command now plan
unfolding create_plan
create_plan-made platform composition command plan_id now input_revision {plan} {r} h =
    let (index, ei, h1) = >>=-eq-ok (index_composition composition) _ h in
    let (em, h2) =
      require-eq-ok (command.expected_map_revision == index.projection.map_revision)
        map_revision_conflict _ h1 in
    let (ep, h3) =
      require-eq-ok (eqb command.expected_policy_revision index.projection.policy_revision)
        policy_revision_conflict _ h2 in
    let (catalog, ec, h4) = >>=-eq-ok (build_catalog platform index) _ h3 in
    record {
      index = index;
      catalog = catalog;
      indexed = ei;
      same_map = em;
      same_policy = ep;
      listed = ec;
      made =
          create_from_catalog-IsMade platform index catalog command plan_id now input_revision h4;
    }

-- A plan that creation gives is valid and at revision 1, and it was made at the map and policy
-- revisions of the command. A member of it was made of a message of the targets, and it is selected
-- exactly when no policy and no filter gives a reason against the message and the quota of its flow
-- lets it through.
pub create_plan-selects :
    (platform : Platform) (composition : Composition) (command : CreateCommand) (plan_id : String)
    (now : ℕ) (input_revision : String) {plan : CleanupPlan} {r : Receipt}
    → create_plan platform composition command plan_id now input_revision ≡ ok (plan, r)
    → (m : Member) → In m plan.members
    → IsValid plan
      × (plan_revision plan ≡ 1)
      × (c : IsCreation platform composition command now plan) × (allowed : List Entry)
      × (quota_allowed plan.selection c.made.universe ≡ ok allowed)
      × IsMemberOf plan.selection allowed c.made.universe m
unfolding last_event
create_plan-selects platform composition command plan_id now input_revision {plan} h m i =
    let c = create_plan-made platform composition command plan_id now input_revision h in
    let first : plan_revision plan ≡ 1 = rw c.made.events refl in
    let (allowed, quota, each) =
      members_of-made platform c.index.account_key plan.selection c.made.universe c.made.members in
    (c.made.valid, first, c, allowed, quota, each m i)
