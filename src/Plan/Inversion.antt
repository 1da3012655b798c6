-- ===== src/Plan/Inversion.antt =====
-- What a command went through when it gave a result.
use mailcleanup.Prelude.{ℕ, ◌+◌, ◌<◌, true, false, List, ◌≡◌, sym, ap, ◌∙◌, subst, eqb, none, ◌==◌}
use mailcleanup.Plan.Model.{
  Event, Removal, CleanupPlan, CancelCommand, RevalidateCommand, Receipt, CommandStatus,
  plan_revision, persisted_state, eligible_members,
}
use mailcleanup.Plan.Result.{
  ok, account_unavailable, map_revision_conflict, policy_revision_conflict, >>=-eq-ok,
  require-eq-ok, ok_injective,
}
use mailcleanup.Plan.Composition.{Composition, CompositionIndex, index_composition}
use mailcleanup.Plan.Catalog.{Platform, build_catalog, CatalogItem}
use mailcleanup.Plan.Revise.{
  Scope, scope_of, require_active, new_removals, revalidation_event, append_event, cancel_plan,
  revalidate_plan,
}
use mailcleanup.Plan.Active.{is_active, require_active-ok}

abbrev pub cancellation_receipt : Platform → CleanupPlan → CancelCommand → Receipt
cancellation_receipt platform plan command = record {
  command_id = command.command_id;
  request_fingerprint = platform.cancel_fingerprint command plan.plan_id;
  status = CommandStatus.cancelled;
  replayed = false;
  command_revision = plan_revision plan + 1;
  plan_id = plan.plan_id;
  removed_count = none;
}

pub cancel_plan-inv :
    (platform : Platform) (plan : CleanupPlan) (command : CancelCommand) (now : ℕ)
    {updated : CleanupPlan} {e : Event} {r : Receipt}
    → cancel_plan platform plan command now ≡ ok (updated, e, r)
    → (is_active (persisted_state plan) ≡ true)
      × (now < plan.expires_at)
      × (command.expected_plan_revision ≡ plan_revision plan)
unfolding cancel_plan
cancel_plan-inv platform plan command now h =
    let (_, g, _) = >>=-eq-ok (require_active plan command.expected_plan_revision now) _ h in
    require_active-ok plan command.expected_plan_revision now g

-- What a revalidation went through before it gave its result.
pub record IsRevalidation (platform : Platform) (composition : Composition) (plan : CleanupPlan)
    (command : RevalidateCommand) (now : ℕ) (updated : CleanupPlan) (e : Event) (new : List Removal)
    : Type 0 where
  pub index : CompositionIndex
  pub catalog : List CatalogItem
  pub scope : Scope
  pub is_active_before : is_active (persisted_state plan) ≡ true
  pub in_time : now < plan.expires_at
  pub expected : command.expected_plan_revision ≡ plan_revision plan
  pub indexed : index_composition composition ≡ ok index
  pub same_account : (index.account_key == plan.account_key) ≡ true
  pub same_map : (command.expected_map_revision == index.projection.map_revision) ≡ true
  pub same_policy : eqb command.expected_policy_revision index.projection.policy_revision ≡ true
  pub listed : build_catalog platform index ≡ ok catalog
  pub scoped : scope_of platform index catalog plan ≡ ok scope
  pub removals :
      new_removals index plan scope (plan_revision plan + 1) now (eligible_members plan) ≡ ok new
  pub event : e ≡ revalidation_event index plan now new
  pub built : append_event plan (revalidation_event index plan now new) new ≡ ok updated

pub revalidate_plan-inv :
    (platform : Platform) (composition : Composition) (plan : CleanupPlan)
    (command : RevalidateCommand) (now : ℕ) {updated : CleanupPlan} {e : Event} {new : List Removal}
    {r : Receipt}
    → revalidate_plan platform composition plan command now ≡ ok (updated, e, new, r)
    → IsRevalidation platform composition plan command now updated e new
unfolding revalidate_plan
revalidate_plan-inv platform composition plan command now {updated} {e} {new} {r} h =
    let (_, g, h1) = >>=-eq-ok (require_active plan command.expected_plan_revision now) _ h in
    let (active, in_time, expected) = require_active-ok plan command.expected_plan_revision now g in
    let (index, ei, h2) = >>=-eq-ok (index_composition composition) _ h1 in
    let (ea, h3) = require-eq-ok (index.account_key == plan.account_key) account_unavailable _ h2 in
    let (em, h4) =
      require-eq-ok (command.expected_map_revision == index.projection.map_revision)
        map_revision_conflict _ h3 in
    let (ep, h5) =
      require-eq-ok (eqb command.expected_policy_revision index.projection.policy_revision)
        policy_revision_conflict _ h4 in
    let (catalog, ec, h6) = >>=-eq-ok (build_catalog platform index) _ h5 in
    let (scope, es, h7) = >>=-eq-ok (scope_of platform index catalog plan) _ h6 in
    let (found, en, h8) =
      >>=-eq-ok (new_removals index plan scope (plan_revision plan + 1) now (eligible_members plan))
        _ h7 in
    let (made, eb, h9) =
      >>=-eq-ok (append_event plan (revalidation_event index plan now found) found) _ h8 in
    let parts = ok_injective h9 in
    let same_new : found ≡ new = ap (λ z. z.2) parts in
    let same_made : made ≡ updated = ap (λ z. z.0) parts in
    let same_event : revalidation_event index plan now found ≡ e = ap (λ z. z.1) parts in
    record {
      index = index;
      catalog = catalog;
      scope = scope;
      is_active_before = active;
      in_time = in_time;
      expected = expected;
      indexed = ei;
      same_account = ea;
      same_map = em;
      same_policy = ep;
      listed = ec;
      scoped = es;
      removals = en ∙ ap ok same_new;
      event = sym same_event ∙ ap (revalidation_event index plan now) same_new;
      built =
          subst (λ z. append_event plan (revalidation_event index plan now z) z ≡ ok updated)
            same_new (eb ∙ ap ok same_made);
    }
