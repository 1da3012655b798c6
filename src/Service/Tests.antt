-- ===== src/Service/Tests.antt =====
-- Runs of the simulated plans on four offers, and the theorems applied to them.
use mailcleanup.Prelude.{
  any, all, filter, contains, ℕ, ◌+◌, ◌*◌, true, false, String, some, List, [], ◌∷◌, map, ◌≡◌, ◌↔◌,
  refl, distinct, In,
}
use mailcleanup.Classifier.Model.{
  SyntheticMessage, MessageAssessment, with_labels, with_thread_review,
}
use mailcleanup.Classifier.Tests.{ops, offer}
use mailcleanup.Classifier.Identity.{
  normalize_email, sender_domain, normalize_list_id, source_identity,
}
use mailcleanup.Classifier.Rules.{
  intencion_value, category_intencion, hinted_intent, is_security_or_document, never_subscribed,
  is_usable, is_sospechoso, is_method, unsubscribe_method, confidence, is_uncertain, is_intent,
  intent, subscription, protection,
}
use mailcleanup.Classifier.Assess.{
  metodo_value, method_evidence, is_revision, is_disposable, is_subscribed, recommendation,
  rubro_or, header_evidence, failure_evidence, classify_message, with_user_labels, in_thread,
  is_mixed, reviewed, review_threads, assess_messages,
}
use mailcleanup.Service.Judge.{SnapshotMessage, PlanSelection, PlanPreview, Repository}
use mailcleanup.Service.Plans.{
  create_simulated_plan, revalidate_simulated_plan, revalidation, assessments, snapshot_message,
}
use mailcleanup.Service.Created.{Includes, create_simulated_plan-Includes}
use mailcleanup.Service.Rechecked.{StillHolds}
use mailcleanup.Service.Revalidated.{
  revalidation-StillHolds, revalidate_simulated_plan-create_simulated_plan,
}

abbrev at : String → ℕ → List String → SyntheticMessage
at id time labels = record (offer id labels) { received_at = time; thread_id = id }

-- the second is the newest, the third is labelled as protected, the fourth is after the date
abbrev repo : Repository
repo = record {
  messages = at "b" 110 [] ∷ at "a" 180 [] ∷ at "c" 120 ("Pagos" ∷ []) ∷ at "d" 150 [] ∷ [];
  plans = [];
}

abbrev end_of_day : ℕ → ℕ
end_of_day day = day * 100 + 40

abbrev plan_digest : PlanSelection → List SnapshotMessage → String
plan_digest selection messages = "plan-1"

abbrev request : PlanSelection
request = record {
  source_ids = "src-tienda" ∷ [];
  before_date = some 1;
  keep_latest = 1;
  operations = "trash" ∷ [];
}

abbrev created : PlanPreview × Repository
created = create_simulated_plan ops end_of_day plan_digest request repo

abbrev kept_snapshot : SnapshotMessage
kept_snapshot = record { id = "b"; revision = 1; source_id = "src-tienda"; received_at = 110 }

created_messages : created.0.plan.snapshot.messages ≡ kept_snapshot ∷ []
unfolding any all filter contains with_labels with_thread_review normalize_email sender_domain
    normalize_list_id source_identity intencion_value category_intencion hinted_intent
    is_security_or_document never_subscribed is_usable is_sospechoso is_method unsubscribe_method
    confidence is_uncertain is_intent intent subscription protection metodo_value method_evidence
    is_revision is_disposable is_subscribed recommendation rubro_or header_evidence failure_evidence
    classify_message with_user_labels in_thread is_mixed reviewed review_threads assess_messages
    create_simulated_plan
created_messages = refl

created_exclusions :
    created.0.exclusions
    ≡ record { message_id = "a"; reason = "Conservar los últimos" }
      ∷ record { message_id = "d"; reason = "Posterior a la fecha civil" }
      ∷ record { message_id = "c"; reason = "Elegida por el usuario" }
      ∷ []
unfolding any all filter contains with_labels with_thread_review normalize_email sender_domain
    normalize_list_id source_identity intencion_value category_intencion hinted_intent
    is_security_or_document never_subscribed is_usable is_sospechoso is_method unsubscribe_method
    confidence is_uncertain is_intent intent subscription protection metodo_value method_evidence
    is_revision is_disposable is_subscribed recommendation rubro_or header_evidence failure_evidence
    classify_message with_user_labels in_thread is_mixed reviewed review_threads assess_messages
    create_simulated_plan
created_exclusions = refl

-- the message of the plan was relabelled, which changes its revision, and is found changed
relabelled_excluded :
    (revalidation ops end_of_day plan_digest created.0.plan
      (record repo { messages = record (at "b" 110 []) { revision = 2 } ∷ [] })).excluded
    ≡ record { message_id = "b"; reason = "Cambió desde la vista previa" } ∷ []
unfolding any all filter contains with_labels with_thread_review normalize_email sender_domain
    normalize_list_id source_identity intencion_value category_intencion hinted_intent
    is_security_or_document never_subscribed is_usable is_sospechoso is_method unsubscribe_method
    confidence is_uncertain is_intent intent subscription protection metodo_value method_evidence
    is_revision is_disposable is_subscribed recommendation rubro_or header_evidence failure_evidence
    classify_message with_user_labels in_thread is_mixed reviewed review_threads assess_messages
    create_simulated_plan revalidation
relabelled_excluded = refl

create_simulated_plan-Includes_example : In kept_snapshot created.0.plan.snapshot.messages ↔ (
    (a : MessageAssessment) × Includes ops end_of_day plan_digest request repo a
    × (kept_snapshot ≡ snapshot_message a))
create_simulated_plan-Includes_example =
    create_simulated_plan-Includes ops end_of_day plan_digest request repo kept_snapshot

revalidation-StillHolds_example :
    In "b" (revalidation ops end_of_day plan_digest created.0.plan repo).valid_message_ids ↔ (
      (m : SnapshotMessage) × In m created.0.plan.snapshot.messages
      × ("b" ≡ m.id)
      × StillHolds (assessments ops end_of_day plan_digest repo) m)
revalidation-StillHolds_example =
    revalidation-StillHolds ops end_of_day plan_digest created.0.plan repo "b"

repo_is_distinct : distinct (map (λ (m : SyntheticMessage). m.id) repo.messages) ≡ true
unfolding distinct contains
repo_is_distinct = refl

revalidate_simulated_plan-create_simulated_plan_example :
    revalidate_simulated_plan ops end_of_day plan_digest created.0.plan.id created.1
    ≡ some (record {
      is_stale = false;
      valid_message_ids = map (λ m. m.id) created.0.plan.snapshot.messages;
      excluded = [];
    })
revalidate_simulated_plan-create_simulated_plan_example =
    revalidate_simulated_plan-create_simulated_plan ops end_of_day plan_digest request repo
      repo_is_distinct
