-- ===== src/Service/Revalidated.antt =====
-- src/mailmap/service.py: revalidating a simulated plan, at any time and right after its creation.
use mailcleanup.Prelude.{
  ℕ, true, false, String, ◌==◌, none, some, List, [], ◌∷◌, map, contains, distinct, ◌≡◌, ◌↔◌, refl,
  sym, ap, ◌∙◌, subst, inl, inr, In, eq_iff, eq_refl, Bool-cases, arith,
}
use mailcleanup.Classifier.Model.{MessageAssessment}
use mailcleanup.Classifier.Identity.{TextOps}
use mailcleanup.Classifier.Threads.{assess_messages_keeps}
use mailcleanup.Service.Judge.{SnapshotMessage, PlanSelection, SimulatedPlan, Repository}
use mailcleanup.Service.Plans.{
  snapshot_message, current, checked_messages, assessments, plan_for, create_simulated_plan,
  save_plan, plan_of, revalidation, revalidate_simulated_plan, has_some,
}
use mailcleanup.Service.Created.{Includes, create_simulated_plan-Includes}
use mailcleanup.Service.Rechecked.{
  StillHolds, all_checked, In-checked_messages, checked_messages-In,
}

contains-map_id :
    (a : MessageAssessment) (items : List MessageAssessment)
    → In a items
    → contains (map (λ b. b.message.id) items) a.message.id ≡ true
unfolding contains
contains-map_id a [] i = absurd i
contains-map_id a (b ∷ rest) (inl e) =
    let q : (a.message.id ≡ b.message.id) = ap (λ (z : MessageAssessment). z.message.id) e in
    ground (arith, eq_iff a.message.id b.message.id)
contains-map_id a (b ∷ rest) (inr i) = ground (arith, contains-map_id a rest i)

current-absent :
    (id : String) (items : List MessageAssessment)
    → contains (map (λ b. b.message.id) items) id ≡ false
    → current id items ≡ none
unfolding current contains
current-absent id [] h = refl
current-absent id (b ∷ rest) h =
    let (p, q) : ((id == b.message.id) ≡ false)
        × (contains (map (λ b. b.message.id) rest) id ≡ false) =
      ground arith in
    rw (current-absent id rest q) (ground (arith, eq_iff b.message.id id, eq_iff id b.message.id))

-- among items of different messages, the current one of an item's id is the item
current-In :
    (a : MessageAssessment) (items : List MessageAssessment)
    → distinct (map (λ b. b.message.id) items) ≡ true
    → In a items
    → current a.message.id items ≡ some a
unfolding current distinct
current-In a [] d i = absurd i
current-In a (b ∷ rest) d (inl e) =
    let q : (contains (map (λ b. b.message.id) rest) b.message.id ≡ false) = ground arith in
    subst (λ z. current z.message.id (b ∷ rest) ≡ some z) (sym e)
      (rw (current-absent b.message.id rest q, eq_refl b.message.id) refl)
current-In a (b ∷ rest) d (inr i) =
    let q : (distinct (map (λ b. b.message.id) rest) ≡ true) = ground arith in
    rw (current-In a rest q i) refl

plan_of-save_plan :
    (p : SimulatedPlan) (plans : List (String × SimulatedPlan))
    → plan_of p.id (save_plan p plans) ≡ some p
unfolding plan_of save_plan
plan_of-save_plan p [] = rw (eq_refl p.id) refl
plan_of-save_plan p ((k, q) ∷ rest) = elim (Bool-cases (k == p.id)) [
  | inl t ↦ rw (t, t) refl
  | inr f ↦ rw (f, f) (plan_of-save_plan p rest)
]

map_ids :
    (items : List MessageAssessment)
    → map (λ a. a.message.id) items
      ≡ map (λ m. m.id) (map (λ (a : MessageAssessment). a.message) items)
map_ids [] = refl
map_ids (a ∷ rest) = ap (◌∷◌ a.message.id) (map_ids rest)

module _ (ops : TextOps) (end_of_day : ℕ → ℕ)
    (plan_digest : PlanSelection → List SnapshotMessage → String) where
  -- A revalidation reports a message as valid exactly when the plan holds it and the last
  -- assessed message of its id has the same revision and is not protected.
  pub revalidation-StillHolds :
      (plan : SimulatedPlan) (repo : Repository) (id : String)
      → In id (revalidation ops end_of_day plan_digest plan repo).valid_message_ids ↔ (
          (m : SnapshotMessage) × In m plan.snapshot.messages
          × (id ≡ m.id)
          × StillHolds (assessments ops end_of_day plan_digest repo) m)
  unfolding revalidation
  revalidation-StillHolds plan repo id =
      let items = assessments ops end_of_day plan_digest repo in
      (
        In-checked_messages items plan.snapshot.messages id,
        (λ h.
            subst (λ z. In z (checked_messages items plan.snapshot.messages).1) (sym h.2)
              (checked_messages-In items plan.snapshot.messages h.0 h.1 h.3)),
      )

  Includes-StillHolds :
      (request : PlanSelection) (repo : Repository)
      → distinct (map (λ m. m.id) repo.messages) ≡ true
      → (a : MessageAssessment) → Includes ops end_of_day plan_digest request repo a
      → StillHolds (assessments ops end_of_day plan_digest repo) (snapshot_message a)
  unfolding assessments
  Includes-StillHolds request repo d a h =
      let items = assessments ops end_of_day plan_digest repo in
      let same = map_ids items ∙ ap (map (λ m. m.id)) (assess_messages_keeps ops repo.messages) in
      record {
        now = a;
        is_current = current-In a items (ap distinct same ∙ d) h.assessed;
        unchanged = refl;
        unprotected = h.unprotected;
      }

  revalidate_simulated_plan-save_plan :
      (plan : SimulatedPlan) (repo : Repository)
      → ((m : SnapshotMessage)
          → In m plan.snapshot.messages
          → StillHolds (assessments ops end_of_day plan_digest repo) m)
      → revalidate_simulated_plan ops end_of_day plan_digest plan.id
          (record repo { plans = save_plan plan repo.plans })
        ≡ some (record {
          is_stale = false;
          valid_message_ids = map (λ m. m.id) plan.snapshot.messages;
          excluded = [];
        })
  unfolding revalidate_simulated_plan revalidation assessments has_some
  revalidate_simulated_plan-save_plan plan repo holds =
      rw
        (
          revalidate_simulated_plan,
          plan_of-save_plan plan repo.plans,
          revalidation,
          all_checked (assessments ops end_of_day plan_digest repo) plan.snapshot.messages holds,
        )
        refl

  -- In a repository of messages of different ids, revalidating a simulated plan right after its
  -- creation finds it, and reports all of its messages as valid and none as excluded.
  pub revalidate_simulated_plan-create_simulated_plan :
      (request : PlanSelection) (repo : Repository)
      → distinct (map (λ m. m.id) repo.messages) ≡ true
      → let (preview, after) = create_simulated_plan ops end_of_day plan_digest request repo in
        revalidate_simulated_plan ops end_of_day plan_digest preview.plan.id after
        ≡ some (record {
          is_stale = false;
          valid_message_ids = map (λ m. m.id) preview.plan.snapshot.messages;
          excluded = [];
        })
  unfolding create_simulated_plan
  revalidate_simulated_plan-create_simulated_plan request repo d =
      let plan = plan_for ops end_of_day plan_digest request repo in
      let items = assessments ops end_of_day plan_digest repo in
      let holds : (m : SnapshotMessage) → In m plan.snapshot.messages → StillHolds items m = λ m i.
        let (a, h, e) =
          (create_simulated_plan-Includes ops end_of_day plan_digest request repo m).0 i in
        subst (StillHolds items) (sym e) (Includes-StillHolds request repo d a h) in
      revalidate_simulated_plan-save_plan plan repo holds
