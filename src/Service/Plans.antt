-- ===== src/Service/Plans.antt =====
-- src/mailmap/service.py: `create_plan` and `revalidate_plan` of the synthetic service.
use mailcleanup.Prelude.{
  ℕ, Bool, true, false, String, ◌==◌, Option, none, some, List, [], ◌∷◌, map, length, take, filter,
  contains, sum_of, sort_by, eqb, leb_text, if◌then◌else◌,
}
use mailcleanup.Classifier.Model.{MessageAssessment}
use mailcleanup.Classifier.Identity.{TextOps}
use mailcleanup.Classifier.Assess.{assess_messages}
use mailcleanup.Service.Judge.{
  proteccion_value, Exclusion, SnapshotMessage, PlanSelection, SimulatedPlan, PlanPreview,
  Revalidation, Repository, sources_of, judge_sources,
}

abbrev pub snapshot_message : MessageAssessment → SnapshotMessage
snapshot_message a = record {
  id = a.message.id;
  revision = a.message.revision;
  source_id = a.source_id;
  received_at = a.message.received_at;
}

unfoldable pub by_id : List MessageAssessment → List MessageAssessment
unfolding sort_by
by_id items = sort_by (λ a b. leb_text a.message.id b.message.id) items

unfoldable pub distinct_of : List String → List String
unfolding contains
distinct_of [] = []
distinct_of (y ∷ ys) = let rest = distinct_of ys in if contains ys y then rest else y ∷ rest

-- `sorted(set(xs))`
unfoldable pub sorted_set : List String → List String
unfolding distinct_of sort_by
sorted_set xs = sort_by leb_text (distinct_of xs)

unfoldable pub plan_of : String → List (String × SimulatedPlan) → Option SimulatedPlan
plan_of id [] = none
plan_of id ((k, p) ∷ rest) = if k == id then some p else plan_of id rest

-- `save_plan`: a plan of the same id takes the place of the old one.
unfoldable pub save_plan :
    SimulatedPlan → List (String × SimulatedPlan) → List (String × SimulatedPlan)
save_plan p [] = (p.id, p) ∷ []
save_plan p ((k, q) ∷ rest) =
    let later = save_plan p rest in if k == p.id then (k, p) ∷ rest else (k, q) ∷ later

-- `current[id]`: of several messages with one id the last stays in the dictionary.
unfoldable pub current : String → List MessageAssessment → Option MessageAssessment
current id [] = none
current id (a ∷ rest) =
    let later = current id rest in
    elim later [ some b ↦ some b | none ↦ if a.message.id == id then some a else none ]

-- Why a message of a plan is no longer valid: `none` where it still is.
unfoldable pub stale_reason : SnapshotMessage → Option MessageAssessment → Option Exclusion
unfolding proteccion_value
stale_reason m none = some (record { message_id = m.id; reason = "Ya no existe" })
stale_reason m (some a) =
    if eqb a.message.revision m.revision
    then if a.is_protected
      then some (record { message_id = a.message.id; reason = proteccion_value a.proteccion })
      else none
    else some (record { message_id = a.message.id; reason = "Cambió desde la vista previa" })

unfoldable pub add_checked :
    SnapshotMessage → Option Exclusion → List Exclusion × List String → List Exclusion × List String
add_checked m none (stale, valid) = (stale, m.id ∷ valid)
add_checked m (some e) (stale, valid) = (e ∷ stale, valid)

unfoldable pub checked_messages :
    List MessageAssessment → List SnapshotMessage → List Exclusion × List String
unfolding add_checked stale_reason current
checked_messages items [] = ([], [])
checked_messages items (m ∷ rest) =
    add_checked m (stale_reason m (current m.id items)) (checked_messages items rest)

unfoldable pub has_some : List Exclusion → Bool
has_some [] = false
has_some (e ∷ es) = true

-- The end of a civil date in the time zone, and the digest of a selection and its messages.
module _ (ops : TextOps) (end_of_day : ℕ → ℕ)
    (plan_digest : PlanSelection → List SnapshotMessage → String) where
  unfoldable pub cutoff_of : Option ℕ → Option ℕ
  cutoff_of none = none
  cutoff_of (some date) = some (end_of_day date)

  unfoldable pub assessments : Repository → List MessageAssessment
  assessments repo = assess_messages ops repo.messages

  unfoldable pub chosen : List String → Repository → List MessageAssessment
  unfolding assessments filter
  chosen source_ids repo = filter (λ a. contains source_ids a.source_id) (assessments repo)

  unfoldable pub judged_messages :
      PlanSelection → Repository → List Exclusion × List MessageAssessment
  unfolding chosen judge_sources sources_of cutoff_of
  judged_messages selection repo =
      let items = chosen selection.source_ids repo in
      judge_sources selection.keep_latest (cutoff_of selection.before_date) items
        (sources_of [] items)

  unfoldable pub plan_for : PlanSelection → Repository → SimulatedPlan
  unfolding judged_messages by_id sorted_set sum_of
  plan_for request repo =
      let (exclusions, included) = judged_messages request repo in
      let canonical : PlanSelection = record request {
        source_ids = sorted_set request.source_ids;
        operations = sorted_set request.operations;
      } in
      let messages = map snapshot_message (by_id included) in
      record {
        id = plan_digest canonical messages;
        selection = canonical;
        snapshot = record {
          messages = messages;
          excluded_count = length exclusions;
          total_bytes = sum_of (λ a. a.message.size_bytes) included;
        };
      }

  unfoldable pub create_simulated_plan : PlanSelection → Repository → PlanPreview × Repository
  unfolding plan_for save_plan sorted_set
  create_simulated_plan request repo =
      let (exclusions, included) = judged_messages request repo in
      let plan = plan_for request repo in
      (
        record {
          plan = plan;
          source_count = length (distinct_of request.source_ids);
          exclusions = exclusions;
          sample = take 5 included;
        },
        record repo { plans = save_plan plan repo.plans },
      )

  unfoldable pub revalidation : SimulatedPlan → Repository → Revalidation
  unfolding checked_messages has_some
  revalidation plan repo =
      let (stale, valid) = checked_messages (assessments repo) plan.snapshot.messages in
      record { is_stale = has_some stale; valid_message_ids = valid; excluded = stale }

  unfoldable pub revalidate_simulated_plan : String → Repository → Option Revalidation
  unfolding plan_of revalidation
  revalidate_simulated_plan id repo = elim (plan_of id repo.plans) [
    | some plan ↦ some (revalidation plan repo)
    | none ↦ none
  ]
