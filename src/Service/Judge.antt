-- ===== src/Service/Judge.antt =====
-- src/mailmap/service.py: the records of the simulated plans, and the loops of `create_plan` that judge each item.
use mailcleanup.Prelude.{
  ℕ, Bool, false, String, ◌==◌, Option, none, some, List, [], ◌∷◌, ◌++◌, map, take, filter,
  contains, sort_by, ltb, leb, if◌then◌else◌,
}
use mailcleanup.Classifier.Model.{SyntheticMessage, MessageAssessment, Proteccion}

unfoldable pub proteccion_value : Proteccion → String
proteccion_value Proteccion.critica = "Crítica"
proteccion_value Proteccion.documental = "Documental"
proteccion_value Proteccion.usuario = "Elegida por el usuario"
proteccion_value Proteccion.ordinaria = "Ordinaria"
proteccion_value Proteccion.revision = "Revisión obligatoria"

-- A message that a plan leaves out, or that went out of it, and why.
pub record Exclusion : Type 0 where
  pub message_id : String
  pub reason : String

pub record SnapshotMessage : Type 0 where
  pub id : String
  pub revision : ℕ
  pub source_id : String
  pub received_at : ℕ

pub record PlanSelection : Type 0 where
  pub source_ids : List String
  pub before_date : Option ℕ
  pub keep_latest : ℕ
  pub operations : List String

pub record PlanSnapshot : Type 0 where
  pub messages : List SnapshotMessage
  pub excluded_count : ℕ
  pub total_bytes : ℕ

pub record SimulatedPlan : Type 0 where
  pub id : String
  pub selection : PlanSelection
  pub snapshot : PlanSnapshot

-- The result of `create_plan`: what it shows besides the plan that it stores.
pub record PlanPreview : Type 0 where
  pub plan : SimulatedPlan
  pub source_count : ℕ
  pub exclusions : List Exclusion
  pub sample : List MessageAssessment

pub record Revalidation : Type 0 where
  pub is_stale : Bool
  pub valid_message_ids : List String
  pub excluded : List Exclusion

-- The tables of the repository that the service reads and writes.
pub record Repository : Type 0 where
  pub messages : List SyntheticMessage
  pub plans : List (String × SimulatedPlan)

-- `sorted(items, key=received_at, reverse=True)`, which keeps the order of equal times
unfoldable pub latest_first : List MessageAssessment → List MessageAssessment
unfolding sort_by
latest_first items = sort_by (λ a b. leb b.message.received_at a.message.received_at) items

-- `{item.message.id for item in ordered[:keep_latest]}`; nothing is taken at 0.
unfoldable pub kept_ids : ℕ → List MessageAssessment → List String
kept_ids keep_latest ordered = map (λ a. a.message.id) (take keep_latest ordered)

unfoldable pub is_after : Option ℕ → MessageAssessment → Bool
is_after none a = false
is_after (some cutoff) a = ltb cutoff a.message.received_at

-- Why an item is left out: `none` where it is included.
unfoldable pub left_out : List String → Option ℕ → MessageAssessment → Option String
unfolding contains is_after proteccion_value
left_out kept cutoff a =
    if a.is_protected
    then some (proteccion_value a.proteccion)
    else if contains kept a.message.id
    then some "Conservar los últimos"
    else if is_after cutoff a
    then some "Posterior a la fecha civil"
    else none

unfoldable pub add_judged :
    MessageAssessment
    → Option String
    → List Exclusion × List MessageAssessment
    → List Exclusion × List MessageAssessment
add_judged a none (exclusions, included) = (exclusions, a ∷ included)
add_judged a (some reason) (exclusions, included) =
    (record { message_id = a.message.id; reason = reason } ∷ exclusions, included)

-- The loop over the items of one source.
unfoldable pub judge_items :
    List String → Option ℕ → List MessageAssessment → List Exclusion × List MessageAssessment
unfolding add_judged left_out
judge_items kept cutoff [] = ([], [])
judge_items kept cutoff (a ∷ rest) =
    add_judged a (left_out kept cutoff a) (judge_items kept cutoff rest)

unfoldable pub of_source : String → List MessageAssessment → List MessageAssessment
unfolding filter
of_source source_id items = filter (λ a. a.source_id == source_id) items

-- The keys of `by_source`: the sources in the order of their first item.
unfoldable pub sources_of : List String → List MessageAssessment → List String
unfolding contains
sources_of seen [] = []
sources_of seen (a ∷ rest) =
    let later = sources_of (a.source_id ∷ seen) rest in
    let same = sources_of seen rest in
    if contains seen a.source_id then same else a.source_id ∷ later

unfoldable pub judge_source :
    ℕ → Option ℕ → List MessageAssessment → String → List Exclusion × List MessageAssessment
unfolding judge_items latest_first of_source kept_ids
judge_source keep_latest cutoff items source_id =
    let ordered = latest_first (of_source source_id items) in
    judge_items (kept_ids keep_latest ordered) cutoff ordered

unfoldable pub judge_sources :
    ℕ → Option ℕ → List MessageAssessment → List String → List Exclusion × List MessageAssessment
unfolding judge_source
judge_sources keep_latest cutoff items [] = ([], [])
judge_sources keep_latest cutoff items (source_id ∷ rest) =
    let (exclusions, included) = judge_source keep_latest cutoff items source_id in
    let (more, others) = judge_sources keep_latest cutoff items rest in
    (exclusions ++ more, included ++ others)
