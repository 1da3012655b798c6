-- ===== src/Classifier/Assess.antt =====
-- src/mailmap/classifier.py: `classify_message`, and `assess_messages` with the review of threads.
use mailcleanup.Prelude.{
  String, Bool, true, false, not, ◌&&◌, Option, none, some, List, [], ◌∷◌, ◌++◌, map, ◌==◌,
  if◌then◌else◌, any, filter,
}
use mailcleanup.Classifier.Model.{
  Rubro, Intencion, Suscripcion, Proteccion, MetodoBaja, Recomendacion, Evidence, SyntheticMessage,
  MessageAssessment, with_labels, with_thread_review,
}
use mailcleanup.Classifier.Identity.{
  TextOps, ◌<>◌, truthy, text_or, evidence_item, normalize_list_id, source_identity,
}
use mailcleanup.Classifier.Rules.{
  default_user_protected_labels, intent, unsubscribe_method, subscription, confidence, protection,
}

unfoldable pub metodo_value : MetodoBaja → String
metodo_value MetodoBaja.un_clic = "Un clic autenticado"
metodo_value MetodoBaja.manual = "Manual"
metodo_value MetodoBaja.ausente = "No detectada"
metodo_value MetodoBaja.sospechoso = "Cabecera no confiable"

unfoldable pub method_evidence : MetodoBaja → List Evidence
method_evidence MetodoBaja.ausente = []
method_evidence MetodoBaja.un_clic =
    evidence_item "unsubscribe-method" "Método de baja detectado" (metodo_value MetodoBaja.un_clic)
      "fuerte"
    ∷ []
method_evidence method =
    evidence_item "unsubscribe-method" "Método de baja detectado" (metodo_value method) "media" ∷ []

unfoldable pub is_revision : Proteccion → Bool
is_revision Proteccion.revision = true
is_revision _ = false

unfoldable pub is_disposable : Intencion → Bool
is_disposable Intencion.sospechoso = true
is_disposable Intencion.promocional = true
is_disposable _ = false

unfoldable pub is_subscribed : Suscripcion → Bool
is_subscribed Suscripcion.confirmada = true
is_subscribed Suscripcion.probable = true
is_subscribed _ = false

unfoldable pub recommendation : Bool → Proteccion → Intencion → Suscripcion → Recomendacion
recommendation protected protection intent subscription =
    if protected
    then (if is_revision protection then Recomendacion.revisar else Recomendacion.conservar)
    else if is_disposable intent
    then Recomendacion.papelera
    else if is_subscribed subscription
    then Recomendacion.archivar
    else Recomendacion.revisar

unfoldable pub rubro_or : Option Rubro → Rubro
rubro_or none = Rubro.desconocido
rubro_or (some r) = r

module _ (ops : TextOps) where
  open ops use {spaced}

  unfoldable pub header_evidence : SyntheticMessage → List Evidence
  header_evidence m =
      if truthy m.list_id
      then evidence_item "list-id" "Lista identificada"
          ("List-ID normalizado: " <> text_or (normalize_list_id ops m.list_id) "None" <> ".")
          (if m.dmarc_pass then "fuerte" else "débil")
        ∷ []
      else []

  unfoldable pub failure_evidence : SyntheticMessage → List Evidence
  failure_evidence m =
      if truthy m.failure_state
      then evidence_item "partial-ingestion" "Ingesta con incidencia simulada"
          (spaced (text_or m.failure_state "")) "media"
        ∷ []
      else []

  unfoldable pub classify_message : SyntheticMessage → List String → MessageAssessment
  unfolding header_evidence failure_evidence rubro_or
  classify_message m user_protected_labels =
      let (source_id, source_name, ambiguous, identity_evidence) = source_identity ops m in
      let (intent, intent_evidence) = intent ops m in
      let method = unsubscribe_method m in
      let subscription = subscription ops m intent method in
      let confidence = confidence m ambiguous intent in
      let (protection, protected, protection_evidence) =
        protection ops m intent confidence user_protected_labels in
      record {
        message = m;
        source_id = source_id;
        source_name = source_name;
        source_ambiguous = ambiguous;
        rubro = rubro_or m.rubro_hint;
        intencion = intent;
        suscripcion = subscription;
        proteccion = protection;
        confianza = confidence;
        metodo_baja = method;
        recomendacion = recommendation protected protection intent subscription;
        is_protected = protected;
        evidence =
            (identity_evidence ∷ intent_evidence)
            ++ (protection_evidence
                ++ (header_evidence m ++ (method_evidence method ++ failure_evidence m)));
      }

  -- `with_user_labels`
  unfoldable pub with_user_labels : MessageAssessment → List String → MessageAssessment
  with_user_labels a labels =
      classify_message (with_labels a.message labels) default_user_protected_labels

-- The items of `by_thread[thread_id]`.
unfoldable pub in_thread : String → List MessageAssessment → List MessageAssessment
in_thread thread_id items = filter (λ item. item.message.thread_id == thread_id) items

-- `thread_id in mixed_threads`
unfoldable pub is_mixed : List MessageAssessment → String → Bool
is_mixed assessed thread_id =
    let items = in_thread thread_id assessed in
    any (λ item. item.is_protected) items && any (λ item. not item.is_protected) items

-- The result for one item, given every item.
unfoldable pub reviewed : List MessageAssessment → MessageAssessment → MessageAssessment
reviewed assessed item =
    if is_mixed assessed item.message.thread_id && not item.is_protected
    then with_thread_review item
    else item

unfoldable pub review_threads : List MessageAssessment → List MessageAssessment
review_threads assessed = map (reviewed assessed) assessed

unfoldable pub assess_messages : TextOps → List SyntheticMessage → List MessageAssessment
assess_messages ops messages =
    review_threads (map (λ m. classify_message ops m default_user_protected_labels) messages)
