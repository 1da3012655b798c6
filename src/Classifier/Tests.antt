-- ===== src/Classifier/Tests.antt =====
-- Runs of the classifier on a small conversation, and the theorems applied to them.
use mailcleanup.Prelude.{
  String, true, false, none, some, List, [], ◌∷◌, ◌++◌, map, ◌≡◌, refl, inl, inr, any, all, filter,
  contains,
}
use mailcleanup.Classifier.Model.{
  SyntheticMessage, MessageAssessment, Recomendacion, with_labels, with_thread_review,
}
use mailcleanup.Classifier.Identity.{
  TextOps, normalize_email, sender_domain, normalize_list_id, source_identity,
}
use mailcleanup.Classifier.Rules.{
  system_protected_labels, default_user_protected_labels, intencion_value, category_intencion,
  hinted_intent, is_security_or_document, never_subscribed, is_usable, is_sospechoso, is_method,
  unsubscribe_method, confidence, is_uncertain, is_intent, intent, subscription, protection,
}
use mailcleanup.Classifier.Assess.{
  metodo_value, method_evidence, is_revision, is_disposable, is_subscribed, recommendation,
  rubro_or, header_evidence, failure_evidence, classify_message, with_user_labels, in_thread,
  is_mixed, reviewed, review_threads, assess_messages,
}
use mailcleanup.Classifier.Safety.{IsOpen, candidate_is_safe}
use mailcleanup.Classifier.Threads.{thread_uniform, candidate_thread}

abbrev pub ops : TextOps
ops = record {
  casefold = λ s. s;
  strip = λ s. s;
  strip_brackets = λ s. s;
  parse_address = λ s. s;
  after_last_at = λ s. s;
  slug = λ s. s;
  sender_digest = λ s. s;
  spaced = λ s. s;
  contains_text = λ s t. false;
  join_sorted = λ xs. "etiquetas";
}

abbrev pub offer : String → List String → SyntheticMessage
offer id labels = record {
  id = id;
  thread_id = "hilo";
  received_at = 100;
  sender_name = "Tienda";
  sender_email = "ofertas@tienda.example";
  subject = "Rebajas";
  labels = labels;
  gmail_category = "Promociones";
  authenticated_domain = some "tienda.example";
  list_id = some "ofertas.tienda.example";
  unsubscribe_method = some "one_click";
  dkim_pass = true;
  dmarc_pass = true;
  brand_hint = some "tienda";
  rubro_hint = none;
  flow_hint = none;
  personal_signal = false;
  size_bytes = 1000;
  failure_state = none;
  fixture_tags = [];
  revision = 1;
}

-- Two offers of one conversation, and the same with one of them starred.
abbrev offers : List SyntheticMessage
offers = offer "a" ("INBOX" ∷ []) ∷ offer "b" ("INBOX" ∷ []) ∷ []

abbrev starred_offers : List SyntheticMessage
starred_offers = offer "a" ("STARRED" ∷ []) ∷ offer "b" ("INBOX" ∷ []) ∷ []

abbrev assessment : SyntheticMessage → MessageAssessment
assessment m = classify_message ops m default_user_protected_labels

-- A plain offer is proposed for the trash.
offer_is_candidate : (assessment (offer "a" ("INBOX" ∷ []))).recomendacion ≡ Recomendacion.papelera
unfolding any all filter contains with_labels with_thread_review normalize_email sender_domain
    normalize_list_id source_identity intencion_value category_intencion hinted_intent
    is_security_or_document never_subscribed is_usable is_sospechoso is_method unsubscribe_method
    confidence is_uncertain is_intent intent subscription protection metodo_value method_evidence
    is_revision is_disposable is_subscribed recommendation rubro_or header_evidence failure_evidence
    classify_message with_user_labels in_thread is_mixed reviewed review_threads assess_messages
offer_is_candidate = refl

-- In a conversation with a starred message the other one is put to review.
starred_review :
    map (λ (a : MessageAssessment). a.recomendacion) (assess_messages ops starred_offers)
    ≡ Recomendacion.conservar ∷ Recomendacion.revisar ∷ []
unfolding any all filter contains with_labels with_thread_review normalize_email sender_domain
    normalize_list_id source_identity intencion_value category_intencion hinted_intent
    is_security_or_document never_subscribed is_usable is_sospechoso is_method unsubscribe_method
    confidence is_uncertain is_intent intent subscription protection metodo_value method_evidence
    is_revision is_disposable is_subscribed recommendation rubro_or header_evidence failure_evidence
    classify_message with_user_labels in_thread is_mixed reviewed review_threads assess_messages
starred_review = refl

plain : assess_messages ops offers ≡ map assessment offers
unfolding any all filter contains with_labels with_thread_review normalize_email sender_domain
    normalize_list_id source_identity intencion_value category_intencion hinted_intent
    is_security_or_document never_subscribed is_usable is_sospechoso is_method unsubscribe_method
    confidence is_uncertain is_intent intent subscription protection metodo_value method_evidence
    is_revision is_disposable is_subscribed recommendation rubro_or header_evidence failure_evidence
    classify_message with_user_labels in_thread is_mixed reviewed review_threads assess_messages
plain = refl

candidate_thread_example :
    ((assessment (offer "b" ("INBOX" ∷ []))).is_protected ≡ false)
    × (any
          (contains (system_protected_labels ++ default_user_protected_labels))
          (assessment (offer "b" ("INBOX" ∷ []))).message.labels
        ≡ false)
unfolding any all filter contains with_labels with_thread_review normalize_email sender_domain
    normalize_list_id source_identity intencion_value category_intencion hinted_intent
    is_security_or_document never_subscribed is_usable is_sospechoso is_method unsubscribe_method
    confidence is_uncertain is_intent intent subscription protection metodo_value method_evidence
    is_revision is_disposable is_subscribed recommendation rubro_or header_evidence failure_evidence
    classify_message with_user_labels in_thread is_mixed reviewed review_threads assess_messages
candidate_thread_example =
    candidate_thread ops offers (assessment (offer "a" ("INBOX" ∷ [])))
      (assessment (offer "b" ("INBOX" ∷ []))) (inl refl) (inr (inl refl)) refl refl

thread_uniform_example :
    (assessment (offer "a" ("INBOX" ∷ []))).is_protected
    ≡ (assessment (offer "b" ("INBOX" ∷ []))).is_protected
unfolding any all filter contains with_labels with_thread_review normalize_email sender_domain
    normalize_list_id source_identity intencion_value category_intencion hinted_intent
    is_security_or_document never_subscribed is_usable is_sospechoso is_method unsubscribe_method
    confidence is_uncertain is_intent intent subscription protection metodo_value method_evidence
    is_revision is_disposable is_subscribed recommendation rubro_or header_evidence failure_evidence
    classify_message with_user_labels in_thread is_mixed reviewed review_threads assess_messages
thread_uniform_example =
    thread_uniform ops offers (assessment (offer "a" ("INBOX" ∷ [])))
      (assessment (offer "b" ("INBOX" ∷ []))) (inl refl) (inr (inl refl)) refl

candidate_is_safe_example :
    let a = classify_message ops (offer "a" ("INBOX" ∷ [])) default_user_protected_labels in
    (a.is_protected ≡ false)
    × IsOpen ops (offer "a" ("INBOX" ∷ [])) default_user_protected_labels a.intencion a.confianza
    × ((offer "a" ("INBOX" ∷ [])).dmarc_pass ≡ true)
    × (a.source_ambiguous ≡ false)
unfolding any all filter contains with_labels with_thread_review normalize_email sender_domain
    normalize_list_id source_identity intencion_value category_intencion hinted_intent
    is_security_or_document never_subscribed is_usable is_sospechoso is_method unsubscribe_method
    confidence is_uncertain is_intent intent subscription protection metodo_value method_evidence
    is_revision is_disposable is_subscribed recommendation rubro_or header_evidence failure_evidence
    classify_message with_user_labels in_thread is_mixed reviewed review_threads assess_messages
candidate_is_safe_example =
    candidate_is_safe ops (offer "a" ("INBOX" ∷ [])) default_user_protected_labels refl
