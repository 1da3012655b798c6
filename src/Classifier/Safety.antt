-- ===== src/Classifier/Safety.antt =====
-- What a message must satisfy before the classifier proposes to dispose of it.
use mailcleanup.Prelude.{
  Bool, true, false, ◌++◌, List, String, ◌≡◌, ◌≢◌, refl, arith, any, contains,
}
use mailcleanup.Classifier.Model.{
  Intencion, Suscripcion, Proteccion, Confianza, Recomendacion, SyntheticMessage,
}
use mailcleanup.Classifier.Identity.{TextOps, source_identity}
use mailcleanup.Classifier.Rules.{
  system_protected_labels, intent, unsubscribe_method, subscription, confidence, protection,
  is_security_or_document, is_intent, is_uncertain,
}
use mailcleanup.Classifier.Assess.{recommendation, classify_message}

-- `recomendacion in {PAPELERA, ARCHIVAR}`
abbrev pub is_candidate : Recomendacion → Bool
is_candidate Recomendacion.papelera = true
is_candidate Recomendacion.archivar = true
is_candidate _ = false

confidence_ambiguous :
    (m : SyntheticMessage) (i : Intencion) → is_uncertain (confidence m true i) ≡ true
unfolding confidence is_uncertain
confidence_ambiguous m i = ground arith

module _ (ops : TextOps) (m : SyntheticMessage) (labels : List String) where
  identity_unauthenticated : m.dmarc_pass ≡ false → (source_identity ops m).2 ≡ true
  unfolding source_identity
  identity_unauthenticated h = ground arith

  authenticated : (source_identity ops m).2 ≡ false → m.dmarc_pass ≡ true
  authenticated h = ground (arith, identity_unauthenticated)

  certain_source :
      (ambiguous : Bool) (i : Intencion)
      → is_uncertain (confidence m ambiguous i) ≡ false
      → ambiguous ≡ false
  certain_source true i h = cc (confidence_ambiguous m i)
  certain_source false i h = refl

  -- What `_protection` answers exactly when none of its rules applies.
  abbrev pub IsOpen : Intencion → Confianza → Type 0
  IsOpen i c =
      (any (contains (system_protected_labels ++ labels)) m.labels ≡ false)
      × (is_security_or_document i ≡ false)
      × (i ≢ Intencion.personal)
      × (is_uncertain c ≡ false)

  protection-IsOpen :
      (i : Intencion) (c : Confianza) → (protection ops m i c labels).1 ≡ false → IsOpen i c
  unfolding protection is_intent is_security_or_document
  protection-IsOpen i c h = ground arith

  recommendation_open :
      (p : Bool) (q : Proteccion) (i : Intencion) (s : Suscripcion)
      → is_candidate (recommendation p q i s) ≡ true
      → p ≡ false
  unfolding recommendation
  recommendation_open p q i s h = ground arith

  -- A message whose recommendation is the trash or the archive is not protected, carries no
  -- system or user label that protects, is neither security, nor a document, nor personal, is not
  -- of low or contradictory confidence, passed DMARC, and comes from a source that is not ambiguous.
  pub candidate_is_safe :
      is_candidate (classify_message ops m labels).recomendacion ≡ true
      → let a = classify_message ops m labels in
        (a.is_protected ≡ false)
        × IsOpen a.intencion a.confianza
        × (m.dmarc_pass ≡ true)
        × (a.source_ambiguous ≡ false)
  unfolding classify_message
  candidate_is_safe h =
      let i = (intent ops m).0 in
      let ambiguous = (source_identity ops m).2 in
      let c = confidence m ambiguous i in
      let p = protection ops m i c labels in
      let method = unsubscribe_method m in
      let free = recommendation_open p.1 p.0 i (subscription ops m i method) h in
      let o = protection-IsOpen i c free in
      let certain : ambiguous ≡ false = certain_source ambiguous i o.3 in
      (free, o, authenticated certain, certain)

  -- what is left unprotected carries no label that protects
  pub unprotected_message :
      (classify_message ops m labels).is_protected ≡ false
      → any
          (contains (system_protected_labels ++ labels))
          (classify_message ops m labels).message.labels
        ≡ false
  unfolding classify_message
  unprotected_message h =
      let i = (intent ops m).0 in
      (protection-IsOpen i (confidence m (source_identity ops m).2 i) h).0
