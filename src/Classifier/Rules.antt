-- ===== src/Classifier/Rules.antt =====
-- src/mailmap/classifier.py: intention, unsubscription, confidence and protection of a message.
use mailcleanup.Prelude.{
  String, Bool, true, false, not, ◌&&◌, ◌||◌, Option, none, some, List, [], ◌∷◌, ◌++◌, ◌==◌,
  if◌then◌else◌, contains, any, filter,
}
use mailcleanup.Classifier.Model.{
  Intencion, Suscripcion, Proteccion, Confianza, MetodoBaja, Evidence, SyntheticMessage,
}
use mailcleanup.Classifier.Identity.{TextOps, ◌<>◌, truthy, evidence_item, normalize_list_id}

abbrev pub system_protected_labels : List String
system_protected_labels = "STARRED" ∷ "IMPORTANT" ∷ "SENT" ∷ "DRAFT" ∷ "TRASH" ∷ []

abbrev pub default_user_protected_labels : List String
default_user_protected_labels = "Trabajo" ∷ "Familia" ∷ "Pagos" ∷ []

abbrev pub security_words : List String
security_words = "inicio de sesión" ∷ "contraseña" ∷ "código de acceso" ∷ "seguridad" ∷ []

abbrev pub document_words : List String
document_words = "factura" ∷ "recibo" ∷ "comprobante" ∷ "resumen de cuenta" ∷ []

unfoldable pub intencion_value : Intencion → String
intencion_value Intencion.seguridad = "Seguridad"
intencion_value Intencion.documento = "Documento o comprobante"
intencion_value Intencion.operativo = "Operativo o soporte"
intencion_value Intencion.notificacion = "Notificación"
intencion_value Intencion.editorial = "Informativo o editorial"
intencion_value Intencion.promocional = "Promocional o venta"
intencion_value Intencion.personal = "Comunicación personal"
intencion_value Intencion.sospechoso = "Sospechoso"
intencion_value Intencion.desconocido = "Desconocido"

-- `category_mapping.get(category, DESCONOCIDO)`
unfoldable pub category_intencion : String → Intencion
category_intencion c =
    if c == "Promociones"
    then Intencion.promocional
    else if c == "Actualizaciones"
    then Intencion.notificacion
    else if c == "Social"
    then Intencion.notificacion
    else Intencion.desconocido

-- The last two cases of `_intent`: the hint of the flow, or else the provider's category.
unfoldable pub hinted_intent : SyntheticMessage → Option Intencion → Intencion × List Evidence
hinted_intent m (some hint) = (
  hint,
  evidence_item "fixture-flow-signal" "Señal de flujo"
        ("Las cabeceras sintéticas y el asunto sostienen la intención "
          <> intencion_value hint
          <> ".")
        "media"
      ∷ [],
)
hinted_intent m none = (
  category_intencion m.gmail_category,
  evidence_item "provider-category" "Categoría del proveedor"
        ("La categoría disponible es " <> m.gmail_category <> "; se usa sólo como indicio.") "débil"
      ∷ [],
)

unfoldable pub is_security_or_document : Intencion → Bool
is_security_or_document Intencion.seguridad = true
is_security_or_document Intencion.documento = true
is_security_or_document _ = false

unfoldable pub never_subscribed : Intencion → Bool
never_subscribed Intencion.seguridad = true
never_subscribed Intencion.documento = true
never_subscribed Intencion.personal = true
never_subscribed _ = false

unfoldable pub is_usable : MetodoBaja → Bool
is_usable MetodoBaja.un_clic = true
is_usable MetodoBaja.manual = true
is_usable _ = false

unfoldable pub is_sospechoso : MetodoBaja → Bool
is_sospechoso MetodoBaja.sospechoso = true
is_sospechoso _ = false

unfoldable pub is_method : Option String → String → Bool
is_method none _ = false
is_method (some s) t = s == t

unfoldable pub unsubscribe_method : SyntheticMessage → MetodoBaja
unfolding is_method
unsubscribe_method m =
    if is_method m.unsubscribe_method "one_click" && m.dkim_pass && m.dmarc_pass
    then MetodoBaja.un_clic
    else if is_method m.unsubscribe_method "manual" && m.dmarc_pass
    then MetodoBaja.manual
    else if truthy m.unsubscribe_method
    then MetodoBaja.sospechoso
    else MetodoBaja.ausente

unfoldable pub confidence : SyntheticMessage → Bool → Intencion → Confianza
confidence m ambiguous intent =
    if is_security_or_document intent && m.gmail_category == "Promociones"
      || m.personal_signal && truthy m.list_id
      || truthy m.brand_hint && not m.dmarc_pass
    then Confianza.contradictoria
    else if ambiguous
    then Confianza.baja
    else if m.dkim_pass && m.dmarc_pass && (truthy m.brand_hint || truthy m.list_id)
    then Confianza.alta
    else Confianza.media

unfoldable pub is_uncertain : Confianza → Bool
is_uncertain Confianza.baja = true
is_uncertain Confianza.contradictoria = true
is_uncertain _ = false

unfoldable pub is_intent : Intencion → Intencion → Bool
is_intent Intencion.seguridad Intencion.seguridad = true
is_intent Intencion.documento Intencion.documento = true
is_intent Intencion.personal Intencion.personal = true
is_intent _ _ = false

module _ (ops : TextOps) where
  open ops use {casefold, contains_text, join_sorted}

  unfoldable pub intent : SyntheticMessage → Intencion × List Evidence
  unfolding hinted_intent
  intent m =
      let subject = casefold m.subject in
      if not m.dmarc_pass || contains m.labels "SPAM"
      then (
        Intencion.sospechoso,
        evidence_item "authentication-failed" "Autenticación fallida"
              ("La señal de autenticación o la ubicación en Spam exige "
                <> "tratarlo como sospechoso.")
              "fuerte"
            ∷ [],
      )
      else if m.personal_signal
      then (
        Intencion.personal,
        evidence_item "personal-language" "Señal de conversación personal"
              "El patrón sintético representa una conversación dirigida a una persona." "fuerte"
            ∷ [],
      )
      else if any (contains_text subject) security_words
      then (
        Intencion.seguridad,
        evidence_item "security-subject" "Patrón de seguridad"
              "El asunto contiene una señal operativa de seguridad." "fuerte"
            ∷ [],
      )
      else if any (contains_text subject) document_words
      then (
        Intencion.documento,
        evidence_item "document-subject" "Patrón documental"
              "El asunto identifica una factura, recibo o comprobante." "fuerte"
            ∷ [],
      )
      else hinted_intent m m.flow_hint

  unfoldable pub subscription : SyntheticMessage → Intencion → MetodoBaja → Suscripcion
  subscription m intent method =
      if is_sospechoso method
      then Suscripcion.posible_incumplimiento
      else if m.personal_signal
      then Suscripcion.no_corresponde
      else if truthy (normalize_list_id ops m.list_id) && is_usable method
      then Suscripcion.confirmada
      else if is_usable method
      then Suscripcion.probable
      else if never_subscribed intent
      then Suscripcion.no_corresponde
      else Suscripcion.desconocido

  unfoldable pub protection :
      SyntheticMessage → Intencion → Confianza → List String → Proteccion × Bool × List Evidence
  protection m intent confidence user_labels =
      let protecting = filter (contains (system_protected_labels ++ user_labels)) m.labels in
      if any (contains (system_protected_labels ++ user_labels)) m.labels
      then (
        Proteccion.usuario,
        true,
        evidence_item "protected-label" "Etiqueta protegida"
              ("Se respetan por defecto: " <> join_sorted protecting <> ".") "fuerte"
            ∷ [],
      )
      else if is_intent intent Intencion.seguridad
      then (
        Proteccion.critica,
        true,
        evidence_item "critical-security" "Contenido crítico"
              "Los avisos de seguridad quedan fuera de cualquier selección ordinaria." "fuerte"
            ∷ [],
      )
      else if is_intent intent Intencion.documento
      then (
        Proteccion.documental,
        true,
        evidence_item "document-protection" "Documento conservable"
              "Los comprobantes requieren revisión y conservación por defecto." "fuerte"
            ∷ [],
      )
      else if is_intent intent Intencion.personal || is_uncertain confidence
      then (
        Proteccion.revision,
        true,
        evidence_item "mandatory-review" "Revisión obligatoria"
              "La ambigüedad o contradicción impide incluirlo silenciosamente en un plan." "fuerte"
            ∷ [],
      )
      else (Proteccion.ordinaria, false, [])
