-- ===== src/Classifier/Model.antt =====
-- src/mailmap/model.py: the closed vocabularies, the synthetic message and its assessment.
use mailcleanup.Prelude.{ℕ, String, Bool, true, Option, List, [], ◌∷◌, ◌++◌, ◌+◌}

pub data Rubro : Type 0 where
  medios software comercio finanzas trabajo salud viajes social : Rubro
  domesticos personal desconocido : Rubro

pub data Intencion : Type 0 where
  seguridad documento operativo notificacion editorial promocional : Intencion
  personal sospechoso desconocido : Intencion

pub data Suscripcion : Type 0 where
  confirmada probable no_corresponde baja_solicitada : Suscripcion
  posible_incumplimiento desconocido : Suscripcion

pub data Proteccion : Type 0 where
  critica documental usuario ordinaria revision : Proteccion

pub data Confianza : Type 0 where
  alta media baja contradictoria : Confianza

pub data MetodoBaja : Type 0 where
  un_clic manual ausente sospechoso : MetodoBaja

pub data Recomendacion : Type 0 where
  conservar revisar papelera archivar : Recomendacion

pub record Evidence : Type 0 where
  pub code : String
  pub label : String
  pub detail : String
  pub strength : String

-- Times are instants on one axis, so a number; `label_ids` and `fixture_tags` are tuples of texts.
pub record SyntheticMessage : Type 0 where
  pub id : String
  pub thread_id : String
  pub received_at : ℕ
  pub sender_name : String
  pub sender_email : String
  pub subject : String
  pub labels : List String
  pub gmail_category : String
  pub authenticated_domain : Option String
  pub list_id : Option String
  pub unsubscribe_method : Option String
  pub dkim_pass : Bool
  pub dmarc_pass : Bool
  pub brand_hint : Option String
  pub rubro_hint : Option Rubro
  pub flow_hint : Option Intencion
  pub personal_signal : Bool
  pub size_bytes : ℕ
  pub failure_state : Option String
  pub fixture_tags : List String
  pub revision : ℕ

unfoldable pub with_labels : SyntheticMessage → List String → SyntheticMessage
with_labels m labels = record m { labels = labels; revision = m.revision + 1 }

pub record MessageAssessment : Type 0 where
  pub message : SyntheticMessage
  pub source_id : String
  pub source_name : String
  pub source_ambiguous : Bool
  pub rubro : Rubro
  pub intencion : Intencion
  pub suscripcion : Suscripcion
  pub proteccion : Proteccion
  pub confianza : Confianza
  pub metodo_baja : MetodoBaja
  pub recomendacion : Recomendacion
  pub is_protected : Bool
  pub evidence : List Evidence

unfoldable pub with_thread_review : MessageAssessment → MessageAssessment
with_thread_review a = record a {
  proteccion = Proteccion.revision;
  recomendacion = Recomendacion.revisar;
  is_protected = true;
  evidence =
      a.evidence
      ++ record {
        code = "mixed-thread";
        label = "Hilo de protección mixta";
        detail = "Otro mensaje del mismo hilo está protegido; se exige revisión del hilo completo.";
        strength = "fuerte";
      }
        ∷ [];
}
