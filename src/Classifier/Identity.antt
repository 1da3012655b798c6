-- ===== src/Classifier/Identity.antt =====
-- src/mailmap/classifier.py: who sent a message (`_source_identity` and the normalisers).
use Prim.Native.String.{◌++◌ as append_text}
use mailcleanup.Prelude.{
  String, Bool, true, false, not, ◌&&◌, Option, none, some, List, ◌==◌, if◌then◌else◌,
}
use mailcleanup.Classifier.Model.{Evidence, SyntheticMessage}

-- What the rules take from Python's library: Unicode tables, `email.utils` and `hashlib`.
pub record TextOps : Type 0 where
  pub casefold : String → String
  pub strip : String → String
  pub strip_brackets : String → String
  pub parse_address : String → String
  pub after_last_at : String → String
  pub slug : String → String
  pub sender_digest : String → String
  pub spaced : String → String
  pub contains_text : String → String → Bool
  pub join_sorted : List String → String

infixr 65 ◌<>◌
abbrev pub ◌<>◌ : String → String → String
s <> t = append_text s t

-- Truth of an optional text, and `x or y`.
abbrev pub truthy : Option String → Bool
truthy none = false
truthy (some s) = not (s == "")

abbrev or_else : String → String → String
or_else s d = if s == "" then d else s

abbrev pub text_or : Option String → String → String
text_or none d = d
text_or (some s) d = or_else s d

abbrev pub evidence_item : String → String → String → String → Evidence
evidence_item c l d s = record { code = c; label = l; detail = d; strength = s }

module _ (ops : TextOps) where
  open ops use {casefold, strip, strip_brackets, parse_address, after_last_at, slug, sender_digest}

  unfoldable pub normalize_email : String → String
  normalize_email value = casefold (strip (parse_address value))

  unfoldable pub sender_domain : String → String
  sender_domain address = after_last_at (normalize_email address)

  unfoldable pub normalize_list_id : Option String → Option String
  normalize_list_id none = none
  normalize_list_id (some value) =
      let cleaned = casefold (strip_brackets (strip value)) in
      if value == "" then none else if cleaned == "" then none else some cleaned

  unfoldable pub source_identity : SyntheticMessage → String × String × Bool × Evidence
  source_identity m =
      if truthy m.brand_hint && m.dkim_pass && m.dmarc_pass
      then (
        "src-" <> slug (text_or m.brand_hint ""),
        text_or m.brand_hint "",
        false,
        evidence_item "brand-authenticated" "Identidad autenticada"
            ("La marca declarada coincide con señales autenticadas de "
              <> text_or m.authenticated_domain (sender_domain m.sender_email)
              <> ".")
            "fuerte",
      )
      else if truthy m.authenticated_domain && m.dmarc_pass
      then (
        "domain-" <> slug (text_or m.authenticated_domain ""),
        or_else m.sender_name (text_or m.authenticated_domain ""),
        false,
        evidence_item "domain-authenticated" "Dominio autenticado"
            ("El dominio " <> text_or m.authenticated_domain "" <> " superó autenticación.")
            "media",
      )
      else (
        "sender-" <> sender_digest (normalize_email m.sender_email),
        or_else m.sender_name (normalize_email m.sender_email),
        true,
        evidence_item "sender-isolated" "Remitente aislado por precaución"
            "No hay evidencia suficiente para fusionarlo con otra fuente." "débil",
      )
