-- ===== src/Plan/RemovalCodes.antt =====
-- The reasons that revalidation finds always make an acceptable removal.
use mailcleanup.Prelude.{
  ℕ, ◌≤◌, Bool, true, false, not, ◌&&◌, ◌||◌, List, [], ◌∷◌, ◌++◌, map, ◌≡◌, ◌≢◌, refl, arith, any,
  all, any-append, ltb, contains, Option, none, some, Bool-cases, inl, inr, ◌∙◌, subst,
}
use mailcleanup.Plan.Reasons.{
  Reason, ProtectionReason, of_protection, same_reason, reason_rank, has_reason, is_empty,
  is_protection_reason, ordered_reasons, removal_reasons_ok, is_canonical,
}
use mailcleanup.Plan.Precedence.{
  ordered-is_canonical, has_reason-ordered, any-ordered, is_empty-ordered,
}
use mailcleanup.Plan.Model.{Selection, Member, CleanupPlan}
use mailcleanup.Plan.Validate.{removal_ok}
use mailcleanup.Plan.Result.{ok_injective, ok, value_error, >>=-eq-ok}
use mailcleanup.Plan.Composition.{
  CompositionIndex, Entry, EffectiveMessage, IndexedRecord, entry_id,
}
use mailcleanup.Plan.Select.{policy_reasons, filter_reasons, base_reasons, protection_empty}
use mailcleanup.Plan.Revise.{Scope, reason_when, present_reasons, revalidation_reasons, removal_of}
use mailcleanup.Plan.Samples.{find_entry}

-- Neither `missing_after_creation` nor `protection_changed`, and whether a protection is there.
record Facts (rs : List Reason) (held : Bool) : Type 0 where
  no_missing : has_reason rs Reason.missing_after_creation ≡ false
  no_change : has_reason rs Reason.protection_changed ≡ false
  protection : any is_protection_reason rs ≡ held

has_reason-append :
    (xs ys : List Reason) (r : Reason)
    → has_reason (xs ++ ys) r ≡ (has_reason xs r || has_reason ys r)
unfolding has_reason
has_reason-append [] ys r = refl
has_reason-append (x ∷ xs) ys r = ground (arith, has_reason-append xs ys r)

Facts-append :
    {xs ys : List Reason} {a b : Bool} → Facts xs a → Facts ys b → Facts (xs ++ ys) (a || b)
Facts-append {xs} {ys} f g = record {
  no_missing = ground (arith, has_reason-append xs ys Reason.missing_after_creation);
  no_change = ground (arith, has_reason-append xs ys Reason.protection_changed);
  protection = ground (arith, any-append is_protection_reason xs ys);
}

Facts-ordered : {rs : List Reason} {a : Bool} → Facts rs a → Facts (ordered_reasons rs) a
Facts-ordered {rs} f = record {
  no_missing = has_reason-ordered rs Reason.missing_after_creation ∙ f.no_missing;
  no_change = has_reason-ordered rs Reason.protection_changed ∙ f.no_change;
  protection = unfold is_protection_reason in (any-ordered (λ n. ltb n 14) rs ∙ f.protection);
}

protection_low :
    (r : ProtectionReason)
    → (same_reason (of_protection r) Reason.missing_after_creation ≡ false)
      × (same_reason (of_protection r) Reason.protection_changed ≡ false)
      × (is_protection_reason (of_protection r) ≡ true)
unfolding of_protection same_reason reason_rank is_protection_reason
protection_low ProtectionReason.sent = (refl, refl, refl)
protection_low _ = (refl, refl, refl)

Facts-protection :
    (rs : List ProtectionReason) → Facts (map of_protection rs) (not (protection_empty rs))
unfolding has_reason any protection_empty
Facts-protection [] = record { no_missing = refl; no_change = refl; protection = refl }
Facts-protection (r ∷ rs) =
    let f = Facts-protection rs in
    let (a, b, c) = protection_low r in
    record {
      no_missing = ground (arith, f.no_missing);
      no_change = ground (arith, f.no_change);
      protection = ground arith;
    }

Facts-filter : (r : IndexedRecord) (s : Selection) → Facts (filter_reasons r s) false
unfolding filter_reasons has_reason any same_reason reason_rank is_protection_reason
Facts-filter r s = record {
  no_missing = ground arith;
  no_change = ground arith;
  protection = ground arith;
}

policy_reasons_found :
    (m : EffectiveMessage) {ps : List Reason}
    → policy_reasons m ≡ ok ps
    → ps ≡ map of_protection m.protection_reasons
unfolding policy_reasons
policy_reasons_found m h = ground arith

-- What the policies found, and the reasons of the filters beside it.
base_reasons_found :
    (s : Selection) (e : Entry) {base ps : List Reason}
    → policy_reasons e.effective ≡ ok ps
    → base_reasons s e ≡ ok base
    → base ≡ ordered_reasons (ps ++ filter_reasons e.indexed s)
unfolding base_reasons
base_reasons_found s e {base} {ps} p h = ground arith

any_protection-ordered :
    (rs : List Reason) → any is_protection_reason (ordered_reasons rs) ≡ any is_protection_reason rs
unfolding is_protection_reason
any_protection-ordered rs = any-ordered (λ n. ltb n 14) rs

-- A set of reasons that is not empty, has no `missing_after_creation`, and has
-- `protection_changed` exactly when it has a protection.
accepted_of :
    (rs : List Reason)
    → is_empty rs ≡ false
    → has_reason rs Reason.missing_after_creation ≡ false
    → has_reason rs Reason.protection_changed ≡ any is_protection_reason rs
    → removal_reasons_ok (ordered_reasons rs) ≡ true
unfolding removal_reasons_ok
accepted_of rs e m c = ground (
  arith,
  ordered-is_canonical rs,
  is_empty-ordered rs,
  has_reason-ordered rs Reason.missing_after_creation,
  has_reason-ordered rs Reason.protection_changed,
  any_protection-ordered rs,
)

abbrev Accepted : List Reason → Type 0
Accepted rs = is_empty rs ≡ false → removal_reasons_ok (ordered_reasons rs) ≡ true

is_empty-map : (rs : List ProtectionReason) → is_empty (map of_protection rs) ≡ protection_empty rs
unfolding is_empty protection_empty
is_empty-map [] = refl
is_empty-map (r ∷ rs) = refl

or_false : (b : Bool) → (b || false) ≡ b
or_false true = refl
or_false false = refl

-- what a member that is present is removed for
module _ (s : Selection) (e : Entry) where
  Facts-base :
      {base : List Reason}
      → policy_reasons e.effective ≡ ok (map of_protection e.effective.protection_reasons)
      → base_reasons s e ≡ ok base
      → Facts base (not (protection_empty e.effective.protection_reasons))
  Facts-base p h = rw (base_reasons_found s e p h) (
      Facts-ordered (
        rw (or_false _) at (
          Facts-append (Facts-protection e.effective.protection_reasons)
            (Facts-filter e.indexed s))))

found-Accepted :
    (out : Bool) {base : List Reason} (rs : List ProtectionReason)
    → Facts base (not (protection_empty rs))
    → Accepted (
        reason_when out Reason.scope_changed
        ++ (base ++ reason_when (not (is_empty (map of_protection rs))) Reason.protection_changed))
unfolding has_reason any same_reason reason_rank is_protection_reason
found-Accepted out {base} rs f e =
    let held = not (is_empty (map of_protection rs)) in
    let changed = reason_when held Reason.protection_changed in
    let moved = reason_when out Reason.scope_changed in
    accepted_of (moved ++ (base ++ changed)) e
      (ground (
        arith,
        has_reason-append moved (base ++ changed) Reason.missing_after_creation,
        has_reason-append base changed Reason.missing_after_creation,
        f.no_missing,
      ))
      (ground (
        arith,
        has_reason-append moved (base ++ changed) Reason.protection_changed,
        has_reason-append base changed Reason.protection_changed,
        any-append is_protection_reason moved (base ++ changed),
        any-append is_protection_reason base changed,
        is_empty-map rs,
        f.no_change,
        f.protection,
      ))

late-Accepted : Accepted (Reason.keep_latest ∷ [])
unfolding removal_reasons_ok ordered_reasons is_canonical any has_reason same_reason all is_empty
    reason_rank is_protection_reason
late-Accepted e = refl

scope-Accepted : Accepted (Reason.scope_changed ∷ [])
unfolding removal_reasons_ok ordered_reasons is_canonical any has_reason same_reason all is_empty
    reason_rank is_protection_reason
scope-Accepted e = refl

missing-Accepted : Accepted (Reason.missing_after_creation ∷ [])
unfolding removal_reasons_ok ordered_reasons is_canonical any has_reason same_reason all is_empty
    reason_rank is_protection_reason
missing-Accepted e = refl

-- whatever revalidation finds about a member is acceptable as the reasons of a removal
module _ (index : CompositionIndex) (plan : CleanupPlan) (scope : Scope) (m : Member) where
  present-Accepted :
      (e : Entry) {rs : List Reason} → present_reasons plan scope m e ≡ ok rs → Accepted rs
  unfolding present_reasons
  present-Accepted e {rs} h =
      let (base, eb, h') = >>=-eq-ok (base_reasons plan.selection e) _ h in
      let (ps, ep, h'') = >>=-eq-ok (policy_reasons e.effective) _ h' in
      let held = policy_reasons_found e.effective ep in
      let out = not (contains (map entry_id scope.universe) m.provider_message_id) in
      let found =
        reason_when out Reason.scope_changed
        ++ (base ++ reason_when (not (is_empty ps)) Reason.protection_changed) in
      let late =
        is_empty found && not (contains (map entry_id scope.allowed) m.provider_message_id) in
      let usual : Accepted found = rw held (
        found-Accepted out e.effective.protection_reasons
          (Facts-base plan.selection e (rw held at ep) eb)) in
      elim (Bool-cases late) [
        | inl t ↦
            let same : Reason.keep_latest ∷ [] ≡ rs = ok_injective (rw t at h'') in
            subst Accepted same late-Accepted
        | inr t ↦ let same : found ≡ rs = ok_injective (rw t at h'') in subst Accepted same usual
      ]

  pub revalidation-Accepted :
      {rs : List Reason} → revalidation_reasons index plan scope m ≡ ok rs → Accepted rs
  unfolding revalidation_reasons
  revalidation-Accepted {rs} h = elim (Bool-cases scope.current) [
    | inr gone ↦
        let same : Reason.scope_changed ∷ [] ≡ rs =
          ok_injective (rw (gone, revalidation_reasons) at h) in
        subst Accepted same scope-Accepted
    | inl current ↦
        found_or_missing (find_entry m.provider_message_id index.entries) refl (rw current at h)
  ]
    where
      found_or_missing :
          (o : Option Entry)
          → find_entry m.provider_message_id index.entries ≡ o
          → (elim o [
            | none ↦ ok (Reason.missing_after_creation ∷ [])
            | some e ↦ present_reasons plan scope m e
          ])
            ≡ ok rs
          → Accepted rs
      found_or_missing none e k = subst Accepted (ok_injective k) missing-Accepted
      found_or_missing (some e) q k = present-Accepted e k

-- Whatever reasons a revalidation finds about a member, making a removal of them at the second
-- revision or a later one never fails.
pub removal_of-ne-value_error :
    (index : CompositionIndex) (plan : CleanupPlan) (scope : Scope) (m : Member) (revision now : ℕ)
    (reasons : List Reason)
    → 2 ≤ revision
    → revalidation_reasons index plan scope m ≡ ok reasons
    → removal_of revision now m reasons ≢ value_error
unfolding removal_of removal_ok
removal_of-ne-value_error index plan scope m revision now reasons two h =
    ground (arith, Bool-cases (is_empty reasons), revalidation-Accepted index plan scope m h)
