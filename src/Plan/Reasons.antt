-- ===== src/Plan/Reasons.antt =====
-- src/mailmap/cleanup_plan_model.py: the exclusion reasons, their precedence, and what a member or
-- a removal may carry. A Python set of reasons is a list whose order and repetitions do not matter.
use mailcleanup.Prelude.{
  ℕ, Bool, true, false, not, ◌&&◌, ◌||◌, List, [], ◌∷◌, eqb, ltb, any, all, if◌then◌else◌,
}

pub data Reason : Type 0 where
  sent draft trash starred important protected_label security document personal : Reason
  low_confidence contradiction mixed_conversation manual_policy policy_review : Reason
  outside_date read_state_mismatch excluded_label keep_latest : Reason
  missing_after_creation scope_changed protection_changed : Reason

-- `PolicyProtectionReason` of src/mailmap/policy_model.py.
pub data ProtectionReason : Type 0 where
  sent draft trash starred important protected_label security document personal : ProtectionReason
  low_confidence contradiction mixed_conversation manual_policy : ProtectionReason
  policy_review : ProtectionReason

-- `CleanupExclusionReason(reason.value)`
unfoldable pub of_protection : ProtectionReason → Reason
of_protection ProtectionReason.sent = Reason.sent
of_protection ProtectionReason.draft = Reason.draft
of_protection ProtectionReason.trash = Reason.trash
of_protection ProtectionReason.starred = Reason.starred
of_protection ProtectionReason.important = Reason.important
of_protection ProtectionReason.protected_label = Reason.protected_label
of_protection ProtectionReason.security = Reason.security
of_protection ProtectionReason.document = Reason.document
of_protection ProtectionReason.personal = Reason.personal
of_protection ProtectionReason.low_confidence = Reason.low_confidence
of_protection ProtectionReason.contradiction = Reason.contradiction
of_protection ProtectionReason.mixed_conversation = Reason.mixed_conversation
of_protection ProtectionReason.manual_policy = Reason.manual_policy
of_protection ProtectionReason.policy_review = Reason.policy_review

-- `_REASON_RANK`
unfoldable pub reason_rank : Reason → ℕ
reason_rank Reason.sent = 0
reason_rank Reason.draft = 1
reason_rank Reason.trash = 2
reason_rank Reason.starred = 3
reason_rank Reason.important = 4
reason_rank Reason.protected_label = 5
reason_rank Reason.security = 6
reason_rank Reason.document = 7
reason_rank Reason.personal = 8
reason_rank Reason.low_confidence = 9
reason_rank Reason.contradiction = 10
reason_rank Reason.mixed_conversation = 11
reason_rank Reason.manual_policy = 12
reason_rank Reason.policy_review = 13
reason_rank Reason.outside_date = 14
reason_rank Reason.read_state_mismatch = 15
reason_rank Reason.excluded_label = 16
reason_rank Reason.keep_latest = 17
reason_rank Reason.missing_after_creation = 18
reason_rank Reason.scope_changed = 19
reason_rank Reason.protection_changed = 20

-- Two members of the enumeration are the same.
unfoldable pub same_reason : Reason → Reason → Bool
same_reason a b = eqb (reason_rank a) (reason_rank b)

unfoldable pub has_reason : List Reason → Reason → Bool
has_reason [] r = false
has_reason (x ∷ xs) r = same_reason x r || has_reason xs r

-- `reason in _CREATION_REASONS`, the first 18 of the enumeration.
unfoldable pub is_creation_reason : Reason → Bool
is_creation_reason r = ltb (reason_rank r) 18

-- `reason in _POLICY_PROTECTION_REASONS`, the first 14.
unfoldable pub is_protection_reason : Reason → Bool
is_protection_reason r = ltb (reason_rank r) 14

unfoldable pub is_empty : List Reason → Bool
is_empty [] = true
is_empty (_ ∷ _) = false

-- `tuple(sorted(values, key=_REASON_RANK.__getitem__))` of a set.
unfoldable pub insert_reason : Reason → List Reason → List Reason
insert_reason r [] = r ∷ []
insert_reason r (x ∷ xs) =
    let rest = insert_reason r xs in
    if ltb (reason_rank r) (reason_rank x)
    then r ∷ x ∷ xs
    else if same_reason r x
    then x ∷ xs
    else x ∷ rest

unfoldable pub ordered_reasons : List Reason → List Reason
unfolding insert_reason
ordered_reasons [] = []
ordered_reasons (r ∷ rs) = insert_reason r (ordered_reasons rs)

-- No repetition, and the contractual precedence: each rank is below the next.
unfoldable pub is_canonical : List Reason → Bool
is_canonical [] = true
is_canonical (r ∷ rs) = all (λ s. ltb (reason_rank r) (reason_rank s)) rs && is_canonical rs

-- `cleanup_creation_reason_codes` accepts the values.
unfoldable pub creation_reasons_ok : List Reason → Bool
creation_reasons_ok rs = is_canonical rs && all is_creation_reason rs

unfoldable pub is_only_missing : List Reason → Bool
is_only_missing (r ∷ []) = same_reason r missing_after_creation
is_only_missing _ = false

unfoldable pub same_truth : Bool → Bool → Bool
same_truth true b = b
same_truth false b = not b

-- `cleanup_removal_reason_codes` accepts the values.
unfoldable pub removal_reasons_ok : List Reason → Bool
unfolding is_only_missing same_truth
removal_reasons_ok rs =
    is_canonical rs
    && not (is_empty rs)
    && (not (has_reason rs missing_after_creation) || is_only_missing rs)
    && same_truth (any is_protection_reason rs) (has_reason rs protection_changed)
