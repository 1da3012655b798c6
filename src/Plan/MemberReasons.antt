-- ===== src/Plan/MemberReasons.antt =====
-- The reasons that a member carries now.
use mailcleanup.Prelude.{
  Bool, true, false, String, ◌==◌, List, [], ◌∷◌, some, ◌≡◌, arith, any, all, Bool-cases, inl, inr,
}
use mailcleanup.Plan.Reasons.{is_empty, removal_reasons_ok}
use mailcleanup.Plan.Model.{CurrentState, Member, Removal, CleanupPlan, is_selected, is_removed}
use mailcleanup.Plan.Validate.{member_ok, removal_ok}
use mailcleanup.Plan.Revise.{find_removal, reasons_in, member_reason_codes, member_current_state}

-- `state is CleanupMemberCurrentState.ELIGIBLE`
unfoldable pub is_eligible_state : CurrentState → Bool
is_eligible_state CurrentState.eligible = true
is_eligible_state _ = false

removal_reasoned : (r : Removal) → removal_ok r ≡ true → is_empty r.reason_codes ≡ false
unfolding removal_ok removal_reasons_ok
removal_reasoned r h = ground arith

-- a removed member has a removal, with a reason
removed_reasoned :
    (k : String) (rs : List Removal)
    → all removal_ok rs ≡ true
    → is_removed rs k ≡ true
    → (r : Removal) × (find_removal k rs ≡ some r) × (is_empty r.reason_codes ≡ false)
unfolding all is_removed any find_removal
removed_reasoned k [] h i = cc
removed_reasoned k (r ∷ rs) h i = elim (Bool-cases (r.message_id == k)) [
  | inl hit ↦ (r, ground arith, removal_reasoned r (ground arith))
  | inr miss ↦
      let (s, f, e) = removed_reasoned k rs (ground arith) (ground arith) in (s, ground arith, e)
]

-- Where the constructors accepted the member and the removals of the plan, the member has no reason
-- exactly when it is still eligible.
pub member_reason_codes-is_empty :
    (plan : CleanupPlan) (m : Member)
    → member_ok m ≡ true
    → all removal_ok plan.removals ≡ true
    → is_empty (member_reason_codes plan m) ≡ is_eligible_state (member_current_state plan m)
unfolding member_reason_codes reasons_in member_current_state member_ok is_empty is_eligible_state
member_reason_codes-is_empty plan m good rs = elim (Bool-cases (is_selected m.initial_state)) [
  | inr out ↦ ground arith
  | inl kept ↦ elim (Bool-cases (is_removed plan.removals m.message_id)) [
    | inr free ↦ ground arith
    | inl gone ↦ let (r, f, e) = removed_reasoned m.message_id plan.removals rs gone in ground arith
  ]
]
