-- ===== src/Plan/Contract.antt =====
-- The reason codes against the order that the contract of the clean-up plans writes out.
use mailcleanup.Prelude.{
  some_injective, ℕ, zero, suc, Bool, true, false, Option, none, some, List, [], ◌∷◌, ◌≡◌, refl,
  sym, ap, ◌∙◌, subst, inl, inr, arith, ltb, all, filter, Bool-cases,
}
use mailcleanup.Plan.Reasons.{
  Reason, reason_rank, same_reason, has_reason, is_canonical, insert_reason, ordered_reasons,
}

-- The catalog of the contract, docs/contracts/CLEANUP_PLAN_V1.md, in its order.
abbrev pub contractual_order : List Reason
contractual_order =
    Reason.sent ∷ Reason.draft ∷ Reason.trash ∷ Reason.starred ∷ Reason.important
    ∷ Reason.protected_label ∷ Reason.security ∷ Reason.document ∷ Reason.personal
    ∷ Reason.low_confidence ∷ Reason.contradiction ∷ Reason.mixed_conversation
    ∷ Reason.manual_policy ∷ Reason.policy_review ∷ Reason.outside_date ∷ Reason.read_state_mismatch
    ∷ Reason.excluded_label ∷ Reason.keep_latest ∷ Reason.missing_after_creation
    ∷ Reason.scope_changed ∷ Reason.protection_changed ∷ []

at_rank : ℕ → List Reason → Option Reason
at_rank n [] = none
at_rank zero (r ∷ rs) = some r
at_rank (suc n) (r ∷ rs) = at_rank n rs

-- the rank of a reason is its place in the contract
at_rank-reason_rank : (r : Reason) → at_rank (reason_rank r) contractual_order ≡ some r
unfolding at_rank reason_rank
at_rank-reason_rank Reason.sent = refl
at_rank-reason_rank Reason.draft = refl
at_rank-reason_rank Reason.trash = refl
at_rank-reason_rank Reason.starred = refl
at_rank-reason_rank Reason.important = refl
at_rank-reason_rank Reason.protected_label = refl
at_rank-reason_rank Reason.security = refl
at_rank-reason_rank Reason.document = refl
at_rank-reason_rank Reason.personal = refl
at_rank-reason_rank Reason.low_confidence = refl
at_rank-reason_rank Reason.contradiction = refl
at_rank-reason_rank Reason.mixed_conversation = refl
at_rank-reason_rank Reason.manual_policy = refl
at_rank-reason_rank Reason.policy_review = refl
at_rank-reason_rank Reason.outside_date = refl
at_rank-reason_rank Reason.read_state_mismatch = refl
at_rank-reason_rank Reason.excluded_label = refl
at_rank-reason_rank Reason.keep_latest = refl
at_rank-reason_rank Reason.missing_after_creation = refl
at_rank-reason_rank Reason.scope_changed = refl
at_rank-reason_rank Reason.protection_changed = refl

same_reason-eq : (r s : Reason) → same_reason r s ≡ true → r ≡ s
unfolding same_reason
same_reason-eq r s h =
    let e : reason_rank r ≡ reason_rank s = ground arith in
    some_injective (
      sym (at_rank-reason_rank r) ∙ ap (λ n. at_rank n contractual_order) e ∙ at_rank-reason_rank s)

abbrev above : Reason → Reason → Bool
above r s = ltb (reason_rank r) (reason_rank s)

-- a reason below all of a list is met in none of them
filter-above :
    (r : Reason) (rs xs : List Reason)
    → all (above r) xs ≡ true
    → filter (has_reason (r ∷ rs)) xs ≡ filter (has_reason rs) xs
unfolding filter all has_reason same_reason
filter-above r rs [] h = refl
filter-above r rs (x ∷ xs) h = ground (arith, filter-above r rs xs)

all-filter : (p q : Reason → Bool) (xs : List Reason) → all p xs ≡ true → all p (filter q xs) ≡ true
unfolding all filter
all-filter p q [] h = refl
all-filter p q (x ∷ xs) h = ground (arith, all-filter p q xs)

insert-below :
    (r : Reason) (xs : List Reason) → all (above r) xs ≡ true → insert_reason r xs ≡ r ∷ xs
unfolding insert_reason all
insert-below r [] h = refl
insert-below r (x ∷ xs) h = ground arith

not_below :
    (r s : Reason) (xs : List Reason)
    → all (above r) xs ≡ true
    → has_reason xs s ≡ true
    → above r s ≡ true
unfolding all has_reason same_reason
not_below r s [] h k = cc
not_below r s (x ∷ xs) h k = ground (arith, not_below r s xs)

insert-filter-here :
    (r : Reason) (rs xs : List Reason)
    → all (above r) xs ≡ true
    → insert_reason r (filter (has_reason rs) (r ∷ xs)) ≡ filter (has_reason (r ∷ rs)) (r ∷ xs)
unfolding filter has_reason same_reason insert_reason
insert-filter-here r rs xs h = ground (
  arith,
  filter-above r rs xs h,
  insert-below r (filter (has_reason rs) xs) (all-filter (above r) (has_reason rs) xs h),
)

insert-filter :
    (r : Reason) (rs xs : List Reason)
    → is_canonical xs ≡ true
    → has_reason xs r ≡ true
    → insert_reason r (filter (has_reason rs) xs) ≡ filter (has_reason (r ∷ rs)) xs
unfolding is_canonical
insert-filter r rs [] c h = unfold has_reason in cc
insert-filter r rs (x ∷ xs) c h =
    let up : all (above x) xs ≡ true = ground arith in
    let rest : is_canonical xs ≡ true = ground arith in
    elim (Bool-cases (same_reason x r)) [
      | inl t ↦
          subst
            (λ z.
              insert_reason z (filter (has_reason rs) (x ∷ xs))
              ≡ filter (has_reason (z ∷ rs)) (x ∷ xs))
            (same_reason-eq x r t) (insert-filter-here x rs xs up)
      | inr f ↦
          let there : has_reason xs r ≡ true = unfold has_reason in ground arith in
          step r x rs xs f (not_below x r xs up there) (insert-filter r rs xs rest there)
    ]
  where
    step :
        (r x : Reason) (rs xs : List Reason)
        → same_reason x r ≡ false
        → above x r ≡ true
        → insert_reason r (filter (has_reason rs) xs) ≡ filter (has_reason (r ∷ rs)) xs
        → insert_reason r (filter (has_reason rs) (x ∷ xs)) ≡ filter (has_reason (r ∷ rs)) (x ∷ xs)
    step r x rs xs f b ih = unfold filter has_reason same_reason insert_reason in ground arith

contract-is_canonical : is_canonical contractual_order ≡ true
unfolding is_canonical all reason_rank
contract-is_canonical = refl

at_rank-has_reason :
    (n : ℕ) (r : Reason) (xs : List Reason) → at_rank n xs ≡ some r → has_reason xs r ≡ true
unfolding at_rank has_reason same_reason
at_rank-has_reason n r [] h = cc
at_rank-has_reason zero r (x ∷ xs) h = ground (arith, ap reason_rank (some_injective h))
at_rank-has_reason (suc n) r (x ∷ xs) h = ground (arith, at_rank-has_reason n r xs h)

in_contract : (r : Reason) → has_reason contractual_order r ≡ true
in_contract r = at_rank-has_reason (reason_rank r) r contractual_order (at_rank-reason_rank r)

-- The codes made of any set of reasons are the reasons of the contract that are in the set, in the
-- order in which the contract lists them.
pub ordered_reasons-filter :
    (rs : List Reason) → ordered_reasons rs ≡ filter (has_reason rs) contractual_order
unfolding ordered_reasons filter has_reason
ordered_reasons-filter [] = refl
ordered_reasons-filter (r ∷ rs) =
    ap (insert_reason r) (ordered_reasons-filter rs)
    ∙ insert-filter r rs contractual_order contract-is_canonical (in_contract r)
