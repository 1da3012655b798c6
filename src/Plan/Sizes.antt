-- ===== src/Plan/Sizes.antt =====
-- What the removals took from the size of a plan.
use mailcleanup.Prelude.{
  ℕ, ◌+◌, Bool, true, String, ◌==◌, Option, none, some, List, [], ◌∷◌, ◌≡◌, ap, arith, filter,
  contains, distinct, all, eq_comm, eq_iff, filter-ext, sum_of, Bool-cases, inl, inr,
}
use mailcleanup.Plan.Model.{
  Member, Removal, CleanupPlan, is_selected, selected_members, current_eligible_size, selected_size,
}
use mailcleanup.Plan.Validate.{find_member, removal_ids, removals_ok}
use mailcleanup.Plan.Counting.{
  member_ids, but, absent, eligible-cons, matched, none_removed, is_eligible, matches,
}
use mailcleanup.Plan.RemovalLedger.{all-matches}
use mailcleanup.Plan.Active.{IsValid, members_distinct, removals_accepted}

abbrev pub size_found : Option Member → ℕ
size_found none = 0
size_found (some m) = m.size_estimate_bytes

-- the size of the members that the removals name, each once
abbrev pub removed_size : List Member → List Removal → ℕ
removed_size ms rs = sum_of (λ r. size_found (find_member r.message_id ms)) rs

abbrev size_of : List Member → ℕ
size_of ms = sum_of (λ m. m.size_estimate_bytes) ms

drop_size :
    (q : Member → Bool) (k : String) (ms : List Member) (m : Member)
    → distinct (member_ids ms) ≡ true
    → find_member k ms ≡ some m
    → q m ≡ true
    → size_of (filter (but q k) ms) + m.size_estimate_bytes ≡ size_of (filter q ms)
unfolding filter distinct find_member sum_of
drop_size q k [] m d f t = cc
drop_size q k (x ∷ xs) m d f t = elim (Bool-cases (x.message_id == k)) [
  | inl hit ↦
      let e : x.message_id ≡ k = (eq_iff x.message_id k).0 hit in
      ground (arith, eq_comm x.message_id k, absent q k xs, ap (contains (member_ids xs)) e)
  | inr miss ↦ ground (arith, eq_comm x.message_id k, drop_size q k xs m)
]

eligible_size :
    (ms : List Member) (rs : List Removal)
    → distinct (member_ids ms) ≡ true
    → distinct (removal_ids rs) ≡ true
    → all (matches ms) rs ≡ true
    → size_of (filter (is_eligible rs) ms) + removed_size ms rs ≡ size_of (selected_members ms)
unfolding all distinct sum_of
eligible_size ms [] dm dr h =
    ground (arith, filter-ext (is_eligible []) (λ m. is_selected m.initial_state) ms none_removed)
eligible_size ms (r ∷ rs) dm dr h =
    let (m, found, kept) = matched ms r rs dr (ground arith) in
    ground (
      arith,
      eligible-cons r rs ms,
      ap size_found found,
      drop_size (is_eligible rs) r.message_id ms m dm found kept,
      eligible_size ms rs dm,
    )

-- In a valid plan, the size of what is still eligible and the size of the members that the removals
-- name, each counted once, make up the size of what was selected at creation.
pub current_eligible_size_exact :
    (plan : CleanupPlan)
    → IsValid plan
    → current_eligible_size plan + removed_size plan.members plan.removals
      ≡ selected_size plan.members
unfolding current_eligible_size selected_size removals_ok
current_eligible_size_exact plan valid =
    eligible_size plan.members plan.removals (members_distinct plan valid)
      (ground (arith, removals_accepted plan valid))
      (ground (arith, removals_accepted plan valid, all-matches plan plan.removals))
