-- ===== src/Plan/Counting.antt =====
-- As many members are eligible as were selected, less the removals.
use mailcleanup.Prelude.{
  ◌+◌, ◌≤◌, Bool, true, false, not, ◌&&◌, String, ◌==◌, Option, none, some, List, [], ◌∷◌, map, ◌≡◌,
  refl, sym, ap, ◌∙◌, arith, length, filter, contains, distinct, all, any, eq_comm, eq_iff,
  filter-ext, sum_of-filter-le, Bool-cases, inl, inr,
}
use mailcleanup.Plan.Model.{
  Member, Removal, CleanupPlan, is_selected, selected_members, is_removed, current_eligible_size,
  selected_size,
}
use mailcleanup.Plan.Validate.{find_member, removal_ids, member_matches}

abbrev pub member_ids : List Member → List String
member_ids ms = map (λ (m : Member). m.message_id) ms

-- a test on members, and the same test without the member `k`
abbrev pub but : (Member → Bool) → String → Member → Bool
but q k m = q m && not (k == m.message_id)

pub absent :
    (q : Member → Bool) (k : String) (ms : List Member)
    → contains (member_ids ms) k ≡ false
    → filter (but q k) ms ≡ filter q ms
unfolding filter contains
absent q k [] h = refl
absent q k (m ∷ ms) h = ground (arith, absent q k ms)

-- the member `k` is counted once
drop_one :
    (q : Member → Bool) (k : String) (ms : List Member) (m : Member)
    → distinct (member_ids ms) ≡ true
    → find_member k ms ≡ some m
    → q m ≡ true
    → length (filter (but q k) ms) + 1 ≡ length (filter q ms)
unfolding filter distinct find_member
drop_one q k [] m d f t = cc
drop_one q k (x ∷ xs) m d f t = elim (Bool-cases (x.message_id == k)) [
  | inl hit ↦
      let e : x.message_id ≡ k = (eq_iff x.message_id k).0 hit in
      ground (arith, eq_comm x.message_id k, absent q k xs, ap (contains (member_ids xs)) e)
  | inr miss ↦ ground (arith, eq_comm x.message_id k, drop_one q k xs m)
]

pub find_member_id :
    (k : String) (ms : List Member) (m : Member) → find_member k ms ≡ some m → m.message_id ≡ k
unfolding find_member
find_member_id k [] m f = cc
find_member_id k (x ∷ xs) m f = elim (Bool-cases (x.message_id == k)) [
  | inl hit ↦
      let e : x.message_id ≡ k = (eq_iff x.message_id k).0 hit in
      let same : x ≡ m = ground arith in ap (λ (y : Member). y.message_id) (sym same) ∙ e
  | inr miss ↦ ground (arith, find_member_id k xs m)
]

pub is_removed-contains :
    (rs : List Removal) (k : String) → is_removed rs k ≡ contains (removal_ids rs) k
unfolding is_removed contains any
is_removed-contains [] k = refl
is_removed-contains (r ∷ rs) k = ground (arith, eq_comm r.message_id k, is_removed-contains rs k)

abbrev pub is_eligible : List Removal → Member → Bool
is_eligible rs m = is_selected m.initial_state && not (is_removed rs m.message_id)

abbrev pub matches : List Member → Removal → Bool
matches ms r = member_matches (find_member r.message_id ms) r

pub eligible-cons :
    (r : Removal) (rs : List Removal) (ms : List Member)
    → filter (is_eligible (r ∷ rs)) ms ≡ filter (but (is_eligible rs) r.message_id) ms
eligible-cons r rs ms = filter-ext _ _ ms (λ m. unfold is_removed any in ground arith)

pub matched :
    (ms : List Member) (r : Removal) (rs : List Removal)
    → distinct (removal_ids (r ∷ rs)) ≡ true
    → matches ms r ≡ true
    → (m : Member) × (find_member r.message_id ms ≡ some m) × (is_eligible rs m ≡ true)
unfolding member_matches distinct
matched ms r rs d h = go (find_member r.message_id ms) refl h
  where
    go :
        (o : Option Member)
        → find_member r.message_id ms ≡ o
        → member_matches o r ≡ true
        → (m : Member) × (find_member r.message_id ms ≡ some m) × (is_eligible rs m ≡ true)
    go none f k = cc
    go (some m) f k =
        let id = find_member_id r.message_id ms m f in
        (
          m,
          f,
          ground (arith, is_removed-contains rs m.message_id, ap (contains (removal_ids rs)) id),
        )

pub none_removed : (m : Member) → is_eligible [] m ≡ is_selected m.initial_state
unfolding is_removed any
none_removed m = ground arith

pub eligible_count :
    (ms : List Member) (rs : List Removal)
    → distinct (member_ids ms) ≡ true
    → distinct (removal_ids rs) ≡ true
    → all (matches ms) rs ≡ true
    → length (filter (is_eligible rs) ms) + length rs ≡ length (selected_members ms)
unfolding all distinct
eligible_count ms [] dm dr h =
    ground (arith, filter-ext (is_eligible []) (λ m. is_selected m.initial_state) ms unremoved)
  where
    unremoved : (m : Member) → is_eligible [] m ≡ is_selected m.initial_state
    unremoved m = none_removed m
eligible_count ms (r ∷ rs) dm dr h =
    let (m, found, kept) = matched ms r rs dr (ground arith) in
    ground (
      arith,
      eligible-cons r rs ms,
      drop_one (is_eligible rs) r.message_id ms m dm found kept,
      eligible_count ms rs dm,
    )

-- What is still eligible is no larger than what was selected.
pub eligible_size-le :
    (plan : CleanupPlan) → current_eligible_size plan ≤ selected_size plan.members
unfolding current_eligible_size selected_size
eligible_size-le plan = sum_of-filter-le _ _ _ plan.members (λ m h. ground arith)
