-- ===== src/Plan/Selected.antt =====
-- Creation: which members a plan selects, and that the plan it gives is accepted.
use mailcleanup.Prelude.{
  Bool, true, false, ◌&&◌, List, [], ◌∷◌, map, ◌≡◌, refl, sym, ap, ◌∙◌, subst, arith, inl, inr,
  contains, String, In, In-sort_by, if◌then◌else◌,
}
use mailcleanup.Plan.Reasons.{Reason, is_empty}
use mailcleanup.Plan.Model.{InitialState, Member, Selection, is_selected}
use mailcleanup.Plan.Result.{Result, ok, traverse, >>=-eq-ok, check-eq-ok, ok_injective}
use mailcleanup.Plan.Composition.{Entry, entry_id}
use mailcleanup.Plan.Catalog.{Platform}
use mailcleanup.Plan.Select.{base_reasons, judged, quota_allowed}
use mailcleanup.Plan.Precedence.{is_empty-ordered}
use mailcleanup.Plan.Create.{creation_reasons, member_of, consider, members_of}

pub In-traverse :
    {A B : Type 0} (f : A → Result B) (y : B) (xs : List A) {ys : List B}
    → traverse f xs ≡ ok ys
    → In y ys
    → (x : A) × In x xs × (f x ≡ ok y)
unfolding traverse
In-traverse f y [] {ys} h i = absurd (subst (In y) (sym (ok_injective h)) i)
In-traverse f y (x ∷ xs) {ys} h i =
    let (z, ez, h1) = >>=-eq-ok (f x) _ h in
    let (zs, es, h2) = >>=-eq-ok (traverse f xs) _ h1 in
    elim (subst (In y) (sym (ok_injective h2)) i) [
      | inl e ↦ (x, inl refl, ez ∙ ap ok (sym e))
      | inr j ↦ let (w, k, ew) = In-traverse f y xs es j in (w, inr k, ew)
    ]

creation_reasons-is_empty :
    (allowed : Bool) (base : List Reason)
    → is_empty (creation_reasons allowed base) ≡ (is_empty base && allowed)
unfolding creation_reasons is_empty
creation_reasons-is_empty true base = ground (arith, is_empty-ordered base)
creation_reasons-is_empty false [] = is_empty-ordered (Reason.keep_latest ∷ [])
creation_reasons-is_empty false (r ∷ rs) = is_empty-ordered (r ∷ rs)

-- The member was made of the entry: selected exactly when no policy and no filter speaks against it
-- and the quota of its flow lets it through.
pub record IsMemberOf (selection : Selection) (allowed universe : List Entry) (m : Member)
    : Type 0 where
  pub entry : Entry
  pub base : List Reason
  pub from_universe : In entry universe
  pub same_id : m.provider_message_id ≡ entry_id entry
  pub judged_as : base_reasons selection entry ≡ ok base
  pub reasons :
      m.reason_codes ≡ creation_reasons (contains (map entry_id allowed) (entry_id entry)) base
  pub selected_iff :
      is_selected m.initial_state
      ≡ (is_empty base && contains (map entry_id allowed) (entry_id entry))

state_of : (b : Bool) → is_selected (if b then InitialState.selected else InitialState.excluded) ≡ b
state_of true = refl
state_of false = refl

module _ (platform : Platform) (account : String) where
  member_of-made :
      (e : Entry) (reasons : List Reason) {m : Member}
      → member_of platform account e reasons ≡ ok m
      → (m.provider_message_id ≡ entry_id e)
        × (m.reason_codes ≡ reasons)
        × (is_selected m.initial_state ≡ is_empty reasons)
  unfolding member_of
  member_of-made e reasons {m} h =
      let (_, h') = check-eq-ok _ _ h in
      let same = ok_injective h' in
      (
        ap (λ (z : Member). z.provider_message_id) (sym same),
        ap (λ (z : Member). z.reason_codes) (sym same),
        ap (λ (z : Member). is_selected z.initial_state) (sym same) ∙ state_of (is_empty reasons),
      )

  pub members_of-made :
      (selection : Selection) (universe : List Entry) {members : List Member}
      → members_of platform account selection universe ≡ ok members
      → (allowed : List Entry) × (quota_allowed selection universe ≡ ok allowed)
        × ((m : Member) → In m members → IsMemberOf selection allowed universe m)
  unfolding members_of consider
  members_of-made selection universe {members} h =
      let (allowed, ea, h1) = >>=-eq-ok (quota_allowed selection universe) _ h in
      let (js, ej, h2) = >>=-eq-ok (traverse (judged selection) universe) _ h1 in
      let (made, em, h3) = >>=-eq-ok (traverse (consider platform account allowed) js) _ h2 in
      let each : (m : Member) → In m members → IsMemberOf selection allowed universe m = λ m i.
        let j = In-sort_by _ m made (subst (In m) (sym (ok_injective h3)) i) in
        let ((e, base), ij, considered) =
          In-traverse (consider platform account allowed) m js em j in
        let (e', iu, judgement) = In-traverse (judged selection) (e, base) universe ej ij in
        let (found, ef, pair) = >>=-eq-ok (base_reasons selection e') _ judgement in
        let both = ok_injective pair in
        let same_e : e' ≡ e = ap (λ z. z.0) both in
        let same_base : found ≡ base = ap (λ z. z.1) both in
        let inside = contains (map entry_id allowed) (entry_id e) in
        let made_of = member_of-made e (creation_reasons inside base) considered in
        record {
          entry = e;
          base = base;
          from_universe = subst (λ z. In z universe) same_e iu;
          same_id = made_of.0;
          judged_as = ap (base_reasons selection) (sym same_e) ∙ ef ∙ ap ok same_base;
          reasons = made_of.1;
          selected_iff = made_of.2 ∙ creation_reasons-is_empty inside base;
        } in
      (allowed, ea, each)
