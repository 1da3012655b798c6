-- ===== src/Plan/Removed.antt =====
-- The removals of a revalidation, added to the removals that a plan has.
use mailcleanup.Prelude.{
  ℕ, ◌≤◌, ◌<◌, Bool, true, false, String, ◌==◌, List, [], ◌∷◌, ◌≡◌, refl, ap, arith, length, filter,
  contains, distinct, eq_iff, Bool-cases,
}
use mailcleanup.Plan.Model.{Removal, Member}
use mailcleanup.Plan.Validate.{removed_at, removal_ids}
use mailcleanup.Plan.Counting.{member_ids, is_eligible, is_removed-contains}

-- The removals are of some of the members, in their order, at one revision and time.
pub data Picked (revision now : ℕ) : List Member → List Removal → Type 0 where
  done : Picked revision now [] []
  keep :
      {m : Member} {ms : List Member} {rs : List Removal}
      → Picked revision now ms rs
      → Picked revision now (m ∷ ms) rs
  drop :
      {m : Member} {r : Removal} {ms : List Member} {rs : List Removal}
      → r.provider_message_id ≡ m.provider_message_id
      → r.message_id ≡ m.message_id
      → r.revision ≡ revision
      → r.recorded_at ≡ now
      → Picked revision now ms rs
      → Picked revision now (m ∷ ms) (r ∷ rs)

module _ {revision now : ℕ} where
  pub Picked-length :
      {ms : List Member} {rs : List Removal} → Picked revision now ms rs → length rs ≤ length ms
  Picked-length done = omega arith
  Picked-length (keep p) = omega (arith, Picked-length p)
  Picked-length (drop _ _ _ _ p) = omega (arith, Picked-length p)

  pub removed_at-Picked :
      {ms : List Member} {rs : List Removal}
      → Picked revision now ms rs
      → removed_at rs revision ≡ length rs
  unfolding removed_at
  removed_at-Picked done = refl
  removed_at-Picked (keep p) = removed_at-Picked p
  removed_at-Picked (drop _ _ e _ p) = ground (arith, removed_at-Picked p)

  pub removed_at-other :
      {ms : List Member} {rs : List Removal} (n : ℕ)
      → n < revision
      → Picked revision now ms rs
      → removed_at rs n ≡ 0
  unfolding removed_at
  removed_at-other n h done = refl
  removed_at-other n h (keep p) = removed_at-other n h p
  removed_at-other n h (drop _ _ e _ p) = ground (arith, removed_at-other n h p)

  pub contains-Picked :
      {ms : List Member} {rs : List Removal} (k : String)
      → Picked revision now ms rs
      → contains (removal_ids rs) k ≡ true
      → contains (member_ids ms) k ≡ true
  unfolding contains
  contains-Picked k done h = cc
  contains-Picked k (keep p) h = ground (arith, contains-Picked k p h)
  contains-Picked k (drop {m = m} {r = r} _ e _ _ p) h =
      ground (arith, contains-Picked k p, ap (λ x. k == x) e)

  pub distinct-Picked :
      {ms : List Member} {rs : List Removal}
      → Picked revision now ms rs
      → distinct (member_ids ms) ≡ true
      → distinct (removal_ids rs) ≡ true
  unfolding distinct
  distinct-Picked done h = refl
  distinct-Picked (keep p) h = distinct-Picked p (ground arith)
  distinct-Picked (drop {m = m} {r = r} {ms = ms} {rs = rs} _ e _ _ p) h = ground (
    arith,
    distinct-Picked p,
    contains-Picked r.message_id p,
    ap (contains (member_ids ms)) e,
    Bool-cases (contains (removal_ids rs) r.message_id),
  )

contains-filter :
    (p : Member → Bool) (k : String) (ms : List Member)
    → contains (member_ids (filter p ms)) k ≡ true
    → contains (member_ids ms) k ≡ true
unfolding contains filter
contains-filter p k [] h = h
contains-filter p k (m ∷ ms) h = ground (arith, contains-filter p k ms)

pub distinct-filter :
    (p : Member → Bool) (ms : List Member)
    → distinct (member_ids ms) ≡ true
    → distinct (member_ids (filter p ms)) ≡ true
unfolding distinct filter
distinct-filter p [] h = refl
distinct-filter p (m ∷ ms) h = ground (
  arith,
  distinct-filter p ms,
  contains-filter p m.message_id ms,
  Bool-cases (contains (member_ids (filter p ms)) m.message_id),
)

-- an eligible member was not removed
pub eligible-fresh :
    (rs : List Removal) (k : String) (ms : List Member)
    → contains (member_ids (filter (is_eligible rs) ms)) k ≡ true
    → contains (removal_ids rs) k ≡ false
unfolding contains filter
eligible-fresh rs k [] h = cc
eligible-fresh rs k (m ∷ ms) h =
    ground
      (arith, eligible-fresh rs k ms, eq_iff k m.message_id, is_removed-contains rs m.message_id)
