-- ===== src/Service/Rechecked.antt =====
-- src/mailmap/service.py: what revalidating a simulated plan finds.
use mailcleanup.Prelude.{
  false, String, Option, none, some, List, [], ◌∷◌, map, ◌≡◌, ◌⊎◌, refl, ap, subst, inl, inr, In,
  arith,
}
use mailcleanup.Classifier.Model.{MessageAssessment}
use mailcleanup.Service.Judge.{Exclusion, SnapshotMessage}
use mailcleanup.Service.Plans.{current, stale_reason, add_checked, checked_messages}

-- The message of a plan is there as it was, and nothing protects it.
pub record StillHolds (items : List MessageAssessment) (m : SnapshotMessage) : Type 0 where
  pub now : MessageAssessment
  pub is_current : current m.id items ≡ some now
  pub unchanged : now.message.revision ≡ m.revision
  pub unprotected : now.is_protected ≡ false

StillHolds-of :
    (items : List MessageAssessment) (m : SnapshotMessage) (found : Option MessageAssessment)
    → current m.id items ≡ found
    → stale_reason m found ≡ none
    → StillHolds items m
unfolding stale_reason
StillHolds-of items m none q h = ground arith
StillHolds-of items m (some a) q h =
    let (r, p) : (a.message.revision ≡ m.revision) × (a.is_protected ≡ false) = ground arith in
    record { now = a; is_current = q; unchanged = r; unprotected = p }

of-StillHolds :
    (items : List MessageAssessment) (m : SnapshotMessage)
    → StillHolds items m
    → stale_reason m (current m.id items) ≡ none
unfolding stale_reason
of-StillHolds items m h =
    let e = h.is_current in let u = h.unchanged in let p = h.unprotected in rw (e, p) (ground arith)

In-add_checked :
    (m : SnapshotMessage) (why : Option Exclusion) (rest : List Exclusion × List String)
    (id : String)
    → In id (add_checked m why rest).1
    → ((id ≡ m.id) × (why ≡ none)) ⊎ In id rest.1
unfolding add_checked
In-add_checked m none rest id (inl e) = inl (e, refl)
In-add_checked m none rest id (inr i) = inr i
In-add_checked m (some why) rest id i = inr i

add_checked-In :
    (m : SnapshotMessage) (why : Option Exclusion) (rest : List Exclusion × List String)
    (id : String)
    → ((id ≡ m.id) × (why ≡ none)) ⊎ In id rest.1
    → In id (add_checked m why rest).1
unfolding add_checked
add_checked-In m none rest id (inl (e, n)) = inl e
add_checked-In m none rest id (inr i) = inr i
add_checked-In m (some why) rest id (inl (e, n)) = ground arith
add_checked-In m (some why) rest id (inr i) = i

pub In-checked_messages :
    (items : List MessageAssessment) (ms : List SnapshotMessage) (id : String)
    → In id (checked_messages items ms).1
    → (m : SnapshotMessage) × In m ms × (id ≡ m.id) × StillHolds items m
unfolding checked_messages
In-checked_messages items [] id i = absurd i
In-checked_messages items (m ∷ ms) id i =
    elim (In-add_checked m (stale_reason m (current m.id items)) (checked_messages items ms) id i) [
      | inl (e, n) ↦ (m, inl refl, e, StillHolds-of items m (current m.id items) refl n)
      | inr j ↦ let (k, l, e, h) = In-checked_messages items ms id j in (k, inr l, e, h)
    ]

pub checked_messages-In :
    (items : List MessageAssessment) (ms : List SnapshotMessage) (m : SnapshotMessage)
    → In m ms
    → StillHolds items m
    → In m.id (checked_messages items ms).1
unfolding checked_messages
checked_messages-In items [] m i h = absurd i
checked_messages-In items (k ∷ ms) m (inl e) h =
    add_checked-In k (stale_reason k (current k.id items)) (checked_messages items ms) m.id (
      inl (
        ap (λ (z : SnapshotMessage). z.id) e,
        of-StillHolds items k (subst (StillHolds items) e h),
      ))
checked_messages-In items (k ∷ ms) m (inr i) h =
    add_checked-In k (stale_reason k (current k.id items)) (checked_messages items ms) m.id
      (inr (checked_messages-In items ms m i h))

pub all_checked :
    (items : List MessageAssessment) (ms : List SnapshotMessage)
    → ((m : SnapshotMessage) → In m ms → StillHolds items m)
    → checked_messages items ms ≡ ([], map (λ m. m.id) ms)
unfolding checked_messages add_checked
all_checked items [] h = refl
all_checked items (m ∷ ms) h =
    rw (of-StillHolds items m (h m (inl refl)), all_checked items ms (λ k i. h k (inr i))) refl
