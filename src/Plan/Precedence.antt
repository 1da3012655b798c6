-- ===== src/Plan/Precedence.antt =====
-- `ordered_reasons` gives the reason codes of a set in the contractual precedence.
use mailcleanup.Prelude.{
  ℕ, ◌<◌, Bool, true, false, ◌&&◌, ◌||◌, List, [], ◌∷◌, ◌≡◌, refl, arith, ltb, all, any, eqb, ◌∙◌,
  sym,
}
use mailcleanup.Plan.Reasons.{
  Reason, reason_rank, same_reason, has_reason, is_canonical, insert_reason, ordered_reasons,
  is_empty,
}

abbrev above : ℕ → Reason → Bool
above n s = ltb n (reason_rank s)

above-insert :
    (n : ℕ) (r : Reason) (xs : List Reason)
    → all (above n) (insert_reason r xs) ≡ (ltb n (reason_rank r) && all (above n) xs)
unfolding insert_reason all same_reason
above-insert n r [] = refl
above-insert n r (x ∷ xs) = ground (arith, above-insert n r xs)

above_trans :
    (m n : ℕ) (xs : List Reason) → m < n → all (above n) xs ≡ true → all (above m) xs ≡ true
unfolding all
above_trans m n [] h e = refl
above_trans m n (x ∷ xs) h e = ground (arith, above_trans m n xs h)

insert-is_canonical :
    (r : Reason) (xs : List Reason)
    → is_canonical xs ≡ true
    → is_canonical (insert_reason r xs) ≡ true
unfolding insert_reason is_canonical all same_reason
insert-is_canonical r [] h = refl
insert-is_canonical r (x ∷ xs) h = ground (
  arith,
  insert-is_canonical r xs,
  above-insert (reason_rank x) r xs,
  above_trans (reason_rank r) (reason_rank x) xs,
)

-- The codes are in strictly ascending rank, so none is repeated.
pub ordered-is_canonical : (rs : List Reason) → is_canonical (ordered_reasons rs) ≡ true
unfolding ordered_reasons
ordered-is_canonical [] = unfold is_canonical in refl
ordered-is_canonical (r ∷ rs) = insert-is_canonical r (ordered_reasons rs) (ordered-is_canonical rs)

-- A test that gives equal ranks equal answers is met in the sorted list as in the given one.
module _ (p : ℕ → Bool) where
  any-insert :
      (r : Reason) (xs : List Reason)
      → any (λ s. p (reason_rank s)) (insert_reason r xs)
        ≡ (p (reason_rank r) || any (λ s. p (reason_rank s)) xs)
  unfolding insert_reason any same_reason
  any-insert r [] = refl
  any-insert r (x ∷ xs) = ground (arith, any-insert r xs)

  pub any-ordered :
      (rs : List Reason)
      → any (λ s. p (reason_rank s)) (ordered_reasons rs) ≡ any (λ s. p (reason_rank s)) rs
  unfolding ordered_reasons any
  any-ordered [] = refl
  any-ordered (r ∷ rs) = ground (arith, any-insert r (ordered_reasons rs), any-ordered rs)

has_reason-any :
    (xs : List Reason) (r : Reason)
    → has_reason xs r ≡ any (λ s. eqb (reason_rank s) (reason_rank r)) xs
unfolding has_reason any same_reason
has_reason-any [] r = refl
has_reason-any (x ∷ xs) r = ground (arith, has_reason-any xs r)

-- The codes are exactly those of the set.
pub has_reason-ordered :
    (rs : List Reason) (r : Reason) → has_reason (ordered_reasons rs) r ≡ has_reason rs r
has_reason-ordered rs r =
    has_reason-any (ordered_reasons rs) r
    ∙ any-ordered (λ n. eqb n (reason_rank r)) rs
    ∙ sym (has_reason-any rs r)

insert-not-empty : (r : Reason) (xs : List Reason) → is_empty (insert_reason r xs) ≡ false
unfolding insert_reason is_empty
insert-not-empty r [] = refl
insert-not-empty r (x ∷ xs) = ground arith

pub is_empty-ordered : (rs : List Reason) → is_empty (ordered_reasons rs) ≡ is_empty rs
unfolding ordered_reasons
is_empty-ordered [] = refl
is_empty-ordered (r ∷ rs) = insert-not-empty r (ordered_reasons rs) ∙ unfold is_empty in refl
