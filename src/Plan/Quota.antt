-- ===== src/Plan/Quota.antt =====
-- The quota of a selection: how many messages of one flow it lets through.
use mailcleanup.Prelude.{
  ℕ, zero, suc, ◌+◌, ◌≤◌, Bool, true, false, ◌||◌, String, ◌==◌, List, [], ◌∷◌, map, ◌≡◌, refl, sym,
  ap, ◌∙◌, subst, arith, length, take, filter, contains, distinct, eq_comm, eq_iff, Bool-cases, inl,
  inr,
}
use mailcleanup.Plan.Reasons.{Reason, is_empty}
use mailcleanup.Plan.Model.{Selection}
use mailcleanup.Plan.Result.{ok, traverse, >>=-eq-ok, ok_injective}
use mailcleanup.Plan.Composition.{Entry, entry_id}
use mailcleanup.Plan.Select.{
  base_reasons, judged, candidates, in_flow, newest_first, flow_quota, within_quota, quota_allowed,
}

module _ {A : Type 0} (id : A → String) where
  absent_none :
      (k : String) (xs : List A)
      → contains (map id xs) k ≡ false
      → length (filter (λ x. id x == k) xs) ≡ 0
  unfolding filter contains
  absent_none k [] h = refl
  absent_none k (x ∷ xs) h = ground (arith, eq_comm (id x) k, absent_none k xs)

  at_most_one :
      (k : String) (xs : List A)
      → distinct (map id xs) ≡ true
      → length (filter (λ x. id x == k) xs) ≤ 1
  unfolding filter distinct
  at_most_one k [] h = omega arith
  at_most_one k (x ∷ xs) h = elim (Bool-cases (id x == k)) [
    | inl hit ↦
        ground (arith, absent_none k xs, ap (contains (map id xs)) ((eq_iff (id x) k).0 hit))
    | inr miss ↦ ground (arith, at_most_one k xs)
  ]

  either_count :
      (p q : A → Bool) (xs : List A)
      → length (filter (λ x. p x || q x) xs) ≤ length (filter p xs) + length (filter q xs)
  unfolding filter
  either_count p q [] = omega arith
  either_count p q (x ∷ xs) = ground (arith, either_count p q xs)

  none_named : (xs : List A) → length (filter (λ x. contains [] (id x)) xs) ≡ 0
  unfolding filter contains
  none_named [] = refl
  none_named (x ∷ xs) = none_named xs

  -- items with different ids, all named by a list, are no more than its names
  named_count :
      (names : List String) (xs : List A)
      → distinct (map id xs) ≡ true
      → length (filter (λ x. contains names (id x)) xs) ≤ length names
  unfolding contains
  named_count [] xs h = omega (arith, none_named xs)
  named_count (k ∷ names) xs h = omega (
    arith,
    either_count (λ x. id x == k) (λ x. contains names (id x)) xs,
    at_most_one k xs h,
    named_count names xs h,
  )

  -- two tests in turn let through no more than a weaker one
  filter_twice :
      (p q r : A → Bool) (xs : List A)
      → ((x : A) → p x ≡ true → q x ≡ true → r x ≡ true)
      → length (filter p (filter q xs)) ≤ length (filter r xs)
  unfolding filter
  filter_twice p q r [] h = omega arith
  filter_twice p q r (x ∷ xs) h = ground (arith, h x, filter_twice p q r xs h)

  contains-part :
      (p : A → Bool) (k : String) (xs : List A)
      → contains (map id (filter p xs)) k ≡ true
      → contains (map id xs) k ≡ true
  unfolding contains filter
  contains-part p k [] h = h
  contains-part p k (x ∷ xs) h = ground (arith, contains-part p k xs)

  pub distinct_part :
      (p : A → Bool) (xs : List A)
      → distinct (map id xs) ≡ true
      → distinct (map id (filter p xs)) ≡ true
  unfolding distinct filter
  distinct_part p [] h = refl
  distinct_part p (x ∷ xs) h = ground (
    arith,
    distinct_part p xs,
    contains-part p (id x) xs,
    Bool-cases (contains (map id (filter p xs)) (id x)),
  )

length-take : (n : ℕ) (xs : List Entry) → length (take n xs) ≤ n
length-take zero xs = omega arith
length-take (suc n) [] = omega arith
length-take (suc n) (x ∷ xs) = omega (arith, length-take n xs)

length-map : (f : Entry → String) (xs : List Entry) → length (map f xs) ≡ length xs
length-map f [] = refl
length-map f (x ∷ xs) = ap suc (length-map f xs)

within_flow :
    (n : ℕ) (flow : String) (cs : List Entry) (e : Entry)
    → 1 ≤ n
    → (e.effective.effective_flow_id == flow) ≡ true
    → within_quota n cs e ≡ true
    → contains (map entry_id (flow_quota n flow cs)) (entry_id e) ≡ true
unfolding within_quota
within_flow n flow cs e positive same h =
    let path = (eq_iff e.effective.effective_flow_id flow).0 same in
    let inside : contains (map entry_id (flow_quota n e.effective.effective_flow_id cs))
          (entry_id e)
        ≡ true =
      ground arith in
    subst (λ z. contains (map entry_id (flow_quota n z cs)) (entry_id e) ≡ true) path inside

flow_bound :
    (n : ℕ) (flow : String) (cs : List Entry)
    → 1 ≤ n
    → distinct (map entry_id cs) ≡ true
    → length (in_flow flow (filter (within_quota n cs) cs)) ≤ n
unfolding in_flow flow_quota
flow_bound n flow cs positive d =
    let names = map entry_id (flow_quota n flow cs) in
    omega (
      arith,
      filter_twice entry_id (λ e. e.effective.effective_flow_id == flow) (within_quota n cs)
          (λ e. contains names (entry_id e)) cs (λ e p q. within_flow n flow cs e positive p q),
      named_count entry_id names cs d,
      length-map entry_id (flow_quota n flow cs),
      length-take n (newest_first (in_flow flow cs)),
    )

pub judged_ids :
    (s : Selection) (universe : List Entry) {js : List (Entry × List Reason)}
    → traverse (judged s) universe ≡ ok js
    → map (λ j. entry_id j.0) js ≡ map entry_id universe
unfolding traverse
judged_ids s [] h = ap (map (λ j. entry_id j.0)) (sym (ok_injective h))
judged_ids s (e ∷ es) {js} h =
    let (j, ej, h1) = >>=-eq-ok (judged s e) _ h in
    let (js', es', h2) = >>=-eq-ok (traverse (judged s) es) _ h1 in
    let (base, _, pair) = >>=-eq-ok (base_reasons s e) _ ej in
    let same : j.0 ≡ e = ap (λ z. z.0) (sym (ok_injective pair)) in
    let rest = judged_ids s es es' in
    ap (map (λ j. entry_id j.0)) (sym (ok_injective h2)) ∙ cc (ap entry_id same, rest)

pub map-map :
    (js : List (Entry × List Reason))
    → map entry_id (map (λ j. j.0) js) ≡ map (λ j. entry_id j.0) js
map-map [] = refl
map-map (j ∷ js) = ap (◌∷◌ (entry_id j.0)) (map-map js)

-- With a quota of N of at least one, and a universe of different messages, at most N messages of
-- each flow are allowed.
pub quota_allowed-le :
    (s : Selection) (universe : List Entry) (flow : String) {allowed : List Entry}
    → 1 ≤ s.keep_latest_per_flow
    → distinct (map entry_id universe) ≡ true
    → quota_allowed s universe ≡ ok allowed
    → length (in_flow flow allowed) ≤ s.keep_latest_per_flow
unfolding quota_allowed
quota_allowed-le s universe flow {allowed} positive d h =
    let (js, ej, h1) = >>=-eq-ok (traverse (judged s) universe) _ h in
    let same = ok_injective h1 in
    let named : distinct (map (λ j. entry_id j.0) js) ≡ true =
      ap distinct (judged_ids s universe ej) ∙ d in
    let kept = filter (λ j. is_empty j.1) js in
    let ids : distinct (map entry_id (candidates js)) ≡ true =
      ap distinct (map-map kept) ∙ distinct_part (λ j. entry_id j.0) (λ j. is_empty j.1) js named in
    let bound = flow_bound s.keep_latest_per_flow flow (candidates js) positive ids in
    subst (λ z. length (in_flow flow z) ≤ s.keep_latest_per_flow) same bound
