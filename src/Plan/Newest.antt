-- ===== src/Plan/Newest.antt =====
-- The quota of a flow keeps its newest messages.
use mailcleanup.Prelude.{
  ℕ, zero, suc, ◌≤◌, Bool, true, false, ◌&&◌, String, ◌==◌, List, [], ◌∷◌, map, ◌≡◌, ◌⊎◌, refl, sym,
  ap, ◌∙◌, subst, arith, leb, all, take, filter, contains, distinct, eq_iff, Bool-cases, inl, inr,
  In, map-In, In-filter, all_of_In, In-of-filter, insert_by, sort_by, sort_by-In, In-sort_by,
}
use mailcleanup.Plan.Reasons.{Reason, is_empty}
use mailcleanup.Plan.Model.{Selection}
use mailcleanup.Plan.Result.{Result, ok, traverse, ◌>>=◌, >>=-eq-ok, ok_injective}
use mailcleanup.Plan.Composition.{Entry, entry_id}
use mailcleanup.Plan.Select.{
  base_reasons, judged, candidates, in_flow, newest_first, flow_quota, within_quota, quota_allowed,
}
use mailcleanup.Plan.Quota.{distinct_part, judged_ids, map-map}

module _ {A : Type 0} (time : A → ℕ) where
  abbrev later : A → A → Bool
  later a b = leb (time b) (time a)

  -- each item is at least as late as those after it
  unfoldable descending : List A → Bool
  descending [] = true
  descending (x ∷ xs) = all (later x) xs && descending xs

  all_earlier :
      (x y : A) (ys : List A) → later x y ≡ true → all (later y) ys ≡ true → all (later x) ys ≡ true
  unfolding all
  all_earlier x y [] h k = refl
  all_earlier x y (z ∷ zs) h k = ground (arith, all_earlier x y zs)

  all-insert_by :
      (p : A → Bool) (x : A) (ys : List A)
      → p x ≡ true
      → all p ys ≡ true
      → all p (insert_by later x ys) ≡ true
  unfolding all insert_by
  all-insert_by p x [] h k = ground arith
  all-insert_by p x (y ∷ ys) h k = ground (arith, all-insert_by p x ys)

  insert_by-descending :
      (x : A) (ys : List A) → descending ys ≡ true → descending (insert_by later x ys) ≡ true
  unfolding descending insert_by all
  insert_by-descending x [] h = refl
  insert_by-descending x (y ∷ ys) h =
      ground (arith, all_earlier x y ys, all-insert_by (later y) x ys, insert_by-descending x ys)

  sort_by-descending : (xs : List A) → descending (sort_by later xs) ≡ true
  unfolding sort_by descending
  sort_by-descending [] = refl
  sort_by-descending (x ∷ xs) = insert_by-descending x (sort_by later xs) (sort_by-descending xs)

  -- an item of a descending list that is not among the first ones is no later than they are
  take_latest :
      (n : ℕ) (xs : List A) (a e : A)
      → descending xs ≡ true
      → In a (take n xs)
      → In e xs
      → In e (take n xs) ⊎ (time e ≤ time a)
  unfolding descending
  take_latest zero xs a e h i j = absurd i
  take_latest (suc n) [] a e h i j = absurd i
  take_latest (suc n) (x ∷ xs) a e h i (inl p) = inl (inl p)
  take_latest (suc n) (x ∷ xs) a e h (inl q) (inr j) =
      let first : later x e ≡ true = all_of_In (later x) e xs (ground arith) j in
      inr (ground (arith, ap time q))
  take_latest (suc n) (x ∷ xs) a e h (inr i) (inr j) =
      elim (take_latest n xs a e (ground arith) i j) [ inl k ↦ inl (inr k) | inr k ↦ inr k ]

contains_id :
    (e : Entry) (es : List Entry) → In e es → contains (map entry_id es) (entry_id e) ≡ true
unfolding contains
contains_id e [] i = absurd i
contains_id e (x ∷ xs) (inl p) = ground (arith, eq_iff (entry_id e) (entry_id x), ap entry_id p)
contains_id e (x ∷ xs) (inr i) = ground (arith, contains_id e xs i)

id_contains :
    (k : String) (es : List Entry)
    → contains (map entry_id es) k ≡ true
    → (e : Entry) × In e es × (entry_id e ≡ k)
unfolding contains
id_contains k [] h = cc
id_contains k (x ∷ xs) h = elim (Bool-cases (k == entry_id x)) [
  | inl hit ↦ (x, inl refl, sym ((eq_iff k (entry_id x)).0 hit))
  | inr miss ↦ let (e, i, p) = id_contains k xs (ground arith) in (e, inr i, p)
]

same_entry :
    (a b : Entry) (es : List Entry)
    → distinct (map entry_id es) ≡ true
    → In a es
    → In b es
    → entry_id a ≡ entry_id b
    → a ≡ b
unfolding distinct
same_entry a b [] d i j h = absurd i
same_entry a b (x ∷ xs) d (inl p) (inl q) h = p ∙ sym q
same_entry a b (x ∷ xs) d (inl p) (inr j) h =
    let absent : contains (map entry_id xs) (entry_id x) ≡ false = ground arith in
    cc (contains_id b xs j, ap (contains (map entry_id xs)) (sym h ∙ ap entry_id p), absent)
same_entry a b (x ∷ xs) d (inr i) (inl q) h =
    let absent : contains (map entry_id xs) (entry_id x) ≡ false = ground arith in
    cc (contains_id a xs i, ap (contains (map entry_id xs)) (h ∙ ap entry_id q), absent)
same_entry a b (x ∷ xs) d (inr i) (inr j) h = same_entry a b xs (ground arith) i j h

module _ (n : ℕ) (cs : List Entry) (positive : 1 ≤ n) (d : distinct (map entry_id cs) ≡ true) where
  ranked : (flow : String) (e : Entry) → In e (newest_first (in_flow flow cs)) → In e cs
  unfolding newest_first in_flow
  ranked flow e i = (In-of-filter _ e cs (In-sort_by _ e _ (In-sort_by _ e _ i))).0

  -- a candidate of the flow stands in its ranking
  into_ranking :
      (e : Entry) → In e cs → In e (newest_first (in_flow e.effective.effective_flow_id cs))
  unfolding newest_first in_flow
  into_ranking e i =
      let flow = e.effective.effective_flow_id in
      sort_by-In _ e _ (sort_by-In _ e _ (In-filter _ e cs ((eq_iff flow flow).1 refl) i))

  In-take : (k : ℕ) (e : Entry) (es : List Entry) → In e (take k es) → In e es
  In-take zero e es i = absurd i
  In-take (suc k) e [] i = absurd i
  In-take (suc k) e (x ∷ xs) (inl p) = inl p
  In-take (suc k) e (x ∷ xs) (inr i) = inr (In-take k e xs i)

  -- a candidate that the quota lets through is among the first of its flow
  quota_first :
      (a : Entry)
      → In a cs
      → within_quota n cs a ≡ true
      → In a (flow_quota n a.effective.effective_flow_id cs)
  unfolding within_quota flow_quota
  quota_first a i h =
      let flow = a.effective.effective_flow_id in
      let named : contains (map entry_id (flow_quota n flow cs)) (entry_id a) ≡ true =
        ground arith in
      let (b, j, p) = id_contains (entry_id a) (flow_quota n flow cs) named in
      let same = same_entry b a cs d (ranked flow b (In-take n b _ j)) i p in
      subst (λ z. In z (flow_quota n flow cs)) same j

  quota_dropped :
      (e : Entry)
      → within_quota n cs e ≡ false
      → In e (flow_quota n e.effective.effective_flow_id cs)
      → ⊥
  unfolding within_quota
  quota_dropped e h i =
      let named = contains_id e (flow_quota n e.effective.effective_flow_id cs) i in ground arith

  dropped_is_older :
      (a e : Entry)
      → In a cs
      → In e cs
      → within_quota n cs a ≡ true
      → within_quota n cs e ≡ false
      → a.effective.effective_flow_id ≡ e.effective.effective_flow_id
      → e.indexed.received_at ≤ a.indexed.received_at
  unfolding flow_quota newest_first
  dropped_is_older a e i j h k same =
      let flow = e.effective.effective_flow_id in
      let first : In a (flow_quota n flow cs) =
        subst (λ z. In a (flow_quota n z cs)) same (quota_first a i h) in
      elim (take_latest (λ (z : Entry). z.indexed.received_at) n (newest_first (in_flow flow cs)) a
        e (sort_by-descending (λ (z : Entry). z.indexed.received_at) _) first (into_ranking e j)) [
          | inl l ↦ absurd (quota_dropped e k l)
          | inr l ↦ l
        ]

traverse-In :
    {A B : Type 0} (f : A → Result B) (x : A) (y : B) (xs : List A) {ys : List B}
    → traverse f xs ≡ ok ys
    → In x xs
    → f x ≡ ok y
    → In y ys
unfolding traverse
traverse-In f x y [] h i e = absurd i
traverse-In f x y (z ∷ zs) {ys} h i e =
    let (w, ew, h1) = >>=-eq-ok (f z) _ h in
    let (ws, es, h2) = >>=-eq-ok (traverse f zs) _ h1 in
    subst (In y) (ok_injective h2) (elim i [
      | inl p ↦ inl (ok_injective (sym e ∙ ap f p ∙ ew))
      | inr j ↦ inr (traverse-In f x y zs es j e)
    ])

-- a message without reasons is a candidate
candidate-In :
    (s : Selection) (e : Entry) (universe : List Entry) {js : List (Entry × List Reason)}
    → traverse (judged s) universe ≡ ok js
    → In e universe
    → base_reasons s e ≡ ok []
    → In e (candidates js)
unfolding is_empty
candidate-In s e universe {js} h i b =
    let none_found : judged s e ≡ ok (e, []) = ap (λ r. r >>= λ reasons. ok (e, reasons)) b in
    map-In (λ (j : Entry × List Reason). j.0) (e, []) _
      (In-filter (λ (j : Entry × List Reason). is_empty j.1) (e, []) js refl
        (traverse-In (judged s) e (e, []) universe h i none_found))

-- With a quota of at least one, and a universe of different messages: a message that the quota
-- leaves out, though no policy and no filter gives a reason against it, is no newer than any message
-- of its flow that the quota lets through.
pub quota_allowed-newest :
    (s : Selection) (universe : List Entry) {allowed : List Entry} (a e : Entry)
    → 1 ≤ s.keep_latest_per_flow
    → distinct (map entry_id universe) ≡ true
    → quota_allowed s universe ≡ ok allowed
    → In a allowed
    → In e universe
    → base_reasons s e ≡ ok []
    → contains (map entry_id allowed) (entry_id e) ≡ false
    → a.effective.effective_flow_id ≡ e.effective.effective_flow_id
    → e.indexed.received_at ≤ a.indexed.received_at
unfolding quota_allowed
quota_allowed-newest s universe {allowed} a e positive d h ia ie b out same =
    let (js, ej, h1) = >>=-eq-ok (traverse (judged s) universe) _ h in
    let n = s.keep_latest_per_flow in
    let cs = candidates js in
    let kept : filter (within_quota n cs) cs ≡ allowed = ok_injective h1 in
    let ids : distinct (map entry_id cs) ≡ true =
      ap distinct (map-map (filter (λ j. is_empty j.1) js))
      ∙ distinct_part (λ j. entry_id j.0) (λ j. is_empty j.1) js
          (ap distinct (judged_ids s universe ej) ∙ d) in
    let (ja, within) = In-of-filter (within_quota n cs) a cs (subst (In a) (sym kept) ia) in
    let je = candidate-In s e universe ej ie b in
    elim (Bool-cases (within_quota n cs e)) [
      | inl t ↦
          cc (
            contains_id e allowed (subst (In e) kept (In-filter (within_quota n cs) e cs t je)),
            out,
          )
      | inr f ↦ dropped_is_older n cs positive ids a e ja je within f same
    ]
