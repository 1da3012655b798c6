-- ===== src/Service/Selected.antt =====
-- src/mailmap/service.py: which messages a simulated plan holds, and which of them stay valid.
use mailcleanup.Prelude.{
  ℕ, leb, subst, true, false, String, ◌==◌, Option, none, some, List, [], ◌∷◌, contains, ◌≡◌, refl,
  sym, ap, ◌∙◌, ◌⊎◌, inl, inr, In, In-filter, In-of-filter, In-append, append-In, In-sort_by,
  sort_by-In, eq_iff, eq_refl, Bool-cases, arith,
}
use mailcleanup.Classifier.Model.{MessageAssessment}
use mailcleanup.Service.Judge.{
  Exclusion, latest_first, kept_ids, is_after, left_out, add_judged, judge_items, of_source,
  sources_of, judge_source, judge_sources,
}

pub left_out-none :
    (kept : List String) (cutoff : Option ℕ) (a : MessageAssessment)
    → left_out kept cutoff a ≡ none
    → (a.is_protected ≡ false) × (contains kept a.message.id ≡ false) × (is_after cutoff a ≡ false)
unfolding left_out
left_out-none kept cutoff a h = ground arith

pub none-left_out :
    (kept : List String) (cutoff : Option ℕ) (a : MessageAssessment)
    → a.is_protected ≡ false
    → contains kept a.message.id ≡ false
    → is_after cutoff a ≡ false
    → left_out kept cutoff a ≡ none
unfolding left_out
none-left_out kept cutoff a p k c = ground arith

In-add_judged :
    (b a : MessageAssessment) (why : Option String) (rest : List Exclusion × List MessageAssessment)
    → In a (add_judged b why rest).1
    → ((a ≡ b) × (why ≡ none)) ⊎ In a rest.1
unfolding add_judged
In-add_judged b a none rest (inl e) = inl (e, refl)
In-add_judged b a none rest (inr i) = inr i
In-add_judged b a (some why) rest i = inr i

add_judged-In :
    (b a : MessageAssessment) (why : Option String) (rest : List Exclusion × List MessageAssessment)
    → ((a ≡ b) × (why ≡ none)) ⊎ In a rest.1
    → In a (add_judged b why rest).1
unfolding add_judged
add_judged-In b a none rest (inl (e, n)) = inl e
add_judged-In b a none rest (inr i) = inr i
add_judged-In b a (some why) rest (inl (e, n)) = ground arith
add_judged-In b a (some why) rest (inr i) = i

In-judge_items :
    (kept : List String) (cutoff : Option ℕ) (a : MessageAssessment)
    (items : List MessageAssessment)
    → In a (judge_items kept cutoff items).1
    → In a items × (left_out kept cutoff a ≡ none)
unfolding judge_items
In-judge_items kept cutoff a [] i = absurd i
In-judge_items kept cutoff a (b ∷ rest) i =
    elim (In-add_judged b a (left_out kept cutoff b) (judge_items kept cutoff rest) i) [
      | inl (e, n) ↦ (inl e, ap (left_out kept cutoff) e ∙ n)
      | inr j ↦ let (k, n) = In-judge_items kept cutoff a rest j in (inr k, n)
    ]

judge_items-In :
    (kept : List String) (cutoff : Option ℕ) (a : MessageAssessment)
    (items : List MessageAssessment)
    → In a items
    → left_out kept cutoff a ≡ none
    → In a (judge_items kept cutoff items).1
unfolding judge_items
judge_items-In kept cutoff a [] i n = absurd i
judge_items-In kept cutoff a (b ∷ rest) (inl e) n =
    add_judged-In b a (left_out kept cutoff b) (judge_items kept cutoff rest)
      (inl (e, ap (left_out kept cutoff) (sym e) ∙ n))
judge_items-In kept cutoff a (b ∷ rest) (inr i) n =
    add_judged-In b a (left_out kept cutoff b) (judge_items kept cutoff rest)
      (inr (judge_items-In kept cutoff a rest i n))

pub contains-sources_of :
    (a : MessageAssessment) (seen : List String) (items : List MessageAssessment)
    → In a items
    → contains seen a.source_id ≡ false
    → contains (sources_of seen items) a.source_id ≡ true
unfolding sources_of contains
contains-sources_of a seen [] i h = absurd i
contains-sources_of a seen (b ∷ rest) (inl e) h =
    let s : (a.source_id ≡ b.source_id) = ap (λ (z : MessageAssessment). z.source_id) e in
    ground (arith, eq_iff a.source_id b.source_id)
contains-sources_of a seen (b ∷ rest) (inr i) h = ground (
  arith,
  eq_iff a.source_id b.source_id,
  contains-sources_of a seen rest i,
  contains-sources_of a (b.source_id ∷ seen) rest i,
)

module _ (keep_latest : ℕ) (cutoff : Option ℕ) (items : List MessageAssessment)
    (a : MessageAssessment) where
  -- the ids that are kept of the source of the item
  abbrev pub kept_of_source : List String
  kept_of_source = kept_ids keep_latest (latest_first (of_source a.source_id items))

  In-judge_source :
      (source_id : String)
      → In a (judge_source keep_latest cutoff items source_id).1
      → In a items × (left_out kept_of_source cutoff a ≡ none)
  unfolding judge_source latest_first of_source
  In-judge_source source_id i =
      let ordered = latest_first (of_source source_id items) in
      let (j, n) = In-judge_items (kept_ids keep_latest ordered) cutoff a ordered i in
      let k =
        In-sort_by (λ a b. leb b.message.received_at a.message.received_at) a
          (of_source source_id items) j in
      let (l, e) = In-of-filter (λ a. a.source_id == source_id) a items k in
      let same : (a.source_id ≡ source_id) = (eq_iff a.source_id source_id).0 e in
      (
        l,
        subst
            (λ s.
              left_out (kept_ids keep_latest (latest_first (of_source s items))) cutoff a ≡ none)
            (sym same) n,
      )

  judge_source-In :
      In a items
      → left_out kept_of_source cutoff a ≡ none
      → In a (judge_source keep_latest cutoff items a.source_id).1
  unfolding judge_source latest_first of_source
  judge_source-In i n =
      judge_items-In kept_of_source cutoff a (latest_first (of_source a.source_id items))
        (sort_by-In (λ a b. leb b.message.received_at a.message.received_at) a
          (of_source a.source_id items)
          (In-filter (λ b. b.source_id == a.source_id) a items (eq_refl a.source_id) i))
        n

  pub In-judge_sources :
      (sources : List String)
      → In a (judge_sources keep_latest cutoff items sources).1
      → In a items × (left_out kept_of_source cutoff a ≡ none)
  unfolding judge_sources
  In-judge_sources [] i = absurd i
  In-judge_sources (s ∷ rest) i =
      elim (In-append a (judge_source keep_latest cutoff items s).1
        (judge_sources keep_latest cutoff items rest).1 i) [
          | inl j ↦ In-judge_source s j
          | inr j ↦ In-judge_sources rest j
        ]

  pub judge_sources-In :
      (sources : List String)
      → contains sources a.source_id ≡ true
      → In a items
      → left_out kept_of_source cutoff a ≡ none
      → In a (judge_sources keep_latest cutoff items sources).1
  unfolding judge_sources contains
  judge_sources-In [] c i n = ground arith
  judge_sources-In (s ∷ rest) c i n =
      append-In a (judge_source keep_latest cutoff items s).1
        (judge_sources keep_latest cutoff items rest).1
        (elim (Bool-cases (a.source_id == s)) [
          | inl t ↦ inl (
              subst (λ z. In a (judge_source keep_latest cutoff items z).1)
                ((eq_iff a.source_id s).0 t) (judge_source-In i n))
          | inr f ↦ inr (judge_sources-In rest (rw f at c) i n)
        ])
