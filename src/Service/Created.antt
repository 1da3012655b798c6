-- ===== src/Service/Created.antt =====
-- src/mailmap/service.py: what a simulated plan is made of, and that the repository keeps it.
use mailcleanup.Prelude.{
  ℕ, ◌≤◌, true, false, Option, none, some, some_injective, arith, String, List, [], map, contains,
  sort_by, leb_text, ◌≡◌, ◌↔◌, refl, sym, subst, In, In-map, map-In, In-filter, In-of-filter,
  In-sort_by, sort_by-In,
}
use mailcleanup.Classifier.Model.{MessageAssessment}
use mailcleanup.Classifier.Identity.{TextOps}
use mailcleanup.Service.Judge.{SnapshotMessage, PlanSelection, Repository, is_after, sources_of}
use mailcleanup.Service.Plans.{
  snapshot_message, by_id, assessments, chosen, judged_messages, plan_for, create_simulated_plan,
  cutoff_of,
}
use mailcleanup.Service.Selected.{
  left_out-none, none-left_out, contains-sources_of, In-judge_sources, judge_sources-In,
  kept_of_source,
}

module _ (ops : TextOps) (end_of_day : ℕ → ℕ)
    (plan_digest : PlanSelection → List SnapshotMessage → String) where
  in_time :
      (before : Option ℕ) (a : MessageAssessment)
      → is_after (cutoff_of ops end_of_day plan_digest before) a ≡ false
      → (date : ℕ) → before ≡ some date
      → a.message.received_at ≤ end_of_day date
  unfolding cutoff_of is_after
  in_time none a h date e = cc
  in_time (some day) a h date e =
      subst (λ z. a.message.received_at ≤ end_of_day z) (some_injective e) (ground arith)

  not_late :
      (before : Option ℕ) (a : MessageAssessment)
      → ((date : ℕ) → before ≡ some date → a.message.received_at ≤ end_of_day date)
      → is_after (cutoff_of ops end_of_day plan_digest before) a ≡ false
  unfolding cutoff_of is_after
  not_late none a h = refl
  not_late (some day) a h = ground (arith, h day refl)

  -- The item is of a chosen source, nothing protects it, it is not among the latest that are
  -- kept of its source, and it is not after the date.
  pub record Includes (request : PlanSelection) (repo : Repository) (a : MessageAssessment)
      : Type 0 where
    pub assessed : In a (assessments ops end_of_day plan_digest repo)
    pub of_chosen : contains request.source_ids a.source_id ≡ true
    pub unprotected : a.is_protected ≡ false
    pub not_kept :
        contains
          (kept_of_source request.keep_latest
            (cutoff_of ops end_of_day plan_digest request.before_date)
            (chosen ops end_of_day plan_digest request.source_ids repo)
            a)
          a.message.id
        ≡ false
    pub not_after :
        (date : ℕ) → request.before_date ≡ some date → a.message.received_at ≤ end_of_day date

  Includes-of :
      (request : PlanSelection) (repo : Repository) (a : MessageAssessment)
      → In a (judged_messages ops end_of_day plan_digest request repo).1
      → Includes request repo a
  unfolding judged_messages chosen
  Includes-of request repo a i =
      let cutoff = cutoff_of ops end_of_day plan_digest request.before_date in
      let items = chosen ops end_of_day plan_digest request.source_ids repo in
      let (j, n) = In-judge_sources request.keep_latest cutoff items a (sources_of [] items) i in
      let (k, c) =
        In-of-filter (λ b. contains request.source_ids b.source_id) a
          (assessments ops end_of_day plan_digest repo) j in
      let (p, q, r) = left_out-none _ cutoff a n in
      record {
        assessed = k;
        of_chosen = c;
        unprotected = p;
        not_kept = q;
        not_after = in_time request.before_date a r;
      }

  of-Includes :
      (request : PlanSelection) (repo : Repository) (a : MessageAssessment)
      → Includes request repo a
      → In a (judged_messages ops end_of_day plan_digest request repo).1
  unfolding judged_messages chosen contains
  of-Includes request repo a h =
      let cutoff = cutoff_of ops end_of_day plan_digest request.before_date in
      let items = chosen ops end_of_day plan_digest request.source_ids repo in
      let i =
        In-filter (λ b. contains request.source_ids b.source_id) a
          (assessments ops end_of_day plan_digest repo) h.of_chosen h.assessed in
      judge_sources-In request.keep_latest cutoff items a (sources_of [] items)
        (contains-sources_of a [] items i refl) i
        (none-left_out _ cutoff a h.unprotected h.not_kept
          (not_late request.before_date a h.not_after))

  -- A simulated plan holds a message exactly when it is the snapshot of an assessed message of a
  -- chosen source that nothing protects, that is not among the latest that are kept of its
  -- source and that is not after the end of the date.
  pub create_simulated_plan-Includes :
      (request : PlanSelection) (repo : Repository) (m : SnapshotMessage)
      → In m
          (create_simulated_plan ops end_of_day plan_digest request repo).0.plan.snapshot.messages
        ↔ ((a : MessageAssessment) × Includes request repo a × (m ≡ snapshot_message a))
  unfolding create_simulated_plan plan_for by_id
  create_simulated_plan-Includes request repo m =
      let included = (judged_messages ops end_of_day plan_digest request repo).1 in
      let le = (λ (a b : MessageAssessment). leb_text a.message.id b.message.id) in
      (
        (λ i.
            let (a, j, e) = In-map snapshot_message m (sort_by le included) i in
            (a, Includes-of request repo a (In-sort_by le a included j), e)),
        (λ h.
            subst (λ z. In z (map snapshot_message (sort_by le included))) (sym h.2)
              (map-In snapshot_message h.0 (sort_by le included)
                (sort_by-In le h.0 included (of-Includes request repo h.0 h.1)))),
      )
