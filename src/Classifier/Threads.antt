-- ===== src/Classifier/Threads.antt =====
-- `assess_messages`: a conversation is disposed of as a whole, or not at all.
use mailcleanup.Prelude.{
  String, true, false, not, List, [], ◌∷◌, map, ◌≡◌, refl, sym, ap, ◌∙◌, arith, ◌++◌, contains,
  eq_iff, any, In, In-map, In-filter, any_of_In, Bool-cases, inl, inr,
}
use mailcleanup.Classifier.Model.{SyntheticMessage, MessageAssessment, with_thread_review}
use mailcleanup.Classifier.Identity.{TextOps}
use mailcleanup.Classifier.Rules.{system_protected_labels, default_user_protected_labels}
use mailcleanup.Classifier.Assess.{
  classify_message, in_thread, is_mixed, reviewed, review_threads, assess_messages,
}
use mailcleanup.Classifier.Safety.{is_candidate, candidate_is_safe, unprotected_message}

module _ (all : List MessageAssessment) where
  same_thread_In :
      (x : MessageAssessment) (tid : String)
      → In x all
      → x.message.thread_id ≡ tid
      → In x (in_thread tid all)
  unfolding in_thread
  same_thread_In x tid i e = In-filter _ x all ((eq_iff x.message.thread_id tid).1 e) i

  mixed_of_two :
      (x y : MessageAssessment)
      → In x all
      → In y all
      → x.message.thread_id ≡ y.message.thread_id
      → x.is_protected ≡ true
      → y.is_protected ≡ false
      → is_mixed all y.message.thread_id ≡ true
  unfolding is_mixed
  mixed_of_two x y ix iy e px py = ground (
    arith,
    any_of_In (λ (z : MessageAssessment). z.is_protected) x _
        (same_thread_In x y.message.thread_id ix e) px,
    any_of_In (λ (z : MessageAssessment). not z.is_protected) y _
        (same_thread_In y y.message.thread_id iy refl) (ap not py),
  )

  reviewed_message : (x : MessageAssessment) → (reviewed all x).message ≡ x.message
  unfolding reviewed with_thread_review
  reviewed_message x = ground arith

  reviewed_candidate :
      (x : MessageAssessment)
      → is_candidate (reviewed all x).recomendacion ≡ true
      → (is_candidate x.recomendacion ≡ true) × (reviewed all x ≡ x)
  unfolding reviewed with_thread_review
  reviewed_candidate x h = ground arith

  review_keeps :
      (xs : List MessageAssessment)
      → map (λ (a : MessageAssessment). a.message) (map (reviewed all) xs)
        ≡ map (λ (a : MessageAssessment). a.message) xs
  review_keeps [] = refl
  review_keeps (x ∷ xs) = cc (reviewed_message x, review_keeps xs)

  reviewed_protected :
      (x : MessageAssessment)
      → (reviewed all x).is_protected ≡ false
      → (x.is_protected ≡ false) × (is_mixed all x.message.thread_id ≡ false) × (reviewed all x ≡ x)
  unfolding reviewed with_thread_review
  reviewed_protected x h = ground arith

  -- two reviewed items of one thread are not protected on one side only
  one_sided :
      (x y : MessageAssessment)
      → In x all
      → In y all
      → x.message.thread_id ≡ y.message.thread_id
      → (reviewed all y).is_protected ≡ false
      → (reviewed all x).is_protected ≡ false
  unfolding reviewed
  one_sided x y ix iy e h =
      let (open_y, pure, _) = reviewed_protected y h in
      elim (Bool-cases x.is_protected) [
        | inl p ↦ cc (mixed_of_two x y ix iy e p open_y)
        | inr p ↦ ground (arith, e)
      ]

module _ (ops : TextOps) (messages : List SyntheticMessage) where
  abbrev first_pass : List MessageAssessment
  first_pass = map (λ m. classify_message ops m default_user_protected_labels) messages

  -- where an item of the result comes from
  origin :
      (x : MessageAssessment)
      → In x (assess_messages ops messages)
      → (y : MessageAssessment) × In y first_pass × (x ≡ reviewed first_pass y)
  unfolding assess_messages review_threads
  origin x i = In-map (reviewed first_pass) x first_pass i

  unprotected_of_unprotected :
      (x y : MessageAssessment)
      → In x (assess_messages ops messages)
      → In y (assess_messages ops messages)
      → x.message.thread_id ≡ y.message.thread_id
      → y.is_protected ≡ false
      → x.is_protected ≡ false
  unprotected_of_unprotected x y ix iy e h =
      let (x', ix', ex) = origin x ix in
      let (y', iy', ey) = origin y iy in
      let same : x'.message.thread_id ≡ y'.message.thread_id = cc (
        e,
        ap (λ (z : MessageAssessment). z.message.thread_id) ex,
        ap (λ (z : MessageAssessment). z.message.thread_id) ey,
        ap (λ (z : SyntheticMessage). z.thread_id) (reviewed_message first_pass x'),
        ap (λ (z : SyntheticMessage). z.thread_id) (reviewed_message first_pass y'),
      ) in
      rw ex (one_sided first_pass x' y' ix' iy' same (rw ey at h))

  -- an unprotected item of the result is one of the first pass, as it was
  settled :
      (x : MessageAssessment)
      → In x (assess_messages ops messages)
      → x.is_protected ≡ false
      → (m : SyntheticMessage) × (x ≡ classify_message ops m default_user_protected_labels)
  settled x i h =
      let (x', ix', ex) = origin x i in
      let kept = reviewed_protected first_pass x' (rw ex at h) in
      let (m, _, em) =
        In-map (λ m. classify_message ops m default_user_protected_labels) x' messages ix' in
      (m, ex ∙ kept.2 ∙ em)

  candidate_open :
      (x : MessageAssessment)
      → In x (assess_messages ops messages)
      → is_candidate x.recomendacion ≡ true
      → x.is_protected ≡ false
  candidate_open x i h =
      let (x', ix', ex) = origin x i in
      let (m, _, em) =
        In-map (λ m. classify_message ops m default_user_protected_labels) x' messages ix' in
      let kept = reviewed_candidate first_pass x' (rw ex at h) in
      let safe =
        candidate_is_safe ops m default_user_protected_labels (rw (kept.1, em) at (rw ex at h)) in
      rw (ex, kept.1, em) safe.0

  unprotected_labels :
      (x : MessageAssessment)
      → In x (assess_messages ops messages)
      → x.is_protected ≡ false
      → any (contains (system_protected_labels ++ default_user_protected_labels)) x.message.labels
        ≡ false
  unprotected_labels x i h =
      let (m, e) = settled x i h in
      rw e (unprotected_message ops m default_user_protected_labels (rw e at h))

  -- After the review of threads, two messages of one conversation are both protected or both not.
  pub thread_uniform :
      (x y : MessageAssessment)
      → In x (assess_messages ops messages)
      → In y (assess_messages ops messages)
      → x.message.thread_id ≡ y.message.thread_id
      → x.is_protected ≡ y.is_protected
  thread_uniform x y ix iy e = elim (Bool-cases y.is_protected) [
    | inr free ↦ unprotected_of_unprotected x y ix iy e free ∙ sym free
    | inl held ↦ elim (Bool-cases x.is_protected) [
      | inl p ↦ p ∙ sym held
      | inr p ↦ cc (unprotected_of_unprotected y x iy ix (sym e) p)
    ]
  ]

  classify_keeps :
      (ms : List SyntheticMessage)
      → map
          (λ (a : MessageAssessment). a.message)
          (map (λ m. classify_message ops m default_user_protected_labels) ms)
        ≡ ms
  unfolding classify_message
  classify_keeps [] = refl
  classify_keeps (m ∷ ms) = ap (◌∷◌ m) (classify_keeps ms)

  -- The assessments are of the given messages, in their order, with none lost, added or altered.
  pub assess_messages_keeps :
      map (λ (a : MessageAssessment). a.message) (assess_messages ops messages) ≡ messages
  unfolding assess_messages review_threads
  assess_messages_keeps = review_keeps first_pass first_pass ∙ classify_keeps messages

  -- If one message of a conversation is proposed for the trash or the archive, then no message of
  -- that conversation is protected, and none carries a system label or a user label that protects.
  pub candidate_thread :
      (x y : MessageAssessment)
      → In x (assess_messages ops messages)
      → In y (assess_messages ops messages)
      → x.message.thread_id ≡ y.message.thread_id
      → is_candidate x.recomendacion ≡ true
      → (y.is_protected ≡ false)
        × (any
              (contains (system_protected_labels ++ default_user_protected_labels))
              y.message.labels
            ≡ false)
  candidate_thread x y ix iy e h =
      let open_x = candidate_open x ix h in
      let open_y = unprotected_of_unprotected y x iy ix (sym e) open_x in
      (open_y, unprotected_labels y iy open_y)
