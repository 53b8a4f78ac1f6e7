-- ===== src/Pdf/Drain.antt =====
-- The loop over the queue of page summaries, answer by answer:
-- frontend/src/components/custom/pdf-document-viewer.vue.
use smart_copilot.Common.{
  ℕ, ◌≤◌, ◌≡◌, refl, ap, sym, ◌∙◌, subst, true, false, not, ◌&&◌, ◌||◌, Option, none, some, List,
  [], ◌∷◌, ◌≢◌, eqb, eqb_iff, eqb_refl, filter, length, arith, Bool-cases, if-true, if-false,
  Option-cases, inl, inr,
}
use smart_copilot.Pdf.Summaries.{
  Summaries, Waiting, Outcome, items, failed, has, advance, advance_to, answered, shift_queue,
  end_loop, flush_summary_queue, is_number, put_outcome, delete, is_failed, update_page_summary,
  flush_by, is_there, no_pages,
}
use smart_copilot.Pdf.Shift.{
  answers, answers-none, is_known, shift-none, shift-known, shift-shorter, known, Drained, unlooped,
  queue-unlooped, loaded-unlooped, end_loop-empty, or_true, shorter,
}

module _ (loop document : ℕ) where
  -- Where the queue holds no page that is to be loaded.
  drain-end :
      (os : List Outcome) (s : Summaries)
      → shift_queue s.loaded [] s.queue ≡ none
      → Drained s (answers os (advance_to loop document none s))
  drain-end os s e =
      let s' = record s { queue = [] } in
      let ended : end_loop loop s' ≡ unlooped loop s' = end_loop-empty loop s' refl in
      subst (Drained s) (sym (answers-none os (end_loop loop s'))) (
        refl,
        (
          ap (λ (t : Summaries). t.queue) ended ∙ queue-unlooped loop s',
          λ n h.
              ap (λ (t : Summaries). has t.loaded n) ended
              ∙ ap (λ l. has l n) (loaded-unlooped loop s')
              ∙ shift-none s.loaded s.queue n e h,
        ),
      )

  -- The state after the page at the head of the queue.
  abbrev after_page : ℕ → List ℕ → Outcome → Summaries → Summaries
  after_page p rest o s =
      delete p (put_outcome p o (record s { queue = rest; loading = p ∷ s.loading }))

  document-after_page :
      (p : ℕ) (rest : List ℕ) (o : Outcome) (s : Summaries)
      → (after_page p rest o s).document ≡ s.document
  unfolding update_page_summary
  document-after_page p rest (items texts) s = refl
  document-after_page p rest failed s = refl

  visible-after_page :
      (p : ℕ) (rest : List ℕ) (o : Outcome) (s : Summaries)
      → (after_page p rest o s).visible ≡ s.visible
  unfolding update_page_summary
  visible-after_page p rest (items texts) s = refl
  visible-after_page p rest failed s = refl

  queue-after_page :
      (p : ℕ) (rest : List ℕ) (o : Outcome) (s : Summaries) → (after_page p rest o s).queue ≡ rest
  unfolding update_page_summary
  queue-after_page p rest (items texts) s = refl
  queue-after_page p rest failed s = refl

  loaded-after_page :
      (p : ℕ) (rest : List ℕ) (o : Outcome) (s : Summaries)
      → (after_page p rest o s).loaded ≡ p ∷ s.loaded
  unfolding update_page_summary
  loaded-after_page p rest (items texts) s = refl
  loaded-after_page p rest failed s = refl

  loading-after_page :
      (p : ℕ) (rest : List ℕ) (o : Outcome) (s : Summaries)
      → (after_page p rest o s).loading ≡ filter (λ n. not (eqb n p)) (p ∷ s.loading)
  unfolding update_page_summary
  loading-after_page p rest (items texts) s = refl
  loading-after_page p rest failed s = refl

  filter_own : (p : ℕ) → filter (λ n. not (eqb n p)) (p ∷ []) ≡ []
  filter_own p = if-false _ _ (ap not (eqb_refl p))

  answered-next :
      (p : ℕ) (rest : List ℕ) (o : Outcome) (s : Summaries)
      → s.document ≡ some document
      → answered
          (record { of_loop = loop; of_document = document; page = p })
          o
          (record s { queue = rest; loading = p ∷ s.loading })
        ≡ advance loop document (after_page p rest o s)
  unfolding answered
  answered-next p rest o s d = if-true _ _ (
      ap (λ x. is_failed o || is_number x document) d
      ∙ ap (λ b. is_failed o || b) (eqb_refl document)
      ∙ or_true (is_failed o))

  advance-next :
      (s : Summaries)
      → s.document ≡ some document
      → s.visible ≡ true
      → s.loading ≡ []
      → advance loop document s ≡ advance_to loop document (shift_queue s.loaded [] s.queue) s
  unfolding advance
  advance-next s d v l =
      if-true _ _ (
        ap (λ x. is_number x document && s.visible) d
        ∙ ap (λ b. b && s.visible) (eqb_refl document)
        ∙ v)
      ∙ ap (λ x. advance_to loop document (shift_queue s.loaded x s.queue) s) l

  Drained-mono :
      (s t : Summaries) (r : Summaries × Option Waiting)
      → ((n : ℕ) → known s n ≡ true → known t n ≡ true)
      → Drained t r
      → Drained s r
  Drained-mono s t r h (w, (q, k)) = (w, (q, λ n g. k n (h n g)))

  at_shift :
      (os : List Outcome) (s : Summaries) (x : Option (ℕ × List ℕ))
      → s.document ≡ some document
      → s.visible ≡ true
      → s.loading ≡ []
      → shift_queue s.loaded [] s.queue ≡ x
      → Drained s (answers os (advance_to loop document x s))
      → Drained s (answers os (advance loop document s))
  at_shift os s x d v l e h =
      subst (λ r. Drained s (answers os r))
        (sym (advance-next s d v l ∙ ap (λ y. advance_to loop document y s) e)) h

  after_answer :
      (o : Outcome) (os : List Outcome) (s : Summaries) (p : ℕ) (rest : List ℕ)
      → s.document ≡ some document
      → shift_queue s.loaded [] s.queue ≡ some (p, rest)
      → Drained (after_page p rest o s) (answers os (advance loop document (after_page p rest o s)))
      → Drained s (answers (o ∷ os) (advance_to loop document (some (p, rest)) s))
  unfolding answers
  after_answer o os s p rest d e h =
      let t = after_page p rest o s in
      subst (λ r. Drained s (answers os r)) (sym (answered-next p rest o s d))
        (Drained-mono s t (answers os (advance loop document t))
          (λ n g.
            ap (λ q. is_known t.loaded q n) (queue-after_page p rest o s)
            ∙ ap (λ q. is_known q rest n) (loaded-after_page p rest o s)
            ∙ shift-known s.loaded s.queue rest p n e g)
          h)

  drain :
      (os : List Outcome) (s : Summaries)
      → s.document ≡ some document
      → s.visible ≡ true
      → s.loading ≡ []
      → length s.queue ≤ length os
      → Drained s (answers os (advance loop document s))
  drain [] s d v l m = elim (Option-cases (shift_queue s.loaded [] s.queue)) [
    | inl e ↦ at_shift [] s none d v l e (drain-end [] s e)
    | inr ((p, rest), e) ↦ absurd (omega (arith, m, shift-shorter s.loaded s.queue rest p e))
  ]
  drain (o ∷ os) s d v l m = elim (Option-cases (shift_queue s.loaded [] s.queue)) [
    | inl e ↦ at_shift (o ∷ os) s none d v l e (drain-end (o ∷ os) s e)
    | inr ((p, rest), e) ↦
        let t = after_page p rest o s in
        at_shift (o ∷ os) s (some (p, rest)) d v l e (
          after_answer o os s p rest d e (
            drain os t (document-after_page p rest o s ∙ d) (visible-after_page p rest o s ∙ v)
              (loading-after_page p rest o s
                ∙ ap (λ ns. filter (λ n. not (eqb n p)) (p ∷ ns)) l
                ∙ filter_own p)
              (shorter rest s.queue t.queue (o ∷ os) os (queue-after_page p rest o s)
                (shift-shorter s.loaded s.queue rest p e) m refl)))
  ]

abbrev AllLoaded : Summaries → Summaries × Option Waiting → Type 0
AllLoaded s r =
    (r.1 ≡ none)
    × ((r.0.queue ≡ []) × ((n : ℕ) → has s.queue n ≡ true → n ≢ 0 → has r.0.loaded n ≡ true))

is_known-queue :
    (loaded queue : List ℕ) (n : ℕ) → has queue n ≡ true → n ≢ 0 → is_known loaded queue n ≡ true
is_known-queue loaded queue n h g = ground (arith, eqb_iff n 0)

Drained-AllLoaded :
    (s t : Summaries) (r : Summaries × Option Waiting)
    → t.queue ≡ s.queue
    → Drained t r
    → AllLoaded s r
Drained-AllLoaded s t r e (w, (q, k)) =
    (w, (q, λ n h g. k n (is_known-queue t.loaded t.queue n (ap (λ x. has x n) e ∙ h) g)))

no_pages_lem : (queue : List ℕ) → no_pages queue ≡ true → queue ≡ []
no_pages_lem [] h = refl
no_pages_lem (n ∷ queue) h = cc

no_page {ℓ} : {P : Type ℓ} (queue : List ℕ) (n : ℕ) → queue ≡ [] → has queue n ≡ true → P
no_page [] n e h = cc
no_page (m ∷ queue) n e h = cc

-- Where a document is there and visible, and no page is loading: a timer that fires where no loop goes
-- on starts one that, after at least as many answers as the queue is long, has ended with an empty
-- queue; every page of the queue but 0 is marked as loaded then, also where its request failed.
pub flush_summary_queue-drains :
    (loop document : ℕ) (os : List Outcome) (s : Summaries)
    → s.document ≡ some document
    → s.visible ≡ true
    → s.loading ≡ []
    → s.loop ≡ none
    → length s.queue ≤ length os
    → let r = answers os (flush_summary_queue loop s) in
      (r.1 ≡ none)
      × ((r.0.queue ≡ []) × ((n : ℕ) → has s.queue n ≡ true → n ≢ 0 → has r.0.loaded n ≡ true))
unfolding flush_summary_queue
flush_summary_queue-drains loop document os s d v l f m = elim (Bool-cases (no_pages s.queue)) [
  | inl e ↦
      subst (λ r. AllLoaded s r)
        (sym (
          ap (answers os)
            (if-true _ _ (ap (λ b. is_there s.loop || b) e ∙ or_true (is_there s.loop)))
          ∙ answers-none os (record s { timer = false })))
        (refl, (no_pages_lem s.queue e, λ n h g. no_page s.queue n (no_pages_lem s.queue e) h))
  | inr e ↦
      let started = record s { timer = false; loop = some loop } in
      subst (λ r. AllLoaded s r)
        (sym (
          ap (answers os) (
            if-false _ _ (ap (λ o. is_there o || no_pages s.queue) f ∙ e)
            ∙ ap (λ o. flush_by loop o (record s { timer = false })) d)))
        (Drained-AllLoaded s started (answers os (advance loop document started)) refl
          (drain loop document os started d v l m))
]
