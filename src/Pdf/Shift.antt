-- ===== src/Pdf/Shift.antt =====
-- The next page of the queue of summaries:
-- frontend/src/components/custom/pdf-document-viewer.vue.
use smart_copilot.Common.{
  ℕ, suc, ◌≤◌, ◌<◌, ◌≡◌, refl, ap, ◌∙◌, Bool, true, false, not, ◌&&◌, ◌||◌, Option, none, some,
  List, [], ◌∷◌, if◌then◌else◌, eqb, eqb_iff, if-both, length, arith, if-true,
}
use smart_copilot.Pdf.Summaries.{
  Summaries, Waiting, Outcome, has, answered, shift_queue, end_loop, is_number, no_pages,
}

-- The answers for a loop, one after the other.
unfoldable pub answers : List Outcome → Summaries × Option Waiting → Summaries × Option Waiting
unfolding answered
answers [] r = r
answers (o ∷ os) (s, none) = (s, none)
answers (o ∷ os) (s, some w) = answers os (answered w o s)

pub answers-none : (os : List Outcome) (s : Summaries) → answers os (s, none) ≡ (s, none)
unfolding answers
answers-none [] s = refl
answers-none (o ∷ os) s = refl

-- A page that is loaded, or in the queue.
abbrev pub is_known : List ℕ → List ℕ → ℕ → Bool
is_known loaded queue n = has loaded n || not (eqb n 0) && has queue n

pub shift-none :
    (loaded queue : List ℕ) (n : ℕ)
    → shift_queue loaded [] queue ≡ none
    → is_known loaded queue n ≡ true
    → has loaded n ≡ true
unfolding shift_queue
shift-none loaded [] n e h = ground arith
shift-none loaded (m ∷ queue) n e h = ground (arith, shift-none loaded queue n, eqb_iff m n)

pub shift-known :
    (loaded queue rest : List ℕ) (p n : ℕ)
    → shift_queue loaded [] queue ≡ some (p, rest)
    → is_known loaded queue n ≡ true
    → is_known (p ∷ loaded) rest n ≡ true
unfolding shift_queue
shift-known loaded [] rest p n e h = cc
shift-known loaded (m ∷ queue) rest p n e h =
    ground (arith, shift-known loaded queue rest p n, eqb_iff m n)

pub shift-shorter :
    (loaded queue rest : List ℕ) (p : ℕ)
    → shift_queue loaded [] queue ≡ some (p, rest)
    → length rest < length queue
unfolding shift_queue
shift-shorter loaded [] rest p e = cc
shift-shorter loaded (m ∷ queue) rest p e = ground (arith, shift-shorter loaded queue rest p)

abbrev pub known : Summaries → ℕ → Bool
known s n = is_known s.loaded s.queue n

-- A loop that has ended with an empty queue, and has loaded all pages of a state before.
abbrev pub Drained : Summaries → Summaries × Option Waiting → Type 0
Drained s r =
    (r.1 ≡ none) × ((r.0.queue ≡ []) × ((n : ℕ) → known s n ≡ true → has r.0.loaded n ≡ true))

abbrev pub unlooped : ℕ → Summaries → Summaries
unlooped loop s = if is_number s.loop loop then record s { loop = none } else s

pub queue-unlooped : (loop : ℕ) (s : Summaries) → (unlooped loop s).queue ≡ s.queue
queue-unlooped loop s = if-both (λ (t : Summaries). t.queue) (is_number s.loop loop) refl refl

pub loaded-unlooped : (loop : ℕ) (s : Summaries) → (unlooped loop s).loaded ≡ s.loaded
loaded-unlooped loop s = if-both (λ (t : Summaries). t.loaded) (is_number s.loop loop) refl refl

pub end_loop-empty : (loop : ℕ) (s : Summaries) → s.queue ≡ [] → end_loop loop s ≡ unlooped loop s
unfolding end_loop
end_loop-empty loop s h = if-true _ _ (ap no_pages (queue-unlooped loop s ∙ h))

pub or_true : (b : Bool) → b || true ≡ true
or_true false = refl
or_true true = refl

pub shorter :
    (rest queue q : List ℕ) (all_os os : List Outcome)
    → q ≡ rest
    → length rest < length queue
    → length queue ≤ length all_os
    → length all_os ≡ suc (length os)
    → length q ≤ length os
shorter rest queue q all_os os e h m k = rw e (omega (arith, h, m, k))
