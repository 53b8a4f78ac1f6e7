-- ===== src/Stream/Ticks.antt =====
-- The interval that watches an answer, tick by tick: frontend/src/views/chat/modules/input-box.vue.
use smart_copilot.Common.{
  ℕ, suc, ◌+◌, ◌-◌, ◌*◌, ◌≤◌, ◌<◌, ◌≡◌, refl, ap, ◌∙◌, Bool, true, false, not, Option, none, some,
  List, [], ◌∷◌, arith, ltb, eqb, eqb_iff, length, if-both, if-true, if-false, Bool-cases, inl, inr,
}
use smart_copilot.Common.Texts.{utf16_length}
use smart_copilot.Chat.{MessageStatus, Message, GenerationSnapshot}
use smart_copilot.Chat.Snapshot.{is_open}
use smart_copilot.Chat.Sessions.{upsert_generation_snapshot}
use smart_copilot.Stream.{find_assistant_message}
use smart_copilot.Stream.Box.{Box, messages, start_generation_status_monitor}
use smart_copilot.Stream.Monitor.{
  monitor_limit, is_streaming, settle_by, settle_found, take_snapshot, watch_found, tick, ticks,
}

-- A tick never starts the interval, and does not move its start.
abbrev started : Box → ℕ
started b = b.started_at

settle_by-started :
    (now i : ℕ) (status : Option MessageStatus) (b : Box)
    → started (settle_by now i status b) ≡ started b
settle_by-started now i none b = refl
settle_by-started now i (some MessageStatus.pending) b = refl
settle_by-started now i (some MessageStatus.loading) b = refl
settle_by-started now i (some MessageStatus.finished) b = refl
settle_by-started now i (some MessageStatus.error) b = refl

settle_found-started :
    (now : ℕ) (o : Option ℕ) (b : Box) → started (settle_found now o b) ≡ started b
settle_found-started now none b = refl
settle_found-started now (some i) b = settle_by-started now i _ b

take_snapshot-started :
    (now : ℕ) (snapshot : Option GenerationSnapshot) (b : Box)
    → started (take_snapshot now snapshot b) ≡ started b
take_snapshot-started now none b = refl
take_snapshot-started now (some snapshot) b = if-both started (is_streaming snapshot.status) refl (
    settle_found-started now
      (find_assistant_message (some snapshot.generation_id)
        (messages (record b { chat = upsert_generation_snapshot (some snapshot) b.chat })))
      (record b { chat = upsert_generation_snapshot (some snapshot) b.chat }))

watch_found-started :
    (now : ℕ) (snapshot : Option GenerationSnapshot) (o : Option Message) (b : Box)
    → started (watch_found now snapshot o b) ≡ started b
watch_found-started now snapshot none b = refl
watch_found-started now snapshot (some a) b = if-both started (not (is_open a.status)) refl (
    if-both started (ltb monitor_limit (now - b.started_at)) refl (
      if-both started (not (eqb (utf16_length a.content) b.last_length)) refl (
        if-both started (ltb (now - b.last_changed_at) 8000) refl
          (take_snapshot-started now snapshot b))))

abbrev timer_of : Box → Bool
timer_of b = b.timer

watch_found-late :
    (now : ℕ) (snapshot : Option GenerationSnapshot) (o : Option Message) (b : Box)
    → ltb monitor_limit (now - b.started_at) ≡ true
    → timer_of (watch_found now snapshot o b) ≡ false
watch_found-late now snapshot none b h = refl
watch_found-late now snapshot (some a) b h =
    if-both timer_of (not (is_open a.status)) refl (ap timer_of (if-true _ _ h))

tick-started :
    (now : ℕ) (snapshot : Option GenerationSnapshot) (b : Box)
    → started (tick now snapshot b) ≡ started b
unfolding tick
tick-started now snapshot b = watch_found-started now snapshot _ b

tick-late :
    (now : ℕ) (snapshot : Option GenerationSnapshot) (b : Box)
    → ltb monitor_limit (now - b.started_at) ≡ true
    → timer_of (tick now snapshot b) ≡ false
unfolding tick
tick-late now snapshot b h = watch_found-late now snapshot _ b h

ticks-off :
    (ts : List (ℕ × Option GenerationSnapshot)) (b : Box) → timer_of b ≡ false → ticks ts b ≡ b
unfolding ticks
ticks-off [] b h = refl
ticks-off ((now, snapshot) ∷ ts) b h = ap (ticks ts) (if-false _ _ h) ∙ ticks-off ts b h

-- The ticks of an interval of two seconds, from the one of this number on.
abbrev pub regular : ℕ → ℕ → List (Option GenerationSnapshot) → List (ℕ × Option GenerationSnapshot)
regular start k [] = []
regular start k (snapshot ∷ snapshots) =
    (start + 2000 * k, snapshot) ∷ regular start (suc k) snapshots

late_at :
    (start k from : ℕ) → from ≡ start → k ≡ 66 → ltb monitor_limit (start + 2000 * k - from) ≡ true
late_at start k from e h = ground arith

-- One tick of a standing interval, when the rest is known.
on-off :
    (start k : ℕ) (snapshot : Option GenerationSnapshot)
    (snapshots : List (Option GenerationSnapshot)) (b : Box)
    → started b ≡ start
    → k ≤ 66
    → 66 < k + suc (length snapshots)
    → (suc k ≤ 66
        → 66 < suc k + length snapshots
        → timer_of (ticks (regular start (suc k) snapshots) (tick (start + 2000 * k) snapshot b))
          ≡ false)
    → timer_of (ticks (regular start (suc k) snapshots) (tick (start + 2000 * k) snapshot b))
      ≡ false
on-off start k snapshot snapshots b s h l rest = elim (Bool-cases (eqb k 66)) [
  | inl last ↦
      let off : timer_of (tick (start + 2000 * k) snapshot b) ≡ false =
        tick-late (start + 2000 * k) snapshot b
          (late_at start k b.started_at s ((eqb_iff k 66).0 last)) in
      ap timer_of
        (ticks-off (regular start (suc k) snapshots) (tick (start + 2000 * k) snapshot b) off)
      ∙ off
  | inr more ↦ let less : suc k ≤ 66 = ground (arith, eqb_iff k 66) in rest less (omega (arith, l))
]

regular-off :
    (start k : ℕ) (snapshots : List (Option GenerationSnapshot)) (b : Box)
    → started b ≡ start
    → k ≤ 66
    → 66 < k + length snapshots
    → timer_of (ticks (regular start k snapshots) b) ≡ false
unfolding ticks
regular-off start k [] b s h l = absurd (omega (arith, h, l))
regular-off start k (snapshot ∷ snapshots) b s h l = elim (Bool-cases (b.timer)) [
  | inl on ↦
      ap (λ x. timer_of (ticks (regular start (suc k) snapshots) x)) (if-true _ _ on)
      ∙ on-off start k snapshot snapshots b s h l (
          regular-off start (suc k) snapshots (tick (start + 2000 * k) snapshot b)
            (tick-started (start + 2000 * k) snapshot b ∙ s))
  | inr off ↦
      ap (λ x. timer_of (ticks (regular start (suc k) snapshots) x)) (if-false _ _ off)
      ∙ ap timer_of (ticks-off (regular start (suc k) snapshots) b off)
      ∙ off
]

-- Whatever the server answers, the interval has ended after 66 ticks, two seconds apart.
pub ticks-end :
    (now : ℕ) (snapshots : List (Option GenerationSnapshot)) (b : Box)
    → 66 ≤ length snapshots
    → (ticks (regular now 1 snapshots) (start_generation_status_monitor now b)).timer ≡ false
ticks-end now snapshots b h =
    regular-off now 1 snapshots (start_generation_status_monitor now b) refl (omega arith)
      (omega (arith, h))
