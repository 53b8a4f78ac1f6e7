-- ===== src/Stream/Monitor.antt =====
-- The interval of `startGenerationStatusMonitor` in frontend/src/views/chat/modules/input-box.vue. The
-- answer of the server to the request of a tick is there before the next tick.
use smart_copilot.Common.{
  ℕ, ◌-◌, String, Bool, true, false, not, Option, none, some, List, [], ◌∷◌, if◌then◌else◌, ltb,
  eqb, get_last?,
}
use smart_copilot.Common.Texts.{utf16_length}
use smart_copilot.Chat.{GenerationStatus, MessageStatus, Message, GenerationSnapshot}
use smart_copilot.Chat.Snapshot.{modify_at, is_open}
use smart_copilot.Chat.Sessions.{upsert_generation_snapshot}
use smart_copilot.Stream.{find_assistant_message}
use smart_copilot.Stream.Handlers.{update_executing_tool_status}
use smart_copilot.Stream.Box.{Box, messages, set_messages, stop_generation_status_monitor, nth?}

-- 130 seconds
abbrev pub monitor_limit : ℕ
monitor_limit = 130000

abbrev pub is_streaming : Option GenerationStatus → Bool
is_streaming none = false
is_streaming (some GenerationStatus.streaming) = true
is_streaming (some GenerationStatus.completed) = false
is_streaming (some GenerationStatus.failed) = false
is_streaming (some GenerationStatus.cancelled) = false

-- The message at a position that was found.
abbrev found : Option ℕ → List Message → Option Message
found none list = none
found (some i) list = nth? i list

abbrev settle_at : ℕ → String → ℕ → Box → Box
settle_at now status i b =
    stop_generation_status_monitor
      (set_messages (modify_at (update_executing_tool_status status now) i (messages b)) b)

-- After the snapshot: a finished or failed answer ends the monitor.
abbrev pub settle_by : ℕ → ℕ → Option MessageStatus → Box → Box
settle_by now i none b = b
settle_by now i (some MessageStatus.pending) b = b
settle_by now i (some MessageStatus.loading) b = b
settle_by now i (some MessageStatus.finished) b = settle_at now "success" i b
settle_by now i (some MessageStatus.error) b = settle_at now "failed" i b

abbrev pub settle_found : ℕ → Option ℕ → Box → Box
settle_found now none b = b
settle_found now (some i) b =
    settle_by now i (elim (nth? i (messages b)) [ none ↦ none | some m ↦ m.status ]) b

abbrev pub take_snapshot : ℕ → Option GenerationSnapshot → Box → Box
take_snapshot now none b = b
take_snapshot now (some snapshot) b =
    if is_streaming snapshot.status
    then b
    else (let taken = record b { chat = upsert_generation_snapshot (some snapshot) b.chat } in
        settle_found now (find_assistant_message (some snapshot.generation_id) (messages taken))
          taken)

-- The tick at an answer that is found.
abbrev watch_answer : ℕ → Option GenerationSnapshot → Message → Box → Box
watch_answer now snapshot a b =
    if not (is_open a.status)
    then stop_generation_status_monitor b
    else if ltb monitor_limit (now - b.started_at)
    then stop_generation_status_monitor b
    else if not (eqb (utf16_length a.content) b.last_length)
    then record b { last_length = utf16_length a.content; last_changed_at = now }
    else if ltb (now - b.last_changed_at) 8000
    then b
    else take_snapshot now snapshot b

abbrev pub watch_found : ℕ → Option GenerationSnapshot → Option Message → Box → Box
watch_found now snapshot none b = stop_generation_status_monitor b
watch_found now snapshot (some a) b = watch_answer now snapshot a b

abbrev generation_of_last : Option Message → Option String
generation_of_last none = none
generation_of_last (some m) = m.generation_id

-- One call of the interval's function, with the server's answer to its request.
unfoldable pub tick : ℕ → Option GenerationSnapshot → Box → Box
unfolding find_assistant_message nth? upsert_generation_snapshot utf16_length
tick now snapshot b =
    watch_found now snapshot
      (found (find_assistant_message (generation_of_last (get_last? (messages b))) (messages b))
        (messages b))
      b

-- The ticks while the interval stands.
unfoldable pub ticks : List (ℕ × Option GenerationSnapshot) → Box → Box
unfolding tick
ticks [] b = b
ticks ((now, snapshot) ∷ ts) b = ticks ts (if b.timer then tick now snapshot b else b)
