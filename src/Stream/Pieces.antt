-- ===== src/Stream/Pieces.antt =====
-- What a stream of pieces says: frontend/src/views/chat/modules/input-box.vue.
use Prim.Native.String
use mathlib.Core.Option.{map}
use text.Mathlib.TextLemmas.{append_assoc as text_assoc, append-nil as text_nil}
use smart_copilot.Common.{
  ℕ, String, ◌≡◌, refl, ap, sym, ◌∙◌, true, false, not, truthy, ◌&&◌, Option, some, List, [], ◌∷◌,
  ◌++◌, All, get_or, if-true,
}
use smart_copilot.Chat.{MessageStatus, Message}
use smart_copilot.Chat.Snapshot.{get_last_such?, is_answer}
use smart_copilot.Stream.{Payload}
use smart_copilot.Stream.Handlers.{piece, completion, kind_of, is_status, is_status_error}
use smart_copilot.Stream.Box.{Box, messages, run}
use smart_copilot.Stream.Answers.{answer, say, say_all, answer-run, IsFor}

abbrev pub IsPiece : Payload → Type 0
IsPiece p = kind_of p ≡ piece (get_or p.chunk "")

-- The texts of the pieces, one after the other.
abbrev pub joined : List (ℕ × Payload) → String
joined [] = ""
joined ((now, p) ∷ ps) = String.◌++◌ (get_or p.chunk "") (joined ps)

say_all-joined :
    (ps : List (ℕ × Payload)) (now : ℕ) (q : Payload) (content : String)
    (status : Option MessageStatus)
    → is_status_error status ≡ false
    → All (λ (t, p). IsPiece p) ps
    → kind_of q ≡ completion
    → is_status "finished" q.status ≡ true
    → say_all (ps ++ (now, q) ∷ []) (content, status)
      ≡ (String.◌++◌ content (joined ps), some MessageStatus.finished)
unfolding say_all say
say_all-joined [] now q content status e f k h =
    ap (λ k'. say k' q (content, status)) k
    ∙ ap (λ s. (content, s))
        (if-true _ _ (ap (λ b. b && not (is_status_error status)) h ∙ ap not e))
    ∙ ap (λ c. (c, some MessageStatus.finished)) (sym (text_nil content))
say_all-joined ((t, p) ∷ ps) now q content status e (f, fs) k h =
    ap (λ k'. say_all (ps ++ (now, q) ∷ []) (say k' p (content, status))) f
    ∙ say_all-joined ps now q (String.◌++◌ content (get_or p.chunk "")) (some MessageStatus.loading)
        refl fs k h
    ∙ ap (λ c. (c, some MessageStatus.finished))
        (text_assoc content (get_or p.chunk "") (joined ps))

module _ (generation_id : String) (named : truthy generation_id ≡ true) where
  -- Where the latest answer of a generation has not failed, the payloads of that generation that are
  -- pieces, and then one that is a completion with the status finished, make of it a finished answer,
  -- whose text goes on with the texts of the pieces in their order; whatever else the list holds.
  pub run-joined :
      (iso : ℕ → String) (ps : List (ℕ × Payload)) (now : ℕ) (q : Payload) (b : Box) (a : Message)
      → get_last_such? (is_answer generation_id) (messages b) ≡ some a
      → is_status_error a.status ≡ false
      → All (λ (t, p). IsFor generation_id named p) (ps ++ (now, q) ∷ [])
      → All (λ (t, p). IsPiece p) ps
      → kind_of q ≡ completion
      → is_status "finished" q.status ≡ true
      → map answer
          (get_last_such? (is_answer generation_id) (messages (run iso (ps ++ (now, q) ∷ []) b)))
        ≡ some (String.◌++◌ a.content (joined ps), some MessageStatus.finished)
  run-joined iso ps now q b a h e g f k d =
      answer-run generation_id named iso (ps ++ (now, q) ∷ []) b a g h
      ∙ ap some (say_all-joined ps now q a.content a.status e f k d)
