-- ===== src/Chat/Upsert.antt =====
-- What `upsertGenerationSnapshot` of frontend/src/store/modules/chat/index.ts does to the messages.
use smart_copilot.Common.{
  ℕ, String, ◌≡◌, refl, ap, ◌∙◌, Bool, true, not, Option, none, some, List, [], ◌∷◌, ◌++◌, arith,
  truthy, or_text, Option-cases, inl, inr, filter, filter-append, eq_refl, eq_iff,
}
use smart_copilot.Chat.{Mappings, Message, GenerationSnapshot}
use smart_copilot.Chat.Snapshot.{
  find_last_idx?, get_last_such?, modify_at, is_answer, update_answer, question_of, answer_of,
  upsert_messages, upsert_at, find_assistant_index_by_generation_id, answer_with, or_set, or_keep,
}
use smart_copilot.Chat.LastMatch.{
  find_last_idx?-concat, find_last_idx?-modify, filter-modify, get_last-none, get_last-some,
  get_last-concat, get_last-modify, map-is_some, append-is_some, modify_at-concat,
  modify_at-modify_at,
}

or_text_idem : (c d : String) → or_text c (or_text c d) ≡ or_text c d
or_text_idem c d = ground arith

or_text_same : (c : String) → or_text c c ≡ c
or_text_same c = ground (arith, eq_iff c "")

or_set_idem : (o : Option String) (d : String) → or_set (or_set o d) d ≡ or_set o d
or_set_idem none d = ground arith
or_set_idem (some t) d = ground arith

or_set_same : (d : String) → or_set (some d) d ≡ some d
or_set_same d = ground arith

or_keep_idem : (o old : Option Mappings) → or_keep o (or_keep o old) ≡ or_keep o old
or_keep_idem none old = refl
or_keep_idem (some []) old = refl
or_keep_idem (some (m ∷ ms)) old = refl

or_keep_same : (o : Option Mappings) → or_keep o o ≡ o
or_keep_same none = refl
or_keep_same (some []) = refl
or_keep_same (some (m ∷ ms)) = refl

answer_with_eq :
    (s : GenerationSnapshot) (a : Message) {c c' : String} {t t' : Option String}
    {m m' : Option Mappings}
    → c ≡ c'
    → t ≡ t'
    → m ≡ m'
    → answer_with s a c t m ≡ answer_with s a c' t' m'
answer_with_eq s a {c' = c'} {t = t} {t' = t'} {m = m} hc ht hm =
    ap (λ x. answer_with s a x t m) hc
    ∙ ap (λ x. answer_with s a c' x m) ht
    ∙ ap (λ x. answer_with s a c' t' x) hm

update_answer_idem :
    (s : GenerationSnapshot) (a : Message) → update_answer s (update_answer s a) ≡ update_answer s a
update_answer_idem s a =
    answer_with_eq s a (or_text_idem s.content a.content) (or_set_idem a.timestamp s.updated_at)
      (or_keep_idem s.reference_mappings a.reference_mappings)

update_answer-answer_of : (s : GenerationSnapshot) → update_answer s (answer_of s) ≡ answer_of s
update_answer-answer_of s =
    answer_with_eq s (answer_of s) (or_text_same s.content) (or_set_same s.updated_at)
      (or_keep_same s.reference_mappings)

module _ (s : GenerationSnapshot) where
  abbrev answers : Message → Bool
  answers = is_answer s.generation_id

  answers_update : (a : Message) → answers a ≡ true → answers (update_answer s a) ≡ true
  answers_update a h = ground (arith, eq_refl s.generation_id)

  answers-answer_of : answers (answer_of s) ≡ true
  answers-answer_of = eq_refl s.generation_id

  upsert_messages_found :
      (list : List Message) (o : Option ℕ)
      → truthy s.generation_id ≡ true
      → find_last_idx? answers list ≡ o
      → upsert_messages s list ≡ upsert_at s o list
  unfolding upsert_messages find_assistant_index_by_generation_id
  upsert_messages_found list o t h = rw (t, h) refl

  upsert_appended :
      (list : List Message)
      → truthy s.generation_id ≡ true
      → upsert_messages s (list ++ question_of s ∷ answer_of s ∷ [])
        ≡ list ++ question_of s ∷ answer_of s ∷ []
  upsert_appended list t =
      upsert_messages_found _ _ t
        (find_last_idx?-concat answers list (question_of s) (answer_of s) answers-answer_of)
      ∙ modify_at-concat (update_answer s) list (question_of s) (answer_of s)
      ∙ ap (λ a. list ++ question_of s ∷ a ∷ []) (update_answer-answer_of s)

  upsert_updated :
      (list : List Message) (i : ℕ)
      → truthy s.generation_id ≡ true
      → find_last_idx? answers list ≡ some i
      → upsert_messages s (modify_at (update_answer s) i list) ≡ modify_at (update_answer s) i list
  upsert_updated list i t h =
      upsert_messages_found _ _ t
        (find_last_idx?-modify answers (update_answer s) answers_update list i h)
      ∙ modify_at-modify_at (update_answer s) (update_answer_idem s) i list

  -- A snapshot of a named generation that is taken over a second time changes nothing.
  pub upsert_messages_idem :
      (list : List Message)
      → truthy s.generation_id ≡ true
      → upsert_messages s (upsert_messages s list) ≡ upsert_messages s list
  upsert_messages_idem list t = elim (Option-cases (find_last_idx? answers list)) [
    | inl h ↦ rw (upsert_messages_found list none t h) (upsert_appended list t)
    | inr (i, h) ↦ rw (upsert_messages_found list (some i) t h) (upsert_updated list i t h)
  ]

  -- After a snapshot of a named generation the last answer of this generation is the one that was
  -- there, updated, or the one that the snapshot makes.
  pub get_last-upsert_messages :
      (list : List Message)
      → truthy s.generation_id ≡ true
      → get_last_such? answers (upsert_messages s list) ≡ elim (get_last_such? answers list) [
        | none ↦ some (answer_of s)
        | some a ↦ some (update_answer s a)
      ]
  get_last-upsert_messages list t = elim (Option-cases (find_last_idx? answers list)) [
    | inl h ↦ rw (upsert_messages_found list none t h) (
        rw (get_last-none answers list h)
          (get_last-concat answers list (question_of s) (answer_of s) answers-answer_of))
    | inr (i, h) ↦ rw (upsert_messages_found list (some i) t h) (
        get_last-modify answers (update_answer s) answers_update list i h
        ∙ map-is_some (update_answer s) (answer_of s) _ (get_last-some answers list i h))
  ]

  -- A snapshot of a named generation leaves all messages that are not answers of this generation,
  -- in their order; a question is put behind them where no answer is there.
  pub filter-upsert_messages :
      (list : List Message)
      → truthy s.generation_id ≡ true
      → filter (λ m. not (answers m)) (upsert_messages s list)
        ≡ filter (λ m. not (answers m)) list
          ++ (elim (get_last_such? answers list) [ none ↦ question_of s ∷ [] | some a ↦ [] ])
  filter-upsert_messages list t = elim (Option-cases (find_last_idx? answers list)) [
    | inl h ↦ rw (upsert_messages_found list none t h) (
        rw
          (
            get_last-none answers list h,
            filter-append (λ m. not (answers m)) list (question_of s ∷ answer_of s ∷ []),
            answers-answer_of,
          )
          refl)
    | inr (i, h) ↦ rw (upsert_messages_found list (some i) t h) (
        filter-modify answers (update_answer s) answers_update list i h
        ∙ append-is_some _ _ _ (get_last-some answers list i h))
  ]
