-- ===== src/Chat/Laws.antt =====
-- What the operations on conversations of frontend/src/store/modules/chat/index.ts guarantee,
-- whatever the server answers.
use smart_copilot.Common.{
  String, ◌≡◌, refl, ap, ap₂, true, false, Option, none, some, List, ◌==◌, arith, if◌then◌else◌,
  truthy, or_text, eq_iff,
}
use smart_copilot.Chat.{Message, GenerationSnapshot, ConversationSession}
use smart_copilot.Chat.Upsert.{upsert_messages_idem}
use smart_copilot.Chat.Sessions.{
  ChatStore, Server, upsert_generation_snapshot, switch_session, load_messages, load_sessions,
  take_sessions, auto_select, archive_session, leave, data_of, set_sessions, first_active,
}

or_text_idem : (c d : String) → or_text c (or_text c d) ≡ or_text c d
or_text_idem c d = ground arith

-- A snapshot of a named generation that arrives twice changes the store as one that arrives once.
pub upsert_generation_snapshot_idem :
    (snapshot : GenerationSnapshot) (s : ChatStore)
    → truthy snapshot.generation_id ≡ true
    → upsert_generation_snapshot (some snapshot) (upsert_generation_snapshot (some snapshot) s)
      ≡ upsert_generation_snapshot (some snapshot) s
unfolding upsert_generation_snapshot
upsert_generation_snapshot_idem snapshot s t =
    ap₂ (λ c l. record s { conversation_id = c; list = l })
      (or_text_idem snapshot.conversation_id s.conversation_id)
      (upsert_messages_idem snapshot s.list t)

module _ {W : Type 0} (server : Server W) (w : W) (s : ChatStore) where
  -- After switching, the store stands at the target if it stood there or the server agreed, and
  -- where it stood otherwise.
  pub conversation-switch_session :
      (target : String)
      → (switch_session server target (w, s)).1.conversation_id
        ≡ (if (server.switch target w).1 then s.conversation_id else target)
  unfolding switch_session load_messages
  conversation-switch_session target = ground (arith, eq_iff target s.conversation_id)

abbrev pub kept : ChatStore → String × List Message
kept s = (s.conversation_id, s.list)

auto_select_keeps :
    {W : Type 0} (server : Server W) (o : Option ConversationSession) (w : W) (s : ChatStore)
    → truthy s.conversation_id ≡ true
    → auto_select server o (w, s) ≡ (w, s)
unfolding auto_select
auto_select_keeps server none w s t = refl
auto_select_keeps server (some first) w s t = rw t refl

take_sessions_keeps :
    {W : Type 0} (server : Server W) (o : Option (List ConversationSession)) (w : W) (s : ChatStore)
    → truthy s.conversation_id ≡ true
    → kept (take_sessions server o (w, s)).1 ≡ kept s
unfolding take_sessions
take_sessions_keeps server none w s t = refl
take_sessions_keeps server (some data_) w s t =
    ap (λ x. kept x.1) (auto_select_keeps server (first_active data_) w (set_sessions data_ s) t)

-- Loading the conversations ends with the loading flag off and keeps the conversation that the store
-- stands at, with its messages.
pub load_sessions_keeps :
    {W : Type 0} (server : Server W) (w : W) (s : ChatStore)
    → truthy s.conversation_id ≡ true
    → ((load_sessions server (w, s)).1.sessions_loading ≡ false)
      × (kept (load_sessions server (w, s)).1 ≡ kept s)
unfolding load_sessions take_sessions auto_select
load_sessions_keeps server w s t = (
  refl,
  take_sessions_keeps server (data_of (server.conversations w).1) (server.conversations w).0
      (record s { sessions_loading = true }) t,
)

leave-apart :
    {W : Type 0} (server : Server W) (target : String) (w : W) (s : ChatStore)
    → truthy target ≡ true
    → ((leave server target (w, s)).1.conversation_id == target) ≡ false
leave-apart server target w s t = ground (
  arith,
  eq_iff target "",
  eq_iff target s.conversation_id,
  eq_iff "" target,
  eq_iff s.conversation_id target,
)

-- A conversation that the server has archived is not the one that the store stands at.
pub archive_session-leaves :
    {W : Type 0} (server : Server W) (w : W) (s : ChatStore) (target : String)
    → truthy target ≡ true
    → (server.archive target w).1 ≡ false
    → ((archive_session server target (w, s)).1.conversation_id == target) ≡ false
unfolding archive_session load_sessions
archive_session-leaves server w s target t h =
    rw h (leave-apart server target _ (load_sessions server ((server.archive target w).0, s)).1 t)
