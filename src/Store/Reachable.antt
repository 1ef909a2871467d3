-- ===== src/Store/Reachable.antt =====
-- Histories of the store of internal/store/store.go: one step for each method that writes.
use mathlib.Core.List.{map}
use nukara.Base.{
  String, true, ◌==◌, eq_refl, ◌≡◌, Option, none, List, [], ◌∷◌, arith, get, get_or, member, All,
  All-sort_by, ℤ, empty_map, get-empty, or_left, or_right, ap, ◌∙◌, get_or-found,
}
use nukara.Store.Types.{
  Time, Bot, Conversation, Message, NotificationSettings, PersonaPatchInput, ProactiveLog,
  Directive, EmotionContext,
}
use nukara.Store.Index.{IsIndexed-empty}
use nukara.Store.State.{Store, new_store}
use nukara.Store.Tables.{
  tables, IsConsistent, IsConsistent-frame, IsUserTable-insert, IsUserTable-empty,
}
use nukara.Store.Persona.{sync_legacy_persona_fields}
use nukara.Store.Presence.{
  touch_ws_presence, is_user_ws_online, set_last_user_message_at, get_last_user_message_at,
}
use nukara.Store.Accounts.{
  increment_requests, set_ws_connections, save_email_code, create_user, upsert_device_token,
  update_notification_settings,
}
use nukara.Store.Bots.{
  Fresh, create_bot, list_bots, update_bot, append_bot_persona, apply_bot_persona_patch, zero_bot,
}
use nukara.Store.Chats.{
  ensure_conversation, mark_conversation_read, save_message, list_conversations, conversation_at,
  zero_conversation,
}
use nukara.Store.Activity.{
  save_bot_status, increment_turn_count, save_user_status, add_proactive_log, save_directive,
  revoke_directive, append_emotion_buffer, clear_emotion_buffer, save_emotion_context,
}
use nukara.Store.AgentSteps.{AgentStep, AgentStep-tables}
use nukara.Store.Invariant.{
  create_user-IsConsistent, create_bot-IsConsistent, update_bot-IsConsistent,
  append_bot_persona-IsConsistent, apply_bot_persona_patch-IsConsistent,
  mark_conversation_read-IsConsistent, save_message-IsConsistent, ensure_conversation-IsConsistent,
  touch_ws_presence-tables, set_last_user_message_at-tables, is_user_ws_online-tables,
  get_last_user_message_at-tables,
}

-- NewID draws 128 random bits: an identifier that it returns is not in use in the table it is for.
pub data Step (s : Store) : Store → Type 0 where
  creates_user :
      (now later : Time) (id email nickname : String)
      → get s.users_by_id id ≡ none
      → Step s (create_user s now later id email nickname).0
  creates_bot :
      (f : Fresh) (user_id : String) (bot : Bot)
      → get s.bots_by_id f.bot_id ≡ none
      → get s.conversations_by_id f.conv_id ≡ none
      → Step s (create_bot s f user_id bot).0
  updates_bot :
      (now : Time) (user_id bot_id : String) (patch : Bot)
      → Step s (update_bot s now user_id bot_id patch).0
  appends_persona :
      (now : Time) (user_id bot_id : String) (a b c : List String) (g : Option String)
      → Step s (append_bot_persona s now user_id bot_id a b c g).0
  patches_persona :
      (now : Time) (user_id bot_id : String) (input : PersonaPatchInput)
      → Step s (apply_bot_persona_patch s now user_id bot_id input).0
  ensures_conversation :
      (now : Time) (id user_id bot_id name avatar avatar64 : String)
      → get s.conversations_by_id id ≡ none
      → Step s (ensure_conversation s now id user_id bot_id name avatar avatar64).0
  marks_read : (user_id id : String) → Step s (mark_conversation_read s user_id id).0
  saves_message :
      (now : Time) (id user_id : String) (m : Message) → Step s (save_message s now id user_id m).0
  touches : (now : Time) (u : String) (ttl : ℤ) → Step s (touch_ws_presence s now u ttl)
  asks_online : (now : Time) (u : String) → Step s (is_user_ws_online s now u).0
  sets_last : (u : String) (at : Time) → Step s (set_last_user_message_at s u at)
  asks_last : (now : Time) (u : String) → Step s (get_last_user_message_at s now u).0
  counts_request : Step s (increment_requests s)
  sets_connections : (n : ℤ) → Step s (set_ws_connections s n)
  saves_code :
      (now : Time) (email purpose code : String) (ttl : ℤ)
      → Step s (save_email_code s now email purpose code ttl)
  saves_token :
      (now : Time) (u token platform : String) → Step s (upsert_device_token s now u token platform)
  saves_settings :
      (now : Time) (u : String) (input : NotificationSettings)
      → Step s (update_notification_settings s now u input).0
  saves_bot_status :
      (now : Time) (u b emoji text : String) → Step s (save_bot_status s now u b emoji text)
  counts_turn : (now : Time) (u b : String) → Step s (increment_turn_count s now u b).0
  saves_user_status :
      (now : Time) (u emoji text : String) → Step s (save_user_status s now u emoji text)
  logs : (now : Time) (id : String) (log : ProactiveLog) → Step s (add_proactive_log s now id log).0
  saves_directive :
      (now : Time) (id : String) (d : Directive) → Step s (save_directive s now id d).0
  revokes : (now : Time) (u b id : String) → Step s (revoke_directive s now u b id).0
  buffers : (u b text : String) → Step s (append_emotion_buffer s u b text).0
  clears : (u b : String) → Step s (clear_emotion_buffer s u b)
  saves_emotion :
      (now : Time) (u b : String) (ctx : EmotionContext)
      → Step s (save_emotion_context s now u b ctx)
  agents : {t : Store} → AgentStep s t → Step s t

pub data Reach (s : Store) : Store → Type 0 where
  here : Reach s s
  next : {t u : Store} → Reach s t → Step t u → Reach s u

revoke_directive-tables :
    (s : Store) (now : Time) (u b id : String) → tables (revoke_directive s now u b id).0 ≡ tables s
unfolding revoke_directive
revoke_directive-tables s now u b id = ground arith

Step-IsConsistent : {s t : Store} → Step s t → IsConsistent s → IsConsistent t
unfolding increment_requests set_ws_connections save_email_code upsert_device_token
    update_notification_settings save_bot_status increment_turn_count save_user_status
    add_proactive_log save_directive append_emotion_buffer clear_emotion_buffer save_emotion_context
Step-IsConsistent {s} (creates_user now later id email nickname fresh) h =
    create_user-IsConsistent s now later id email nickname fresh h
Step-IsConsistent {s} (creates_bot f user_id bot fb fc) h =
    create_bot-IsConsistent s f user_id bot fb fc h
Step-IsConsistent {s} (updates_bot now u b patch) h = update_bot-IsConsistent s now u b patch h
Step-IsConsistent {s} (appends_persona now u b x y z g) h =
    append_bot_persona-IsConsistent s now u b x y z g h
Step-IsConsistent {s} (patches_persona now u b input) h =
    apply_bot_persona_patch-IsConsistent s now u b input h
Step-IsConsistent {s} (ensures_conversation now id u b n a a64 fresh) h =
    ensure_conversation-IsConsistent s now id u b n a a64 fresh h
Step-IsConsistent {s} (marks_read u id) h = mark_conversation_read-IsConsistent s u id h
Step-IsConsistent {s} (saves_message now id u m) h = save_message-IsConsistent s now id u m h
Step-IsConsistent {s} (touches now u ttl) h =
    IsConsistent-frame s (touch_ws_presence s now u ttl) (touch_ws_presence-tables s now u ttl) h
Step-IsConsistent {s} (asks_online now u) h =
    IsConsistent-frame s (is_user_ws_online s now u).0 (is_user_ws_online-tables s now u) h
Step-IsConsistent {s} (sets_last u at) h =
    IsConsistent-frame s (set_last_user_message_at s u at) (set_last_user_message_at-tables s u at)
      h
Step-IsConsistent {s} (asks_last now u) h =
    IsConsistent-frame s (get_last_user_message_at s now u).0
      (get_last_user_message_at-tables s now u) h
Step-IsConsistent {s} (revokes now u b id) h =
    IsConsistent-frame s (revoke_directive s now u b id).0 (revoke_directive-tables s now u b id) h
Step-IsConsistent {s} {t} (agents st) h = IsConsistent-frame s t (AgentStep-tables st) h
Step-IsConsistent counts_request h = h
Step-IsConsistent (sets_connections n) h = h
Step-IsConsistent (saves_code now email purpose code ttl) h = h
Step-IsConsistent (saves_token now u token platform) h = h
Step-IsConsistent (saves_settings now u input) h = h
Step-IsConsistent (saves_bot_status now u b emoji text) h = h
Step-IsConsistent (counts_turn now u b) h = h
Step-IsConsistent (saves_user_status now u emoji text) h = h
Step-IsConsistent (logs now id log) h = h
Step-IsConsistent (saves_directive now id d) h = h
Step-IsConsistent (buffers u b text) h = h
Step-IsConsistent (clears u b) h = h
Step-IsConsistent (saves_emotion now u b ctx) h = h

Reach-IsConsistent : {s t : Store} → IsConsistent s → Reach s t → IsConsistent t
Reach-IsConsistent h here = h
Reach-IsConsistent h (next r st) = Step-IsConsistent st (Reach-IsConsistent h r)

new_store-IsConsistent : (now later : Time) → IsConsistent (new_store now later)
unfolding new_store
new_store-IsConsistent now later = record {
  users = IsUserTable-insert empty_map empty_map _ (get-empty _) (get-empty _) IsUserTable-empty;
  bots = IsIndexed-empty _ _;
  conversations = IsIndexed-empty _ _;
}

-- In every store that the methods can make from a new one, users, bots and conversations are
-- consistent: each user is in both tables under the own e-mail address and identifier; each listed
-- bot and conversation exists and is its owner's; each bot and conversation is listed for its owner.
pub reachable-IsConsistent :
    (now later : Time) (t : Store) → Reach (new_store now later) t → IsConsistent t
reachable-IsConsistent now later t r = Reach-IsConsistent (new_store-IsConsistent now later) r

All-listed {κ} :
    {V : Type 0} (P : V → Type κ) (f : String → V) (ids : List String)
    → ((id : String) → member id ids ≡ true → P (f id))
    → All P (map f ids)
unfolding member
All-listed P f [] h = tt
All-listed P f (id ∷ ids) h = (
  h id (or_left (id == id) (member id ids) (eq_refl id)),
  All-listed P f ids (λ j e. h j (or_right (id == j) (member j ids) e)),
)

-- A conversation that ListConversations returns for a user is that user's, and a bot that ListBots
-- returns for a user is that user's, in every store that the methods can make from a new one.
pub listings_own :
    (now later : Time) (t : Store) (u : String)
    → Reach (new_store now later) t
    → All (λ (c : Conversation). c.user_id ≡ u) (list_conversations t u)
      × All (λ (b : Bot). b.user_id ≡ u) (list_bots t u)
unfolding list_conversations list_bots sync_legacy_persona_fields
listings_own now later t u r =
    let ok = reachable-IsConsistent now later t r in
    (
      All-sort_by _ _ _ (
          All-listed _ (conversation_at t) _ λ id e.
            let (c, g, o) = ok.conversations.listed u id e in
            ap (λ (x : Conversation). x.user_id)
              (get_or-found t.conversations_by_id id zero_conversation c g)
            ∙ o),
      All-sort_by _ _ _ (
          All-listed _ (λ id. sync_legacy_persona_fields (get_or t.bots_by_id id zero_bot)) _
            λ id e.
              let (b, g, o) = ok.bots.listed u id e in
              ap (λ (x : Bot). x.user_id) (get_or-found t.bots_by_id id zero_bot b g) ∙ o),
    )
