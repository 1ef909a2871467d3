-- ===== src/Store/Invariant.antt =====
-- Every operation of internal/store/store.go keeps the tables of users, bots and conversations
-- consistent.
use nukara.Base.{
  String, ◌≡◌, refl, Option, none, some, List, [], arith, get, put, get_or, Option-cases, inl, inr,
  ℤ, pos, trim,
}
use nukara.Store.Types.{Time, Bot, Conversation, Message, PersonaPatchInput}
use nukara.Store.Index.{IsIndexed-insert, IsIndexed-update}
use nukara.Store.State.{Store}
use nukara.Store.Tables.{tables, AreConsistent, IsConsistent, IsUserTable-insert}
use nukara.Store.Persona.{sync_legacy_persona_fields}
use nukara.Store.Presence.{
  touch_ws_presence, is_user_ws_online, set_last_user_message_at, get_last_user_message_at,
}
use nukara.Store.Accounts.{create_user, new_user}
use nukara.Store.Bots.{
  Fresh, create_bot, new_bot, update_bot, append_bot_persona, apply_bot_persona_patch, owned_bot,
  change_bot, apply_patch, append_fields, apply_persona_input, new_conversation,
}
use nukara.Store.Chats.{
  ensure_conversation, first_by_bot, mark_conversation_read, save_message, owned_conversation,
  stamped, bumped,
}

pub create_user-IsConsistent :
    (s : Store) (now later : Time) (id email nickname : String)
    → get s.users_by_id id ≡ none
    → IsConsistent s
    → IsConsistent (create_user s now later id email nickname).0
unfolding create_user
create_user-IsConsistent s now later id email nickname fresh h =
    elim (Option-cases (get s.users_by_email (trim email))) [
      | inl free ↦
          rw (free, create_user)
            (record {
              users =
                  IsUserTable-insert s.users_by_email s.users_by_id (new_user now id email nickname)
                    free fresh h.users;
              bots = h.bots;
              conversations = h.conversations;
            })
      | inr (u, taken) ↦ rw (taken, create_user) h
    ]

pub create_bot-IsConsistent :
    (s : Store) (f : Fresh) (user_id : String) (bot : Bot)
    → get s.bots_by_id f.bot_id ≡ none
    → get s.conversations_by_id f.conv_id ≡ none
    → IsConsistent s
    → IsConsistent (create_bot s f user_id bot).0
unfolding create_bot new_bot
create_bot-IsConsistent s f user_id bot fresh_bot fresh_conv h = record {
  users = h.users;
  bots =
      IsIndexed-insert _ _ s.bots_by_id s.bots_by_user user_id f.bot_id (new_bot f user_id bot)
        fresh_bot refl refl h.bots;
  conversations =
      IsIndexed-insert _ _ s.conversations_by_id s.conversations_by_user user_id f.conv_id _
        fresh_conv refl refl h.conversations;
}

owned_bot-found :
    (user_id : String) (o : Option Bot) (bot : Bot) → owned_bot user_id o ≡ some bot → o ≡ some bot
owned_bot-found user_id none bot e = e
owned_bot-found user_id (some b) bot e = ground arith

-- A change that keeps the owner and the identifier of the bot.
change_bot-IsConsistent :
    (s : Store) (user_id bot_id : String) (change : Bot → Bot)
    → ((bot : Bot) → ((change bot).user_id ≡ bot.user_id) × ((change bot).id ≡ bot.id))
    → IsConsistent s
    → IsConsistent (change_bot s user_id bot_id change).0
change_bot-IsConsistent s user_id bot_id change same h =
    elim (Option-cases (owned_bot user_id (get s.bots_by_id bot_id))) [
      | inl e ↦ rw (e, change_bot) h
      | inr (bot, e) ↦
          rw (e, change_bot)
            (record {
              users = h.users;
              bots =
                  IsIndexed-update _ _ s.bots_by_id s.bots_by_user bot_id bot (change bot)
                    (owned_bot-found user_id (get s.bots_by_id bot_id) bot e) (same bot).0
                    (same bot).1 h.bots;
              conversations = h.conversations;
            })
    ]

pub update_bot-IsConsistent :
    (s : Store) (now : Time) (user_id bot_id : String) (patch : Bot)
    → IsConsistent s
    → IsConsistent (update_bot s now user_id bot_id patch).0
unfolding update_bot sync_legacy_persona_fields apply_patch
update_bot-IsConsistent s now user_id bot_id patch h =
    change_bot-IsConsistent s user_id bot_id _ (λ bot. (refl, refl)) h

pub append_bot_persona-IsConsistent :
    (s : Store) (now : Time) (user_id bot_id : String) (a b c : List String) (g : Option String)
    → IsConsistent s
    → IsConsistent (append_bot_persona s now user_id bot_id a b c g).0
unfolding append_bot_persona sync_legacy_persona_fields append_fields
append_bot_persona-IsConsistent s now user_id bot_id a b c g h =
    change_bot-IsConsistent s user_id bot_id _ (λ bot. (refl, refl)) h

pub apply_bot_persona_patch-IsConsistent :
    (s : Store) (now : Time) (user_id bot_id : String) (input : PersonaPatchInput)
    → IsConsistent s
    → IsConsistent (apply_bot_persona_patch s now user_id bot_id input).0
unfolding apply_bot_persona_patch sync_legacy_persona_fields apply_persona_input
apply_bot_persona_patch-IsConsistent s now user_id bot_id input h =
    change_bot-IsConsistent s user_id bot_id _ (λ bot. (refl, refl)) h

owned_conversation-found :
    (user_id : String) (o : Option Conversation) (conv : Conversation)
    → owned_conversation user_id o ≡ some conv
    → o ≡ some conv
owned_conversation-found user_id none conv e = e
owned_conversation-found user_id (some c) conv e = ground arith

-- A changed conversation that keeps its owner and its identifier.
change_conversation-IsConsistent :
    (s : Store) (user_id id : String) (conv conv' : Conversation)
    → owned_conversation user_id (get s.conversations_by_id id) ≡ some conv
    → conv'.user_id ≡ conv.user_id
    → conv'.id ≡ conv.id
    → IsConsistent s
    → AreConsistent (record (tables s) { conversations_by_id = put s.conversations_by_id id conv' })
change_conversation-IsConsistent s user_id id conv conv' found owner ident h = record {
  users = h.users;
  bots = h.bots;
  conversations =
      IsIndexed-update _ _ s.conversations_by_id s.conversations_by_user id conv conv'
        (owned_conversation-found user_id (get s.conversations_by_id id) conv found) owner ident
        h.conversations;
}

pub mark_conversation_read-IsConsistent :
    (s : Store) (user_id id : String)
    → IsConsistent s
    → IsConsistent (mark_conversation_read s user_id id).0
unfolding mark_conversation_read
mark_conversation_read-IsConsistent s user_id id h =
    elim (Option-cases (owned_conversation user_id (get s.conversations_by_id id))) [
      | inl e ↦ rw (e, mark_conversation_read) h
      | inr (conv, e) ↦
          rw (e, mark_conversation_read)
            (change_conversation-IsConsistent s user_id id conv
              (record conv { unread_count = pos 0 }) e refl refl h)
    ]

pub save_message-IsConsistent :
    (s : Store) (now : Time) (id user_id : String) (message : Message)
    → IsConsistent s
    → IsConsistent (save_message s now id user_id message).0
unfolding save_message
save_message-IsConsistent s now id user_id message h =
    elim (Option-cases
      (owned_conversation user_id (get s.conversations_by_id message.conversation_id))) [
        | inl e ↦ rw (e, save_message) h
        | inr (conv, e) ↦
            rw (e, save_message)
              (change_conversation-IsConsistent s user_id message.conversation_id conv
                (bumped (stamped now id message) conv) e refl refl h)
      ]

pub ensure_conversation-IsConsistent :
    (s : Store) (now : Time) (id user_id bot_id name avatar avatar64 : String)
    → get s.conversations_by_id id ≡ none
    → IsConsistent s
    → IsConsistent (ensure_conversation s now id user_id bot_id name avatar avatar64).0
unfolding ensure_conversation
ensure_conversation-IsConsistent s now id user_id bot_id name avatar avatar64 fresh h =
    elim (Option-cases (first_by_bot s bot_id (get_or s.conversations_by_user user_id []))) [
      | inr (conv, e) ↦ rw (e, ensure_conversation) h
      | inl e ↦
          rw (e, ensure_conversation)
            (record {
              users = h.users;
              bots = h.bots;
              conversations =
                  IsIndexed-insert _ _ s.conversations_by_id s.conversations_by_user user_id id
                    (new_conversation now id user_id bot_id name avatar avatar64) fresh refl refl
                    h.conversations;
            })
    ]

pub touch_ws_presence-tables :
    (s : Store) (now : Time) (u : String) (ttl : ℤ)
    → tables (touch_ws_presence s now u ttl) ≡ tables s
unfolding touch_ws_presence
touch_ws_presence-tables s now u ttl = ground arith

pub set_last_user_message_at-tables :
    (s : Store) (u : String) (at : Time) → tables (set_last_user_message_at s u at) ≡ tables s
unfolding set_last_user_message_at
set_last_user_message_at-tables s u at = ground arith

pub is_user_ws_online-tables :
    (s : Store) (now : Time) (u : String) → tables (is_user_ws_online s now u).0 ≡ tables s
unfolding is_user_ws_online
is_user_ws_online-tables s now u = ground arith

pub get_last_user_message_at-tables :
    (s : Store) (now : Time) (u : String) → tables (get_last_user_message_at s now u).0 ≡ tables s
unfolding get_last_user_message_at
get_last_user_message_at-tables s now u = ground arith
