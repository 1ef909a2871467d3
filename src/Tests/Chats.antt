-- ===== src/Tests/Chats.antt =====
-- The theorems on conversations and presence at concrete inputs.
use nukara.Base.{◌≡◌, refl, none, some, List, [], ◌∷◌, ◌++◌, arith, get_or, delete, pos}
use nukara.Store.Types.{Message, Conversation}
use nukara.Store.State.{Store}
use nukara.Store.Chats.{
  save_message, list_messages, get_conversation, mark_conversation_read, ensure_conversation,
  find_conversation_by_bot,
}
use nukara.Store.Chats.Messages.{save_then_list, IsStamped, IsShown}
use nukara.Store.Chats.Others.{IsKept, conversations_of_others}
use nukara.Store.Chats.Unread.{Save, save_all, HasUnread, unread_lem}
use nukara.Store.Chats.Ensure.{ensure_twice}
use nukara.Store.Reachable.{here, reachable-IsConsistent}
use nukara.Store.Presence.{touch_ws_presence, is_user_ws_online, get_last_user_message_at}
use nukara.Store.Presence.Laws.{online_at, last_message_at, queries_unobservable}
use nukara.Tests.Samples.{base, chats, chats_found, conv, hello, no_conversations}

save_then_list_example :
    let (t, result) = save_message chats 9 "m1" "u" hello in
    (saved : Message) × (shown : Conversation) × (result ≡ some saved)
    × IsStamped 9 "m1" hello saved
    × (list_messages t "u" "c1" (pos 0)
        ≡ some (get_or chats.messages_by_conv "c1" [] ++ saved ∷ []))
    × (get_conversation t "u" "c1" ≡ some shown)
    × IsShown 9 hello conv shown
    × (delete t.messages_by_conv "c1" ≡ delete chats.messages_by_conv "c1")
save_then_list_example = save_then_list chats 9 "m1" "u" hello conv chats_found refl

conversations_of_others_example :
    (get_conversation chats "v" "c1" ≡ none)
    × (list_messages chats "v" "c1" (pos 5) ≡ none)
    × IsKept chats "c1" (save_message chats 9 "m1" "v" hello).0
    × IsKept chats "c1" (mark_conversation_read chats "v" "c1").0
conversations_of_others_example =
    conversations_of_others chats 9 "m1" "v" "c1" "c1" hello conv (pos 5) chats_found refl

abbrev saves : List Save
saves =
    record { now = 9; id = "m1"; user = "u"; message = hello }
    ∷ record { now = 10; id = "m2"; user = "v"; message = hello }
    ∷ record { now = 11; id = "m3"; user = "u"; message = record hello { sender_type = "user" } }
    ∷ []

unread_lem_example : HasUnread (save_all (mark_conversation_read chats "u" "c1").0 saves) "u" "c1" 1
unread_lem_example = unread_lem chats "u" "c1" conv saves chats_found refl (omega arith)

ensure_twice_example :
    let (t, made) = ensure_conversation base 4 "c1" "u" "b1" "Mia" "" "" in
    (find_conversation_by_bot t "u" "b1" ≡ some made)
    × (ensure_conversation t 8 "c2" "u" "b1" "Other" "x" "y" ≡ (t, made))
ensure_twice_example =
    ensure_twice base 4 8 "c1" "c2" "u" "b1" "Mia" "" "" "Other" "x" "y"
      (reachable-IsConsistent 1 2 base here) no_conversations

abbrev visited : Store
visited = touch_ws_presence base 5 "u" (pos 10)

queries_unobservable_example :
    (online_at (is_user_ws_online visited 20 "u").0 30 "u" ≡ online_at visited 30 "u")
    × (last_message_at (is_user_ws_online visited 20 "u").0 30 "u" ≡ last_message_at visited 30 "u")
    × (online_at (get_last_user_message_at visited 20 "u").0 30 "u" ≡ online_at visited 30 "u")
    × (last_message_at (get_last_user_message_at visited 20 "u").0 30 "u"
        ≡ last_message_at visited 30 "u")
queries_unobservable_example = queries_unobservable visited 20 30 "u" "u" (omega arith)
