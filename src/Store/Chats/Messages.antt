-- ===== src/Store/Chats/Messages.antt =====
-- What SaveMessage, ListMessages, MarkConversationRead and GetConversation of
-- internal/store/store.go do to one conversation, and whom they refuse.
use nukara.Base.{
  zero, suc, ◌-◌, String, false, ◌==◌, eq_iff, ◌≡◌, refl, ◌∙◌, ap, none, some, List, [], ◌∷◌, ◌++◌,
  arith, get, put, get_or, get-put_self, delete, delete-put, leb, if◌then◌else◌, ℤ, pos, negsuc,
  true, is_blank, ◌<>◌, ◌⊎◌, length, take, length-drop, take-append-drop, Bool-cases, inl, inr,
  get_or-found, min, is_nonpos, pos_part,
}
use nukara.Store.Types.{Time, Conversation, Message}
use nukara.Store.State.{Store}
use nukara.Store.Chats.{
  get_conversation, list_messages, last_messages, save_message, owned_conversation, stamped, bumped,
  preview_text,
}

module _ (s : Store) (u c : String) (conv : Conversation)
    (found : get s.conversations_by_id c ≡ some conv) where
  pub owned : conv.user_id ≡ u → owned_conversation u (get s.conversations_by_id c) ≡ some conv
  owned same = rw found (rw ((eq_iff conv.user_id u).1 same))

  pub foreign :
      (conv.user_id == u) ≡ false → owned_conversation u (get s.conversations_by_id c) ≡ none
  foreign other = rw found (rw other)

-- The store with one more stored message of a conversation.
abbrev pub with_message : Store → String → Message → Conversation → Store
with_message s c saved conv = record s {
  messages_by_conv = put s.messages_by_conv c (get_or s.messages_by_conv c [] ++ saved ∷ []);
  conversations_by_id = put s.conversations_by_id c (bumped saved conv);
}

pub save-stores :
    (s : Store) (now : Time) (id u : String) (m : Message) (conv : Conversation)
    → get s.conversations_by_id m.conversation_id ≡ some conv
    → conv.user_id ≡ u
    → let saved = stamped now id m in
      save_message s now id u m ≡ (with_message s m.conversation_id saved conv, some saved)
unfolding save_message
save-stores s now id u m conv found same =
    rw (owned s u m.conversation_id conv found same, save_message)

pub list_owned :
    (t : Store) (u c : String) (conv : Conversation) (limit : ℤ)
    → get t.conversations_by_id c ≡ some conv
    → conv.user_id ≡ u
    → list_messages t u c limit ≡ some (last_messages limit (get_or t.messages_by_conv c []))
unfolding list_messages
list_owned t u c conv limit found same = rw (owned t u c conv found same, list_messages)

-- The preview of a message: a fixed text for an image, the name for a location that has one, else the
-- text.
abbrev pub IsPreview : Message → String → Type 0
IsPreview m text =
    (((m.content.content_type == "image") ≡ true) × (text ≡ "[图片]"))
    ⊎ ((((m.content.content_type == "location") ≡ true)
          × (text ≡ (if m.content.name == "" then "📍位置" else "📍" <> m.content.name)))
        ⊎ (((m.content.content_type == "image") ≡ false)
            × ((m.content.content_type == "location") ≡ false)
            × (text ≡ m.content.text)))

-- A message `saved` that is `m`, with the time, an identifier and a type of content.
abbrev pub IsStamped : Time → String → Message → Message → Type 0
IsStamped now id m saved =
    (saved.created_at ≡ now)
    × (saved.id ≡ (if is_blank m.id then id else m.id))
    × (saved.content_type
        ≡ (if m.content_type == "" then m.content.content_type else m.content_type))
    × (saved.content ≡ m.content)
    × (saved.conversation_id ≡ m.conversation_id)
    × (saved.sender_type ≡ m.sender_type)
    × (saved.is_proactive ≡ m.is_proactive)
    × (saved.emotion_tag ≡ m.emotion_tag)
    × (saved.reply_group_id ≡ m.reply_group_id)
    × (saved.sequence ≡ m.sequence)

-- The conversation `shown` is `conv` with `m` as its last message.
abbrev pub IsShown : Time → Message → Conversation → Conversation → Type 0
IsShown now m conv shown =
    (shown.last_message_at ≡ now)
    × IsPreview m shown.last_message
    × (shown.is_proactive_message ≡ m.is_proactive)
    × (shown.id ≡ conv.id)
    × (shown.user_id ≡ conv.user_id)
    × (shown.bot_id ≡ conv.bot_id)

preview_text-IsPreview : (m : Message) → IsPreview m (preview_text m)
unfolding preview_text
preview_text-IsPreview m = elim (Bool-cases (m.content.content_type == "image")) [
  | inl e ↦ inl (e, rw e refl)
  | inr e ↦ elim (Bool-cases (m.content.content_type == "location")) [
    | inl f ↦ inr (inl (f, rw (e, f) refl))
    | inr f ↦ inr (inr (e, f, rw (e, f) refl))
  ]
]

pub stamped-IsStamped :
    (now : Time) (id : String) (m : Message) → IsStamped now id m (stamped now id m)
unfolding stamped
stamped-IsStamped now id m = (refl, refl, refl, refl, refl, refl, refl, refl, refl, refl)

bumped-IsShown :
    (now : Time) (id : String) (m : Message) (conv : Conversation)
    → IsShown now m conv (bumped (stamped now id m) conv)
unfolding bumped stamped
bumped-IsShown now id m conv =
    (refl, preview_text-IsPreview (stamped now id m), refl, refl, refl, refl)

-- A message that the owner of a conversation saves comes back as it was, with the time, with a new
-- identifier where it has none, and with a type of content; ListMessages then returns the messages
-- from before and this one behind them; GetConversation returns the conversation with the preview of
-- the message, its time and its mark as proactive, of the same user and bot; and the messages of
-- every other conversation are as before.
pub save_then_list :
    (s : Store) (now : Time) (id u : String) (m : Message) (conv : Conversation)
    → get s.conversations_by_id m.conversation_id ≡ some conv
    → conv.user_id ≡ u
    → let (t, result) = save_message s now id u m in
      (saved : Message) × (shown : Conversation) × (result ≡ some saved)
      × IsStamped now id m saved
      × (list_messages t u m.conversation_id (pos 0)
          ≡ some (get_or s.messages_by_conv m.conversation_id [] ++ saved ∷ []))
      × (get_conversation t u m.conversation_id ≡ some shown)
      × IsShown now m conv shown
      × (delete t.messages_by_conv m.conversation_id ≡ delete s.messages_by_conv m.conversation_id)
unfolding get_conversation last_messages
save_then_list s now id u m conv found same =
    let c = m.conversation_id in
    let saved = stamped now id m in
    let shown = bumped saved conv in
    let messages = get_or s.messages_by_conv c [] ++ saved ∷ [] in
    let here = get-put_self s.conversations_by_id c shown in
    let own : shown.user_id ≡ u = (bumped-IsShown now id m conv).4 ∙ same in
    rw (save-stores s now id u m conv found same) (
      saved,
      shown,
      refl,
      stamped-IsStamped now id m,
      list_owned (with_message s c saved conv) u c shown (pos 0) here own
          ∙ ap some (
              get_or-found (put s.messages_by_conv c messages) c [] messages
                (get-put_self s.messages_by_conv c messages)),
      owned (with_message s c saved conv) u c shown here own,
      bumped-IsShown now id m conv,
      delete-put s.messages_by_conv c messages,
    )

-- With a positive limit ListMessages returns the newest messages, as many as the limit allows, in
-- their order; with any other limit it returns all of them.
pub list_messages-limit :
    (limit : ℤ) (all : List Message)
    → (older : List Message) × (older ++ last_messages limit all ≡ all)
      × (length (last_messages limit all)
          ≡ (if is_nonpos limit then length all else min (pos_part limit) (length all)))
unfolding last_messages
list_messages-limit (pos zero) all = ([], refl, refl)
list_messages-limit (negsuc n) all = ([], refl, refl)
list_messages-limit (pos (suc n)) all = elim (Bool-cases (leb (length all) (suc n))) [
  | inl e ↦ ([], rw e refl, rw e (ground arith))
  | inr e ↦ (
    take (length all - suc n) all,
    rw e (take-append-drop (length all - suc n) all),
    rw e (ground (arith, length-drop (length all - suc n) all)),
  )
]
