-- ===== src/Store/Chats/Others.antt =====
-- Users are kept apart: what GetConversation, ListMessages, MarkConversationRead and SaveMessage of
-- internal/store/store.go do to the conversations of other users.
use nukara.Base.{
  String, false, ◌==◌, eq_iff, ◌≡◌, refl, ap, ◌∙◌, none, some, [], ◌∷◌, ◌++◌, get, get_or,
  get_or-put, get-put_other, Bool-cases, Option-cases, inl, inr, ℤ, pos,
}
use nukara.Store.Types.{Time, Conversation, Message}
use nukara.Store.State.{Store}
use nukara.Store.Chats.{
  get_conversation, list_messages, mark_conversation_read, save_message, owned_conversation,
  stamped, bumped,
}
use nukara.Store.Chats.Messages.{foreign}

-- The conversation under `c` and its messages are in `t` as they are in `s`.
abbrev pub IsKept : Store → String → Store → Type 0
IsKept s c t =
    (get t.conversations_by_id c ≡ get s.conversations_by_id c)
    × (get_or t.messages_by_conv c [] ≡ get_or s.messages_by_conv c [])

save_message-refused :
    (s : Store) (now : Time) (id u : String) (m : Message)
    → owned_conversation u (get s.conversations_by_id m.conversation_id) ≡ none
    → save_message s now id u m ≡ (s, none)
unfolding save_message
save_message-refused s now id u m e = rw (e, save_message) refl

save_message-IsKept :
    (s : Store) (now : Time) (id u other : String) (m : Message) (conv : Conversation)
    → get s.conversations_by_id other ≡ some conv
    → (conv.user_id == u) ≡ false
    → IsKept s other (save_message s now id u m).0
unfolding save_message
save_message-IsKept s now id u other m conv found apart =
    let c = m.conversation_id in
    elim (Bool-cases (c == other)) [
      | inl e ↦
          let there = ap (get s.conversations_by_id) ((eq_iff c other).0 e) ∙ found in
          rw (save_message-refused s now id u m (foreign s u c conv there apart)) (refl, refl)
      | inr e ↦ elim (Option-cases (owned_conversation u (get s.conversations_by_id c))) [
        | inl f ↦ rw (save_message-refused s now id u m f) (refl, refl)
        | inr (own, f) ↦
            let saved = stamped now id m in
            let messages = get_or s.messages_by_conv c [] ++ saved ∷ [] in
            rw (f, save_message)
              (
                get-put_other s.conversations_by_id c other (bumped saved own) e,
                get_or-put s.messages_by_conv c other messages [] ∙ rw e refl,
              )
      ]
    ]

mark_read-IsKept :
    (s : Store) (u c other : String) (conv : Conversation)
    → get s.conversations_by_id other ≡ some conv
    → (conv.user_id == u) ≡ false
    → IsKept s other (mark_conversation_read s u c).0
unfolding mark_conversation_read
mark_read-IsKept s u c other conv found apart = elim (Bool-cases (c == other)) [
  | inl e ↦
      let there = ap (get s.conversations_by_id) ((eq_iff c other).0 e) ∙ found in
      rw (foreign s u c conv there apart, mark_conversation_read) (refl, refl)
  | inr e ↦ elim (Option-cases (owned_conversation u (get s.conversations_by_id c))) [
    | inl f ↦ rw (f, mark_conversation_read) (refl, refl)
    | inr (own, f) ↦
        rw (f, mark_conversation_read)
          (
            get-put_other s.conversations_by_id c other (record own { unread_count = pos 0 }) e,
            refl,
          )
  ]
]

-- Whatever message a user saves and whatever conversation the user marks as read, every conversation
-- of another user and its messages are as they were; and GetConversation and ListMessages do not
-- return them to the user.
pub conversations_of_others :
    (s : Store) (now : Time) (id u c other : String) (m : Message) (conv : Conversation) (limit : ℤ)
    → get s.conversations_by_id other ≡ some conv
    → (conv.user_id == u) ≡ false
    → (get_conversation s u other ≡ none)
      × (list_messages s u other limit ≡ none)
      × IsKept s other (save_message s now id u m).0
      × IsKept s other (mark_conversation_read s u c).0
unfolding get_conversation list_messages
conversations_of_others s now id u c other m conv limit found apart =
    let hidden = foreign s u other conv found apart in
    (
      hidden,
      rw (hidden, list_messages) refl,
      save_message-IsKept s now id u other m conv found apart,
      mark_read-IsKept s u c other conv found apart,
    )
