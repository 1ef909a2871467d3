-- ===== src/Store/Chats/Unread.antt =====
-- The unread counter of a conversation (MarkConversationRead and SaveMessage of
-- internal/store/store.go) over any sequence of saved messages.
use nukara.Base.{
  ℕ, suc, ◌+◌, ◌≤◌, String, Bool, false, ◌==◌, ◌&&◌, eq_iff, ◌≡◌, refl, ◌∙◌, ap, Option, some, List,
  [], ◌∷◌, arith, get, put, get-put, get-put_self, if◌then◌else◌, pos, inc-pos, max_int, Bool-cases,
  Option-cases, inl, inr, subst, and_split,
}
use nukara.Store.Types.{Time, Conversation, Message}
use nukara.Store.State.{Store}
use nukara.Store.Chats.{mark_conversation_read, save_message, owned_conversation, stamped, bumped}
use nukara.Store.Chats.Messages.{owned, save-stores}

-- One call of SaveMessage by some user, with the clock reading and the fresh identifier.
pub record Save : Type 0 where
  pub now : Time
  pub id : String
  pub user : String
  pub message : Message

pub save_all : Store → List Save → Store
save_all s [] = s
save_all s (e ∷ es) = save_all (save_message s e.now e.id e.user e.message).0 es

-- The call stores a bot's message in the conversation.
abbrev pub counts : String → String → Save → Bool
counts u c e = (e.message.conversation_id == c) && (u == e.user) && (e.message.sender_type == "bot")

abbrev pub bot_messages : String → String → List Save → ℕ
bot_messages u c [] = 0
bot_messages u c (e ∷ es) =
    let rest = bot_messages u c es in if counts u c e then suc rest else rest

-- The conversation is there, is the user's, and has so many unread messages.
abbrev pub HasUnread : Store → String → String → ℕ → Type 0
HasUnread s u c n =
    (conv : Conversation) × (get s.conversations_by_id c ≡ some conv)
    × (conv.user_id ≡ u)
    × (conv.unread_count ≡ pos n)

bumped-unread :
    (saved : Message) (conv : Conversation) (n : ℕ)
    → conv.unread_count ≡ pos n
    → (if saved.sender_type == "bot" then suc n else n) ≤ max_int
    → (bumped saved conv).unread_count ≡ pos (if saved.sender_type == "bot" then suc n else n)
unfolding bumped
bumped-unread saved conv n h lt = elim (Bool-cases (saved.sender_type == "bot")) [
  | inl e ↦ rw e (rw h (inc-pos n (rw e at lt) ∙ ap pos (omega arith)))
  | inr e ↦ rw e h
]

-- A call that is about another conversation, or by another user, leaves the conversation alone.
save-other :
    (s : Store) (e : Save) (c : String) (conv : Conversation)
    → get s.conversations_by_id c ≡ some conv
    → ((e.message.conversation_id == c) && (conv.user_id == e.user)) ≡ false
    → get (save_message s e.now e.id e.user e.message).0.conversations_by_id c ≡ some conv
unfolding save_message
save-other s e c conv found other =
    let m = e.message in
    elim (Option-cases (owned_conversation e.user (get s.conversations_by_id m.conversation_id))) [
      | inl refused ↦ rw (refused, save_message) found
      | inr (x, mine) ↦
          rw (mine, save_message)
            (ground (
              arith,
              get-put s.conversations_by_id m.conversation_id c (bumped (stamped e.now e.id m) x),
              eq_iff m.conversation_id c,
              eq_iff conv.user_id e.user,
            ))
    ]

save-HasUnread :
    (s : Store) (u c : String) (n : ℕ) (e : Save)
    → HasUnread s u c n
    → (if counts u c e then suc n else n) ≤ max_int
    → HasUnread
        (save_message s e.now e.id e.user e.message).0
        u
        c
        (if counts u c e then suc n else n)
unfolding save_all bumped stamped
save-HasUnread s u c n e (conv, found, same, unread) lt =
    let m = e.message in
    elim (Bool-cases ((m.conversation_id == c) && (u == e.user))) [
      | inl both ↦
          let at = (eq_iff m.conversation_id c).0 (and_split _ _ both).0 in
          let by = same ∙ (eq_iff u e.user).0 (and_split _ _ both).1 in
          let saved = stamped e.now e.id m in
          let there : get s.conversations_by_id m.conversation_id ≡ some conv = rw at found in
          (
            bumped saved conv,
            ap (λ (r : Store × Option Message). get r.0.conversations_by_id c)
                  (save-stores s e.now e.id e.user m conv there by)
                ∙ ap (λ k. get (put s.conversations_by_id k (bumped saved conv)) c) at
                ∙ get-put_self s.conversations_by_id c (bumped saved conv),
            same,
            rw both (bumped-unread saved conv n unread (rw both at lt)),
          )
      | inr neither ↦ (conv, save-other s e c conv found (rw same neither), same, rw neither unread)
    ]

step_bounds :
    (b : Bool) (n k : ℕ)
    → n + (if b then suc k else k) ≤ max_int
    → ((if b then suc n else n) ≤ max_int) × ((if b then suc n else n) + k ≤ max_int)
step_bounds b n k h = ground arith

step_sum : (b : Bool) (n k : ℕ) → (if b then suc n else n) + k ≡ n + (if b then suc k else k)
step_sum b n k = ground arith

save_all-HasUnread :
    (s : Store) (u c : String) (n : ℕ) (es : List Save)
    → n + bot_messages u c es ≤ max_int
    → HasUnread s u c n
    → HasUnread (save_all s es) u c (n + bot_messages u c es)
unfolding save_all
save_all-HasUnread s u c n [] le h = subst (HasUnread s u c) (omega arith) h
save_all-HasUnread s u c n (e ∷ es) le h =
    let b = counts u c e in
    let k = bot_messages u c es in
    let t = (save_message s e.now e.id e.user e.message).0 in
    let bounds = step_bounds b n k le in
    subst (HasUnread (save_all t es) u c) (step_sum b n k) (
      save_all-HasUnread t u c (if b then suc n else n) es bounds.1
        (save-HasUnread s u c n e h bounds.0))

mark-HasUnread :
    (s : Store) (u c : String) (conv : Conversation)
    → get s.conversations_by_id c ≡ some conv
    → conv.user_id ≡ u
    → HasUnread (mark_conversation_read s u c).0 u c 0
unfolding mark_conversation_read
mark-HasUnread s u c conv found same =
    rw (owned s u c conv found same, mark_conversation_read)
      (
        record conv { unread_count = pos 0 },
        get-put_self s.conversations_by_id c (record conv { unread_count = pos 0 }),
        same,
        refl,
      )

-- After MarkConversationRead by the owner of a conversation, and any sequence of SaveMessage calls
-- by any users to any conversations, the unread counter is the number of the bot's messages that the
-- owner's calls stored in this conversation, if that is at most the largest `int`.
pub unread_lem :
    (s : Store) (u c : String) (conv : Conversation) (es : List Save)
    → get s.conversations_by_id c ≡ some conv
    → conv.user_id ≡ u
    → bot_messages u c es ≤ max_int
    → HasUnread (save_all (mark_conversation_read s u c).0 es) u c (bot_messages u c es)
unread_lem s u c conv es found same le =
    subst (HasUnread (save_all (mark_conversation_read s u c).0 es) u c) (omega arith) (
      save_all-HasUnread (mark_conversation_read s u c).0 u c 0 es (omega arith)
        (mark-HasUnread s u c conv found same))
