-- ===== src/Store/Chats/Ensure.antt =====
-- EnsureConversation of internal/store/store.go creates a conversation at most once.
use nukara.Base.{
  String, false, ◌==◌, eq_iff, eq_refl, ◌≡◌, refl, ◌∙◌, ap, none, some, List, [], ◌∷◌, ◌++◌, arith,
  get, put, get_or, get-put, get-put_self, get_or-found, member, if◌then◌else◌, Bool-cases,
  Option-cases, inl, inr,
}
use nukara.Store.Types.{Time, Conversation}
use nukara.Store.State.{Store}
use nukara.Store.Tables.{IsConsistent}
use nukara.Store.Bots.{new_conversation}
use nukara.Store.Chats.{
  ensure_conversation, find_conversation_by_bot, first_by_bot, add_conversation, conversation_at,
  zero_conversation,
}

-- The scan goes on past identifiers whose conversations are for other bots.
first_by_bot-append :
    (s : Store) (bot_id : String) (ids rest : List String)
    → first_by_bot s bot_id ids ≡ none
    → first_by_bot s bot_id (ids ++ rest) ≡ first_by_bot s bot_id rest
unfolding first_by_bot
first_by_bot-append s bot_id [] rest h = refl
first_by_bot-append s bot_id (id ∷ ids) rest h =
    ground (arith, first_by_bot-append s bot_id ids rest)

-- The scan does not see a conversation whose identifier is not in the list.
first_by_bot-other :
    (s : Store) (u bot_id : String) (conv : Conversation) (ids : List String)
    → member conv.id ids ≡ false
    → first_by_bot (add_conversation s u conv) bot_id ids ≡ first_by_bot s bot_id ids
unfolding first_by_bot member add_conversation
first_by_bot-other s u bot_id conv [] h = refl
first_by_bot-other s u bot_id conv (id ∷ ids) h = ground (
  arith,
  get-put s.conversations_by_id conv.id id conv,
  eq_iff conv.id id,
  eq_iff id conv.id,
  first_by_bot-other s u bot_id conv ids,
)

fresh-not_listed :
    (s : Store) (u id : String)
    → IsConsistent s
    → get s.conversations_by_id id ≡ none
    → member id (get_or s.conversations_by_user u []) ≡ false
fresh-not_listed s u id ok fresh =
    elim (Bool-cases (member id (get_or s.conversations_by_user u []))) [
      | inl e ↦ let (c, g, o) = ok.conversations.listed u id e in cc
      | inr e ↦ e
    ]

first_by_bot-single :
    (s : Store) (id : String) (conv : Conversation)
    → conversation_at s id ≡ conv
    → first_by_bot s conv.bot_id (id ∷ []) ≡ some conv
unfolding first_by_bot
first_by_bot-single s id conv e =
    ap (λ (x : Conversation). if x.bot_id == conv.bot_id then some x else none) e
    ∙ rw (eq_refl conv.bot_id)

add_conversation-found :
    (s : Store) (u : String) (conv : Conversation)
    → IsConsistent s
    → get s.conversations_by_id conv.id ≡ none
    → first_by_bot s conv.bot_id (get_or s.conversations_by_user u []) ≡ none
    → let t = add_conversation s u conv in
      first_by_bot t conv.bot_id (get_or t.conversations_by_user u []) ≡ some conv
add_conversation-found s u conv ok fresh absent =
    let ids = get_or s.conversations_by_user u [] in
    let t = add_conversation s u conv in
    let old : first_by_bot t conv.bot_id ids ≡ none =
      first_by_bot-other s u conv.bot_id conv ids (fresh-not_listed s u conv.id ok fresh)
      ∙ absent in
    let lists : get_or t.conversations_by_user u [] ≡ ids ++ conv.id ∷ [] =
      unfold add_conversation in
      get_or-found (put s.conversations_by_user u (ids ++ conv.id ∷ [])) u [] (ids ++ conv.id ∷ [])
        (get-put_self s.conversations_by_user u (ids ++ conv.id ∷ [])) in
    let here : conversation_at t conv.id ≡ conv =
      unfold add_conversation in
      get_or-found (put s.conversations_by_id conv.id conv) conv.id zero_conversation conv
        (get-put_self s.conversations_by_id conv.id conv) in
    ap (first_by_bot t conv.bot_id) lists
    ∙ first_by_bot-append t conv.bot_id ids (conv.id ∷ []) old
    ∙ first_by_bot-single t conv.id conv here

module _ (s : Store) (now : Time) (id u b name avatar avatar64 : String) where
  ensure-found :
      (c : Conversation)
      → first_by_bot s b (get_or s.conversations_by_user u []) ≡ some c
      → ensure_conversation s now id u b name avatar avatar64 ≡ (s, c)
  unfolding ensure_conversation
  ensure-found c e = rw (e, ensure_conversation)

  ensure-absent :
      first_by_bot s b (get_or s.conversations_by_user u []) ≡ none
      → let conv = new_conversation now id u b name avatar avatar64 in
        ensure_conversation s now id u b name avatar avatar64 ≡ (add_conversation s u conv, conv)
  unfolding ensure_conversation
  ensure-absent e = rw (e, ensure_conversation)

-- In a consistent store, with a fresh identifier: what EnsureConversation returns is what
-- FindConversationByBot finds from then on, and a second EnsureConversation for that user and bot,
-- whatever its other arguments, returns the same conversation and leaves the store as it is.
pub ensure_twice :
    (s : Store) (now later : Time)
    (id id' u b name avatar avatar64 name' avatar' avatar64' : String)
    → IsConsistent s
    → get s.conversations_by_id id ≡ none
    → let (t, conv) = ensure_conversation s now id u b name avatar avatar64 in
      (find_conversation_by_bot t u b ≡ some conv)
      × (ensure_conversation t later id' u b name' avatar' avatar64' ≡ (t, conv))
unfolding find_conversation_by_bot
ensure_twice s now later id id' u b name avatar avatar64 name' avatar' avatar64' ok fresh =
    let conv = new_conversation now id u b name avatar avatar64 in
    elim (Option-cases (first_by_bot s b (get_or s.conversations_by_user u []))) [
      | inr (c, e) ↦
          rw (ensure-found s now id u b name avatar avatar64 c e)
            (e, ensure-found s later id' u b name' avatar' avatar64' c e)
      | inl e ↦
          let found = add_conversation-found s u conv ok fresh e in
          rw (ensure-absent s now id u b name avatar avatar64 e) (
            found,
            ensure-found (add_conversation s u conv) later id' u b name' avatar' avatar64' conv
                found,
          )
    ]
