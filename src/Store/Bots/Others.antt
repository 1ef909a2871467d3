-- ===== src/Store/Bots/Others.antt =====
-- Users are kept apart: what GetBot, UpdateBot, AppendBotPersona and ApplyBotPersonaPatch of
-- internal/store/store.go do to the bots of other users.
use nukara.Base.{
  String, false, ◌==◌, eq_iff, ◌≡◌, refl, ap, ◌∙◌, Option, none, some, List, get, get-put_other,
  Bool-cases, Option-cases, inl, inr,
}
use nukara.Store.Types.{Time, Bot, PersonaPatchInput}
use nukara.Store.State.{Store}
use nukara.Store.Bots.{
  get_bot, owned_bot, change_bot, update_bot, append_bot_persona, apply_bot_persona_patch,
}
use nukara.Store.Bots.Updates.{foreign, change-foreign}

-- Whatever bot `b` a user changes, or fails to change
change-others :
    (s : Store) (u b other : String) (bot : Bot) (change : Bot → Bot)
    → get s.bots_by_id other ≡ some bot
    → (bot.user_id == u) ≡ false
    → get (change_bot s u b change).0.bots_by_id other ≡ some bot
change-others s u b other bot change found apart = elim (Bool-cases (b == other)) [
  | inl e ↦
      let there = ap (get s.bots_by_id) ((eq_iff b other).0 e) ∙ found in
      rw (change-foreign s u b change (foreign s u b bot there apart)) found
  | inr e ↦ elim (Option-cases (owned_bot u (get s.bots_by_id b))) [
    | inl f ↦ rw (change-foreign s u b change f) found
    | inr (own, f) ↦ rw (f, change_bot) (get-put_other s.bots_by_id b other (change own) e ∙ found)
  ]
]

-- Whatever identifier and input a user calls UpdateBot, AppendBotPersona or ApplyBotPersonaPatch with,
-- every bot of another user is stored as it was; and GetBot does not return it to the user.
pub bots_of_others :
    (s : Store) (now : Time) (u b other : String) (bot patch : Bot) (x y z : List String)
    (g : Option String) (input : PersonaPatchInput)
    → get s.bots_by_id other ≡ some bot
    → (bot.user_id == u) ≡ false
    → (get_bot s u other ≡ none)
      × (get (update_bot s now u b patch).0.bots_by_id other ≡ some bot)
      × (get (append_bot_persona s now u b x y z g).0.bots_by_id other ≡ some bot)
      × (get (apply_bot_persona_patch s now u b input).0.bots_by_id other ≡ some bot)
unfolding get_bot update_bot append_bot_persona apply_bot_persona_patch
bots_of_others s now u b other bot patch x y z g input found apart = (
  rw (foreign s u other bot found apart, get_bot) refl,
  change-others s u b other bot _ found apart,
  change-others s u b other bot _ found apart,
  change-others s u b other bot _ found apart,
)
