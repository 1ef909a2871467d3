-- ===== src/Store/Bots/Updates.antt =====
-- What the methods that create and change bots (CreateBot, UpdateBot, AppendBotPersona and
-- ApplyBotPersonaPatch of internal/store/store.go) return, and what GetBot returns afterwards.
use nukara.Base.{
  ℕ, ◌+◌, ◌<◌, String, false, ◌==◌, eq_iff, ◌≡◌, refl, ◌∙◌, ap, Option, none, some, List, arith,
  get, put, get-put_self, delete, delete-put, ℤ, pos, inc-pos, max_int,
}
use nukara.Base.{true, [], ◌∷◌, trim, is_blank, trim_idem}
use nukara.Store.Persona.{fill_first, mirror}
use nukara.Store.Types.{Time, Bot, PersonaPatchInput}
use nukara.Store.Persona.{sync_legacy_persona_fields, sync_idem}
use nukara.Store.State.{Store}
use nukara.Store.Bots.{
  get_bot, owned_bot, change_bot, update_bot, apply_patch, append_bot_persona, append_fields,
  apply_bot_persona_patch, apply_persona_input, next_version,
}

module _ (s : Store) (u b : String) (bot : Bot) (found : get s.bots_by_id b ≡ some bot) where
  pub owned : bot.user_id ≡ u → owned_bot u (get s.bots_by_id b) ≡ some bot
  owned same = rw found (rw ((eq_iff bot.user_id u).1 same))

  pub foreign : (bot.user_id == u) ≡ false → owned_bot u (get s.bots_by_id b) ≡ none
  foreign other = rw found (rw other)

  get_bot-owned : bot.user_id ≡ u → get_bot s u b ≡ some (sync_legacy_persona_fields bot)
  unfolding get_bot
  get_bot-owned same = rw (owned same, get_bot)

-- What a successful change shows: the bot that it returns is the one that GetBot returns from then on
-- to its owner, it is still the owner's, it carries the time of the change, and all other bots are as
-- before.
abbrev pub IsUpdated : Store → Time → String → String → Store × Option Bot → Type 0
IsUpdated s now u b (t, r) =
    (out : Bot) × (r ≡ some out)
    × (get_bot t u b ≡ some out)
    × (out.user_id ≡ u)
    × (out.updated_at ≡ now)
    × (delete t.bots_by_id b ≡ delete s.bots_by_id b)

change-IsUpdated :
    (s : Store) (now : Time) (u b : String) (bot : Bot) (change : Bot → Bot)
    → get s.bots_by_id b ≡ some bot
    → bot.user_id ≡ u
    → (change bot).user_id ≡ bot.user_id
    → (change bot).updated_at ≡ now
    → sync_legacy_persona_fields (change bot) ≡ change bot
    → IsUpdated s now u b (change_bot s u b change)
change-IsUpdated s now u b bot change found same keeps dated synced =
    let t = record s { bots_by_id = put s.bots_by_id b (change bot) } in
    rw (owned s u b bot found same, change_bot)
      (
        change bot,
        refl,
        get_bot-owned t u b (change bot) (get-put_self s.bots_by_id b (change bot)) (keeps ∙ same)
            ∙ ap some synced,
        keeps ∙ same,
        dated,
        delete-put s.bots_by_id b (change bot),
      )

abbrev dated : Bot → ℤ → Time → Bot
dated bot version now = record bot { persona_version = version; updated_at = now }

sync-dated :
    (bot : Bot) (version : ℤ) (now : Time)
    → sync_legacy_persona_fields (dated bot version now)
      ≡ dated (sync_legacy_persona_fields bot) version now
unfolding sync_legacy_persona_fields
sync-dated bot version now = refl

synced_again :
    (bot : Bot) (version : ℤ) (now : Time)
    → let out = dated (sync_legacy_persona_fields bot) version now in
      sync_legacy_persona_fields out ≡ out
synced_again bot version now =
    sync-dated (sync_legacy_persona_fields bot) version now
    ∙ ap (λ x. dated x version now) (sync_idem bot)

-- UpdateBot on an own bot succeeds: the bot that it returns is the one that GetBot returns to the
-- owner from then on, it is still the owner's, it carries the time of the change, and all other bots
-- are as before.
pub update_bot-IsUpdated :
    (s : Store) (now : Time) (u b : String) (bot patch : Bot)
    → get s.bots_by_id b ≡ some bot
    → bot.user_id ≡ u
    → IsUpdated s now u b (update_bot s now u b patch)
unfolding update_bot apply_patch
update_bot-IsUpdated s now u b bot patch found same =
    let synced = sync_legacy_persona_fields (apply_patch patch bot) in
    change-IsUpdated s now u b bot _ found same (unfold sync_legacy_persona_fields in refl) refl
      (synced_again (apply_patch patch bot) synced.persona_version now)

-- AppendBotPersona on an own bot succeeds: the bot that it returns is the one that GetBot returns to
-- the owner from then on, it is still the owner's, it carries the time of the change, and all other
-- bots are as before.
pub append_bot_persona-IsUpdated :
    (s : Store) (now : Time) (u b : String) (bot : Bot) (x y z : List String) (g : Option String)
    → get s.bots_by_id b ≡ some bot
    → bot.user_id ≡ u
    → IsUpdated s now u b (append_bot_persona s now u b x y z g)
unfolding append_bot_persona append_fields
append_bot_persona-IsUpdated s now u b bot x y z g found same =
    let synced = sync_legacy_persona_fields (append_fields x y z g bot) in
    change-IsUpdated s now u b bot _ found same (unfold sync_legacy_persona_fields in refl) refl
      (synced_again (append_fields x y z g bot) synced.persona_version now)

pub next_version-suc : (n : ℕ) → n < max_int → next_version (pos n) ≡ pos (n + 1)
next_version-suc n h = rw (inc-pos n h) (ground arith)

-- ApplyBotPersonaPatch on an own bot succeeds: the bot that it returns is the one that GetBot
-- returns to the owner from then on, it is still the owner's, it carries the time of the change, and
-- all other bots are as before.
pub apply_bot_persona_patch-IsUpdated :
    (s : Store) (now : Time) (u b : String) (bot : Bot) (input : PersonaPatchInput)
    → get s.bots_by_id b ≡ some bot
    → bot.user_id ≡ u
    → IsUpdated s now u b (apply_bot_persona_patch s now u b input)
unfolding apply_bot_persona_patch apply_persona_input
apply_bot_persona_patch-IsUpdated s now u b bot input found same =
    let synced = sync_legacy_persona_fields (apply_persona_input input bot) in
    change-IsUpdated s now u b bot _ found same (unfold sync_legacy_persona_fields in refl) refl
      (synced_again (apply_persona_input input bot) (next_version synced.persona_version) now)

-- ApplyBotPersonaPatch on an own bot adds one to a persona version of at least 0 and below the largest
-- `int`.
pub persona_version_grows :
    (s : Store) (now : Time) (u b : String) (bot : Bot) (input : PersonaPatchInput) (n : ℕ)
    → get s.bots_by_id b ≡ some bot
    → bot.user_id ≡ u
    → bot.persona_version ≡ pos n
    → n < max_int
    → (out : Bot) × ((apply_bot_persona_patch s now u b input).1 ≡ some out)
      × (out.persona_version ≡ pos (n + 1))
unfolding apply_bot_persona_patch apply_persona_input sync_legacy_persona_fields
persona_version_grows s now u b bot input n found same at small =
    rw (owned s u b bot found same, change_bot) (_, refl, rw at (next_version-suc n small))

pub change-foreign :
    (s : Store) (u b : String) (change : Bot → Bot)
    → owned_bot u (get s.bots_by_id b) ≡ none
    → change_bot s u b change ≡ (s, none)
change-foreign s u b change e = rw (e, change_bot)

patched_identity :
    (bot patch : Bot)
    → is_blank patch.identity ≡ true
    → (patch.relationship == "") ≡ false
    → (apply_patch patch bot).identity ≡ trim patch.relationship
unfolding apply_patch
patched_identity bot patch no_identity given = rw (given, no_identity) refl

fill_first-full :
    (text : String) (values : List String)
    → is_blank text ≡ false
    → fill_first (trim text) values ≡ trim text
unfolding fill_first
fill_first-full text values full = rw (trim_idem text, full) refl

mirror-full : (text legacy : String) → is_blank text ≡ false → mirror (trim text) legacy ≡ trim text
unfolding mirror
mirror-full text legacy full = rw (trim_idem text, full) refl

synced_identity :
    (bot : Bot) (text : String)
    → bot.identity ≡ trim text
    → is_blank text ≡ false
    → ((sync_legacy_persona_fields bot).identity ≡ trim text)
      × ((sync_legacy_persona_fields bot).summary ≡ trim text)
unfolding sync_legacy_persona_fields
synced_identity bot text e full =
    let legacy = bot.summary ∷ bot.relationship ∷ [] in
    let f = ap (λ i. fill_first i legacy) e ∙ fill_first-full text legacy full in
    (f, ap (λ i. mirror i bot.summary) f ∙ mirror-full text bot.summary full)

-- UpdateBot on an own bot, with a relationship that is not blank and no identity, sets both identity
-- and summary to that relationship: a summary in the same patch is lost.
pub summary_from_relationship :
    (s : Store) (now : Time) (u b : String) (bot patch : Bot)
    → get s.bots_by_id b ≡ some bot
    → bot.user_id ≡ u
    → is_blank patch.identity ≡ true
    → (patch.relationship == "") ≡ false
    → is_blank patch.relationship ≡ false
    → (out : Bot) × ((update_bot s now u b patch).1 ≡ some out)
      × (out.identity ≡ trim patch.relationship)
      × (out.summary ≡ trim patch.relationship)
unfolding update_bot
summary_from_relationship s now u b bot patch found same no_identity given full =
    let (i, m) =
      synced_identity (apply_patch patch bot) patch.relationship
        (patched_identity bot patch no_identity given) full in
    rw (owned s u b bot found same, change_bot)
      (record (sync_legacy_persona_fields (apply_patch patch bot)) { updated_at = now }, refl, i, m)
