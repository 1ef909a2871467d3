-- ===== src/Store/Bots/Additions.antt =====
-- What ApplyBotPersonaPatch of internal/store/store.go adds to a bot.
use nukara.Base.{
  ℕ, ◌+◌, ◌<◌, String, false, not, ◌&&◌, ◌==◌, ◌≡◌, ◌⊎◌, inl, inr, refl, sym, ap, ◌∙◌, subst, arith,
  some, List, [], ◌∷◌, ◌++◌, if◌then◌else◌, is_empty, trim, is_blank, member, join, blank-append,
  ◌<>◌, get, delete, pos, max_int,
}
use nukara.Store.Types.{Time, Bot, PersonaPatchInput}
use nukara.Store.State.{Store}
use nukara.Store.Segments.{
  dedup, dedup_lem, IsClean, holds, split_text_segments, append_persona_text,
}
use nukara.Store.Persona.{sync_legacy_persona_fields, fill_first, fill_trimmed, fill_list}
use nukara.Store.Bots.{
  get_bot, change_bot, apply_bot_persona_patch, apply_persona_input, next_version,
}
use nukara.Store.Bots.Updates.{owned, next_version-suc, apply_bot_persona_patch-IsUpdated}

-- `segments` are the texts of `values`, trimmed, without empty ones and repetitions.
abbrev pub AreDistinct : List String → List String → Type 0
AreDistinct values segments =
    IsClean [] segments × ((x : String) → member x segments ≡ (holds x values && not (x == "")))

-- The text joins the segments of the old text and the additions, if there are any.
abbrev pub IsExtended : String → List String → String → Type 0
IsExtended old adds text =
    (segments : List String) × AreDistinct (split_text_segments old ++ adds) segments
    × ((segments ≡ []) ⊎ (text ≡ join "；" segments))

-- The list has the old values and the additions, if there are any.
abbrev pub IsExtendedList : List String → List String → List String → Type 0
IsExtendedList old adds out =
    (segments : List String) × AreDistinct (old ++ adds) segments
    × ((segments ≡ []) ⊎ (out ≡ segments))

abbrev pub IsGrown : Bot → PersonaPatchInput → Bot → Type 0
IsGrown bot input out =
    IsExtended bot.identity input.identity_adds out.identity
    × IsExtendedList bot.personality input.personality_adds out.personality
    × IsExtended bot.expression_style input.expression_style_adds out.expression_style
    × IsExtended bot.life_context input.life_context_adds out.life_context
    × IsExtended bot.taboos_and_preferences input.taboos_and_preferences_adds
        out.taboos_and_preferences
    × (out.persona_prompt
        ≡ (if is_blank input.persona_prompt then bot.persona_prompt else trim input.persona_prompt))

dedup-AreDistinct : (values : List String) → AreDistinct values (dedup values)
dedup-AreDistinct values = ((dedup_lem values).0, (dedup_lem values).1)

join-shown :
    (x : String) (xs : List String)
    → trim x ≡ x
    → (x == "") ≡ false
    → is_blank (join "；" (x ∷ xs)) ≡ false
unfolding join
join-shown x [] e h = ap (λ t. t == "") e ∙ h
join-shown x (y ∷ ys) e h = blank-append x ("；" <> join "；" (y ∷ ys)) (ap (λ t. t == "") e ∙ h)

-- A filler of a field that is not blank has no effect.
kept_text :
    (segments : List String) (filler : String)
    → IsClean [] segments
    → let text = join "；" segments in
      (segments ≡ []) ⊎ ((if is_blank text then filler else text) ≡ text)
kept_text [] filler clean = inl refl
kept_text (x ∷ xs) filler clean = inr (rw (join-shown x xs clean.0 clean.1) refl)

filled-IsExtended :
    (old : String) (adds : List String) (filler : String)
    → let text = append_persona_text old adds in
      IsExtended old adds (if is_blank text then filler else text)
unfolding append_persona_text
filled-IsExtended old adds filler =
    let values = split_text_segments old ++ adds in
    let distinct = dedup-AreDistinct values in
    (dedup values, distinct, kept_text (dedup values) filler distinct.0)

plain-IsExtended :
    (old : String) (adds : List String) → IsExtended old adds (append_persona_text old adds)
unfolding append_persona_text
plain-IsExtended old adds =
    let values = split_text_segments old ++ adds in
    (dedup values, dedup-AreDistinct values, inr refl)

filled-IsExtendedList :
    (old adds filler : List String)
    → IsExtendedList old adds (fill_list (dedup (old ++ adds)) filler)
unfolding fill_list
filled-IsExtendedList old adds filler =
    (dedup (old ++ adds), dedup-AreDistinct (old ++ adds), kept (dedup (old ++ adds)))
  where
    kept :
        (out : List String)
        → (out ≡ []) ⊎ ((if is_empty out && not (is_empty filler) then filler else out) ≡ out)
    kept [] = inl refl
    kept (x ∷ xs) = inr refl

synced-IsGrown :
    (bot : Bot) (input : PersonaPatchInput)
    → IsGrown bot input (sync_legacy_persona_fields (apply_persona_input input bot))
unfolding sync_legacy_persona_fields apply_persona_input fill_first fill_trimmed
synced-IsGrown bot input = (
  filled-IsExtended bot.identity input.identity_adds _,
  filled-IsExtendedList bot.personality input.personality_adds _,
  filled-IsExtended bot.expression_style input.expression_style_adds _,
  filled-IsExtended bot.life_context input.life_context_adds _,
  plain-IsExtended bot.taboos_and_preferences input.taboos_and_preferences_adds,
  refl,
)

-- The bot that ApplyBotPersonaPatch returns
grown :
    (s : Store) (now : Time) (u b : String) (bot : Bot) (input : PersonaPatchInput) (n : ℕ)
    → get s.bots_by_id b ≡ some bot
    → bot.user_id ≡ u
    → bot.persona_version ≡ pos n
    → n < max_int
    → (out : Bot) × ((apply_bot_persona_patch s now u b input).1 ≡ some out)
      × IsGrown bot input out
      × (out.persona_version ≡ pos (n + 1))
unfolding apply_bot_persona_patch
grown s now u b bot input n found same at small =
    let synced = sync_legacy_persona_fields (apply_persona_input input bot) in
    let version : synced.persona_version ≡ pos n =
      unfold sync_legacy_persona_fields in unfold apply_persona_input in at in
    rw (owned s u b bot found same, change_bot)
      (
        record synced { persona_version = next_version synced.persona_version; updated_at = now },
        refl,
        synced-IsGrown bot input,
        ap next_version version ∙ next_version-suc n small,
      )

same_bot : (a b : Bot) → some a ≡ some b → a ≡ b
same_bot a b e = ground arith

-- ApplyBotPersonaPatch on an own bot, with a version of at least 0 and below the largest `int`: the bot
-- that it returns is the one that GetBot returns from then on, still the owner's, with the time of
-- the change, and all other bots are as before. Its version is one more. Each of its five fields
-- has exactly the old texts and the additions, trimmed, without empty ones and repetitions, if there
-- are any; and its prompt is the one of the input, if that is not blank.
pub apply_bot_persona_patch-IsGrown :
    (s : Store) (now : Time) (u b : String) (bot : Bot) (input : PersonaPatchInput) (n : ℕ)
    → get s.bots_by_id b ≡ some bot
    → bot.user_id ≡ u
    → bot.persona_version ≡ pos n
    → n < max_int
    → let (t, result) = apply_bot_persona_patch s now u b input in
      (out : Bot) × (result ≡ some out)
      × (get_bot t u b ≡ some out)
      × (out.user_id ≡ u)
      × (out.updated_at ≡ now)
      × (delete t.bots_by_id b ≡ delete s.bots_by_id b)
      × IsGrown bot input out
      × (out.persona_version ≡ pos (n + 1))
apply_bot_persona_patch-IsGrown s now u b bot input n found same at small =
    let (out, result, stored, own, time, others) =
      apply_bot_persona_patch-IsUpdated s now u b bot input found same in
    let (out', result', more, version) = grown s now u b bot input n found same at small in
    let one = same_bot out' out (sym result' ∙ result) in
    (
      out,
      result,
      stored,
      own,
      time,
      others,
      subst (IsGrown bot input) one more,
      sym (ap (λ (o : Bot). o.persona_version) one) ∙ version,
    )
