-- ===== src/Scheduler/Allowed.antt =====
-- When processUser of internal/api/scheduler.go lets a message through.
use nukara.Base.{
  String, Bool, true, false, not, ◌==◌, Option, none, some, ◌≡◌, refl, subst, arith, pos,
  if◌then◌else◌, ◌∙◌, ◌⊎◌, List, [], ◌∷◌, Bool-cases, Option-cases, inl, inr, ℤ,
}
use nukara.Store.Types.{Time, Bot, Conversation}
use nukara.Store.State.{Store}
use nukara.Store.Accounts.{get_notification_settings}
use nukara.Store.Bots.{get_bot}
use nukara.Store.Chats.{list_conversations}
use nukara.Store.Activity.{list_proactive_logs}
use nukara.Store.Presence.{
  is_user_ws_online, check_online, get_last_user_message_at, read_last_message,
}
use nukara.Scheduler.Clock.{is_dnd}
use nukara.Scheduler.Triggers.{
  get_proactive_cooldown, get_proactive_config, inactivity_threshold, detect_trigger,
  should_block_trigger_for_presence,
}
use nukara.Scheduler.Process.{
  Round, Due, due_with, moment_of, trend_of, time_or_zero, due, due_in, due_bot, due_now,
  choose_trigger, within, fired_recently, local_time,
}

pub proactive_logs-is_user_ws_online :
    (s : Store) (now : Time) (u : String)
    → ((is_user_ws_online s now u).0).proactive_logs ≡ s.proactive_logs
unfolding is_user_ws_online check_online
proactive_logs-is_user_ws_online s now u = ground arith

pub proactive_logs-get_last_user_message_at :
    (s : Store) (now : Time) (u : String)
    → ((get_last_user_message_at s now u).0).proactive_logs ≡ s.proactive_logs
unfolding get_last_user_message_at read_last_message
proactive_logs-get_last_user_message_at s now u = ground arith

-- The presence that processUser reads.
abbrev pub seen_online : Round → Store → String → Bool
seen_online r s u = (is_user_ws_online s r.online_at u).1

abbrev pub seen_last : Round → Store → String → Time
seen_last r s u =
    time_or_zero (get_last_user_message_at (is_user_ws_online s r.online_at u).0 r.seen_at u).1

-- What processUser made sure of, for a message that is due.
pub record IsAllowed (r : Round) (s : Store) (now : Time) (u : String) (d : Due) : Type 0 where
  pub enabled : (get_notification_settings s now u).proactive_enabled ≡ true
  pub owner : get_bot s u d.conversation.bot_id ≡ some d.bot
  pub awake :
      is_dnd
        (get_notification_settings s now u)
        (local_time r now d.bot).0
        (local_time r now d.bot).1
      ≡ false
  pub cool :
      within
        (get_proactive_cooldown r.cooldown_override (get_notification_settings s now u))
        now
        (list_proactive_logs s u (pos 1))
      ≡ false
  pub welcome :
      should_block_trigger_for_presence d.trigger (seen_online r s u) (seen_last r s u) now ≡ false
  pub rested : fired_recently d.trigger now (list_proactive_logs s u (pos 10)) ≡ false

abbrev Result : Round → Store → Time → String → Store × Option Due → Type 0
Result r s now u (t, none) = t.proactive_logs ≡ s.proactive_logs
Result r s now u (t, some d) = (t.proactive_logs ≡ s.proactive_logs) × IsAllowed r s now u d

-- The last two tests of processUser, on a trigger
chosen :
    (trigger : String) (blocked fired : String → Bool)
    → let o =
        if trigger == ""
        then none
        else if blocked trigger
        then none
        else if fired trigger
        then none
        else some trigger in
      (o ≡ none) ⊎ ((x : String) × (o ≡ some x) × (blocked x ≡ false) × (fired x ≡ false))
chosen trigger blocked fired = elim (Bool-cases (trigger == "")) [
  | inl a ↦ inl (rw a refl)
  | inr a ↦ elim (Bool-cases (blocked trigger)) [
    | inl b ↦ inl (rw (a, b) refl)
    | inr b ↦ elim (Bool-cases (fired trigger)) [
      | inl c ↦ inl (rw (a, b, c) refl)
      | inr c ↦ inr (trigger, rw (a, b, c) refl, b, c)
    ]
  ]
]

module _ (r : Round) (s : Store) (now : Time) (u : String) where
  choose_trigger-cases :
      (t : Store) (bot : Bot) (conv : Conversation) (convs : List Conversation) (online : Bool)
      (last : Time)
      → (choose_trigger r t now u bot conv convs online last ≡ none)
        ⊎ ((trigger : String) × (choose_trigger r t now u bot conv convs online last ≡ some trigger)
            × (should_block_trigger_for_presence trigger online last now ≡ false)
            × (fired_recently trigger now (list_proactive_logs t u (pos 10)) ≡ false))
  unfolding choose_trigger
  choose_trigger-cases t bot conv convs online last =
      chosen
        (detect_trigger (get_proactive_config r.config_row)
          (inactivity_threshold r.threshold_override) (moment_of r now (local_time r now bot))
          (conv ∷ convs) (trend_of t u conv.bot_id))
        (λ x. should_block_trigger_for_presence x online last now)
        (λ x. fired_recently x now (list_proactive_logs t u (pos 10)))

  due_now-Result :
      (cooldown : ℤ) (bot : Bot) (conv : Conversation) (convs : List Conversation)
      → (get_notification_settings s now u).proactive_enabled ≡ true
      → get_bot s u conv.bot_id ≡ some bot
      → is_dnd (get_notification_settings s now u) (local_time r now bot).0 (local_time r now bot).1
        ≡ false
      → within
          (get_proactive_cooldown r.cooldown_override (get_notification_settings s now u))
          now
          (list_proactive_logs s u (pos 1))
        ≡ false
      → Result r s now u (due_now r s now u cooldown bot conv convs)
  unfolding due_now list_proactive_logs
  due_now-Result cooldown bot conv convs on owned awake cool =
      let (s1, online) = is_user_ws_online s r.online_at u in
      let (s2, last) = get_last_user_message_at s1 r.seen_at u in
      let same =
        proactive_logs-get_last_user_message_at s1 r.seen_at u
        ∙ proactive_logs-is_user_ws_online s r.online_at u in
      finish s2 same _ _ (choose_trigger-cases s2 bot conv convs online (time_or_zero last))
    where
      finish :
          (t : Store)
          → t.proactive_logs ≡ s.proactive_logs
          → (back : Bool) (o : Option String)
          → (o ≡ none)
            ⊎ ((trigger : String) × (o ≡ some trigger)
                × (should_block_trigger_for_presence trigger
                      (seen_online r s u)
                      (seen_last r s u)
                      now
                    ≡ false)
                × (fired_recently trigger now (list_proactive_logs t u (pos 10)) ≡ false))
          → Result r s now u (if back then (t, none) else (t, due_with bot conv o))
      finish t same true o h = same
      finish t same false o (inl e) = rw e same
      finish t same false o (inr (trigger, e, f, g)) = rw e (
        same,
        record {
          enabled = on;
          owner = owned;
          awake = awake;
          cool = cool;
          welcome = f;
          rested = rw same at g;
        },
      )

  due_bot-Result :
      (bot : Bot) (conv : Conversation) (convs : List Conversation)
      → (get_notification_settings s now u).proactive_enabled ≡ true
      → get_bot s u conv.bot_id ≡ some bot
      → Result r s now u (due_bot r s now u (get_notification_settings s now u) bot conv convs)
  unfolding due_bot
  due_bot-Result bot conv convs on owned =
      let settings = get_notification_settings s now u in
      let cooldown = get_proactive_cooldown r.cooldown_override settings in
      let (hour, minute) = local_time r now bot in
      elim (Bool-cases (is_dnd settings hour minute)) [
        | inl e ↦ rw e refl
        | inr e ↦ elim (Bool-cases (within cooldown now (list_proactive_logs s u (pos 1)))) [
          | inl f ↦ rw (e, f) refl
          | inr f ↦ rw (e, f) (due_now-Result cooldown bot conv convs on owned e f)
        ]
      ]

  due_in-Result :
      (convs : List Conversation)
      → (get_notification_settings s now u).proactive_enabled ≡ true
      → Result r s now u (due_in r s now u (get_notification_settings s now u) convs)
  unfolding due_in
  due_in-Result [] on = refl
  due_in-Result (conv ∷ convs) on = elim (Option-cases (get_bot s u conv.bot_id)) [
    | inl e ↦ rw (e, due_in) refl
    | inr (bot, e) ↦ rw (e, due_in) (due_bot-Result bot conv convs on e)
  ]

  due-Result : Result r s now u (due r s now u)
  unfolding due
  due-Result = go (get_notification_settings s now u).proactive_enabled refl
    where
      go :
          (b : Bool)
          → (get_notification_settings s now u).proactive_enabled ≡ b
          → Result r s now u (
              if not b
              then (s, none)
              else due_in r s now u (get_notification_settings s now u) (list_conversations s u))
      go true e = due_in-Result (list_conversations s u) e
      go false e = refl

-- The scheduler sends a message only when the user has not switched proactive messages off, the bot
-- is the user's own, the local time is outside the do-not-disturb window, the newest proactive
-- message to the user is at least a cool-down old, the user's presence does not block the trigger,
-- and none of the ten newest proactive messages to the user has the same trigger and is younger
-- than the cool-down of this trigger.
pub due-IsAllowed :
    (r : Round) (s : Store) (now : Time) (u : String) (t : Store) (d : Due)
    → due r s now u ≡ (t, some d)
    → IsAllowed r s now u d
due-IsAllowed r s now u t d e = (subst (Result r s now u) e (due-Result r s now u)).1

pub proactive_logs-due :
    (r : Round) (s : Store) (now : Time) (u : String)
    → ((due r s now u).0).proactive_logs ≡ s.proactive_logs
proactive_logs-due r s now u = go (due r s now u) (due-Result r s now u)
  where
    go : (p : Store × Option Due) → Result r s now u p → (p.0).proactive_logs ≡ s.proactive_logs
    go (t, none) h = h
    go (t, some d) h = h.0
