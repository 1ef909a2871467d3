-- ===== src/Subtasks/Runtime.antt =====
-- DeriveRuntimeState of internal/agentx/subtasks/runtime_state.go. The hour of a reading in its zone
-- is a parameter; `current` is what time.Now yields where the input has no reading.
use nukara.Base.{
  ℕ, ◌-◌, ◌*◌, String, Bool, true, false, not, ◌&&◌, ◌||◌, ◌==◌, if◌then◌else◌, leb, ltb, trim, ◌≡◌,
  refl, sym,
}
use nukara.Store.Types.{Time, is_zero}
use nukara.Store.AgentTypes.{BotRuntimeState}
use nukara.Persona.Risk.{contains}

pub record RuntimeStateInput : Type 0 where
  pub now : Time
  pub explicit_activity : String
  pub recent_event : String

unfoldable pub default_activity_by_hour : ℕ → String
default_activity_by_hour hour =
    if leb 22 hour || ltb hour 5
    then "准备收尾休息，慢慢回到自己的生活里"
    else if ltb hour 12
    then "刚醒没多久，还在慢慢进入状态"
    else if ltb hour 18
    then "白天正忙着手头的事"
    else "在处理傍晚的琐事，节奏慢下来了"

abbrev pub two_hours : ℕ
two_hours = 2 * 3600 * 1000000000

module _ (hour_of : Time → ℕ) where
  -- The activity that the cases choose. Subtraction stops at 0: an earlier reading is not after two
  -- hours either.
  unfoldable pub activity_at : Time → BotRuntimeState → RuntimeStateInput → String
  activity_at now previous input =
      if not (trim input.explicit_activity == "")
      then trim input.explicit_activity
      else if not (trim input.recent_event == "")
      then trim input.recent_event
      else if (not (previous.activity_text == "") && not (is_zero previous.updated_at))
          && leb (now - previous.updated_at) two_hours
      then previous.activity_text
      else if contains previous.activity_text "上班" && leb 22 (hour_of now)
      then "刚下晚班，在回去路上"
      else default_activity_by_hour (hour_of now)

  unfoldable pub derive_runtime_state : Time → BotRuntimeState → RuntimeStateInput → BotRuntimeState
  derive_runtime_state current previous input =
      let now = if is_zero input.now then current else input.now in
      record previous {
        user_id = trim previous.user_id;
        bot_id = trim previous.bot_id;
        activity_text = activity_at now previous input;
        updated_at = now;
      }

either-shown :
    (b : Bool) (x y : String)
    → (b ≡ true → (x == "") ≡ false)
    → (y == "") ≡ false
    → ((if b then x else y) == "") ≡ false
either-shown true x y h k = h refl
either-shown false x y h k = k

default-shown : (hour : ℕ) → (default_activity_by_hour hour == "") ≡ false
unfolding default_activity_by_hour
default-shown hour =
    let evening : String = "在处理傍晚的琐事，节奏慢下来了" in
    let day : String = if ltb hour 18 then "白天正忙着手头的事" else evening in
    let morning : String = if ltb hour 12 then "刚醒没多久，还在慢慢进入状态" else day in
    either-shown (leb 22 hour || ltb hour 5) "准备收尾休息，慢慢回到自己的生活里" morning (λ e. refl)
      (either-shown (ltb hour 12) "刚醒没多久，还在慢慢进入状态" day (λ e. refl)
        (either-shown (ltb hour 18) "白天正忙着手头的事" evening (λ e. refl) refl))

-- The state that DeriveRuntimeState returns always names an activity.
pub derive_runtime_state-shows :
    (hour_of : Time → ℕ) (current : Time) (previous : BotRuntimeState) (input : RuntimeStateInput)
    → ((derive_runtime_state hour_of current previous input).activity_text == "") ≡ false
unfolding derive_runtime_state activity_at
derive_runtime_state-shows hour_of current previous input =
    let now = if is_zero input.now then current else input.now in
    let explicit = trim input.explicit_activity in
    let event = trim input.recent_event in
    let old = previous.activity_text in
    let recent = leb (now - previous.updated_at) two_hours in
    let hour = hour_of now in
    let by_hour = default_activity_by_hour hour in
    let at_work = contains old "上班" && leb 22 hour in
    let later = if at_work then "刚下晚班，在回去路上" else by_hour in
    let same = (not (old == "") && not (is_zero previous.updated_at)) && recent in
    let next = if same then old else later in
    either-shown (not (explicit == "")) explicit (if not (event == "") then event else next)
      (not_true (explicit == ""))
      (either-shown (not (event == "")) event next (not_true (event == "")) (
        either-shown same old later
          (first_of (old == "") (not (is_zero previous.updated_at)) recent)
          (either-shown at_work "刚下晚班，在回去路上" by_hour (λ e. refl) (default-shown hour))))
  where
    not_true : (b : Bool) → not b ≡ true → b ≡ false
    not_true true e = sym e
    not_true false e = refl

    first_of : (b c d : Bool) → ((not b && c) && d) ≡ true → b ≡ false
    first_of true c d e = sym e
    first_of false c d e = refl
