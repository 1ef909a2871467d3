-- ===== src/Chat/Status.antt =====
-- The status that a bot shows after a message: emotionStatusMap, botStatuses and selectBotStatus of
-- internal/api/chat_flow.go, and EmotionDefaultEmoji of internal/agent/emotion.go.
use nukara.Base.{ℕ, zero, suc, ◌%◌, String, ◌==◌, if◌then◌else◌, List, [], ◌∷◌, length, ◌<>◌}

pub record BotStatusValue : Type 0 where
  pub emoji : String
  pub text : String

abbrev status : String → String → BotStatusValue
status emoji text = record { emoji = emoji; text = text }

abbrev pub online_status : BotStatusValue
online_status = status "🙂" "在线"

abbrev pub bot_statuses : List BotStatusValue
bot_statuses =
    online_status
    ∷ status "💭" "在想你"
    ∷ status "☕\u{fe0f}" "慢慢聊"
    ∷ status "🎵" "听歌中"
    ∷ status "🌙" "夜聊"
    ∷ status "✨" "灵感中"
    ∷ status "📖" "读书"
    ∷ status "🎨" "创作中"
    ∷ []

-- `emotionStatusMap[emotion]`; empty for an emotion that is not listed.
unfoldable pub emotion_status_map : String → List BotStatusValue
emotion_status_map emotion =
    if emotion == "happy"
    then status "😊" "开心" ∷ status "🎵" "哼歌中" ∷ status "✨" "心情好" ∷ []
    else if emotion == "excited"
    then status "🤩" "超兴奋" ∷ status "✨" "灵感爆发" ∷ status "🎉" "好开心" ∷ []
    else if emotion == "love"
    then status "💕" "心动中" ∷ status "🥰" "甜蜜" ∷ status "💭" "在想你" ∷ []
    else if emotion == "sad"
    then status "🌧" "有点低落" ∷ status "💭" "在想事情" ∷ status "🤗" "想陪你" ∷ []
    else if emotion == "angry"
    then status "😤" "有点生气" ∷ status "💭" "冷静中" ∷ status "🍵" "喝茶消气" ∷ []
    else if emotion == "anxious"
    then status "😟" "有点担心" ∷ status "💭" "在想你" ∷ status "🤗" "想陪你" ∷ []
    else if emotion == "gentle"
    then status "☕\u{fe0f}" "慢慢聊" ∷ status "🌸" "温柔模式" ∷ status "📖" "静静陪你" ∷ []
    else []

-- `pool[n % len(pool)]` by recursion; an empty pool has no entry.
abbrev nth_or : BotStatusValue → List BotStatusValue → ℕ → BotStatusValue
nth_or default [] n = default
nth_or default (x ∷ xs) zero = x
nth_or default (x ∷ xs) (suc n) = nth_or default xs n

abbrev pick : List BotStatusValue → ℕ → BotStatusValue
pick pool n = nth_or online_status pool (n % length pool)

-- `hash` is fnv.New32a over the bytes of a text.
unfoldable pub select_bot_status : (String → ℕ) → String → String → BotStatusValue
unfolding emotion_status_map
select_bot_status hash emotion conversation_id = elim (emotion_status_map emotion) [
  | [] ↦ pick bot_statuses (hash conversation_id)
  | (x ∷ xs) ↦ pick (x ∷ xs) (hash (conversation_id <> emotion))
]

unfoldable pub emotion_default_emoji : String → String
emotion_default_emoji emotion =
    if emotion == "happy"
    then "😊"
    else if emotion == "love"
    then "💕"
    else if emotion == "sad"
    then "🌧"
    else if emotion == "excited"
    then "🤩"
    else if emotion == "angry"
    then "😤"
    else if emotion == "anxious"
    then "😟"
    else "☕\u{fe0f}"
