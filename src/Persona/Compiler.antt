-- ===== src/Persona/Compiler.antt =====
-- CompilePrompt of internal/agentx/persona/compiler.go.
use Prim.Native.Char.{Char, code}
use nukara.Base.{
  suc, ◌≤◌, String, List, [], ◌∷◌, ◌++◌, arith, if◌then◌else◌, leb, leb→le, ℤ, positive_or, trim,
  trim_left, trim_right, close_right, is_space, is_blank, is_empty, rune_count, take_runes,
  take_runes-le, join, ◌<>◌, Bool-cases, inl, inr,
}
use nukara.Store.Types.{Bot}

-- appendSection, as the list of what it appends.
abbrev pub section : String → String → List String
section title value = if is_blank value then [] else (title <> trim value) ∷ []

unfoldable pub prompt_parts : Bot → List String
prompt_parts bot =
    (if is_blank bot.name then [] else ("你是" <> (trim bot.name <> "。")) ∷ [])
    ++ (section "【身份设定】" bot.identity
        ++ ((if is_empty bot.personality then [] else section "【性格特征】" (join "、" bot.personality))
            ++ (section "【表达风格】" bot.expression_style
                ++ (section "【生活环境】" bot.life_context
                    ++ section "【禁忌与偏好】" bot.taboos_and_preferences))))

unfoldable pub compile_prompt : Bot → ℤ → String
unfolding prompt_parts
compile_prompt bot max_runes =
    let joined = join "\n" (prompt_parts bot) in
    let limit = positive_or 400 max_runes in
    if leb (rune_count joined) limit then trim joined else trim (take_runes limit joined)

trim_left-le : (s : String) → rune_count (trim_left s) ≤ rune_count s
unfolding trim_left rune_count
trim_left-le String.[] = omega arith
trim_left-le (String.◌∷◌ c s) = ground (arith, trim_left-le s)

close_right-le : (c : Char) (r : String) → rune_count (close_right c r) ≤ suc (rune_count r)
unfolding rune_count
close_right-le c String.[] = elim (Bool-cases (is_space (code c))) [
  | inl e ↦ rw e (omega arith)
  | inr e ↦ rw e (omega arith)
]
close_right-le c (String.◌∷◌ d t) = omega arith

trim_right-le : (s : String) → rune_count (trim_right s) ≤ rune_count s
unfolding trim_right rune_count
trim_right-le String.[] = omega arith
trim_right-le (String.◌∷◌ c s) = omega (arith, close_right-le c (trim_right s), trim_right-le s)

trim-le : (s : String) → rune_count (trim s) ≤ rune_count s
unfolding trim
trim-le s = omega (arith, trim_right-le (trim_left s), trim_left-le s)

-- The prompt that CompilePrompt makes has at most `maxRunes` runes, or 400 for a limit that is not
-- positive.
pub compile_prompt-le :
    (bot : Bot) (max_runes : ℤ)
    → rune_count (compile_prompt bot max_runes) ≤ positive_or 400 max_runes
unfolding compile_prompt
compile_prompt-le bot max_runes =
    let joined = join "\n" (prompt_parts bot) in
    let limit = positive_or 400 max_runes in
    elim (Bool-cases (leb (rune_count joined) limit)) [
      | inl e ↦ rw e (omega (arith, trim-le joined, leb→le (rune_count joined) limit e))
      | inr e ↦ rw e (omega (arith, trim-le (take_runes limit joined), take_runes-le limit joined))
    ]
