-- ===== src/Persona/Risk.antt =====
-- The risk of a patch: internal/agentx/persona/risk.go.
use Prim.Native.Char.{code}
use nukara.Base.{
  String, Bool, true, false, not, ◌&&◌, ◌||◌, ◌==◌, eqb, if◌then◌else◌, trim, is_blank, is_empty,
  any, List, [], ◌∷◌,
}
use nukara.Persona.Changes.{Patch}

pub data RiskLevel : Type 0 where
  low : RiskLevel
  high : RiskLevel

pub data ApplyRoute : Type 0 where
  auto_apply : ApplyRoute
  pending_confirm : ApplyRoute

pub record RiskResult : Type 0 where
  pub risk : RiskLevel
  pub route : ApplyRoute

unfoldable pub has_prefix : String → String → Bool
has_prefix s String.[] = true
has_prefix String.[] (String.◌∷◌ d t) = false
has_prefix (String.◌∷◌ c s) (String.◌∷◌ d t) =
    let rest = has_prefix s t in eqb (code c) (code d) && rest

-- strings.Contains
unfoldable pub contains : String → String → Bool
unfolding has_prefix
contains String.[] cue = cue == ""
contains (String.◌∷◌ c s) cue = has_prefix (String.◌∷◌ c s) cue || contains s cue

abbrev pub low_risk_life_context_cues : List String
low_risk_life_context_cues =
    "习惯" ∷ "作息" ∷ "固定" ∷ "最近开始" ∷ "开始把" ∷ "最近会" ∷ "会把" ∷ "下班后" ∷ "晨跑" ∷ "夜跑" ∷ "散步" ∷ "慢走" ∷ "喝咖啡"
    ∷ "做饭" ∷ "通勤" ∷ "晚饭后" ∷ "睡前" ∷ "周末常" ∷ "最近喜欢" ∷ "最近常" ∷ "会在" ∷ []

abbrev pub high_risk_life_context_cues : List String
high_risk_life_context_cues =
    "其实我是" ∷ "医生" ∷ "护士" ∷ "老师" ∷ "学生" ∷ "程序员" ∷ "警察" ∷ "军人" ∷ "结婚" ∷ "离婚" ∷ "怀孕" ∷ "生孩子" ∷ "男朋友"
    ∷ "女朋友" ∷ "恋人" ∷ "老公" ∷ "老婆" ∷ "母亲" ∷ "父亲" ∷ "住在" ∷ "搬到" ∷ "来自" ∷ "出生" ∷ "故乡" ∷ "户口" ∷ []

unfoldable pub contains_any : String → List String → Bool
unfolding contains
contains_any text cues = any (λ cue. not (is_blank cue) && contains text (trim cue)) cues

unfoldable pub classify_life_context_add : String → RiskLevel
unfolding contains_any
classify_life_context_add value =
    let text = trim value in
    if text == ""
    then low
    else if contains_any text high_risk_life_context_cues
    then high
    else if contains_any text low_risk_life_context_cues
    then low
    else high

abbrev pub high_risk : RiskResult
high_risk = record { risk = high; route = pending_confirm }

abbrev pub low_risk : RiskResult
low_risk = record { risk = low; route = auto_apply }

-- The loop over the life-context values.
unfoldable pub classify_all : List String → RiskResult
unfolding classify_life_context_add
classify_all [] = low_risk
classify_all (value ∷ values) =
    let rest = classify_all values in
    elim (classify_life_context_add value) [ high ↦ high_risk | low ↦ rest ]

unfoldable pub classify_patch_risk : Patch → RiskResult
unfolding classify_all
classify_patch_risk patch =
    if not (is_empty patch.identity_adds)
    then high_risk
    else if not (is_empty patch.personality_adds)
    then high_risk
    else if not (is_empty patch.taboos_and_preferences_adds)
    then high_risk
    else classify_all patch.life_context_adds
