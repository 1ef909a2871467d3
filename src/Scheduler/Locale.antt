-- ===== src/Scheduler/Locale.antt =====
-- The region of a bot, from its life context: localeRules, InferLocaleContext and inferDayPhase of
-- internal/api/locale_context.go. Package time computes the clock of the zone.
use nukara.Base.{
  ℕ, String, Bool, true, false, ◌||◌, ◌&&◌, not, eqb, ltb, if◌then◌else◌, List, [], ◌∷◌, is_empty,
  any, trim, lower, ◌≡◌, refl,
}

pub record LocaleRule : Type 0 where
  pub timezone : String
  pub region : String
  pub keywords : List String

abbrev pub default_locale_rule : LocaleRule
default_locale_rule = record { timezone = "Asia/Shanghai"; region = "中国"; keywords = [] }

abbrev pub locale_rules : List LocaleRule
locale_rules =
    record {
      timezone = "Asia/Tokyo";
      region = "日本";
      keywords = "东京" ∷ "日本" ∷ "tokyo" ∷ "japan" ∷ [];
    }
    ∷ record {
      timezone = "America/New_York";
      region = "美国东部";
      keywords = "纽约" ∷ "美国" ∷ "new york" ∷ "nyc" ∷ "usa" ∷ "us" ∷ [];
    }
    ∷ []

-- strings.Contains, on runes
unfoldable pub starts_with : List ℕ → List ℕ → Bool
starts_with text [] = true
starts_with [] (k ∷ ks) = false
starts_with (c ∷ cs) (k ∷ ks) = let rest = starts_with cs ks in eqb c k && rest

unfoldable pub contains_codes : List ℕ → List ℕ → Bool
unfolding starts_with
contains_codes [] key = is_empty key
contains_codes (c ∷ cs) key = starts_with (c ∷ cs) key || contains_codes cs key

unfoldable pub contains_locale_keyword : List ℕ → List String → Bool
unfolding contains_codes
contains_locale_keyword text keywords =
    any (λ k. let key = lower (trim k) in not (is_empty key) && contains_codes text key) keywords

abbrev first_rule : List ℕ → List LocaleRule → LocaleRule
first_rule text [] = default_locale_rule
first_rule text (rule ∷ rules) =
    let rest = first_rule text rules in
    if contains_locale_keyword text rule.keywords then rule else rest

unfoldable pub infer_locale_rule : String → LocaleRule
unfolding contains_locale_keyword
infer_locale_rule life_context = first_rule (lower (trim life_context)) locale_rules

unfoldable pub infer_day_phase : ℕ → String
infer_day_phase hour =
    if ltb hour 5
    then "深夜"
    else if ltb hour 7
    then "清晨"
    else if ltb hour 11
    then "早上"
    else if ltb hour 13
    then "中午"
    else if ltb hour 18
    then "下午"
    else if ltb hour 23
    then "晚上"
    else "深夜"

test_tokyo : (infer_locale_rule "住在Tokyo").timezone ≡ "Asia/Tokyo"
unfolding infer_locale_rule trim lower
test_tokyo = refl

-- The keyword "us" is found inside any word.
test_music : (infer_locale_rule "music").timezone ≡ "America/New_York"
unfolding infer_locale_rule trim lower
test_music = refl
