-- ===== src/Reply/Split.antt =====
-- internal/agentx/postprocess/split.go.
use Prim.Native.Char.{Char, code}
use nukara.Base.{
  ℕ, zero, suc, ◌-◌, ◌/◌, String, Bool, not, ◌==◌, ◌||◌, if◌then◌else◌, leb, ltb, eqb, ℤ, pos,
  positive_or, trim, rune_count, take_runes, List, [], ◌∷◌, ◌++◌, keep, map, length, is_empty, ◌<>◌,
  join, Option, none, some, ◌≡◌, refl,
}

abbrev pub message_boundary_token : String
message_boundary_token = "<<<MSG>>>"

-- The rest behind the token, where the text starts with it
unfoldable pub after_prefix : String → String → Option String
after_prefix text String.[] = some text
after_prefix String.[] (String.◌∷◌ k key) = none
after_prefix (String.◌∷◌ c text) (String.◌∷◌ k key) =
    let rest = after_prefix text key in if eqb (code c) (code k) then rest else none

abbrev pub add_first : Char → List String → List String
add_first c [] = String.◌∷◌ c "" ∷ []
add_first c (w ∷ ws) = String.◌∷◌ c w ∷ ws

-- strings.Split by a separator that is not empty; `skip` runes belong to the last match.
unfoldable pub split_at : String → ℕ → String → List String
unfolding after_prefix
split_at sep skip String.[] = "" ∷ []
split_at sep (suc skip) (String.◌∷◌ c text) = split_at sep skip text
split_at sep zero (String.◌∷◌ c text) =
    let plain = add_first c (split_at sep zero text) in
    let matched = "" ∷ split_at sep (rune_count sep - 1) text in
    elim (after_prefix (String.◌∷◌ c text) sep) [ none ↦ plain | some rest ↦ matched ]

unfoldable pub compact_segments : List String → List String
compact_segments segments = keep (λ s. not (s == "")) (map trim segments)

-- `none` where the text has no token
unfoldable pub split_by_explicit_protocol : String → List String
unfolding split_at compact_segments
split_by_explicit_protocol text =
    let parts = split_at message_boundary_token 0 text in
    if ltb 1 (length parts) then compact_segments parts else []

-- '。', '！', '？', '.', '!', '?' and the line feed
unfoldable pub ends_sentence : ℕ → Bool
ends_sentence c =
    eqb c 0x3002
    || eqb c 0xff01
    || eqb c 0xff1f
    || eqb c b'.'
    || eqb c b'!'
    || eqb c b'?'
    || eqb c 10

-- Also '，', '、', '；', ';', '：', ':', '～' and '…'
unfoldable pub ends_clause : ℕ → Bool
unfolding ends_sentence
ends_clause c =
    ends_sentence c
    || eqb c 0xff0c
    || eqb c 0x3001
    || eqb c 0xff1b
    || eqb c b';'
    || eqb c 0xff1a
    || eqb c b':'
    || eqb c 0xff5e
    || eqb c 0x2026

-- A segment with space around it taken off, where it is not blank
abbrev pub add_segment : String → List String → List String
add_segment segment segments =
    let text = trim segment in if text == "" then segments else text ∷ segments

-- `buf` is what the loop has read since the last end of a sentence.
unfoldable pub sentences_from : String → String → List String
unfolding ends_sentence
sentences_from buf String.[] = add_segment buf []
sentences_from buf (String.◌∷◌ c text) =
    let buf' = buf <> String.◌∷◌ c "" in
    let ended = add_segment buf' (sentences_from "" text) in
    let going = sentences_from buf' text in if ends_sentence (code c) then ended else going

unfoldable pub split_by_sentence : String → List String
unfolding sentences_from
split_by_sentence text = sentences_from "" text

-- `runes[n:]`
unfoldable pub drop_runes : ℕ → String → String
drop_runes zero s = s
drop_runes (suc n) String.[] = ""
drop_runes (suc n) (String.◌∷◌ c s) = drop_runes n s

-- The code of the rune `runes[n]`; 0 behind the end, where the loop does not look.
unfoldable pub rune_at : String → ℕ → ℕ
rune_at String.[] n = 0
rune_at (String.◌∷◌ c s) zero = code c
rune_at (String.◌∷◌ c s) (suc n) = rune_at s n

-- The inner loop: the largest i with half < i ≤ `i` behind whose rune a clause ends, or else `cut`.
unfoldable pub find_cut : String → ℕ → ℕ → ℕ → ℕ
unfolding rune_at ends_clause
find_cut runes half cut zero = cut
find_cut runes half cut (suc i) =
    let rest = find_cut runes half cut i in
    if leb (suc i) half then cut else if ends_clause (rune_at runes i) then suc i else rest

-- The outer loop, on the runes from `start` on; `none` while it has not ended.
unfoldable pub cut_long : ℕ → String → ℕ → Option (List String)
unfolding find_cut drop_runes
cut_long zero runes max_runes = none
cut_long (suc fuel) runes max_runes =
    let cut = find_cut runes (max_runes / 2) max_runes max_runes in
    let rest = cut_long fuel (drop_runes cut runes) max_runes in
    if leb (rune_count runes) max_runes
    then (if eqb (rune_count runes) 0 then some [] else some (trim runes ∷ []))
    else elim rest [ none ↦ none | some segments ↦ some (trim (take_runes cut runes) ∷ segments) ]

-- One more round than the text has runes is enough, where `max_runes` is positive.
unfoldable pub split_long_by_max_runes : String → ℕ → Option (List String)
split_long_by_max_runes text max_runes =
    if leb (rune_count text) max_runes
    then some (text ∷ [])
    else cut_long (suc (rune_count text)) text max_runes

abbrev pub both : Option (List String) → Option (List String) → Option (List String)
both none ys = none
both (some xs) none = none
both (some xs) (some ys) = some (xs ++ ys)

-- The loop over the sentences
unfoldable pub cut_sentences : ℕ → List String → Option (List String)
cut_sentences max_runes [] = some []
cut_sentences max_runes (sentence ∷ sentences) =
    let rest = cut_sentences max_runes sentences in
    if leb (rune_count sentence) max_runes
    then both (some (trim sentence ∷ [])) rest
    else both (split_long_by_max_runes sentence max_runes) rest

abbrev pub compacted : Option (List String) → Option (List String)
compacted none = none
compacted (some segments) = some (compact_segments segments)

-- SplitSegments behind the test for the token
unfoldable pub split_plain : String → ℕ → Option (List String)
split_plain text max_runes =
    let sentences = split_by_sentence text in
    if ltb 1 (length sentences)
    then compacted (cut_sentences max_runes sentences)
    else if leb (rune_count text) max_runes
    then some (text ∷ [])
    else compacted (split_long_by_max_runes text max_runes)

unfoldable pub split_segments : String → ℤ → Option (List String)
split_segments raw max_runes =
    let text = trim raw in
    let explicit = split_by_explicit_protocol text in
    if text == ""
    then some []
    else if is_empty explicit
    then split_plain text (positive_or 180 max_runes)
    else some explicit

unfoldable pub strip_segment_protocol : String → String
unfolding split_at
strip_segment_protocol text =
    let t = trim text in
    if t == "" then "" else trim (join "\n\n" (split_at message_boundary_token 0 t))

test_split : split_segments "你好。今天怎么样？" (pos 5) ≡ some ("你好。" ∷ "今天怎么样" ∷ "？" ∷ [])
unfolding split_segments split_by_explicit_protocol split_plain split_by_sentence cut_sentences
    split_long_by_max_runes cut_long trim rune_count take_runes
test_split = refl

test_token : split_segments "a<<<MSG>>> b " (pos 5) ≡ some ("a" ∷ "b" ∷ [])
unfolding split_segments split_by_explicit_protocol split_plain split_by_sentence cut_sentences
    split_long_by_max_runes cut_long trim rune_count take_runes
test_token = refl
