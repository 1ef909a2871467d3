-- ===== src/Subtasks/Extract.antt =====
-- ParseMemoryItems of internal/agentx/subtasks/memory_extract.go. json.Unmarshal and time.Parse are
-- parameters: from a text to the decoded items, and to a time, if there is no error.
use Prim.Native.Char.{code}
use nukara.Base.{
  String, Bool, true, false, ◌||◌, ◌==◌, if◌then◌else◌, eqb, leb, trim, is_blank, lower, codes_eq,
  rune_count, member, any, Option, none, some, List, [], ◌∷◌, map, ℤ, pos, is_nonpos,
}
use nukara.Store.Types.{Time}
use nukara.Store.AgentTypes.{Entity, Relation, MemoryItem}
use nukara.Persona.Risk.{contains}

-- An element of `items` in memoryItemsEnvelope
pub record RawItem : Type 0 where
  pub memory_id : String
  pub kind : String
  pub owner : String
  pub content : String
  pub importance : ℤ
  pub occurred_at : String
  pub status : String
  pub topics : List String
  pub semantic_category : String
  pub stability : String
  pub entities : List Entity
  pub relations : List Relation

-- The texts from the first opening brace on, and up to the last closing one.
unfoldable pub from_brace : String → Option String
from_brace String.[] = none
from_brace (String.◌∷◌ c s) =
    let rest = from_brace s in if eqb (code c) 123 then some (String.◌∷◌ c s) else rest

unfoldable pub to_brace : String → Option String
to_brace String.[] = none
to_brace (String.◌∷◌ c s) = elim (to_brace s) [
  | some t ↦ some (String.◌∷◌ c t)
  | none ↦ if eqb (code c) 125 then some (String.◌∷◌ c "") else none
]

unfoldable pub cut_object : String → String
unfolding from_brace to_brace
cut_object raw = elim (from_brace raw) [
  | none ↦ raw
  | some s ↦ elim (to_brace s) [ none ↦ raw | some t ↦ t ]
]

-- The case of a switch over `strings.ToLower(raw)`: the name that it equals.
unfoldable pub known : List String → String → Option String
unfolding lower
known [] raw = none
known (name ∷ names) raw =
    let rest = known names raw in if codes_eq (lower raw) (lower name) then some name else rest

abbrev pub known_or : List String → String → String → String
known_or names default raw = elim (known names (trim raw)) [ none ↦ default | some name ↦ name ]

abbrev pub memory_kinds : List String
memory_kinds =
    "event" ∷ "promise" ∷ "self_fact" ∷ "user_fact" ∷ "habit" ∷ "state_basis" ∷ "fact" ∷ []

abbrev pub memory_statuses : List String
memory_statuses = "fulfilled" ∷ "expired" ∷ "rejected" ∷ "archived" ∷ "active" ∷ []

abbrev pub semantic_categories : List String
semantic_categories =
    "identity" ∷ "personality" ∷ "life_context" ∷ "expression_style" ∷ "taboos_and_preferences"
    ∷ "relationship" ∷ []

abbrev pub stabilities : List String
stabilities = "stable" ∷ "temporary" ∷ []

unfoldable pub normalize_memory_kind : String → String
unfolding known
normalize_memory_kind raw = known_or memory_kinds "fact" raw

unfoldable pub normalize_memory_status : String → String
unfolding known
normalize_memory_status raw = known_or memory_statuses "active" raw

abbrev pub category_of : String → String → String
category_of text kind =
    if any (contains text) ("专业" ∷ "研究型" ∷ "不是纯金融" ∷ [])
    then "identity"
    else if any (contains text) ("猫" ∷ "爸妈" ∷ "父母" ∷ "住在" ∷ [])
    then "life_context"
    else if kind == "habit"
    then "expression_style"
    else if kind == "user_fact"
    then "relationship"
    else "life_context"

unfoldable pub normalize_semantic_category : String → String → String → String
unfolding known contains normalize_memory_kind
normalize_semantic_category raw content kind =
    known_or semantic_categories (category_of (trim content) (normalize_memory_kind kind)) raw

abbrev pub temporary_cues : List String
temporary_cues = "最近" ∷ "暂时" ∷ "这周" ∷ "今天" ∷ "刚" ∷ "刚刚" ∷ "目前" ∷ "这阵子" ∷ []

unfoldable pub normalize_memory_stability : String → String → String
unfolding known contains
normalize_memory_stability raw content =
    known_or stabilities (if any (contains content) temporary_cues then "temporary" else "stable")
      raw

unfoldable pub infer_memory_importance : String → String → String → ℤ
unfolding contains
infer_memory_importance kind semantic_category content =
    if semantic_category == "identity"
    then pos 85
    else if semantic_category == "taboos_and_preferences"
    then pos 82
    else if kind == "promise"
    then pos 80
    else if contains content "猫" || contains content "爸妈"
    then pos 78
    else pos 70

abbrev pub low_values : List String
low_values = "你好" ∷ "你好呀" ∷ "早安" ∷ "晚安" ∷ "吃了吗" ∷ "我有点困" ∷ "我有点忙" ∷ "嗯" ∷ "哦" ∷ "好的" ∷ "知道了" ∷ []

unfoldable pub should_persist_memory : String → String → Bool
unfolding rune_count
should_persist_memory kind content =
    let text = trim content in
    if text == ""
    then false
    else if member text low_values
    then false
    else if kind == "habit"
    then leb 4 (rune_count text)
    else true

abbrev pub trim_relation : Relation → Relation
trim_relation relation = record {
  source_entity_id = trim relation.source_entity_id;
  target_entity_id = trim relation.target_entity_id;
  relation_type = trim relation.relation_type;
  role_hint = trim relation.role_hint;
}

module _ (parse_time : String → Option Time) where
  abbrev pub occurred : String → Time
  occurred text =
      if is_blank text then 0 else elim (parse_time (trim text)) [ none ↦ 0 | some t ↦ t ]

  -- `normalized`, with the importance that it has in the end.
  unfoldable pub normalized_item : RawItem → MemoryItem
  normalized_item item =
      let content = trim item.content in
      let kind = normalize_memory_kind item.kind in
      let category = normalize_semantic_category item.semantic_category content item.kind in
      record {
        id = trim item.memory_id;
        user_id = "";
        bot_id = "";
        kind = kind;
        owner = trim item.owner;
        content = content;
        importance =
            if is_nonpos item.importance
            then infer_memory_importance kind category content
            else item.importance;
        occurred_at = occurred item.occurred_at;
        status = normalize_memory_status item.status;
        topics = item.topics;
        semantic_category = category;
        stability = normalize_memory_stability item.stability content;
        entities = item.entities;
        relations = map trim_relation item.relations;
        created_at = 0;
        updated_at = 0;
      }

  unfoldable pub normalized_items : List RawItem → List MemoryItem
  normalized_items [] = []
  normalized_items (raw ∷ raws) =
      let item = normalized_item raw in
      let rest = normalized_items raws in
      if should_persist_memory item.kind item.content then item ∷ rest else rest

  unfoldable pub parse_memory_items :
      (String → Option (List RawItem)) → String → Option (List MemoryItem)
  parse_memory_items unmarshal raw = elim (unmarshal (cut_object raw)) [
    | none ↦ none
    | some raws ↦ some (normalized_items raws)
  ]
