-- ===== src/Store/MemoryGraph/Cards.antt =====
-- UpsertMemoryCard, ListMemoryCards, SaveActivationTrace and ListActivationTraces.
use nukara.Base.{
  String, ◌==◌, ◌&&◌, ◌||◌, Option, none, some, if◌then◌else◌, positive_or, trim, is_blank, get,
  put, values, List, keep, take, sort_by,
}
use nukara.Store.Types.{CaseRules, Time, is_zero, after}
use nukara.Store.AgentTypes.{MemoryCard, MemoryCardFilter, ActivationTrace, ActivationTraceFilter}
use nukara.Store.State.{Store}
use nukara.Store.MemoryGraph.Filters.{to_lower_set, admits, same_or_any}

-- `CreatedAt`: the clock for a new id, the stored reading for a known one, else the caller's.
unfoldable pub card_created_at : Store → Time → MemoryCard → Time
card_created_at s now card =
    if is_blank card.id then now else elim (get s.memory_cards_by_id card.id) [
      | none ↦ card.created_at
      | some existing ↦ existing.created_at
    ]

unfoldable pub upsert_memory_card : Store → Time → String → MemoryCard → Store × Option MemoryCard
unfolding card_created_at
upsert_memory_card s now id card =
    let saved = record card {
      id = if is_blank card.id then id else card.id;
      user_id = trim card.user_id;
      bot_id = trim card.bot_id;
      card_type = trim card.card_type;
      text = trim card.text;
      created_at = card_created_at s now card;
      updated_at = now;
    } in
    if ((is_blank card.user_id || is_blank card.bot_id) || is_blank card.card_type)
      || is_blank card.text
    then (s, none)
    else (record s { memory_cards_by_id = put s.memory_cards_by_id saved.id saved }, some saved)

unfoldable pub list_memory_cards :
    CaseRules → Store → String → String → MemoryCardFilter → List MemoryCard
unfolding to_lower_set
list_memory_cards rules s user_id bot_id filter = take (positive_or 20 filter.limit) (
    sort_by (λ a b. after a.updated_at b.updated_at)
      (keep
        (λ card.
          (trim card.user_id == trim user_id && trim card.bot_id == trim bot_id)
          && admits rules (to_lower_set rules filter.card_types) (trim card.card_type))
        (values s.memory_cards_by_id)))

unfoldable pub save_activation_trace :
    Store → Time → String → ActivationTrace → Store × Option ActivationTrace
save_activation_trace s now id trace =
    let saved = record trace {
      id = if is_blank trace.id then id else trace.id;
      user_id = trim trace.user_id;
      bot_id = trim trace.bot_id;
      conversation_id = trim trace.conversation_id;
      turn_id = trim trace.turn_id;
      cue_json = trim trace.cue_json;
      created_at = if is_zero trace.created_at then now else trace.created_at;
    } in
    if is_blank trace.user_id || is_blank trace.bot_id then (s, none) else (
      record s { activation_traces_by_id = put s.activation_traces_by_id saved.id saved },
      some saved,
    )

unfoldable pub list_activation_traces :
    Store → String → String → ActivationTraceFilter → List ActivationTrace
list_activation_traces s user_id bot_id filter = take (positive_or 20 filter.limit) (
    sort_by (λ a b. after a.created_at b.created_at)
      (keep
        (λ trace.
          (trim trace.user_id == trim user_id && trim trace.bot_id == trim bot_id)
          && (same_or_any (trim filter.conversation_id) trace.conversation_id
              && same_or_any (trim filter.turn_id) trace.turn_id))
        (values s.activation_traces_by_id)))
