-- ===== src/Memory/Cards.antt =====
-- AssemblePromptCards of internal/agentx/memorygraph/cards.go: the cards of a prompt and their budget.
use nukara.Base.{
  ℕ, zero, suc, ◌+◌, ◌-◌, ◌≤◌, String, false, not, ◌==◌, if◌then◌else◌, eqb, trim, trim_idem,
  equal_fold, rune_count, join, ◌<>◌, ◌≡◌, arith, none, some, List, [], ◌∷◌, ◌++◌, keep, sort_by,
  length, All, ℤ, positive_or, Bool-cases, inl, inr,
}
use nukara.Store.AgentTypes.{TemporalMemoryNode}
use nukara.Store.Segments.{dedup}
use nukara.Memory.Trim.{
  trim_to_rune_limit, trim_to_rune_limit-le, trim-le, has_type, later, latest_node, label_of,
}

pub record PromptCard : Type 0 where
  pub card_type : String
  pub text : String
  pub backing_node_ids : List String

pub record CardBudget : Type 0 where
  pub max_chars : ℤ
  pub max_cards : ℤ

-- The fields of a RecallChain that the cards use.
pub record RecallChain : Type 0 where
  pub timeline : List TemporalMemoryNode
  pub backing_node_ids : List String

-- uniqueIDs: the same loop as `dedup` of the store.
unfoldable pub unique_ids : List String → List String
unfolding dedup
unique_ids ids = dedup ids

unfoldable pub compact_card_text : String → String → ℕ → String
unfolding trim_to_rune_limit
compact_card_text prefix content limit =
    let text = trim content in
    if text == "" then "" else prefix <> ("：" <> trim_to_rune_limit text limit)

unfoldable pub active_promises : List TemporalMemoryNode → List TemporalMemoryNode
active_promises nodes = keep (λ n. not (equal_fold (trim n.status) "resolved")) nodes

-- `byType[word]`, sorted
unfoldable pub nodes_of_type : String → List TemporalMemoryNode → List TemporalMemoryNode
nodes_of_type word nodes = sort_by later (keep (has_type word) nodes)

abbrev card : String → String → List String → PromptCard
card card_type text ids = record { card_type = card_type; text = text; backing_node_ids = ids }

-- The card of the newest node of a type, if there is one
unfoldable pub latest_card :
    String → String → ℕ → String → List TemporalMemoryNode → List PromptCard
unfolding nodes_of_type latest_node compact_card_text
latest_card card_type prefix limit word nodes = elim (latest_node (nodes_of_type word nodes)) [
  | none ↦ []
  | some node ↦ card card_type (compact_card_text prefix node.summary limit) (node.id ∷ []) ∷ []
]

-- The loop over the promises: the identifiers that it passes, and the first `room` labels.
unfoldable pub promise_parts : ℕ → List TemporalMemoryNode → List String × List String
promise_parts zero nodes = ([], [])
promise_parts (suc room) [] = ([], [])
promise_parts (suc room) (node ∷ nodes) =
    let skipped = promise_parts (suc room) nodes in
    let taken = promise_parts room nodes in
    if label_of node == ""
    then (node.id ∷ skipped.0, skipped.1)
    else (node.id ∷ taken.0, label_of node ∷ taken.1)

abbrev open_loops_card : List String × List String → List PromptCard
open_loops_card (ids, []) = []
open_loops_card (ids, part ∷ parts) =
    card "open_loops_card" (compact_card_text "待办" (join "；" (part ∷ parts)) 30) (unique_ids ids)
    ∷ []

-- The first `room` labels of a time line
unfoldable pub chain_parts : ℕ → List TemporalMemoryNode → List String
chain_parts zero nodes = []
chain_parts (suc room) [] = []
chain_parts (suc room) (node ∷ nodes) =
    let skipped = chain_parts (suc room) nodes in
    let taken = label_of node ∷ chain_parts room nodes in
    if label_of node == "" then skipped else taken

abbrev chain_card_of : List String → List String → List PromptCard
chain_card_of ids [] = []
chain_card_of ids (part ∷ parts) =
    card "episode_chain_card" (compact_card_text "经历" (join " → " (part ∷ parts)) 32)
      (unique_ids ids)
    ∷ []

abbrev chain_card : List RecallChain → List PromptCard
chain_card [] = []
chain_card (chain ∷ chains) = chain_card_of chain.backing_node_ids (chain_parts 2 chain.timeline)

-- The candidates, in the order of their importance
unfoldable pub candidates : List TemporalMemoryNode → List RecallChain → List PromptCard
unfolding latest_card promise_parts chain_parts active_promises nodes_of_type unique_ids
    compact_card_text
candidates nodes chains =
    latest_card "self_card" "自我" 34 "self_model" nodes
    ++ latest_card "state_card" "状态" 28 "state_snapshot" nodes
    ++ open_loops_card (promise_parts 2 (active_promises (nodes_of_type "promise" nodes)))
    ++ latest_card "user_card" "用户" 28 "user_fact" nodes
    ++ chain_card chains
    ++ latest_card "session_bridge_card" "衔接" 28 "session_summary" nodes

-- The text of a candidate, cut to what is left of the budget
unfoldable pub cut_text : String → ℕ → String
unfolding trim_to_rune_limit
cut_text text remaining = trim (trim_to_rune_limit (trim text) remaining)

-- The last loop: `room` is how many cards may still be appended. `remaining` never falls below zero,
-- since no text is longer than it.
unfoldable pub fit : ℕ → ℕ → List PromptCard → List PromptCard
fit room remaining [] = []
fit zero remaining (c ∷ cs) = []
fit (suc room) remaining (c ∷ cs) =
    let text = cut_text c.text remaining in
    let skipped = fit (suc room) remaining cs in
    let taken = record c { text = text } ∷ fit room (remaining - rune_count text) cs in
    if eqb remaining 0 then [] else if text == "" then skipped else taken

unfoldable pub assemble_prompt_cards :
    List TemporalMemoryNode → List RecallChain → CardBudget → List PromptCard
unfolding candidates fit cut_text
assemble_prompt_cards nodes chains budget =
    fit (positive_or 6 budget.max_cards) (positive_or 420 budget.max_chars)
      (candidates nodes chains)

abbrev pub total_runes : List PromptCard → ℕ
total_runes [] = 0
total_runes (c ∷ cs) = rune_count c.text + total_runes cs

abbrev pub HasText : PromptCard → Type 0
HasText c = (trim c.text ≡ c.text) × ((c.text == "") ≡ false)

cut_text-le : (text : String) (n : ℕ) → rune_count (cut_text text n) ≤ n
unfolding cut_text
cut_text-le text n =
    omega (arith, trim-le (trim_to_rune_limit (trim text) n), trim_to_rune_limit-le (trim text) n)

cut_text-trim : (text : String) (n : ℕ) → trim (cut_text text n) ≡ cut_text text n
unfolding cut_text
cut_text-trim text n = trim_idem (trim_to_rune_limit (trim text) n)

fit-fits :
    (room remaining : ℕ) (cs : List PromptCard)
    → let out = fit room remaining cs in
      (length out ≤ room) × (total_runes out ≤ remaining) × All HasText out
unfolding fit
fit-fits room remaining [] = (omega arith, omega arith, tt)
fit-fits zero remaining (c ∷ cs) = (omega arith, omega arith, tt)
fit-fits (suc room) remaining (c ∷ cs) =
    let text = cut_text c.text remaining in
    elim (Bool-cases (eqb remaining 0)) [
      | inl a ↦ rw (fit, a) (omega arith, omega arith, tt)
      | inr a ↦ elim (Bool-cases (text == "")) [
        | inl b ↦ rw (fit, a, b) (fit-fits (suc room) remaining cs)
        | inr b ↦
            let (few, short, full) = fit-fits room (remaining - rune_count text) cs in
            let cut = cut_text-le c.text remaining in
            rw (fit, a, b)
              (
                omega (arith, few),
                omega (arith, short, cut),
                ((cut_text-trim c.text remaining, b), full),
              )
      ]
    ]

-- The cards stay within the budget: there are at most `max_cards` (6 if that is not positive), their
-- texts have at most `max_chars` runes in all (420 if that is not positive), and no text is empty or
-- has space around it.
pub assemble_prompt_cards-fits :
    (nodes : List TemporalMemoryNode) (chains : List RecallChain) (budget : CardBudget)
    → let out = assemble_prompt_cards nodes chains budget in
      (length out ≤ positive_or 6 budget.max_cards)
      × (total_runes out ≤ positive_or 420 budget.max_chars)
      × All HasText out
unfolding assemble_prompt_cards
assemble_prompt_cards-fits nodes chains budget =
    fit-fits (positive_or 6 budget.max_cards) (positive_or 420 budget.max_chars)
      (candidates nodes chains)
