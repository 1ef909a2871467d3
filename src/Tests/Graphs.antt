-- ===== src/Tests/Graphs.antt =====
-- The theorems on the memory graph, the hub and the replies at concrete inputs.
use nukara.Base.{
  ℕ, String, true, some, ◌≡◌, refl, ◌↔◌, List, [], ◌∷◌, arith, length, All, ◌≤◌, Map, empty_map,
  put, member, ◌==◌, pos, trim, positive_or,
}
use nukara.Store.AgentTypes.{TemporalMemoryNode}
use nukara.Store.State.{new_store}
use nukara.Memory.Component.{collect_component}
use nukara.Memory.Reachable.{Reach, collect_component-reaches}
use nukara.Memory.Cards.{
  CardBudget, assemble_prompt_cards, assemble_prompt_cards-fits, total_runes, HasText,
}
use nukara.Hub.{WsSession, new_ws_hub}
use nukara.Hub.Refinement.{Holds, gauge}
use nukara.Hub.Runs.{Call, registers, unregisters, publishes, run, meaning, run-Holds}
use nukara.Reply.Split.{split_segments, split_by_explicit_protocol}
use nukara.Reply.Visible.{visible, all_visible}
use nukara.Reply.Bounds.{IsNeat, split_segments-IsNeat}
use nukara.Tests.Samples.{base}
use nukara.Tests.Memories.{event}

abbrev triangle : Map (List String)
triangle = put (put empty_map "a" ("b" ∷ "a" ∷ [])) "b" ("a" ∷ "c" ∷ [])

collect_component-reaches_example :
    (result : List String) × (collect_component "a" triangle ≡ some result)
    × ((x : String) → (member x result ≡ true) ↔ Reach triangle "a" x)
collect_component-reaches_example = collect_component-reaches "a" triangle

abbrev promise : TemporalMemoryNode
promise = record event { node_type = "promise"; title = "一起看日出" }

abbrev small : CardBudget
small = record { max_chars = pos 10; max_cards = pos 0 }

assemble_prompt_cards-fits_example :
    let out = assemble_prompt_cards (event ∷ promise ∷ []) [] small in
    (length out ≤ positive_or 6 small.max_cards)
    × (total_runes out ≤ positive_or 420 small.max_chars)
    × All HasText out
assemble_prompt_cards-fits_example = assemble_prompt_cards-fits (event ∷ promise ∷ []) [] small

abbrev session : ℕ → String → WsSession
session number user_id = record { number = number; user_id = user_id }

abbrev calls : List Call
calls =
    registers "u"
    ∷ registers "v"
    ∷ registers "u"
    ∷ unregisters (session 1 "v")
    ∷ unregisters (session 1 "v")
    ∷ publishes "u" (λ (x : WsSession). x.user_id == "v")
    ∷ []

run-Holds_example :
    let (h, s) = run (new_ws_hub, base) calls in
    let ss = meaning 0 [] calls in Holds h ss × (gauge s ≡ pos (length ss))
unfolding new_store
run-Holds_example = run-Holds base calls refl (omega arith)

split_segments-IsNeat_example :
    (out : List String) × (split_segments " 你好。今天怎么样？" (pos 5) ≡ some out)
    × All (IsNeat (positive_or 180 (pos 5))) out
    × (all_visible out ≡ visible " 你好。今天怎么样？")
unfolding split_by_explicit_protocol trim
split_segments-IsNeat_example = split_segments-IsNeat " 你好。今天怎么样？" (pos 5) refl
