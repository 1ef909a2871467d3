-- ===== src/Tests/Histories.antt =====
-- The theorems on all reachable stores, at one short history.
use nukara.Base.{◌≡◌, All}
use nukara.Store.Types.{Conversation, Bot}
use nukara.Store.State.{Store}
use nukara.Store.Bots.{create_bot, list_bots}
use nukara.Store.Chats.{save_message, list_conversations}
use nukara.Store.Tables.{IsConsistent}
use nukara.Store.Reachable.{
  Reach, here, next, creates_bot, saves_message, reachable-IsConsistent, listings_own,
}
use nukara.Tests.Samples.{base, fresh, mia, hello, no_bots, no_conversations}

-- A bot was created, and then said hello.
abbrev greeted : Store
greeted = (save_message (create_bot base fresh "u" mia).0 9 "m1" "u" hello).0

history : Reach base greeted
history =
    next (next here (creates_bot fresh "u" mia no_bots no_conversations))
      (saves_message 9 "m1" "u" hello)

reachable-IsConsistent_example : IsConsistent greeted
reachable-IsConsistent_example = reachable-IsConsistent 1 2 greeted history

listings_own_example :
    All (λ (c : Conversation). c.user_id ≡ "u") (list_conversations greeted "u")
    × All (λ (b : Bot). b.user_id ≡ "u") (list_bots greeted "u")
listings_own_example = listings_own 1 2 greeted "u" history
