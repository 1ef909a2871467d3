-- ===== src/Tests/Turns.antt =====
-- The theorems on the message aggregator at one short history.
use nukara.Base.{String, ◌≡◌, refl, [], ◌∷◌, All, length, trim}
use nukara.Chat.Aggregate.{
  AggregateInput, MessageAggregator, new_message_aggregator, add, flush, deliver, close_all,
}
use nukara.Chat.Counts.{total}
use nukara.Chat.Delivery.{Runs, starts, goes_on, adds, fires, delivers, held, in_turn}
use nukara.Chat.Messages.{HasText, deliver_first, every_message_held, every_message_sent}
use nukara.Tests.Samples.{conv, mia}

abbrev first : AggregateInput String
first = record {
  user_id = "u";
  conversation = conv;
  bot = mia;
  prompt = "hi";
  user_message_id = "m1";
  system_context = "";
}

abbrev second : AggregateInput String
second = record first { prompt = "are you there?"; user_message_id = "m2" }

abbrev waiting : MessageAggregator String
waiting = add (add new_message_aggregator first) second

abbrev delivered : MessageAggregator String
delivered = deliver (flush waiting "c1") 0

history : Runs new_message_aggregator (second ∷ first ∷ []) delivered
history =
    goes_on (goes_on (goes_on (goes_on starts (adds first)) (adds second)) (fires "c1"))
      (delivers 0)

All-HasText : All HasText (second ∷ first ∷ [])
unfolding trim
All-HasText = (refl, (refl, tt))

every_message_held_example : held "m2" delivered ≡ 1
every_message_held_example =
    every_message_held String "m2" (second ∷ first ∷ []) delivered history All-HasText

every_message_sent_example :
    let closed = close_all delivered in
    total (in_turn "m1") (deliver_first (length closed.in_flight) closed).queue ≡ 1
every_message_sent_example =
    every_message_sent String "m1" (second ∷ first ∷ []) delivered history All-HasText
