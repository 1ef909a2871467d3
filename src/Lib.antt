-- ===== src/Lib.antt =====
-- Nukara: the backend, Nukara_Backend/internal (Go): its store, and the chat, scheduler, web-socket and
-- memory code around the store.
--
-- The backend keeps users, their bots, the bots' conversations and messages, and what the agent
-- remembers in a store (Nukara_Backend/internal/store). The HTTP and web-socket API and the scheduler
-- call the methods of the store; the agent runtime asks the provider router which language model a
-- request goes to. A web-socket connection carries frames; a hub knows the connections of each user.
-- The web-socket API gathers the messages that a user sends in a row into one turn of the agent; a reply
-- is cut into messages. The scheduler sends messages of its own accord. A subtask after a turn
-- proposes a patch of the bot's persona, which is validated and either applied or put to the user, and
-- the memory graph supplies the cards of the next prompt.
--
-- Files:
--   Base       helpers: lists, Go's `int`, texts and package strings, maps, sort.Slice
--   Store      store.go, agentx_data.go and temporal_memory_graph.go of internal/store
--     Types, AgentTypes        the records, with the fields in the order of the source
--     State                    Store and NewStore
--     Notifications, Persona, Segments   the functions without state
--     Presence, Accounts, Bots, Chats, Activity   the methods of store.go
--     AgentData                the methods of agentx_data.go
--     MemoryGraph              the methods of temporal_memory_graph.go
--     Index, Tables            the consistency of users, bots and conversations
--     Invariant, AgentSteps, Reachable   each method as a step, and histories of steps
--     the children (Chats/Unread, Bots/Updates, Bots/Others, ...), Laws and Listings hold
--                              the theorems
--   Provider   agentx/provider/router.go: Router the code; Order, Routes and FirstActive
--              the theorems
--   Chat       api/ws_chat_aggregate.go: Aggregate the code, Prompts, Counts and Delivery the lemmas,
--              Messages the theorems over histories of calls and timers
--   Persona    agentx/persona: Changes, Risk and Compiler the code (changes.go, risk.go, compiler.go),
--              Bounds, Routing and the end of Compiler the theorems
--     Content, Flow, Status    api/chat_flow.go (processChatMessage), Turn its theorems
--     Emotion                  api/emotion_tracker.go: the buffer, with its theorem
--   Scheduler  api/scheduler.go: Clock (parseHHMM, isDND), Triggers (detectTrigger), Process
--              (processUser) and Send (sendProactiveMessage, tick); Locale is api/locale_context.go;
--              Allowed and Spacing hold the theorems
--   Socket     api/ws_conn.go: Bytes, Frames (readFrame, writeFrame), Reading their theorems, Loop
--              (ReadText); the theorems on it are at its end and in Answers
--   Hub        api/ws_hub.go, with Sessions and Refinement the lemmas and Runs the theorem
--   Memory     agentx/memorygraph: Component and Reachable (collectComponent of recall.go), Trim and
--              Cards (cards.go)
--   Reply      agentx/postprocess/split.go: Split the code, Visible and Bounds the theorems
--   Subtasks   agentx/subtasks: Extract (ParseMemoryItems), Decide (decidePersonaChange), Remember,
--              Apply and Runner (runner.go), Runtime (DeriveRuntimeState); Normal, Eligible and
--              Growth hold the theorems
--   Tests      the theorems at concrete inputs
--
-- A method `(s *Store) M(args)` is a function `m` from the store and the arguments to the new store
-- and the results, with the name of the method in lower case; a method that only reads returns its
-- results alone. `none` or `false` stands for a missing result or an error. The mutex makes each method
-- one atomic step.
--
-- Conventions:
--   * A reading of the clock and a result of NewID are arguments, one for each call in the source. That
--     NewID returns no identifier that is in use is a hypothesis where it matters.
--   * `time.Time` is a number of nanoseconds since the zero time, `float64` is its bit pattern.
--   * `int` is an integer; counters wrap around at 64 bits (`inc`).
--   * A string is a valid UTF-8 text. ToLower and EqualFold are modelled as far as letters of ASCII
--     result, which is what the code compares with; where it compares with any text (the filters of
--     ListPersonaChangeEvents and of the memory graph, and decidePersonaChange) they are parameters
--     (CaseRules).
--   * A map is an association list, whose order is one order of iteration; sort.Slice is an insertion
--     sort by the same comparison, which is one of the results it may have.
--   * The sum of a clock reading and a duration does not wrap around.
--   * The aggregator's timers are not part of its state: a flush may happen at any time. A buffer that was
--     taken out of the map is in flight until it is enqueued, in any order. The queue is the list of turns
--     in the order of the enqueue calls.
--   * itoa writes at most 20 digits, which is more than an `int` has.
--
--   * The language model, the push service, the clock of a time zone, the results of rand and of
--     ParseDuration, the hash and what a connection does with a write are arguments.
--   * The functions of RunnerDeps (memory tool, ingestion, summary) are parameters, and so are json.Unmarshal
--     and time.Parse, and in decidePersonaChange IsPunct and IsSymbol.
--   * A byte is a number below 256, a connection the bytes still to be read; that input ends before a
--     frame is complete is an error of ReadFull.
--   * Loops without a bound of their own run on fuel: ReadText on one more round than the input has
--     bytes (a frame uses at least six), collectComponent on one more than the map has targets (each is
--     queued once), splitLongByMaxRunes on one more than the text has runes (a round cuts off at least
--     one). Theorems show that this fuel is enough.
--   * processChatMessage, bufferAndAnalyzeEmotion and the rounds of the scheduler make several calls of
--     the store. A run of them is modelled without calls of other requests between: the theorems on
--     them are about one run at a time.
--   * The calls of the hub are run one after the other; delivery goes to the sessions of this process.
--
-- Not modelled: the Postgres store (SQL), the clients of language models, most HTTP, web-socket and admin
-- handlers, mail and push, Redis, and the frontends, which are input and output around the store; code
-- whose result rests on JSON, regular expressions or float64 arithmetic (the scores of the memory
-- graph); and, so far, the ingestion of the memory graph.
pub mod Base
pub mod Store
pub mod Provider
pub mod Chat
pub mod Persona
pub mod Scheduler
pub mod Socket
pub mod Hub
pub mod Memory
pub mod Reply
pub mod Subtasks
pub mod Tests
