-- ===== src/Lib.antt =====
-- A verification library for Koraku, an embeddable agent SDK in Python (package `koraku`).
--
-- A run of the agent is a loop: the history of the session is turned into the messages that a model
-- is sent, the streamed answer is gathered, the tools that it calls are checked and run, and their
-- results are added to the history for the next round. Around it stand the session store, the rate
-- limiter, a cache of upstream answers and the actions that wait for a click of the user.
--
-- The files and the code that they model, paths from the repository's root:
--   Prelude           lists, texts, dictionaries, JSON values and equality, shared by all.
--   Core/TtlCache     koraku/core/ttl_cache.py: `TtlCache` and `cache_get_or_set`.
--   Core/RateLimit    koraku/core/rate_limit.py: the sliding window in memory, and the Redis branch
--                     with the counter as a parameter.
--   Core/SessionStore koraku/core/session_store.py: `MemorySessionStore`, `get_or_create`, `_create`.
--   Core/Redact       koraku/core/redact.py, on JSON values.
--   Agent/Message     koraku/core/models.py and message_text.py: `AgentMessage`, and of
--                     `SessionState` the messages and the step count.
--   Agent/Pairing     when the tool results of a conversation answer its tool calls.
--   Agent/ContextManager   koraku/agent/context_manager.py: `process_messages` and its five stages.
--   Agent/Permissions koraku/agent/permissions.py.
--   Agent/ToolExecutor     koraku/agent/tool_executor.py, hooks.py, koraku/tools/policy.py and
--                     `Tool.run`: check, approval, hooks (the parent), retries and gathering
--                     (Execution).
--   Agent/Interactions     koraku/agent/pending_interactions.py; each operation is one step of the tasks
--                     that share the interactions (Settled).
--   Agent/Budget      koraku/agent/budget.py: turn limits, worker tools, `LoopTracker`.
--   Agent/WorkingMemory and Agent/UserMessage   koraku/agent/utils.py.
--   Agent/React       koraku/agent/run.py: `_synthesize_final_reply` and `_iterate_react_steps`
--                     (Rounds). It calls the modules above as the source does. Cases is the rule of
--                     its branches; the theorems on runs apply it.
--   Llm/Canonical     koraku/llm/canonical.py and the schemas of koraku/tools/tool_def.py: the tools
--                     (Tools), the messages (Messages) and the requests (Request) of the two wire
--                     formats. Protocol states what the OpenAI API asks of the order of messages.
--   Llm/ToolDeltas    koraku/llm/openai_delta.py.
--   Llm/Sanitize      koraku/llm/sanitize.py: the regular expressions (Matchers), where a text may
--                     have a marker (Markers), and `VisibleToolJsonFilter` (Filter).
--   Streaming/KorakuSse    koraku/streaming/koraku_sse.py: the objects that are sent (Payloads),
--                     `KorakuStreamState` (State), tool events and the ids of nested agents
--                     (ToolEvents), a model's events (StreamEvents), and
--                     `map_koraku_stream_events` (MapEvents).
--   Automations/EventTriggers   koraku/automations/event_triggers.py and koraku/core/secret_compare.py.
--   Automations/LocalStore   koraku/automations/local_store.py: the files of the automations, as a
--                       dict from ids to texts.
--   PendingActions    koraku/actions/pending_actions.py; `execute_action` is two steps, so that calls
--                     can overlap at its await. Calls runs several calls of an action one after
--                     another, and all at once.
--
-- How the code is modelled. A method takes the state that it changes and returns the new one. A
-- reading of a clock is an argument; clock readings and spans are numbers of ticks. A `str` is the
-- list of its code points; `lower` is that of ASCII. A JSON value keeps a number as its text. A dict
-- is a list of pairs in the order of insertion. What a tool, a hook, the user or a model answers is
-- given as a value, an exception among them, and the agent loop is given these round by round.
-- `json.loads`, `json.dumps`, `JSONDecoder.raw_decode`, the text of a value that is no string, `int` of
-- a number, SHA-256, `uuid` and what Python raises when it spreads an input into keyword arguments are
-- parameters. A regular expression is a function to the rest of the text; its folding of case is that
-- of ASCII letters. The `sub` of the patterns of redact.py is a parameter. The index of a streamed block is a number and no boolean.
--
-- Loops over a list are by its structure. The retries count down from `max_retries + 1`. The rounds
-- of the agent run on the fuel `max_rounds - step_count`; the eviction of sessions runs on as much
-- fuel as there are sessions, and each turn drops one. The loops of the stream filter have as much
-- fuel as the buffer is long, and each step leaves less. `decimal` has one more fuel than its number.
--
-- Not modelled: that tools of one message run at the same time (the outcome of each is given);
-- heartbeats, sleeps, log lines and events that are emitted but not yielded; the post-tool hook,
-- whose exceptions are suppressed; the set-up of a run (prompt, tools, MCP, context variables); the
-- Redis session store; an action id that is registered anew during the wait of a call; the parser of
-- tool calls in the whole text of an answer; the providers, integrations, the HTTP server and the SDK
-- surface, which pass data to outside services.
pub mod Prelude
pub mod Core
pub mod Agent
pub mod PendingActions
pub mod Llm
pub mod Automations
pub mod Streaming
