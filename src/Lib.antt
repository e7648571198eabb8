-- ===== src/Lib.antt =====
-- funduq-server: a gateway that connects callers, agent providers and LLM providers to a core, the
-- package `funduq`, and the SDKs at the other ends of its two sockets. The gateway keeps no record
-- of its own. It opens links after a handshake, carries frames between a socket and the core,
-- answers HTTP at several doors, and decides who may read a thread.
--
-- The parts and their files, by their paths from the repository's root:
--   Prelude, Text, Json   lists, results, texts and JSON values as Python sees them. An exception
--                         is a value, `raise`, with its class and its text.
--   Funduq                the core and the contract package. Neither is in this repository, so both
--                         are records of functions that the definitions take as parameters.
--   Reads                 souk_server/reads.py: `may_read`.
--   WsCommon              souk_server/ws_common.py: frames, the wait for hello, the writer.
--   WsProvider            souk_server/ws_provider.py: an agent provider's socket. `Link` is
--                         `SocketProvider`, `Query` is `_answer_query`, `Hello` is `_hello_error`,
--                         `Registration` is `_parse_registration`, `Verdict` is `_parse_verdict`,
--                         `Socket` is the read loop of `provider_socket`, and `Session` what stands
--                         around it, with `_watch_registration`.
--   WsKyok                souk_server/ws_kyok.py: an LLM provider's socket, in the same parts;
--                         `Link` is `SocketLLMProvider` with its answer streams.
--   ApiA2a, ApiAgui,      souk_server/api_a2a.py, api_agui.py and api_llm_bridge.py: the HTTP
--   ApiLlmBridge          doors. Deps is deps.py, the statuses of the core's errors.
--   ApiRegistry           souk_server/api_registry.py and api_health.py: tickets, rosters, probes.
--   Settings              souk_server/config.py: the core's settings, read from the environment.
--   Docent                souk_server/mcp_docent.py: `Market` and `Tools` are its descriptions and
--                         its tools, `Search` is `_matches`, and `Hosts` its host policy.
--   Presenter             souk_server/presenter.py: who presented a request.
--   AgentSdk              souk-agent-sdk/souk_agent_sdk/client.py: the provider's end of its
--                         socket. `Queries` and `Offers` are what it asks and what it is offered,
--                         `Connection` is `_run_connection`. `Presenter` and `A2aClient` are
--                         a2a_client.py beside it, `KyokAuth` kyok_auth.py.
--   KyokBridge            souk-client-sdk/souk_client_sdk/kyok_bridge.py: the caller's LLM
--                         provider. `Completion` is `_serve_one`, `Connection` is
--                         `_serve_connection` with the completions in flight.
--   SoukClient            souk-client-sdk/souk_client_sdk/client.py: the lookup of an agent, and in
--                         `Run` the body of a run and what the client keeps of its stream.
--   SampleAgent           providers/pydantic-ai-agent/pydantic_ai_agent: `History`, `Resolve`,
--                         `Delegate`, `SoukTools` and `Conversations` are history.py, resolve.py,
--                         sub_agent_tool.py, souk_tools.py and main.py.
--   OpenaiCompat          providers/openai-compat-agent/openai_compat_agent/main.py: a run relayed
--                         to an endpoint of OpenAI's format.
--   Wire                  no code of its own: both ends of one wire, put together.
--   Examples              a small core and small tests.
--
-- State and time. A connection is a record, and a session is a list of events, each run to the
-- next await of its task: a message read, a query task that ends, the watcher waking, a call of
-- the core on the link, or any other change of the core. `serve` folds them over the connection
-- until the read loop has ended, so every interleaving is a list. The frames put on the queue of
-- a socket are kept in order in `outbound`, and `write_loop` is what the writer sends of them. A
-- function that awaits several reads takes the states of the core at those reads, `at 0`, `at 1`
-- and so on, which may all differ. The two SDK connections are told in the same way, by their
-- happenings: a frame read, a turn of a task, a question asked on the connection.
--
-- Values. A text that goes over a wire is the JSON value that it stands for; where the gateway reads
-- a frame or a presenter's header, the exception that `json.loads` may raise instead is kept too. A
-- text stands for its bytes, and whether it can be encoded is a parameter. A float is kept by its
-- text and, where it is whole, its number. Texts are compared by code points. `drain` counts the
-- items that a reader asks for; a count above the number of chunks in the queue is enough to see
-- the end of a stream. The text of a number is written by fuel, one round for a digit; the fuel is
-- the number and one more, which is above its digits. A time is a count of microseconds. Nothing
-- else is bounded by fuel.
--
-- Not modelled: the routes and the wiring of the web framework and of the MCP SDK, TLS, logging,
-- the URLs that are derived for a socket, and the endless reconnect loops; the assembly of the
-- server and the gateway's own settings; key files; the start of the sample providers, the model
-- and the tool objects of the pydantic-ai one, and its texts of a card and of the guides; the agent
-- template.
-- The HTTP calls between a client and a door, hashes, signatures, the clock and the pydantic models
-- are parameters.
pub mod Prelude
pub mod Text
pub mod Json
pub mod Funduq
pub mod ApiRegistry
pub mod Reads
pub mod Settings
pub mod WsCommon
pub mod WsProvider
pub mod WsKyok
pub mod KyokBridge
pub mod Wire
pub mod AgentSdk
pub mod SampleAgent
pub mod SoukClient
pub mod Examples
pub mod Deps
pub mod Docent
pub mod ApiA2a
pub mod OpenaiCompat
pub mod Presenter
pub mod ApiLlmBridge
pub mod ApiAgui
