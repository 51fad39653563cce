-- ===== src/Lib.antt =====
-- The HITL Hub, a service that takes requests for a human decision, stores them, publishes them to
-- the user's inbox, and resolves them.
--
-- The program. A service sends a request to `HITLEngine.request` (core/engine.py), which validates
-- it with the plugins of core/validator.py, looks for a retry with the same idempotency key, makes
-- an event (models/events.py), stores it through core/repository.py, publishes it to a Nostr relay
-- (core/nostr_bridge.py), runs the lifecycle hooks (core/lifecycle.py) and the notification plugins
-- (core/dispatcher.py). The user's answer calls `approve` or `reject`, a client polls with `check`
-- or blocks in `wait`, and a periodic task expires what is stale. Paths are below src/nodus_hitl_hub
-- of the repository.
--
-- The files.
--   Base      tests, lists, texts and integers over the native numbers, `int()` of a text, and ORDER
--             BY and LIMIT with what a page promises (Sorting, Pages)
--   Json      the dynamic values, their dict operations, the printer of `json.dumps`, and which of
--             its texts the ::jsonb cast takes (Cast)
--   World     the rows of the tables of db/migrations, the clock, the random source, and what was
--             sent; World/Exec is the coroutine: state passing with exceptions, writes before a
--             raise stay; World/Tasks is the coroutine cut at its awaits
--   Host      pydantic, asyncpg's text argument, `str`, `int` of a float and `uuid4`, as parameters
--             with their laws
--   Models    models/hitl.py, models/events.py and models/notify.py, and `isoformat` (Time)
--   Validators core/validator.py (Defs), plugins/validators (Plugins); Choice is about the choice of
--             a validator, Accepted, Checks and Requirements about what passes
--   Repository core/repository.py, one definition for each query, `get` as `get_event`; Rows has the
--             values of `insert` and `_row_to_event`, Ledger an abstract specification that
--             Refinement shows the statements to implement, Later what outlives them all, Unique
--             what the keys say, and Keys, Writes, Updates, Expiry, Shown and Inbox the other proofs
--   Lifecycle core/lifecycle.py and core/dispatcher.py (Defs), and their isolation (Isolation)
--   Bridge    core/nostr_bridge.py: the publication, and the start and stop of the bridge (Session)
--   Engine    core/engine.py: Defs has every method but `wait`, which is in Wait. The methods are
--             cut where a proof or another task may come between: `request` is `create_once`,
--             `create`, `announce` and `publish`; `approve` is `resolvable` and then
--             `finish_approve`. Kept, Publish, Fresh, Reads and Create lead to Request and Retry;
--             Resolve and Written are about the resolutions, Waiting about the loop, Presence and
--             Answered about the loop while other tasks work. Resolution is `_handle_resolution` of
--             core/nostr_bridge.py, which calls the engine; Authority is about who may resolve,
--             Race about two at once, Growth about what a new request leaves alone, Decided and
--             Final about what comes after, and Listener has the loop that listens; Steps chains
--             what they do. Tasks has `request`, `approve` and `reject` cut at each await; Alone is
--             about one of them alone, Schedule has a hub whose tasks take turns, Secured the rules
--             by which a task relies on the others, and Promises, Promised, Resolving and
--             Concurrent what the calls promise and keep
--   Notify    core/channels.py (Channels), core/notify_repository.py (Store), core/notify_engine.py
--             (Defs), and the history of both (History); `send` is `send_notification`, its loop
--             `send_all`, the guards of the loop `prepare`. Admission is about the guards, Attempts
--             and Sending about what is attempted and logged, Keeping and Untouched about what a
--             notification leaves alone, Quiet about the quiet hours, Acks about `mark_acked`,
--             Paging about the history, Shown about what is sent and then shown
--   Hooks     plugins/hooks (Defs): the hooks at each transition; Conflicts is about the call of the
--             model book, Reasons about the audit of a rejection, Keeping about what no hook writes;
--             Expiry is the background task, Deadline what it is for
--   Channels  plugins/channels (Defs), with their registry, and what a delivery does (Delivery) and
--             leaves alone (Keeping)
--   Notifiers plugins/notifications: the events that sse.py and nostr.py build and do not send
--   Mcp       mcp/rest.py (Rest), mcp/tools.py and mcp/resources.py (Tools), and `model_dump`
--             (Dump); Guard is about the token, Creations and Decisions about the two POST routes,
--             Lasting about what a resolution leaves for later ones, Shapes about the codes, and
--             Agreement about the route and the tool that make a request
--   Database  db/queries.py, with `sorted` and `endswith` (Order), and the run (Migrations)
--   Bootstrap bootstrap.py: `get_engine` cut at its awaits, each piece a case of `resume_at`, and a
--             schedule of tasks; Single is about the one engine, Recovery about a failed start,
--             Wiring about the engine that is built
--   Server    server.py: the entries of the app, each with what is registered for it. Routes and
--             Tools are about what an entry does to the requests, Finality about the process, in
--             which entries, the relay, the expiry and the clock follow one another
--   Examples  concrete runs of the theorems
--
-- Conventions. Times are microseconds since datetime.min and end at datetime.max, with the
-- OverflowError beyond. A JSONB column holds the value that was printed into it, and refuses a text
-- with \u0000, NaN or an infinity; a TEXT column takes every text. `int` of a text reads the digits
-- of ASCII, without Python's limit on their number. A lock that is free goes to any task that asks
-- for it, where asyncio.Lock has the tasks that wait in the order of their calls: every schedule of
-- the program is one of the model. A SELECT without ORDER BY gives the rows in the order of their
-- insertion. Each statement takes effect at one time. The clock stands still within one operation;
-- in `wait` it moves in the sleeps, which are an argument, since other tasks run then. The loop of
-- `wait` runs on fuel; one unit more than the microseconds that are left is enough where each sleep
-- moves the clock. The loops of the listener and of the expiry task run on the list of what they
-- meet, an event, a sleep in which other tasks run, a crash or the cancellation. An exception has
-- its class and no text: where the text is shown it is a parameter.
--
-- Not modelled: the import machinery that discovers plugins, whose result is a list; the
-- construction and the run of the FastMCP application; the checks that FastMCP makes of the
-- arguments of a tool and the parsing of a body, whose results are arguments; the SQL of the
-- migrations, beyond the columns of the rows; the signing and the transport of nostr-sdk, httpx and
-- asyncpg.
pub mod Base
pub mod Json
pub mod World
pub mod Host
pub mod Models
pub mod Validators
pub mod Repository
pub mod Lifecycle
pub mod Bridge
pub mod Engine
pub mod Notify
pub mod Hooks
pub mod Channels
pub mod Mcp
pub mod Database
pub mod Notifiers
pub mod Bootstrap
pub mod Server
pub mod Examples
