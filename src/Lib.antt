-- ===== src/Lib.antt =====
-- Intermute coordinates coding agents: they send each other messages, poll their inboxes and
-- reserve files by glob patterns before they edit. The library models the parts of the server
-- that decide.
--
-- Glob is internal/glob/overlap.go, whole. Ranges has the range algebra (`rangesOverlap`,
-- `normalizeRanges`, `intersectRanges`, `subtractRanges`), Pattern the tokens and the texts that
-- they match, Parse the parser (`parseSegment`, `parseClass`, `readClassRune`), Search the
-- breadth-first search of `segmentTokensOverlap`, Paths the patterns of paths
-- (`NormalizePattern`, `PatternsOverlap`, `ValidateComplexity`). A rune is its code point and a
-- pattern its list of runes. The Go loops over indices are recursions on the lists that are left.
-- The search runs on fuel: its queue holds each pair of positions at most once, so (length a + 1)
-- * (length b + 1) + 1 rounds are enough, and the fuel of the closure is three for each pair; an
-- index out of range or a lack of fuel is a fault, which is shown not to come. The parser runs on
-- the length of its text.
--
-- Reservations is the table file_reservations of internal/storage/sqlite/sqlite.go: `Reserve`,
-- `ReleaseReservation`, `CheckConflicts`, `SweepExpired`, the queries, and
-- `HasReservationOverlap`, which asks Glob. A call is one transaction on the table and the
-- clock's reading is an argument; a history is any sequence of calls, as the database has one
-- connection. Stamp is the text of a time, from the date down to the fraction of a second, and
-- the order in which SQLite compares such texts, which decides what is active; it takes times
-- before the year 10000.
--
-- Resilience is internal/storage/sqlite/circuitbreaker.go, retry.go and
-- internal/http/rate_limiter.go. The breaker holds its lock twice in a call, so a call is two
-- steps, between which others may come. The jitter and strings.ToLower are parameters.
--
-- Contact is the gate of a message in internal/http/handlers_messages.go and core/domain.go; what
-- it asks the store is a record of functions. Auth is internal/auth/middleware.go; the lookups of
-- keys and tokens, the two functions of the strings package and whether the peer is local are
-- fields of a record.
--
-- Memory is `InMemory` of internal/storage/storage.go over the types of internal/core/models.go:
-- events, inboxes, threads, topics (Memory.antt), and the agents (Memory/Agents). Go maps are
-- association lists (Base/Maps); their order stands for one order of iteration. The cursor wraps
-- at 2^64 as the uint64 does.
--
-- Messages is the tables of messages in internal/storage/sqlite/sqlite.go, one transaction for
-- each `AppendEvents`: what an event writes (Messages.antt), the queries (Queries), receipts and
-- pokes (Receipts). Mailbox is what a store of messages promises: the deliveries of a run of
-- events to an agent, of which a reader gets pages; Rows, Sound and Reads show it of the tables,
-- Refinement of the store in memory. Envelope is internal/core/envelope.go, the text in which a
-- message is put into a terminal.
--
-- Domain is internal/storage/sqlite/domain.go. The operations are written once for an interface
-- of the columns (`Columns`, with its laws), which the entities fill: specs and epics (Plans),
-- stories, tasks and sessions (Work), journeys (Journeys), insights (Insights). A version is an
-- int64, as its residue modulo 2^64.
--
-- Live is a send in internal/http/handlers_messages.go from the decoded request to the response:
-- the plans (Live.antt), the deliveries and their events (Delivery), the handler (Send), which
-- appends to the tables of Messages. The injection into a terminal is a function of the number of
-- the attempt, and the windows and focus states that the store answers are a record.
--
-- Registry is the table of agents in internal/storage/sqlite/sqlite.go: registration, with the
-- reuse of a session whose agent is stale, heartbeats, the listing and metadata (Registry.antt),
-- policies, focus and contacts (Policies), window identities (Windows).
--
-- Handlers is the rest of internal/http/handlers_messages.go, with handlers_threads.go,
-- handlers_inbox_pokes.go (Reading, Writing) handlers_reservations.go (Leases),
-- handlers_agents.go (Agents), handlers_window_identity.go (Panes) and, of handlers_domain.go,
-- specs, epics, stories and tasks (Entities), on decoded requests; a broadcast is sent to the
-- agents that Registry lists, through the policies of Contact, into the tables of Messages.
--
-- Not modelled: drivers and their errors, JSON and HTTP routing, migrations, the WebSocket
-- gateway, tmux, the client and process set-up, which are input and output around these parts;
-- the handlers of insights, sessions and journeys; the wrapper of the resilient store around each
-- method, whose breaker and retries are modelled.
pub mod Base
pub mod Glob
pub mod Stamp
pub mod Reservations
pub mod Resilience
pub mod Contact
pub mod Memory
pub mod Auth
pub mod Envelope
pub mod Messages
pub mod Domain
pub mod Live
pub mod Registry
pub mod Handlers
pub mod Tests
