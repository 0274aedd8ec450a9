-- ===== src/Lib.antt =====
-- herdr-telegram-agents mirrors the coding agents of a Herdr terminal into Telegram: a forum topic for
-- each agent, private mirrors for the people that an agent is shared with. The daemon learns agents
-- from Herdr's socket (the registry), keeps the topics that it wrote (the mapping), compares the two,
-- and writes to Telegram through a queue that paces its calls. A share is checked by a fixed set of
-- conditions each time that work of its recipient is handled.
--
-- The files and what they model:
-- - Domain/Status.antt: internal/domain/status.go, statuses and topic names.
-- - Domain/Key.antt, Domain/Agent.antt: internal/domain/agent.go, and ParseKey and Desired of
--   internal/domain/mapping.go. A key is written as a string in the mapping file and read back.
-- - Domain/Mapping.antt: internal/domain/mapping.go, each method as a function from a mapping to a
--   mapping and what the method returns; KeyForThread and DedupeThreads are in Domain/Threads.antt.
-- - Domain/Reassociation.antt: PlanReassociation of internal/domain/mapping.go, pass by pass, with what
--   a plan guarantees in Passes.antt; Domain/Reassociation/Apply.antt: ApplyReassociation.
-- - Domain/Sharing.antt, Domain/Access.antt: internal/domain/sharing.go and internal/domain/access.go.
-- - Domain/Events.antt: the socket events of internal/domain/events.go.
-- - App/Registry.antt: internal/app/registry.go, a function for each handler, from a registry to a
--   registry, the events to emit and whether a snapshot is needed. The mutex makes each handler one
--   step, so that a run is a sequence of steps.
-- - App/Debouncer.antt: internal/app/debounce.go. The goroutine of a timer is a step of its own, which
--   interleaves with the calls of the owner.
-- - App/Presence.antt: internal/app/presence.go and internal/domain/presence.go. Poll is a step before
--   and a step after the probe of the idle source, so that commands can come in between.
-- - Domain/Sharing/State.antt: the stored sharing state and Validate, and BotIdentity of
--   internal/domain/setup.go.
-- - App/Sharing.antt: the record, the saves and the registration of internal/app/sharing.go; its
--   children Contacts, Grants, Sweeps, Mirrors and Dispatch have the other methods, and Steps.antt puts
--   them into one relation. Each method takes the store as a function from a state to an outcome, and a
--   call in flight is a token with the revision at which it was let through.
-- - Domain/Version.antt: Compare of internal/domain/version.go.
-- - Domain/History.antt: internal/domain/history.go; -1 as a mark is none.
-- - Domain/Command.antt: internal/domain/command.go, the arguments in Args.antt, ParseCommand and Route
--   in Parse.antt, CutOverlay and DialogText in Texts.antt, the workspaces in Workspaces.antt.
-- - State/SharingStore.antt: internal/adapters/state/sharing_store.go over what a file may hold; its
--   Save is a store that App/Sharing.antt can take.
-- - State/Inbox.antt: the room that internal/adapters/state/inbox.go makes.
-- - Telegram/Admission.antt: the budgets of internal/adapters/telegram/private_admission.go. The
--   proofs keep a record of the requests that were let through beside the state.
-- - Telegram/Errors.antt: isRetryable and retryAfter of internal/adapters/telegram/errors.go. An
--   error is the list of the errors in its chain.
-- - Telegram/Queue.antt: internal/adapters/telegram/queue.go. The ring of attempt times is a list of
--   fixed length; execute runs over what each of its rounds meets.
-- - Encoding: base64 without padding, hexadecimal and UTF-8, as the Go packages do them.
-- - Common: maps as association lists, byte strings, white space, letter case, decimal numbers,
--   sorting, slices, integers.
-- - Tests: concrete runs.
--
-- How Go is represented: a string is the list of its bytes; a map is an association list in which
-- insert replaces; a nil pointer or a missing value is none. An int64 that is only compared is an
-- integer. A time is a number of nanoseconds, with 0 as the zero time; a wait that Go makes negative
-- is 0 here, since the code treats both alike. The revision of a grant is a uint64, and its successor
-- is taken modulo 2^64. Of the package unicode, the case tables beyond ASCII are a parameter
-- (CaseTable), as is time.ParseDuration, which computes fractions in floating point.
--
-- Bounds and fuel: PutUvarint has room for ten bytes, the size of the buffer of the source, enough
-- for any length below 2^63. The loop of execute runs at most MaxTries times, which is its own bound.
-- A decimal number
-- has no more digits than its value plus one, the fuel of itoa. All other loops are over lists.
--
-- Not modelled: JSON files, sockets, goroutines and channels, the Bot API, log lines, and the parts of
-- the program outside the files above. SHA-256 is a parameter.
pub mod Common
pub mod Encoding
pub mod Domain
pub mod Telegram
pub mod State
pub mod App
pub mod Tests
