-- ===== src/Lib.antt =====
-- Portico (the repository's module name) is a desktop program with a local HTTP relay. Command-
-- line AI clients send their requests to the relay; the relay picks a provider from the
-- platform's route profile, rewrites the model name and forwards the request. Beside it an MCP
-- gateway connects to configured upstream servers and publishes their tools under one endpoint,
-- and a background worker writes the logs. This library models the parts that decide.
--
-- - Kernel: internal/shared/kernel/platform.go. A platform is its name; the session timeouts
--   are in nanoseconds.
-- - Routing/Wildcard: matchWildcard, applyWildcardMapping and wildcardMoreSpecific of
--   internal/routing/domain/models.go. A slice out of bounds is a panic, and a call that panics
--   is none.
-- - Routing/Provider: the Provider struct, its model lookup (IsModelSupported,
--   GetEffectiveModel), proxy choice and configuration check. A Go map is the list of its
--   entries in one order of iteration, and what depends on that order says so.
-- - Routing/Profile: RouteProfile with its lookups, ResolveProvider and PlanModelRewrite of
--   internal/routing/domain/resolver.go; Profile/Normalize and Profile/Validate are the two
--   methods of those names.
-- - Routing/Service: internal/routing/application/service.go. The repository is an interface
--   with a store of its own, the service is explicit state: that store, the profile cache and
--   the calls of SetProxyConfig.
-- - Mcp/Naming and Mcp/Server: internal/mcpgateway/domain, the public tool names and the server
--   configuration with Normalize and Validate.
-- - Mcp/Aggregator: internal/mcpgateway/application/aggregator.go. The record Aggregator is the
--   part of the struct under its lock, with the calls made to others in order. Aggregator.antt
--   has detachLocked, teardownLocked and registerToolsLocked; Sync has syncOnce, Close and
--   nextRetryDelay; Results has finishConnect, refreshTools and markFailed; Calls has what
--   makeCallHandler and onUpstreamToolsChanged read; Views has connectAndRegister,
--   TestConnection, ToolCatalog and Statuses; Loop has reconcileLoop, its timer and
--   NotifyChanged, with the steps of the other goroutines and of the clock in between. Reach
--   makes each of them one step and a run any sequence of steps, which covers every
--   interleaving, since each holds the lock from its first read to its last write. Keeping
--   reduces what every run keeps to ten changes that the operations are made of, and Everywhere
--   what holds of every record to the changes of a record. Ownership, Filled, Replay, Served,
--   Closed, Generations, Stale and the children of Calls are about these runs, Converging about
--   one pass over the configuration, the children of Loop about the loop. In Loop a goroutine
--   that let go of the lock still owes its call of NotifyChanged, and only from the answer of
--   nextRetryDelay to the set timer the clock stands still.
-- - Worker: internal/shared/worker/background_worker.go. One step is what runs between two
--   waits of the goroutine, one call of Enqueue, or Stop.
-- - Sessions/Cache: internal/sessions/infrastructure/cache.go. Each definition is one section
--   under the mutex; the LRU of golang-lru is a parameter, with its documented laws as a
--   record, and what the session service answers between two sections is an argument. Current
--   and Keeping say what each section makes of the generation of a session, and Generations of
--   the sections in any order.
-- - Sessions/Locks: LockSession of internal/sessions/application/service.go. Callers are a
--   list, a pointer to a lock is a number, and each section under the mutex of the registry and
--   each step of a lock's mutex is one step, in any order. Counting, Sound, Entering, Leaving,
--   Exclusive and Ending are its children.
-- - Sessions/Service and Sessions/Repository: Unbind and RecordSessionBackground of that file,
--   and internal/sessions/infrastructure/sqlite_repository.go. The table is the map of its
--   unique key to its other columns; Repository/Runs takes the operations in any order, Answers
--   and Visible are about what is read.
-- - Pricing: resources/model-pricing/price.go, the price tables, the search for a model's
--   entry, its cache and the merge of a price file. A cached answer and the section under the
--   write lock are each one step.
-- - Observability/Tokens: internal/observability/infrastructure/token_parser.go, the token
--   counts read from an answer.
-- - Relay/CodexStream: internal/interfaces/http/relay/codex_stream.go, the end of a Codex
--   response stream.
-- - PlatformProxy/EnvText, EnvLine and EnvEdit:
--   internal/platformproxy/infrastructure/env_edit.go, the lines of a dotenv file, one line,
--   and the changes of a file. EnvLine/Heads, Parsed and Values are about one line,
--   EnvEdit/Lines about splitting and joining, and Reparse, SetLine, Changed, Restore, Other,
--   Both and Reading about setting and restoring variables.
-- - PlatformProxy/State and PlatformProxy/Address: proxy_state.go, configfile.go and baseurl.go
--   of that directory. A disk is the tool's file and the state file, and the record Faults says
--   which calls of the operating system fail. State/Recoded has what encoding/json makes of the
--   lines in the state file.
-- - PlatformProxy/Gemini: gemini.go of that directory, EnableProxy, DisableProxy and
--   ProxyStatus on a disk, with the children Keeps, Usable and Cycle; State/Outcomes and
--   State/Usable have what it shares with Claude.
-- - PlatformProxy/JsonEdit and PlatformProxy/Claude: json_edit.go and claude.go of that
--   directory. The packages encoding/json, gjson and sjson are the record JsonLibrary.
-- - Relay/Body, Relay/Route and Relay/Manual: request_body_replacements.go and routing.go of
--   internal/interfaces/http/relay: the changes of a body, prepareForwardContext, and
--   routeToManualProvider as the list of the calls that it makes.
-- - Base: what the parts share: Boolean tests on the native numbers, lists, maps, text as a
--   list of bytes, signed integers, results. Tests: concrete inputs.
--
-- How the parts meet: the relay asks the routing service for a profile, the profile for a
-- provider, and the provider for the effective model; the aggregator takes servers that passed
-- the check of Mcp/Server and publishes names made by Mcp/Naming; the Gemini manager changes
-- the tool's file with the dotenv editor and keeps the lines that it read in the state file.
--
-- Bounds. No definition runs on fuel: every loop is structural on a list. Integers are
-- unbounded; those of the source count providers, tools and nanoseconds and stay far below
-- 2^63. Text is bytes; TrimSpace and ToLower are modelled on ASCII text. SortFunc is insertion
-- sort, which Go uses up to twelve elements; beyond them Go leaves the order of equal positions
-- open. A time is a number of nanoseconds and 0 is the zero time. The references of a session
-- lock are counted without a bound. The generation of a session wraps at 2^64 as uint64 does.
-- Go visits the records of the aggregator in any order; the model takes them in the order of
-- their list.
--
-- Parameters, for code that is not in the repository: SHA-256 (with the fact that its digest
-- has 64 hexadecimal characters, where that is used), url.Parse, the digest in Fingerprint,
-- golang-lru, gjson, sjson, encoding/json (with the facts that gjson takes valid JSON out of
-- valid JSON for the two fields of the Claude tool, and that encoding/json gives a string in
-- valid UTF-8 back as it was, where these are used), utf8.ValidString, strconv.Quote and
-- Unquote, the repository behind the routing service, the processor of the worker, the answers
-- of upstream servers and the clock. The prices are floats and their completion,
-- ensureCachePricing, is a parameter too.
--
-- Kept lines are taken to be valid UTF-8, except in State/Recoded: encoding/json replaces other
-- bytes in the state file.
--
-- Not modelled: the HTTP and UI glue, SQL beyond what its statements do to the session table,
-- files beyond what the takeovers read and write, processes, JSON parsing, and the parts that
-- the components of the manifest list as such. A tool's input schema and annotations are left
-- out of the aggregator.
pub mod Base
pub mod Kernel
pub mod Routing
pub mod Mcp
pub mod Worker
pub mod Pricing
pub mod Observability
pub mod Relay
pub mod PlatformProxy
pub mod Sessions
pub mod Tests
