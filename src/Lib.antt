-- ===== src/Lib.antt =====
-- A model of the query-log sink, which receives Trino's query events, buffers them and writes them to
-- a table that a dashboard, an API and a command line read.
--
-- An event that POST /ingest receives is checked and turned into a row (Event, Store/FromEvent,
-- Server/Ingest), cut to byte caps (Store/Truncate) and put into the buffer (Ingest). The buffer's one
-- goroutine collects a batch, deduplicates it and flushes it to a backend, with retries (Ingest/Flush,
-- Ingest/Run). A backend clamps and chunks the rows and sends a statement or a batch for each chunk
-- (Store/Trino, Store/ClickHouse). Readers list the table through a filter (Store/Query, Server/Filter,
-- Server/Pages). An accepted configuration (Settings) keeps what these parts rely on, and a job deletes
-- old days (Retention).
--
-- Files and code:
-- - Base: Go's int and int64 (ℤ), strings as their bytes, strings.Fields, strings.TrimSpace,
--   strconv.Atoi and decimal printing, lists and Boolean tests.
-- - Event: internal/event/event.go (the records, Validate as validate, SourceValue). Event/Durations:
--   duration.go, with a grammar of the durations that it accepts.
-- - Store/Row, Store/Identifier: internal/store/store.go and identifier.go (Row, args, schemaColumns,
--   quoteIdent); Store/Calendar: queryIDDay, with the calendar that time.Parse reads by.
-- - Store/FromEvent: internal/store/row.go (RowFromEvent, ApplyPlanPolicy, WithPreview).
-- - Store/Truncate: internal/store/truncate.go. Store/Chunk: chunk.go. Store/Errors: errors.go, the
--   errors as the trees that wrapping builds. Store/Batches: the loop of InsertBatch, which both
--   backends have in the same words.
-- - Store/Trino: internal/store/trino.go (buildStatements, SplitBatch, InsertBatch, insertChunk,
--   clampRow). Store/ClickHouse: clickhouse.go (newClickHouseStore, the DDL, SplitBatch, InsertBatch,
--   insertChunk, batchToken with Token/Separate, clickhouseParamValue); Store/ClickHouse/Reading and Prune: clickhouseWhere,
--   ListQueries, GetQuery, Validate, Init, Prune. Store/Trino/Operations: Validate, ListQueries,
--   GetQuery, Prune, Optimize, Maintain, Init and the DDL of trino.go. Store/Cursor: the loops over the
--   rows of a query. Store/Calendar/Civil: the layouts of Time.Format that the stores use, with the days
--   behind them (Days, Ordered, Padded, Written, ReadBack). Store/Trino/Open and Store/ClickHouse/Options: NewTrino
--   and NewClickHouse.
-- - Store/Cache: internal/store/cache.go, GetQuery and ListQueries through the cache.
-- - Store/Query: internal/store/query.go, and the statements of ListQueries and GetQuery in trino.go.
-- - Ingest/Dedupe, Ingest/Flush, Ingest/Run: internal/ingest/buffer.go (dedupe; flush, insert, split;
--   Add, run, drain, Close as a step relation).
-- - Server/Metrics: internal/observability/metrics.go. Server/Ingest: internal/server/ingest.go, one request and
--   a sequence of them (Described, Served).
--   Server/Filter, Server/Pages, Server/Links and Server/Detail: internal/server/api.go and ui.go;
--   Server/Format: format.go.
-- - Settings: internal/config/config.go (the records, validate and Load), and the buffer's configuration in
--   cmd/trino-query-log-sink/main.go. Retention: internal/prune/prune.go and optimizeWindowStart.
-- - Server/Readiness, Server/Routes and Server/Requests: internal/server/server.go. Client:
--   internal/querycli (Arguments: querycli.go; Request, Connection, Commands: client.go, list.go, get.go, plan.go;
--   Plan: the hotspots; Format, Printed: format.go and the printed texts; Understood: what the server reads
--   of a request). Main: cmd/trino-query-log-sink/main.go, internal/store/factory.go and
--   internal/observability/log.go.
-- - Tests: concrete inputs.
--
-- State and calls: a state is a record that the functions pass on; a pointer is an Option, a time its
-- nanoseconds from January 1 of year 1, a duration its nanoseconds. What a flush calls outside the
-- buffer is a record Env of functions on a world; the calls of the Observer are recorded in their
-- order. A database, a ClickHouse driver, json.Marshal and SHA-256 are arguments; what the theorems
-- need of a database is a record of hypotheses that a concrete store in Tests satisfies. A ClickHouse server
-- drops a block whose insert_deduplication_token it has (Store/ClickHouse/Blocks), while the window that the
-- table is created with holds it, and may have recorded a block though its send fails.
--
-- Bounds: the loop of clampRow has its 1000 iterations as fuel, of which 21 * 47 are enough for texts
-- below 2 ^ 47 bytes, since each round halves a text or ends. The loop of flush recurs on the attempts
-- that are left. decimal has 20 rounds, enough for 64 bits. The loop of parseWithID has a round for
-- each argument and one more, since each round takes an argument away; that of the duration parser has a
-- round for each byte and one more. humanBytes has six rounds, enough for 63 bits. Lengths and counts are natural numbers, as
-- memory bounds them far below 2 ^ 63; the doubling of the backoff and the counters wrap at 64 bits.
--
-- Not modelled: what is logged, templates, scanDests, Close of the stores (calls of the driver) and the usage
-- texts. Floating point (durations, quotients that are printed with a fraction, percentages), regular
-- expressions, drivers, fs.Parse, time.ParseDuration, the HTTP client, the tabwriter, the escaping of URLs
-- and HTML, JSON and the form %q of a text are arguments.
pub mod Base
pub mod Event
pub mod Store
pub mod Ingest
pub mod Settings
pub mod Retention
pub mod Server
pub mod Client
pub mod Main
pub mod Tests
