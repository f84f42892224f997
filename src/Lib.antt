-- ===== src/Lib.antt =====
-- better-pg-keeper (pganalyzer) collects statistics of a PostgreSQL server into SQLite, analyses them,
-- runs rules on the analysis, and keeps a table of suggestions; a notifier announces what changes in
-- that table. The coordinator (internal/collector) runs the collectors that are due and records for
-- each snapshot which of them contributed. The analysis says which data domains were observed
-- (internal/analyzer). The suggester (internal/suggester) runs the rules on it and moves the rows of
-- the suggestions table between active and resolved, through the Storage interface that
-- internal/storage/sqlite fills. The notifier (internal/notifier) reads that table every minute,
-- compares it with what it last sent about each issue, delivers one message to its channels, and
-- records what it sent.
--
-- Files and what they model:
-- - Models: internal/models/models.go, the rows. A severity is one of three constants or another text,
--   a status one of three constants or unset; a time is a number of nanoseconds.
-- - Storage/Db: the SQLite database as its tables. Environment gives the driver's outcome of each
--   statement and the readings of the clock.
-- - Storage/Suggestions: internal/storage/sqlite/storage.go, the suggestions table; the SQL statements
--   as functions on the list of rows (refresh, new_row, resolve_row and the others), and in Ops the Go
--   functions statement by statement (UpsertSuggestion as upsert_suggestion, and so on). Keys, Lookup
--   and Listed hold their lemmas.
-- - Storage/Notifications: internal/storage/sqlite/notifications.go, the states of the announced issues
--   and the notifier's times.
-- - Storage/Snapshots: internal/storage/sqlite/storage.go, the snapshots and which collector
--   contributed to which. Storage/Purge is PurgeOldSnapshots, with the runs that its foreign key
--   deletes, and ListSnapshots.
-- - Analyzer/Coverage: internal/analyzer/analyzer.go, DomainCoverage, AnalysisResult and DomainsUsable.
--   The findings of the analysis are a type parameter, since only the rules read them.
-- - Analyzer/Domains: resolveDomains and StalenessBudget: the snapshot that last carried each domain,
--   and whether it is stale.
-- - Analyzer/Main: internal/analyzer/main.go, Analyze (analyze) as a begin and the steps of
--   run_analyzers, one for each sub-analyzer; Same, Steps, Answers, Own, Cache and Complete follow one
--   domain through the steps.
-- - Analyzer/TimeRange, Analyzer/Counts, Analyzer/Snapshot: the rest of internal/analyzer/main.go:
--   AnalyzeWithTimeRange, GetIssueCount with its siblings, and analyzeActivity, analyzeLocks and
--   analyzeTransactions.
-- - Analyzer/Indexes: internal/analyzer/indexes.go: detectUnusedIndexes, detectDuplicateIndexes and
--   redundantWith. The map of tables joins the schema and the table by a dot, so that what is said of
--   tables asks for schema names without dots. Groups is about that map, Served about what makes an
--   index redundant, Retained about what is kept.
-- - Suggester/Rule, Suggester/Store: the interfaces Rule and Storage of internal/suggester. A rule is a
--   parameter; the storage comes with what the suggester relies on.
-- - Suggester/Collect, Suggester/Suggest: internal/suggester/suggester.go, Suggest: the loop over the
--   rules (run_rules), the map of active rows (build_existing), the upsert loop (upsert_all) and the
--   resolve loop (resolve_all). Steps is the induction over a run; Resolvable, Hidden, Safety, Frame,
--   Recovery, Resolves, Reported, Opens and Reopens use it.
-- - Suggester/Sqlite: the SQLite storage keeps what the suggester relies on.
-- - Notifier/Message, Notifier/Settings, Notifier/Deliver: internal/notifier/message.go (severityRank,
--   sortItems), the configuration, and deliver, item, link, alertTitle of
--   internal/notifier/notifier.go.
-- - Notifier/Message/Sorted is about the sorted items, Notifier/Deliver/Accepts about deliver.
-- - Notifier/Store, Notifier/Evaluate: the Storage interface of the notifier and evaluateSuggestions:
--   visit_active is the switch of its first loop, visit_state its second loop, decide both, and
--   carry_out the writes and the delivery. The closures that write a state are the values of Write.
-- - Notifier/Collection: checkCollection, one call (check_collection) and a history of calls
--   (collection_run).
-- - Config: the server, scheduler and index advisor sections of internal/config/config.go and their
--   validation in internal/config/validation.go.
-- - Notifier/Schedule: lastDigestSlot, previousSlot and ParseWeekday. The loop back to the configured
--   weekday has fuel for six steps, which last_digest_slot-IsLatest shows to be enough.
-- - Notifier/Digest: buildDigest (build_digest) and maybeSendDigest (maybe_send_digest) of
--   internal/notifier/digest.go.
-- - Notifier/Sqlite: the SQLite storage keeps what the notifier relies on.
-- - Collector/Coordinator: internal/collector/coordinator.go, Collect and CollectAll (collect,
--   collect_all), the choice of the due collectors and of the snapshot, and the run of one collector
--   (run_collector). Failures and Cycles follow a collector that fails through a cycle. Collector/Store
--   and Collector/Sqlite are its storage.
-- - Scheduler: internal/scheduler: executeCollection, executeAnalysis, executeMaintenance and
--   TriggerSnapshot with the health that they write; Health is about histories of them. Runs is Start,
--   StopWithTimeout and the manual lock as a step relation: a stop takes the pointer (begin_stop),
--   closes the channel (close_channel) and returns (finish_stop), with any other steps in between;
--   Calls counts the calls of a run, Valid and Steps are the invariant, and Single what follows from
--   it; Pipeline joins the analysis and the suggester.
-- - Rules: internal/suggester/rules: Indexes is the two index rules, over the findings of the index
--   analyzer (Safe joins both); Slots is the rule on replication slots and standbys, Risk the rules on
--   prepared transactions and sequences. Floating-point numbers are a record of the operations that the
--   rules use.
-- - Plans/Split, Plans/Columns, Plans/Ddl: internal/plans/plans.go and ddl.go: splitAnd and
--   stripParens, IndexColumns, and the DDL of an index.
-- - Tests modules run the definitions on small tables and apply the statements to them.
-- - Common: lists, texts, tables with a key, maps filled from a list, stable sorting.
--
-- How the source is read. A Go map is a list of entries, and the order in which range visits it is a
-- parameter that keeps the entries (IsOrder). An error is its text; errors.Join is the list of the
-- texts, empty for nil. State is passed explicitly. Every statement of the storage may fail, at any
-- point of a run. Durations of the configuration are not negative, as its validation wants, so that
-- differences of times are compared by sums. stripParens has fuel for as many rounds as its text is
-- long, which strip_parens-IsBare shows to be enough. No other loop needs fuel: each runs over a list,
-- or over the digits of a number. Statements of one run are not interleaved with those of another
-- writer: a dismissal between two statements of a run is outside the model.
--
-- Parameters: the sub-analyzers and the factor of the staleness budget, which are or compare
-- floating-point numbers; the matches of the regular expressions of the index advisor; unicode.ToLower;
-- the rules, the collectors' outcomes and times, the PostgreSQL client, json.Marshal, the SQLite driver
-- and the clock (Environment), the channels' Send, the wording of the collection alert's detail, the
-- top queries of a digest (which are ranked by floating-point times), the verdict on a fix, the format
-- of a date, and strings.ToLower after strings.TrimSpace. Local times are taken in a location whose
-- offset does not change, from 1970 on.
--
-- Not modelled: the rendering of messages, the other tables of the storage, the collectors, the checks
-- of queries, caches, tables, risk and settings, the description of plans, and the other rules. Left
-- out: the HTTP API, the web pages, logging, metrics and start-up, which are glue and I/O.
pub mod Common
pub mod Models
pub mod Storage
pub mod Analyzer
pub mod Suggester
pub mod Notifier
pub mod Collector
pub mod Config
pub mod Plans
pub mod Rules
pub mod Scheduler
