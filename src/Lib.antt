-- ===== src/Lib.antt =====
-- cyberwatch-rs: a service that gathers news and vulnerability records from public sources, stores
-- them in SQLite, checks the sources against each other and serves the result over HTTP.
--
-- The parts and how they meet. src/refresh.rs takes requests for a refresh and runs one at a time;
-- a refresh runs the registered sources of src/ingest/mod.rs, each through the HTTP client of
-- src/ingest/http.rs, checks what a source emits by src/ingest/source.rs, writes it through
-- src/db.rs, and then judges each CVE by src/ingest/validate.rs. src/api.rs serves what is stored
-- and starts refreshes; src/config.rs sets the bounds of all of them.
--
-- Files:
-- - Models: the records of src/models.rs, field by field.
-- - Http/Address, Http/Url, Http/Redirect: `public_address`, `validate_outbound_url`,
--   `validate_redirect` and the redirect policy of `build_client`. The `url` crate is the interface
--   `UrlApi`: an abstract type with the accessors that the code calls.
-- - Http/Fetch: `send_limited` and `send_once`. What each attempt of a request answers is an
--   argument, so a theorem holds for every network; bodies are lists of bytes.
-- - Refresh: the coordinator. What `request` and `worker` do between two awaits is one event, and a
--   schedule is any list of events, so every interleaving of the two is a schedule.
-- - Db/SyncState, Db/Backoff: the table `sync_state` as an association list, and the backoff of
--   failing sources over it. Times are numbers, and `chrono` is an interface, whose sum of a time and
--   a delay may have no result, where the code panics.
-- - Source/Output, Source/Registry: the check of a source's output, and the registry of adapters.
-- - Ingest/Run: `run_one_source` over an interface of the repository, as a computation that keeps
--   the repository's state when it fails. How the adapter ends (a result, a panic, the deadline) is
--   an argument. Ingest/Run/Stored fills the interface with the operations of src/db.rs on its
--   tables.
-- - Ingest/Tally: the loop of `run_sources` over the outcomes in the order in which they arrive.
-- - Validate: `calculate_validation`. Scores are an abstract type with comparisons (Prelude/Float).
-- - Classifier: `classify`, the severities and the shortened texts of src/classifier.rs.
-- - Api/Error, Api/CveId, Api/Query, Api/Authorize: the checks that src/api.rs makes of a request.
-- - Api/Diagnostics: the handler `refresh_status`.
-- - Config, Config/Env, Config/Load, Config/Feeds: `from_lookup` of src/config.rs with its readers,
--   clamps and guards, and the catalogue of feeds. The environment is a function, and the files, the
--   parsers of JSON and of socket addresses are arguments. An `i64` is a size with a sign, and is
--   clamped to a number at once.
-- - Ingest/Sources: `build_registry`, with the descriptors of the adapters.
-- - Ingest/Json, Ingest/Nvd, Ingest/Cisa, Ingest/Epss: src/ingest/nvd.rs, src/ingest/cisa.rs and
--   src/ingest/epss.rs: the windows and pages of NVD, the addresses of the catalogue, the chunks of
--   EPSS, and the mapping of each record. A parsed JSON value is abstract (the interface `Crates`).
-- - Db/Store, Db/Items, Db/Page, Db/Evidence, Db/Retention, Db/Stats, Db/Health: the other tables and
--   statements of src/db.rs. A statement is a function on lists of rows. It succeeds, but for the
--   CHECK constraints of src/schema.sql, and a transaction that fails leaves the store as it was.
-- - Api/Handlers: the other handlers, over the queries of the repository (`Queries`).
-- - Healthcheck: `probe_address`, the reads of `probe`, and `check_status` of src/healthcheck.rs.
-- - Prelude: Boolean tests, lists, results, texts as Rust's `str` has them and their order, ORDER BY
--   as an insertion sort, LIKE, decimals, tables, sets.
--
-- Bounds and fuel. Numbers are unbounded, and a saturating operation or a conversion of the source is
-- written out at its width (`usize` and `u64` have 64 bits). Every loop is a structural recursion,
-- over the retries that are left, the chunks of a body, the items of a list or the events of a
-- schedule; `to_string` of a number has the number plus one as fuel, which exceeds its digits.
-- src/ingest/nvd.rs reads 500 pages at most, and its loop recurs on the pages that are left; the
-- configurations of a record are searched 129 deep, as serde_json refuses a text deeper than 128. The
-- chunks of a list have its length as fuel, and each takes one element at least.
--
-- Not modelled: src/ingest/github.rs and src/ingest/feeds.rs but for their descriptors;
-- `run` and `fetch_canonical_evidence` of src/ingest/validate.rs; `metrics`, the admission of
-- requests and the headers of src/api.rs; opening and migrating the database (src/db.rs);
-- src/demo.rs and src/main.rs; and the searches by regular expressions of src/classifier.rs.
pub mod Prelude
pub mod Models
pub mod Classifier
pub mod Validate
pub mod Http
pub mod Db
pub mod Refresh
pub mod Api
pub mod Source
pub mod Ingest
pub mod Config
pub mod Healthcheck
