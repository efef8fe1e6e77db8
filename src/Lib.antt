-- ===== src/Lib.antt =====
-- The verification library of HopReact: alerts over a MeshCore network's repeaters and observers.
--
-- The program polls CoreScope, judges whether to believe what came, stores it, advances every rule
-- of every watch by one step, and queues messages in the transaction that saves the states; a
-- drainer sends them over Discord. The alerting path is modelled from the fetched snapshot to the
-- answer of Discord; each call of it is a function from the database and its inputs to the database
-- and its result.
--
--   Models        the records and constants of internal/store/models.go and
--                 internal/corescope/corescope.go; Models.Battery those of
--                 internal/store/battery.go, internal/corescope/battery.go and the payloads of
--                 internal/poller/battery.go
--   Clock         time.Time as nanoseconds since year 1 (0 is the zero time), time.Duration as a
--                 clamped int64; Clock.Unix is nullInt and timeFrom of internal/store/store.go
--   Floats        float64 as an interface, with the one law of its rounding that a theorem uses;
--                 Examples.Floats fills it with hundredths
--   Alert         internal/alert: Watch is Evaluate, promote and recover_; Feed is JudgeFeed and
--                 TripBreaker; Battery is EvaluateBattery, ClassifyBattery and
--                 ResolveBatteryLevels. Watch.Trace and Battery.Series run them over polls and
--                 checks, the newest first
--   Attribute     internal/attribute/attribute.go: Index is BuildIndex and Lookup, Evidence is
--                 Attribute
--   Store         internal/store/queries.go over a record of tables (Tables): Targets is
--                 UpsertTargets; Activity is UpsertActivity and AllActivity; Activity.Cursor is
--                 FeedCursor and SetFeedCursor; States is AllWatchState, SaveWatchState and
--                 RecordAlertEvent; Watches is ActiveWatches and AllRules; Outbox is the
--                 notifications table and SetDMStatus; Runs is StartPollRun, FinishPollRun,
--                 MaxRecentNodeCount and ConsecutiveNonAdvancingPolls; Prune is Prune; Rules is
--                 DefaultRules, insertRuleTx and ruleSeedObservation; Owner is what an owner's
--                 pages call for watches and rules, from CreateWatch to DeleteRule; Accounts is
--                 UpsertUser, DeleteUser and the sessions. Templates is
--                 internal/store/templates.go and Battery internal/store/battery.go
--   Poller        internal/poller/poller.go: Observe is ruleObservation, Label ruleLabel, Plan and
--                 Commit the two halves of evaluate, Ingest ingest, Once PollOnce;
--                 internal/poller/battery.go: Battery, Battery.Plan and Battery.Commit are
--                 checkBatteries, with what the owners do while CoreScope is asked as a list of
--                 calls
--   Notify        internal/notify/notify.go: Drain is DrainOnce, Fit fitContent
--   System        the calls of the program's loops and pages as a step relation on the database
--   Config        Validate of internal/config/config.go
--   Board         the verdicts of internal/web/status.go
--   Web           handleAddRule and handleUpdateRule of internal/web/web.go
--   Examples      the theorems at concrete inputs
--
-- Alert and Attribute are pure and know no table; Store knows no step of alerting, only its levels
-- and the state that a new rule begins in; Poller composes the two, Web calls the Store, and Notify
-- uses the outbox alone. System puts the calls of all of them in any order, each a transaction.
--
-- Texts are lists of code points, ids and counts natural numbers, a SQL table a list of rows in the
-- order of their ids, a Go map an association list or a function. Decimal numerals are printed with
-- a fuel of 20 digits, more than an int64 has. Every loop is a recursion on a list, except the one
-- of fitContent, which is one on the number of lines to keep.
--
-- Parameters stand for what is not in the repository: the page of packets and the battery reports
-- that CoreScope serves, the answer of Discord, float64, and strconv.Atoi, strings.TrimSpace,
-- url.Parse and time.LoadLocation where their results are used. What compose makes of a group of messages is a parameter of the
-- drain as well.
--
-- Not modelled: SQL errors and failed transactions, which SQLite rolls back; the CHECK constraints
-- of the tables and their foreign keys to users; nullString on the label of a new watch; positions and scores of
-- targets, and with them MarkCoreRepeaters; the reads that only pages make; the wording of messages;
-- the CoreScope and Discord clients; the web pages apart from the forms for rules and the verdicts of
-- the status board; the reading of the configuration file, weather, geography and charts, which are
-- input and output or floating-point work.
pub mod Common
pub mod Clock
pub mod Models
pub mod Floats
pub mod Alert
pub mod Attribute
pub mod Store
pub mod Poller
pub mod Notify
pub mod System
pub mod Config
pub mod Board
pub mod Web
pub mod Examples
