-- ===== src/Lib.antt =====
-- A model of the core of do-runtime, which runs Durable Objects in a browser.
--
-- An actor's events pass an input gate, and its messages an output gate. Its facets get their ids
-- from an index file and are deleted by receipts, and its alarms are kept by a scheduler, whose next
-- wake a coordinator projects onto the one alarm that a browser extension has. Each part is a
-- component here, and its module's folder holds the proofs.
--
--   FacetIndex      src/server/facet-tree-index.ts, `FacetTreeIndex`: the constructor
--                   (`open_index`), `getId` (`get_id`), `forEachChild` (`for_each_child`).
--                   `FacetIndex.Format` is the file format, `Load` the recovery of a file,
--                   `Ids` what ids promise, `Children` the sorted listing.
--   InputGate       src/io/io-gate.ts, `InputGate`, `Lock` and `CriticalSection`. The root module
--                   has locks and their release, `InputGate.Sections` has `wait`, `succeeded`,
--                   `failed`, `drop` and cancellation.
--   OutputGate      src/io/io-gate.ts, `OutputGate`: `lockWhile` with its ends, `wait`, `onBroken`.
--   AlarmScheduler  src/server/alarm-scheduler.ts. The root module has the table, the entries and
--                   the requests of an actor, `Ladder` the delays, `Delivery` the pieces of
--                   `#makeAlarmTask` between its awaits, `Loading` the constructor.
--   AlarmCoordinator  src/browser/alarm-coordinator.ts, `BrowserAlarmCoordinator`: `project`,
--                   `reconcile` and `fire` as lists of effects; `Crashes` has every order of
--                   calls, stops and starts of the worker.
--   FacetDeletion   src/server/facet-deletion.ts: receipts (`record_deletion`, `clear`), the
--                   controller (`run_deletion`, `delete_facet`), `FacetDeletion.Epochs`, and the
--                   serialized queue in `FacetDeletion.Queue`.
--   HibernationMirror  src/server/hibernation-mirror.ts: the sockets that outlive a container.
--   SqliteMetadata  src/util/sqlite-metadata.ts, with the savepoints and rollback callbacks of
--                   src/util/sqlite.ts that it uses.
--   StorageVersion  src/util/sqlite-migrations.ts: the version of a file and its migration.
--   ActorSqlite     src/io/actor-sqlite.ts, `ActorSqlite`, `ImplicitTxn` and `ExplicitTxn`. The root
--                   module has what may throw, writes and `transactionSync`, `Transactions` explicit
--                   transactions and the end of a turn, `Scheduling` and `Commits` the pieces of
--                   `commitImpl` with the scheduler and the database, in any order, `Handler` the
--                   alarm handler. `Sqlite` is what SQLite documents of transactions, `Sync` and
--                   `Programs` are the reference, by snapshots, that the code implements.
--   IoContext       src/io/io-context.ts, `IoContext`: `run` and `#runImpl`, `#exit` at the end of a
--                   checkpoint, `getInputLock`, `abort`, the start of `blockConcurrencyWhile`.
--                   `Turns` has every order of slices, events and checkpoints.
--   ActorId         src/server/actor-id-impl.ts, ids and their factory, over src/server/sha256.ts,
--                   which is `ActorId.Sha256` and runs.
--   ActorContainer  src/server/actor-container.ts: `ClassInstance`, `assertCanSetAlarm` and
--                   `#deliverAlarmImpl`. `ActorContainer.Facets` is `FacetManagerImpl` over the
--                   queues of `ActorTree.runOperation`, with an entry as a number and the ids as a
--                   function of the names. `ActorContainer.Tree` is the same over `FacetIndex`,
--                   and `ActorContainer.Descendants` the walk over a subtree.
--   Common          what they share: maps in insertion order, results, words of bytes.
--
-- State is passed explicitly, in records with the fields of the classes. A call that may throw
-- returns a `Result`. Asynchronous code is cut at its awaits: each piece is a function, and any
-- order of calls is a composition of them. Objects that are shared, such as gates, locks and
-- entries, are numbers, and a promise is a place in a queue or an entry of a list of settled ones.
--
-- Loops are structural, or recursive on fuel: the loop that reads an index file on the number of
-- its bytes, since each round consumes at least one; the walk from a critical section to the gate
-- that has taken it over on the number of the section, since a parent is older than its child; the
-- walk over a subtree on the number of entries, since a child has a larger id than its parent. That
-- the fuel is enough is proved for each.
--
-- Numbers are natural numbers. Words in files keep their width and byte order, and the shift of
-- the retry ladder its 32 bits. Times are whole milliseconds. The platform is a parameter: the
-- encoder and the decoder of text, the clock, `Math.random`, and whether SQLite refuses a write.
--
-- Not modelled: the hooks of the gates, which only count; the promise plumbing of the scheduler
-- and of the projector; of an I/O context the tasks, `waitUntil`, timers, the end of a critical
-- section and diagnostics; of an actor container the copies of subtrees, the start of its class,
-- its entries, RPC proxies and web sockets, and the database behind the index file; parsers of
-- untyped values; the storage engines, the reads and writes of keys and the API classes; transport,
-- build tooling and tests; the vendored agents package.
pub mod Common
pub mod FacetIndex
pub mod InputGate
pub mod OutputGate
pub mod AlarmScheduler
pub mod AlarmCoordinator
pub mod FacetDeletion
pub mod HibernationMirror
pub mod SqliteMetadata
pub mod ActorSqlite
pub mod StorageVersion
pub mod IoContext
pub mod ActorId
pub mod ActorContainer
mod Examples
