-- ===== src/Lib.antt =====
-- Reforge: restoring a Windows workstation from a reviewed package.
--
-- A user selects components of an inventory; the selection is closed under required dependencies
-- and frozen; a planner turns the frozen selection into typed operations, which an executor runs
-- behind a journal. This library models the decisions of that pipeline, not its calls of the
-- operating system.
--
-- * `Prelude` has what the parts share: Rust's `str` as code points (`Text`), `BTreeSet` and
--   `BTreeMap` as ascending lists (`OrdSet`, `OrdMap`), the stable sort (`Sort`), comparison as an
--   interface (`Order`), and lists measured by native numbers.
-- * `Domain` has the enums and structs of crates/reforge-domain/src/model.rs, the path tokens
--   (`PathToken::new`, `PathToken::validate` and `normalize_relative_path` are `new`, `validate`
--   and `normalize_relative_path` of `Domain.Paths`), the identifiers of
--   crates/reforge-domain/src/ids.rs (`ComponentId::new`, `ObjectId::new`, `OperationId::new` and
--   `OperationId::for_run` are `component_id`, `object_id`, `operation_id` and `for_run` of
--   `Domain.Ids`; which texts are run identifiers the uuid library decides, a parameter), and the
--   error codes with their retry policy (crates/reforge-domain/src/error.rs). A `Result` is a value,
--   an error envelope, or `stuck`, which stands for a panic or for fuel that ran out; `Ensures` says
--   what its value and its error are, and that it is not stuck.
-- * `Selection` is `build_selection_closure` of crates/reforge-domain/src/selection.rs: the indexes
--   (`Index`), the worklist (`Closing`), the policy (`Policy`) and the choice of artifacts
--   (`Picking`). The loop has one unit of fuel for each indexed component and one more, since a
--   component is pushed at most once.
-- * `Operations` is the part of crates/reforge-restore/src/operations.rs that compares versions,
--   builds the keys that order operations, makes one of two overlapping writes wait for the other
--   (`order_overlapping_writes`), and orders the specs by their prerequisites
--   (`topological_order`, in `Topology`). Its vectors panic out of bounds (`Arrays`), and its loop
--   has one unit of fuel for each key and one more, since each turn places another key. The proof
--   counts open prerequisites as edges (`Tally`): the counting loops find the edges that the specs
--   name (`Building`, `Counting`), the main loop keeps `IsSorting` (`Sorting`, `Releasing`,
--   `Placing`), and it ends with all keys placed or with keys that wait for each other (`Blocked`).
-- * `Journal` is the state machine of crates/reforge-restore/src/journal.rs: the tables with their
--   primary keys (`Tables`), the transactions on approval, status and operations (`Transitions`)
--   and on manual actions (`Manual`, `Adding`), the recovery of an interrupted journal
--   (`Recovery`), and sequences of transactions (`Steps`). Failures of SQLite are left out, as is
--   the creation of runs. Tables have parsed rows. `parse_operation` tests the row that a transition
--   reads behind its commit: that is a parameter of the executor's `transition_operation`, which then
--   fails with the change committed; the tests of rows that are listed are left out.
-- * `Executor` is `execute_with_progress` of crates/reforge-restore/src/executor.rs, with the part
--   of crates/reforge-restore/src/manual_actions.rs that it calls (`Queue`). A `Session` is the
--   journal, the world outside and the progress that was reported; a computation keeps what it
--   changed when it fails. The `Setting` has what stands around: the clock, the cancellation token,
--   the handlers, the serializer behind the redactor, the facts of the target, and the interfaces of
--   parts that are not modelled: the validation of a plan, the proof of a verification, and the tests
--   of a stored row.
--   `Checks` has the tests before an operation runs, `Run` and `Turns` the body of the loop by its
--   branches. `Moves` is the specification: what an execution may do to the journal, where only
--   `starts` lets an operation run. What handlers and the backup hook are trusted to do to the
--   journal is a `Charge`: transactions of every kind, or those that leave the operations to the
--   executor (`Outside`), as the program's handler of manual actions and reboots does
--   (`ManualHandler`, `ManualKeeps`; `Truthful` is about what that handler reports). `Starting` follows the starts along moves, and
--   `Entering` the tests before the loop.
-- * `Conflicts` is crates/reforge-restore/src/conflicts.rs.
--
-- Identifiers are their texts. The texts of errors pass through a redactor and are left out, as are
-- serialization, hashing, and the JSON extensions of a component. The planner, the restore handlers,
-- the verification of restored facts, the package format, discovery, the platform wrappers and the
-- user interfaces are not modelled.
pub mod Prelude
pub mod Domain
pub mod Selection
pub mod Operations
pub mod Conflicts
pub mod Journal
pub mod Executor
