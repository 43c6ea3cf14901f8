-- ===== src/Journal/Tables.antt =====
-- The tables of the journal, crates/reforge-restore/migrations, with the row types of
-- crates/reforge-restore/src/journal.rs. A table with a primary key is a map from it to the row; a
-- query for an identifier and a run is a lookup and a test of the row's run. Times are numbers, and
-- the JSON of a result, an error or a backup is its text. The JSON of an event that a transition
-- writes is one of the constructors of `EventBody`.
use windows_component_harnes.Prelude.{ℕ, suc, Option, List, [], ◌∷◌, ◌++◌}
use windows_component_harnes.Prelude.OrdMap.{OrdMap}
use windows_component_harnes.Prelude.Text.{Text}
use windows_component_harnes.Domain.Kinds.{
  RestoreMode, RunStatus, ApprovalState, OperationState, ManualActionState, RiskLevel,
}
use windows_component_harnes.Domain.Operation.{RunId, OperationId, Operation}

pub record JournalRun : Type 0 where
  pub id : RunId
  pub package_id : Text
  pub mode : RestoreMode
  pub target_fingerprint : Text
  pub status : RunStatus
  pub approval_state : ApprovalState
  pub approved_at : Option ℕ
  pub created_at : ℕ
  pub updated_at : ℕ

pub record JournalOperation : Type 0 where
  pub id : OperationId
  pub run_id : RunId
  pub operation : Operation
  pub state : OperationState
  pub attempt : ℕ  -- u32, stored as an i64
  pub started_at : Option ℕ
  pub ended_at : Option ℕ
  pub result : Option Text
  pub error : Option Text
  pub backup : Option Text

pub data EventBody : Type 0 where
  approval_changed : ApprovalState → EventBody
  run_status : RunStatus → EventBody
  operation_changed : OperationId → OperationState → ℕ → EventBody
  manual_action_added : Text → EventBody
  manual_action_changed : Text → ManualActionState → EventBody
  journal_recovered : EventBody

pub data EventLevel : Type 0 where
  info warn : EventLevel

pub record JournalEvent : Type 0 where
  pub seq : ℕ
  pub run_id : RunId
  pub time : ℕ
  pub level : EventLevel
  pub event : EventBody

pub record JournalManualAction : Type 0 where
  pub id : Text
  pub run_id : RunId
  pub state : ManualActionState
  pub title : Text
  pub reason : Text
  pub risk : RiskLevel
  pub instructions : List Text
  pub acknowledged_at : Option ℕ

abbrev pub Runs : Type 0
Runs = OrdMap RunId JournalRun

abbrev pub Operations : Type 0
Operations = OrdMap OperationId JournalOperation

abbrev pub ManualActions : Type 0
ManualActions = OrdMap Text JournalManualAction

-- `events.seq` is an AUTOINCREMENT key: `last_seq` is the largest number given so far.
pub record Journal : Type 0 where
  pub runs : Runs
  pub operations : Operations
  pub events : List JournalEvent
  pub manual_actions : ManualActions
  pub last_seq : ℕ

-- `insert_event_tx`
unfoldable pub insert_event : RunId → EventLevel → EventBody → ℕ → Journal → Journal
insert_event run_id level event now j = record j {
  events =
      j.events
      ++ record { seq = suc j.last_seq; run_id = run_id; time = now; level = level; event = event }
        ∷ [];
  last_seq = suc j.last_seq;
}
