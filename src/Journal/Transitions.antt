-- ===== src/Journal/Transitions.antt =====
-- The transactions of crates/reforge-restore/src/journal.rs that change a run's approval or status, or
-- an operation's state. An error that is modelled here leaves the journal as it was: the transaction
-- is dropped before its commit. Tables have parsed rows, so the read behind the commit finds what was
-- written; the tests that it makes of the stored texts can fail with the change committed, and for
-- operations they stand in the executor. A journal's integers are natural numbers, with the bound of `u32` on attempts written out.
use windows_component_harnes.Prelude.{
  ℕ, ◌+◌, ◌^◌, Bool, true, false, not, ◌&&◌, ◌||◌, Option, none, some, leb, if◌then◌else◌,
}
use windows_component_harnes.Prelude.Order.{◌==◌}
use windows_component_harnes.Prelude.OrdMap
use windows_component_harnes.Prelude.Text.{Text, text_ord}
use windows_component_harnes.Domain.Error.{
  Result, ok, err, ◌>>=◌, ◌>>◌, coded_error, reject_if, operation_failed, schema_invalid,
  security_policy,
}
use windows_component_harnes.Domain.Kinds.{RunStatus, ApprovalState, OperationState}
use windows_component_harnes.Domain.Operation.{RunId, OperationId}
use windows_component_harnes.Journal.Tables.{
  JournalRun, JournalOperation, Journal, EventBody, EventLevel, insert_event,
}

abbrev pub is_approved : ApprovalState → Bool
is_approved ApprovalState.approved = true
is_approved _ = false

abbrev pub is_running_run : RunStatus → Bool
is_running_run RunStatus.running = true
is_running_run _ = false

abbrev pub is_running : OperationState → Bool
is_running OperationState.running = true
is_running _ = false

abbrev pub is_completed : OperationState → Bool
is_completed OperationState.completed = true
is_completed _ = false

abbrev pub is_skipped : OperationState → Bool
is_skipped OperationState.skipped = true
is_skipped _ = false

abbrev pub is_pending : OperationState → Bool
is_pending OperationState.pending = true
is_pending _ = false

unfoldable pub valid_approval_transition : ApprovalState → ApprovalState → Bool
valid_approval_transition ApprovalState.pending next = true
valid_approval_transition ApprovalState.approved ApprovalState.approved = true
valid_approval_transition ApprovalState.rejected ApprovalState.rejected = true
valid_approval_transition _ _ = false

-- a row that a query found, or the error for one that is missing
abbrev pub found : {A : Type 0} → Option A → Result A
found none = err (coded_error operation_failed none none)
found (some a) = ok a

-- a row read again behind the commit
abbrev pub fetched : {A : Type 0} → Option A → Result A
fetched none = err (coded_error schema_invalid none none)
fetched (some a) = ok a

abbrev pub or_else : Option ℕ → ℕ → Option ℕ
or_else none now = some now
or_else (some t) now = some t

abbrev pub put_run : RunId → JournalRun → Journal → Journal
put_run run_id run j = record j { runs = OrdMap.insert run_id run j.runs }

-- The common end of the two transactions on a run: the update, the event, and the row read again.
unfoldable pub commit_run :
    RunId → EventBody → JournalRun → ℕ → Journal → Result (Journal × JournalRun)
commit_run run_id body run now j = do
  let next = insert_event run_id EventLevel.info body now (put_run run_id run j)
  row ← fetched (OrdMap.get run_id next.runs)
  ok (next, row)

unfoldable pub set_approval_record :
    RunId → ApprovalState → ℕ → Journal → Result (Journal × JournalRun)
set_approval_record run_id state now j = do
  current ← found (OrdMap.get run_id j.runs)
  reject_if (not (valid_approval_transition current.approval_state state))
      (coded_error security_policy none none)
  let approved_at = if is_approved state then or_else current.approved_at now else none
  let run = record current { approval_state = state; approved_at = approved_at; updated_at = now }
  commit_run run_id (EventBody.approval_changed state) run now j

unfoldable pub set_run_status_record :
    RunId → RunStatus → ℕ → Journal → Result (Journal × JournalRun)
set_run_status_record run_id status now j = do
  current ← found (OrdMap.get run_id j.runs)
  reject_if (is_running_run status && not (is_approved current.approval_state))
      (coded_error security_policy none none)
  let run = record current { status = status; updated_at = now }
  commit_run run_id (EventBody.run_status status) run now j

abbrev pub of_run : RunId → Option JournalOperation → Option JournalOperation
of_run run_id none = none
of_run run_id (some o) = if o.run_id == run_id then some o else none

-- `fetch_operation`: `WHERE id = ?1 AND run_id = ?2`
abbrev pub fetch_operation : RunId → OperationId → Journal → Option JournalOperation
fetch_operation run_id operation_id j = of_run run_id (OrdMap.get operation_id j.operations)

-- `operations JOIN runs`
abbrev pub join_run :
    Option JournalOperation → Option JournalRun → Option (JournalOperation × JournalRun)
join_run none r = none
join_run (some o) none = none
join_run (some o) (some r) = some (o, r)

-- `UPDATE runs SET status = 'RUNNING' … AND status IN (…)`
abbrev pub may_run : RunStatus → Bool
may_run RunStatus.planned = true
may_run RunStatus.waiting_for_approval = true
may_run RunStatus.waiting_for_user = true
may_run RunStatus.waiting_for_reboot = true
may_run RunStatus.interrupted = true
may_run _ = false

unfoldable pub started_run : JournalRun → ℕ → JournalRun
started_run r now =
    if may_run r.status then record r { status = RunStatus.running; updated_at = now } else r

abbrev pub not_restartable : OperationState → Bool
not_restartable OperationState.running = true
not_restartable OperationState.completed = true
not_restartable OperationState.skipped = true
not_restartable _ = false

-- `checked_add(1)` on a `u32`
abbrev pub next_attempt : Bool → ℕ → Result ℕ
next_attempt false attempt = ok attempt
next_attempt true attempt =
    if leb (2 ^ 32) (attempt + 1)
    then err (coded_error security_policy none none)
    else ok (attempt + 1)

-- the columns that the transition writes
unfoldable pub changed_operation :
    JournalOperation
    → OperationState
    → ℕ
    → Option Text
    → Option Text
    → Option Text
    → ℕ
    → JournalOperation
changed_operation o state attempt result error backup now =
    if is_running state
    then record o {
      state = state;
      attempt = attempt;
      started_at = some now;
      ended_at = none;
      result = none;
      error = none;
      backup = none;
    }
    else record o {
      state = state;
      attempt = attempt;
      ended_at = if is_pending state then none else some now;
      result = result;
      error = error;
      backup = backup;
    }

abbrev pub both : (OperationState → Bool) → OperationState → OperationState → Bool
both p current next = p current && p next

abbrev pub only_current : (OperationState → Bool) → OperationState → OperationState → Bool
only_current p current next = p current && not (p next)

-- the writes of the transaction
unfoldable pub write_operation :
    RunId → OperationId → OperationState → JournalOperation → JournalRun → ℕ → Journal → Journal
write_operation run_id operation_id state row run now j =
    insert_event run_id EventLevel.info (EventBody.operation_changed operation_id state row.attempt)
      now
      (record j {
        operations = OrdMap.insert operation_id row j.operations;
        runs =
            if is_running state then OrdMap.insert run_id (started_run run now) j.runs else j.runs;
      })

-- the part of the transition behind its guards; the read behind the commit finds the row that was
-- written, and what `parse_operation` then tests of it stands in the executor's `transition_operation`
unfoldable pub make_transition :
    RunId
    → OperationId
    → OperationState
    → Option Text
    → Option Text
    → Option Text
    → ℕ
    → JournalOperation
    → JournalRun
    → Journal
    → Result (Journal × JournalOperation)
make_transition run_id operation_id state result error backup now o run j = do
  reject_if (leb (2 ^ 32) o.attempt) (coded_error schema_invalid none none)
  attempt ← next_attempt (is_running state) o.attempt
  let row = changed_operation o state attempt result error backup now
  let next = write_operation run_id operation_id state row run now j
  fetched_row ← fetched (fetch_operation run_id operation_id next)
  ok (next, fetched_row)

unfoldable pub transition_operation_record :
    RunId
    → OperationId
    → OperationState
    → Option Text
    → Option Text
    → Option Text
    → ℕ
    → Journal
    → Result (Journal × JournalOperation)
transition_operation_record run_id operation_id state result error backup now j = do
  current ← found (join_run (fetch_operation run_id operation_id j) (OrdMap.get run_id j.runs))
  reject_if (is_running state && not (is_approved current.1.approval_state))
      (coded_error security_policy none none)
  reject_if (is_running state && not_restartable current.0.state)
      (coded_error security_policy none none)
  reject_if
      (only_current is_completed current.0.state state
        || only_current is_skipped current.0.state state)
      (coded_error security_policy none none)
  if both is_completed current.0.state state || both is_skipped current.0.state state
      then (fetched (fetch_operation run_id operation_id j) >>= λ unchanged. ok (j, unchanged))
      else make_transition run_id operation_id state result error backup now current.0 current.1 j
