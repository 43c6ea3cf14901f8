-- ===== src/Executor/Session.antt =====
-- What the executor of crates/reforge-restore/src/executor.rs works on: the journal, the world outside
-- of the program, and the progress that it has reported. A computation of the executor keeps what it
-- changed when it fails.
use windows_component_harnes.Prelude.{ℕ, Bool, Option, none, some, List, [], ◌∷◌, ◌++◌}
use windows_component_harnes.Prelude.Text.{Text}
use windows_component_harnes.Domain.Error.{Result, ok, err, stuck, ErrorEnvelope}
use windows_component_harnes.Domain.Kinds.{RunStatus, OperationState}
use windows_component_harnes.Domain.Operation.{
  Operation, OperationId, OperationKind, RunId, RestorePlan,
}
use windows_component_harnes.Domain.Component.{VersionValue}
use windows_component_harnes.Journal.Tables.{Journal, JournalOperation, JournalRun}
use windows_component_harnes.Journal.Adding.{Redactor}
use windows_component_harnes.Journal.Transitions.{
  set_run_status_record, transition_operation_record,
}

pub data OperationDisposition : Type 0 where
  completed skipped waiting_for_user waiting_for_reboot cancelled : OperationDisposition

-- JSON values are their texts
pub record OperationOutcome : Type 0 where
  pub disposition : OperationDisposition
  pub result : Option Text
  pub evidence : List Text
  pub backup : Option Text

pub data OperationSatisfaction : Type 0 where
  not_satisfied : OperationSatisfaction
  satisfied : (result : Option Text) (evidence : List Text) → OperationSatisfaction

pub record ExecutionReport : Type 0 where
  pub run_id : RunId
  pub status : RunStatus
  pub operations : List JournalOperation

-- a call of the progress callback
pub record Progress : Type 0 where
  pub operation : OperationId
  pub state : OperationState
  pub completed : ℕ
  pub total : ℕ

-- the JSON that the executor builds
pub data Detail : Type 0 where
  null cancelled_reason : Detail
  value : Text → Detail
  manual_action_skipped : Text → Detail
  verification_checked : Text → Detail

pub data Payload : Type 0 where
  outcome_payload : Detail → List Text → Option Text → Payload
  blocked_retry : Payload
  backup_value : Text → Payload

pub record Session (W : Type 0) : Type 0 where
  pub journal : Journal
  pub world : W
  pub progress : List Progress

abbrev pub Exec : Type 0 → Type 0 → Type 0
Exec W A = Session W → Result A × Session W

-- `OperationHandler`
pub record Handler (W : Type 0) : Type 0 where
  pub handles : OperationKind → Bool
  pub is_satisfied : Operation → Exec W OperationSatisfaction
  pub execute : Operation → Exec W OperationOutcome

-- What stands around the executor: the clock, the cancellation token, the serializer behind the
-- redactor, the handlers, and the facts of the target. The validation of a plan, the proof of a
-- verification and the tests of a stored row are other parts of the program.
pub record Setting (W : Type 0) : Type 0 where
  pub now : W → ℕ × W
  pub is_cancelled : W → Bool × W
  pub redactor : Redactor
  pub payload_text : Payload → Result Text
  pub error_text : ErrorEnvelope → Result Text
  pub blocker_reason : Option Text → Text
  pub both_backups : Text → Text → Text
  pub handlers : List (Handler W)
  pub backup_hook : Option (Operation → Exec W (Option Text))
  pub target_fingerprint : Text
  pub target_component_present : Text → Bool
  pub target_component_version : Text → Option VersionValue
  pub objects : List Text
  pub same_operation : Operation → Operation → Bool  -- the derived `PartialEq`
  pub validate_restore_plan : RestorePlan → Result (Unit {0})
  pub check_operation : JournalOperation → Result (Unit {0})  -- what `parse_operation` tests of a row
  pub operation_verification_proof : JournalOperation → List JournalOperation → Result (Option Text)

abbrev pub optional : {A B : Type 0} → (A → Result B) → Option A → Result (Option B)
optional f none = ok none
optional f (some a) = elim (f a) [ ok b ↦ ok (some b) | err e ↦ err e | stuck ↦ stuck ]

module _ {W : Type 0} where
  abbrev pub continue : {A B : Type 0} → Result A → (A → Exec W B) → Exec W B
  continue (ok a) next s = next a s
  continue (err e) next s = (err e, s)
  continue stuck next s = (stuck, s)

  infixl 5 ◌>>=◌ ◌>>◌
  abbrev pub ◌>>=◌ : {A B : Type 0} → Exec W A → (A → Exec W B) → Exec W B
  ◌>>=◌ m next s = let (r, t) = m s in continue r next t

  abbrev pub ◌>>◌ : {B : Type 0} → Exec W (Unit {0}) → Exec W B → Exec W B
  m >> next = m >>= λ done. next

  abbrev pub give : {A : Type 0} → Result A → Exec W A
  give r s = (r, s)

  abbrev pub reject : {A : Type 0} → ErrorEnvelope → Exec W A
  reject e s = (err e, s)

  -- `match … { Ok(a) => next(a), Err(error) => handle(error) }`
  abbrev pub branch :
      {A B : Type 0} → Result A → (ErrorEnvelope → Exec W B) → (A → Exec W B) → Exec W B
  branch (ok a) handle next s = next a s
  branch (err e) handle next s = handle e s
  branch stuck handle next s = (stuck, s)

  abbrev pub either :
      {A B : Type 0} → Exec W A → (ErrorEnvelope → Exec W B) → (A → Exec W B) → Exec W B
  either m handle next s = let (r, t) = m s in branch r handle next t

  abbrev pub or_fail : {A : Type 0} → Exec W A → (ErrorEnvelope → Exec W A) → Exec W A
  or_fail m handle = either m handle (λ a. give (ok a))

  abbrev pub read : {A : Type 0} → (Journal → A) → Exec W A
  read f s = (ok (f s.journal), s)

  -- a transaction: on an error the journal is as it was
  abbrev pub committed : {A : Type 0} → Result (Journal × A) → Session W → Result A × Session W
  committed (ok (j, a)) s = (ok a, record s { journal = j })
  committed (err e) s = (err e, s)
  committed stuck s = (stuck, s)

module _ {W : Type 0} (c : Setting W) where
  abbrev pub transact : {A : Type 0} → (ℕ → Journal → Result (Journal × A)) → Exec W A
  transact f s =
      let (time, w) = c.now s.world in committed (f time s.journal) (record s { world = w })

  abbrev pub ask_cancelled : Exec W Bool
  ask_cancelled s = let (b, w) = c.is_cancelled s.world in (ok b, record s { world = w })

  -- `Journal::transition_operation`; the row is read again behind the commit, so that a row that does
  -- not pass is an error with the change committed
  unfoldable pub transition_operation :
      RunId
      → OperationId
      → OperationState
      → Option Payload
      → Option ErrorEnvelope
      → Option Text
      → Exec W JournalOperation
  transition_operation run_id id state result error backup = do
    result_json ← give (optional c.payload_text result)
    error_json ← give (optional c.error_text error)
    backup_json ← give (optional (λ b. c.payload_text (Payload.backup_value b)) backup)
    row ← transact (transition_operation_record run_id id state result_json error_json backup_json)
    give (c.check_operation row)
    give (ok row)

  -- `Journal::mark_operation_running`
  unfoldable pub mark_operation_running : RunId → OperationId → Exec W JournalOperation
  mark_operation_running run_id id =
      transition_operation run_id id OperationState.running none none none

  -- `Journal::set_run_status`
  unfoldable pub set_run_status : RunId → RunStatus → Exec W JournalRun
  set_run_status run_id status = transact (set_run_status_record run_id status)

  abbrev pub report_progress : Operation → OperationState → ℕ → ℕ → Exec W (Unit {0})
  report_progress operation state count total s = (
    ok tt,
    record s {
      progress =
          s.progress
          ++ record { operation = operation.id; state = state; completed = count; total = total }
            ∷ [];
    },
  )
