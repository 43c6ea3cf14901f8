-- ===== src/Executor/Truthful.antt =====
-- What `ManualActionHandler` of crates/reforge-restore/src/manual_actions.rs reports about an
-- operation, and what the journal has for it.
use windows_component_harnes.Prelude.{
  Bool, true, false, ◌≡◌, refl, sym, ◌⊎◌, inl, inr, Option, none, some, List, arith, Bool-cases,
}
use windows_component_harnes.Prelude.Text.{Text, text_ord}
use windows_component_harnes.Domain.Error.{Result, ok, err, stuck, ok-injective}
use windows_component_harnes.Domain.Kinds.{ManualActionState, OperationState}
use windows_component_harnes.Domain.Operation.{ManualAction, Operation, OperationKind, RunId}
use windows_component_harnes.Journal.Tables.{Journal, JournalManualAction, JournalOperation}
use windows_component_harnes.Journal.Transitions.{fetch_operation}
use windows_component_harnes.Executor.Session.{
  OperationDisposition, OperationOutcome, OperationSatisfaction, Session, Setting, Exec, continue,
  give, read, ◌>>=◌,
}
use windows_component_harnes.Executor.Queue.{complete_action}
use windows_component_harnes.Executor.Checks.{is_acknowledged}
use windows_component_harnes.Executor.Stored.{IsStored, load_action-Keeps}
use windows_component_harnes.Executor.ManualHandler.{
  HandlerDetail, operation_run_id, or_operation_error, outcome_of, is_skipped_action,
  waits_for_reboot, load_action, satisfied_by, satisfied_after_reboot, check_kind, act_on, run_kind,
  cancelled_or, manual_action_handler,
}

-- the value behind a computation that ends with a function of it
ends_with :
    {W A B : Type 0} (m : Exec W A) (f : A → B) (s : Session W) (b : B)
    → ((m >>= λ a. give (ok (f a))) s).0 ≡ ok b
    → (a : A) × (f a ≡ b)
ends_with {A = A} m f s b e = after (m s).0 e
  where
    after :
        (r : Result A) → (continue r (λ a. give (ok (f a))) (m s).1).0 ≡ ok b → (a : A) × (f a ≡ b)
    after (ok a) e = (a, ok-injective e)
    after (err x) e = cc (e)
    after stuck e = cc (e)

-- The operation is a manual action whose stored state passes a test.
abbrev pub HasAction :
    {W : Type 0}
    → Setting W
    → (Text → Option RunId)
    → Operation
    → Journal
    → (ManualActionState → Type 0)
    → Type 0
HasAction c parse_run_id op j P =
    (action : ManualAction) × (op.kind ≡ OperationKind.open_manual_action action)
    × ((stored : JournalManualAction) × IsStored c parse_run_id op action j stored × P stored.state)

-- What a disposition that the handler reports says of the operation and the journal it was called on.
abbrev pub IsReported :
    {W : Type 0}
    → Setting W
    → (Text → Option RunId)
    → Operation
    → Session W
    → OperationDisposition
    → Type 0
IsReported c parse_run_id op s OperationDisposition.completed =
    HasAction c parse_run_id op s.journal (λ state. is_acknowledged state ≡ true)
IsReported c parse_run_id op s OperationDisposition.skipped =
    HasAction c parse_run_id op s.journal (λ state. state ≡ ManualActionState.skipped)
IsReported c parse_run_id op s OperationDisposition.waiting_for_user =
    HasAction c parse_run_id op s.journal (λ state. state ≡ ManualActionState.pending)
IsReported c parse_run_id op s OperationDisposition.waiting_for_reboot =
    (reason : Text) × (op.kind ≡ OperationKind.require_reboot reason)
IsReported c parse_run_id op s OperationDisposition.cancelled = (c.is_cancelled s.world).0 ≡ true

-- When an operation is satisfied without being run.
abbrev pub IsSettled :
    {W : Type 0} → Setting W → (Text → Option RunId) → Operation → Journal → Type 0
IsSettled c parse_run_id op j =
    HasAction c parse_run_id op j (λ state. state ≡ ManualActionState.skipped)
    ⊎ ((reason : Text) × (op.kind ≡ OperationKind.require_reboot reason)
        × ((run : RunId) × (operation_run_id parse_run_id op ≡ ok run)
            × ((row : JournalOperation) × (fetch_operation run op.id j ≡ some row)
                × (row.state ≡ OperationState.waiting_for_reboot))))

module _ {W : Type 0} (c : Setting W) (parse_run_id : Text → Option RunId)
    (detail_text : HandlerDetail → Text) (op : Operation) where
  act_on-IsReported :
      (action : ManualAction) (stored : JournalManualAction) (s t : Session W)
      → op.kind ≡ OperationKind.open_manual_action action
      → IsStored c parse_run_id op action s.journal stored
      → (state : ManualActionState) → stored.state ≡ state
      → (outcome : OperationOutcome)
      → (act_on c parse_run_id detail_text op stored state t).0 ≡ ok outcome
      → IsReported c parse_run_id op s outcome.disposition
  act_on-IsReported action stored s t k i ManualActionState.pending e outcome h =
      rw (sym (ok-injective h)) (action, k, (stored, i, e))
  act_on-IsReported action stored s t k i ManualActionState.completed e outcome h =
      rw (sym (ok-injective h)) (action, k, (stored, i, rw e refl))
  act_on-IsReported action stored s t k i ManualActionState.skipped e outcome h =
      rw (sym (ok-injective h)) (action, k, (stored, i, e))
  act_on-IsReported action stored s t k i ManualActionState.acknowledged e outcome h =
      of_run (operation_run_id parse_run_id op) h
    where
      done : JournalManualAction → OperationOutcome
      done a =
          outcome_of c parse_run_id detail_text OperationDisposition.completed
            (HandlerDetail.action_in a.id a.state)

      of_run :
          (r : Result RunId)
          → ((give r >>= λ run. complete_action c run stored.id >>= λ a. give (ok (done a))) t).0
            ≡ ok outcome
          → IsReported c parse_run_id op s outcome.disposition
      of_run (ok run) h =
          let (a, is_done) = ends_with (complete_action c run stored.id) done t outcome h in
          rw (sym is_done) (action, k, (stored, i, rw e refl))
      of_run (err x) h = cc (h)
      of_run stuck h = cc (h)

  run_kind-IsReported :
      (kind : OperationKind) (s t : Session W) (outcome : OperationOutcome)
      → op.kind ≡ kind
      → t.journal ≡ s.journal
      → (run_kind c parse_run_id detail_text op kind t).0 ≡ ok outcome
      → IsReported c parse_run_id op s outcome.disposition
  run_kind-IsReported (OperationKind.open_manual_action action) s t outcome k same h =
      let (kept, holds) = load_action-Keeps c parse_run_id detail_text op action t in
      of_loaded (load_action c parse_run_id detail_text op action t).0 holds h
    where
      of_loaded :
          (r : Result JournalManualAction)
          → ((a : JournalManualAction) → r ≡ ok a → IsStored c parse_run_id op action t.journal a)
          → (continue r
              (λ a. act_on c parse_run_id detail_text op a a.state)
              (load_action c parse_run_id detail_text op action t).1).0
            ≡ ok outcome
          → IsReported c parse_run_id op s outcome.disposition
      of_loaded (ok a) holds h =
          act_on-IsReported action a s _ k (rw same at (holds a refl)) a.state refl outcome h
      of_loaded (err x) holds h = cc (h)
      of_loaded stuck holds h = cc (h)
  run_kind-IsReported (OperationKind.require_reboot reason) s t outcome k same h =
      rw (sym (ok-injective h)) (reason, k)
  run_kind-IsReported _ s t outcome k same h = cc (h)

  satisfied_by-skipped :
      (a : JournalManualAction) (result : Option Text) (evidence : List Text)
      → satisfied_by c parse_run_id detail_text a ≡ OperationSatisfaction.satisfied result evidence
      → a.state ≡ ManualActionState.skipped
  satisfied_by-skipped a result evidence h = elim (Bool-cases (is_skipped_action a.state)) [
    | inl e ↦ ground (arith, e)
    | inr e ↦ cc (rw e at h)
  ]

  satisfied_after_reboot-waiting :
      (o : JournalOperation) (result : Option Text) (evidence : List Text)
      → satisfied_after_reboot c parse_run_id detail_text o
        ≡ OperationSatisfaction.satisfied result evidence
      → o.state ≡ OperationState.waiting_for_reboot
  satisfied_after_reboot-waiting o result evidence h =
      elim (Bool-cases (waits_for_reboot o.state)) [
        | inl e ↦ ground (arith, e)
        | inr e ↦ cc (rw e at h)
      ]

  check_kind-IsSettled :
      (kind : OperationKind) (s : Session W) (result : Option Text) (evidence : List Text)
      → op.kind ≡ kind
      → (check_kind c parse_run_id detail_text op kind s).0
        ≡ ok (OperationSatisfaction.satisfied result evidence)
      → IsSettled c parse_run_id op s.journal
  check_kind-IsSettled (OperationKind.open_manual_action action) s result evidence k h =
      let (kept, holds) = load_action-Keeps c parse_run_id detail_text op action s in
      let (a, e, settled) = of_loaded (load_action c parse_run_id detail_text op action s).0 h in
      inl (action, k, (a, holds a e, satisfied_by-skipped a result evidence settled))
    where
      of_loaded :
          (r : Result JournalManualAction)
          → (continue r
              (λ a. give (ok (satisfied_by c parse_run_id detail_text a)))
              (load_action c parse_run_id detail_text op action s).1).0
            ≡ ok (OperationSatisfaction.satisfied result evidence)
          → (a : JournalManualAction) × (r ≡ ok a)
            × (satisfied_by c parse_run_id detail_text a
                ≡ OperationSatisfaction.satisfied result evidence)
      of_loaded (ok a) h = (a, refl, ok-injective h)
      of_loaded (err x) h = cc (h)
      of_loaded stuck h = cc (h)
  check_kind-IsSettled (OperationKind.require_reboot reason) s result evidence k h =
      of_run (operation_run_id parse_run_id op) refl h
    where
      answer : Option JournalOperation → Exec W OperationSatisfaction
      answer found = give (or_operation_error op found) >>= λ persisted.
          give (ok (satisfied_after_reboot c parse_run_id detail_text persisted))

      of_row :
          (run : RunId) (o : Option JournalOperation)
          → operation_run_id parse_run_id op ≡ ok run
          → fetch_operation run op.id s.journal ≡ o
          → (answer o s).0 ≡ ok (OperationSatisfaction.satisfied result evidence)
          → IsSettled c parse_run_id op s.journal
      of_row run none r e h = cc (h)
      of_row run (some o) r e h = inr (
        reason,
        k,
        (run, r, (o, e, satisfied_after_reboot-waiting o result evidence (ok-injective h))),
      )

      of_run :
          (r : Result RunId)
          → operation_run_id parse_run_id op ≡ r
          → ((give r >>= λ run. read (fetch_operation run op.id) >>= answer) s).0
            ≡ ok (OperationSatisfaction.satisfied result evidence)
          → IsSettled c parse_run_id op s.journal
      of_run (ok run) e h = of_row run (fetch_operation run op.id s.journal) e refl h
      of_run (err x) e h = cc (h)
      of_run stuck e h = cc (h)
  check_kind-IsSettled _ s result evidence k h = cc (h)

-- What the handler of manual actions and reboots reports holds of the journal it was called on: an
-- operation is completed only if it is a manual action whose stored action, with the same texts and
-- risk, the user has acknowledged or completed, skipped only if that action is skipped, waiting for
-- the user only if it is pending, waiting for a reboot only if it is a reboot, and cancelled only if
-- the run is.
pub manual_action_handler-IsReported :
    {W : Type 0} (c : Setting W) (parse_run_id : Text → Option RunId)
    (detail_text : HandlerDetail → Text) (op : Operation) (s : Session W)
    (outcome : OperationOutcome)
    → ((manual_action_handler c parse_run_id detail_text).execute op s).0 ≡ ok outcome
    → IsReported c parse_run_id op s outcome.disposition
unfolding manual_action_handler
manual_action_handler-IsReported {W = W} c parse_run_id detail_text op s outcome h =
    of_stopped (c.is_cancelled s.world).0 refl h
  where
    after : Session W
    after = record s { world = (c.is_cancelled s.world).1 }

    of_stopped :
        (stopped : Bool)
        → (c.is_cancelled s.world).0 ≡ stopped
        → (cancelled_or c parse_run_id detail_text
            (run_kind c parse_run_id detail_text op op.kind)
            stopped
            after).0
          ≡ ok outcome
        → IsReported c parse_run_id op s outcome.disposition
    of_stopped true e h = rw (sym (ok-injective h)) e
    of_stopped false e h =
        run_kind-IsReported c parse_run_id detail_text op op.kind s after outcome refl refl h

-- Without being run, an operation is satisfied for the handler of manual actions and reboots only if
-- it is a manual action whose stored action, with the same texts and risk, is skipped, or a reboot
-- whose stored operation waits for the reboot.
pub manual_action_handler-IsSettled :
    {W : Type 0} (c : Setting W) (parse_run_id : Text → Option RunId)
    (detail_text : HandlerDetail → Text) (op : Operation) (s : Session W) (result : Option Text)
    (evidence : List Text)
    → ((manual_action_handler c parse_run_id detail_text).is_satisfied op s).0
      ≡ ok (OperationSatisfaction.satisfied result evidence)
    → IsSettled c parse_run_id op s.journal
unfolding manual_action_handler
manual_action_handler-IsSettled c parse_run_id detail_text op s result evidence h =
    check_kind-IsSettled c parse_run_id detail_text op op.kind s result evidence refl h
