-- ===== src/Executor/Finishing.antt =====
-- `execute_with_progress` of crates/reforge-restore/src/executor.rs: an execution changes the journal
-- by permitted moves only, and reports a completed run only when every operation is finished.
use windows_component_harnes.Prelude.OrdMap.{OrdMap}
use windows_component_harnes.Prelude.{
  ◌++◌, length, nat_eq, All, true, false, not, ◌||◌, ◌≡◌, ◌≢◌, refl, sym, ap, ◌∙◌, inl, inr, none,
  some, List, [], ◌∷◌, In, any, arith, Bool-cases,
}
use windows_component_harnes.Prelude.Order.{◌==◌, ==_iff}
use windows_component_harnes.Prelude.OrdMap
use windows_component_harnes.Prelude.OrdSet
use windows_component_harnes.Executor.Whole.{execute_operation-Reaches}
use windows_component_harnes.Prelude.Text.{starts_with, Text, codes, text_ord}
use windows_component_harnes.Domain.Error.{
  reject_if, target_conflict, coded_error, Result, schema_invalid,
}
use windows_component_harnes.Domain.Kinds.{RunStatus}
use windows_component_harnes.Domain.Operation.{RunId, Operation, OperationId, RestorePlan}
use windows_component_harnes.Journal.Tables.{JournalRun, Operations, Journal, JournalOperation}
use windows_component_harnes.Journal.Transitions.{found, is_running_run}
use windows_component_harnes.Executor.Session.{
  ExecutionReport, Session, Setting, Exec, give, read, ◌>>=◌, ◌>>◌,
}
use windows_component_harnes.Executor.Queue.{waits_for_user}
use windows_component_harnes.Executor.Checks.{
  same_mode, insert_all, of_that_run, accept, collect_states, list_operations, States,
  require_approved, validate_execution,
}
use windows_component_harnes.Executor.Run.{rows, Loop, Turn, stop}
use windows_component_harnes.Executor.Turns.{
  by_turn, execute_operation, final_status, run_operations, execute_with_progress,
}
use windows_component_harnes.Executor.Moves.{Charge, IsFinished, Moves, IsFinished-Moves}
use windows_component_harnes.Executor.Reaching.{Reaches, give_then, then_reaches, Reaches_weaken}
use windows_component_harnes.Executor.Branches.{
  Tracks-insert, IsWellBehaved, Tracks, TurnPost, stop-Reaches,
}

-- The operations of the journal are those of a table with a primary key.
pub record IsKeyed (j : Journal) : Type 0 where
  pub ascending : OrdSet.IsAscending (OrdMap.keys j.operations)
  pub keyed : All (λ (e : Text × JournalOperation). e.1.id ≡ e.0) j.operations

-- where the report is the completed one, nothing waited and all operations are finished
abbrev AllFinished : List Operation → Loop → ExecutionReport → Journal → Type 0
AllFinished ops before r j =
    r.status ≡ RunStatus.completed
    → (before.waiting_for_user ≡ false) × ((op : Operation) → In op ops → IsFinished op.id j)

module _ {W : Type 0} ⦃charge : Charge⦄ (c : Setting W) (plan : RestorePlan)
    (good : IsWellBehaved c) where
  final_status-completed :
      (l : Loop) → final_status c plan l ≡ RunStatus.completed → l.waiting_for_user ≡ false
  final_status-completed l e = ground (arith, e)

  final_status-runs : (l : Loop) → is_running_run (final_status c plan l) ≡ false
  final_status-runs l =
      elim (Bool-cases (
        l.waiting_for_user
        || any (λ (o : JournalOperation). waits_for_user o.state) (rows l.states))) [
          | inl e ↦ rw e refl
          | inr e ↦ rw e refl
        ]

  run_operations-Reaches :
      (ops : List Operation) (l : Loop) (s : Session W)
      → ((op : Operation) → In op ops → In op plan.operations)
      → Tracks l.states s.journal
      → Reaches plan (AllFinished ops l) s (run_operations c plan ops l s)
  unfolding run_operations
  run_operations-Reaches [] l s sub t =
      Reaches_weaken plan (λ (r : ExecutionReport) j. r.status ≡ final_status c plan l)
        (AllFinished [] l) s (stop c plan (final_status c plan l) s)
        (λ r j _ same done. (final_status-completed l (sym same ∙ done), λ op i. absurd i))
        (stop-Reaches c plan (final_status c plan l) s (final_status-runs l))
  run_operations-Reaches (op ∷ ops) l s sub t =
      then_reaches plan (TurnPost op l) (AllFinished (op ∷ ops) l) (execute_operation c plan op l)
        (by_turn c plan (run_operations c plan ops)) s
        (execute_operation-Reaches c plan good op (sub op (inl refl)) l s t)
        λ turn u m post.
          after turn u post (λ next v. run_operations-Reaches ops next v (λ p i. sub p (inr i)))
    where
      after :
          (turn : Turn) (u : Session W)
          → TurnPost op l turn u.journal
          → ((next : Loop) (v : Session W)
              → Tracks next.states v.journal
              → Reaches plan (AllFinished ops next) v (run_operations c plan ops next v))
          → Reaches plan
              (AllFinished (op ∷ ops) l)
              u
              (by_turn c plan (run_operations c plan ops) turn u)
      after (Turn.returns r) u other rest = (Moves.stay, λ done. absurd (other done))
      after (Turn.goes_on next) u turn rest =
          Reaches_weaken plan (AllFinished ops next) (AllFinished (op ∷ ops) l) u
            (run_operations c plan ops next u)
            (λ r j m all done.
              let (calm, finished) = all done in
              (
                turn.still_waiting calm,
                λ o i. elim i [
                  | inl same ↦
                      rw same (IsFinished-Moves plan u.journal j op.id m (turn.finished calm))
                  | inr later ↦ finished o later
                ],
              ))
            (rest next u turn.tracks)

  -- the operations that were read stand under their identifiers
  abbrev AllThere : List JournalOperation → Journal → Type 0
  AllThere os j = (o : JournalOperation) → In o os → OrdMap.get o.id j.operations ≡ some o

  abbrev TracksIn : States → Journal → Type 0
  TracksIn states j = Tracks states j

  collect_states-Reaches :
      (expected : OrdMap OperationId Operation) (os : List JournalOperation) (states : States)
      (s : Session W)
      → AllThere os s.journal
      → Tracks states s.journal
      → Reaches plan TracksIn s (collect_states c expected os states s)
  unfolding collect_states
  collect_states-Reaches expected [] states s there t = (Moves.stay, t)
  collect_states-Reaches expected (o ∷ os) states s there t =
      give_then plan TracksIn (accept c (OrdMap.get o.id expected) o states)
        (λ done. collect_states c expected os (OrdMap.insert o.id o states)) s
        λ done _.
          collect_states-Reaches expected os (OrdMap.insert o.id o states) s
            (λ p i. there p (inr i))
            (Tracks-insert states s.journal o.id o.state o (there o (inl refl), refl) t)

  entry_In :
      (m : Operations) (k : Text) (o : JournalOperation)
      → OrdSet.IsAscending (OrdMap.keys m)
      → In (k, o) m
      → OrdMap.get k m ≡ some o
  unfolding OrdMap.get
  entry_In [] k o a i = absurd i
  entry_In ((l, p) ∷ m) k o (b, a) (inl e) =
      let key : k ≡ l = ap (λ z. z.0) e in
      let row : o ≡ p = ap (λ z. z.1) e in
      let found : (k == l) ≡ true = (==_iff k l).1 key in rw found (ap some (sym row))
  entry_In ((l, p) ∷ m) k o (b, a) (inr i) = elim (Bool-cases (k == l)) [
    | inr other ↦ rw other (entry_In m k o a i)
    | inl same ↦
        let key : k ≡ l = (==_iff k l).0 same in
        absurd (OrdSet.not-In-Below l (OrdMap.keys m) b (rw key at (In-keys m k o i)))
  ]
    where
      In-keys :
          (m : Operations) (k : Text) (o : JournalOperation) → In (k, o) m → In k (OrdMap.keys m)
      In-keys [] k o i = absurd i
      In-keys (e ∷ m) k o (inl same) = inl (ap (λ z. z.0) same)
      In-keys (e ∷ m) k o (inr i) = inr (In-keys m k o i)

  listed_entry :
      (run_id : RunId) (m : Operations) (o : JournalOperation)
      → All (λ (e : Text × JournalOperation). e.1.id ≡ e.0) m
      → In o (of_that_run run_id m)
      → In (o.id, o) m
  listed_entry run_id [] o a i = absurd i
  listed_entry run_id ((k, p) ∷ m) o (h, a) i = elim (Bool-cases (p.run_id == run_id)) [
    | inr e ↦ inr (listed_entry run_id m o a (rw e at i))
    | inl e ↦ elim (rw e at i) [
      | inl same ↦ inl (cc (same, h))
      | inr later ↦ inr (listed_entry run_id m o a later)
    ]
  ]

  list_operations-AllThere : (j : Journal) → IsKeyed j → AllThere (list_operations plan.run_id j) j
  unfolding list_operations
  list_operations-AllThere j k o i =
      entry_In j.operations o.id o k.ascending (listed_entry plan.run_id j.operations o k.keyed i)

  given :
      (r : Result (Unit {0})) (m : Exec W States) (s : Session W)
      → Reaches plan TracksIn s (m s)
      → Reaches plan TracksIn s ((give r >> m) s)
  given r m s h = give_then plan TracksIn r (λ done. m) s λ _ _. h

  abbrev no_states : States
  no_states = []

  validate_execution-Reaches :
      (s : Session W) → IsKeyed s.journal → Reaches plan TracksIn s (validate_execution c plan s)
  unfolding validate_execution OrdMap.get
  validate_execution-Reaches s k =
      let mismatch = coded_error target_conflict none none in
      let invalid = coded_error schema_invalid none none in
      let stored = OrdMap.get plan.run_id s.journal.runs in
      let persisted = list_operations plan.run_id s.journal in
      let last : List JournalOperation → Exec W States =
        λ os. collect_states c (insert_all plan.operations []) os [] in
      let sized : List JournalOperation → Exec W States = λ os.
        give (reject_if (not (nat_eq (length os) (length plan.operations))) invalid) >> last os in
      let fits : Exec W States = read (list_operations plan.run_id) >>= sized in
      let aimed : JournalRun → Exec W States = λ run.
        give (reject_if (not (run.target_fingerprint == plan.target_fingerprint)) mismatch)
        >> fits in
      let after_run : JournalRun → Exec W States = λ run.
        give (
          reject_if (not (run.package_id == plan.package_id) || not (same_mode run.mode plan.mode))
            invalid)
        >> aimed run in
      let looked_up : Exec W States =
        read (λ j. OrdMap.get plan.run_id j.runs) >>= λ row. give (found row) >>= after_run in
      let checked : Exec W States = give (c.validate_restore_plan plan) >> looked_up in
      let scoped : Exec W States =
        give (
          reject_if
            (any
              (λ (o : Operation).
                not (starts_with o.id (codes "op_" ++ (plan.run_id ++ codes "_"))))
              plan.operations)
            invalid)
        >> checked in
      given (reject_if (not (c.target_fingerprint == plan.target_fingerprint)) mismatch) scoped s (
        given
          (reject_if
            (any
              (λ (o : Operation).
                not (starts_with o.id (codes "op_" ++ (plan.run_id ++ codes "_"))))
              plan.operations)
            invalid)
          checked s
          (given (c.validate_restore_plan plan) looked_up s (
            give_then plan TracksIn (found stored) after_run s λ run _.
              given
                (reject_if
                  (not (run.package_id == plan.package_id) || not (same_mode run.mode plan.mode))
                  invalid)
                (aimed run) s
                (given
                  (reject_if (not (run.target_fingerprint == plan.target_fingerprint)) mismatch)
                  fits s
                  (given
                    (reject_if (not (nat_eq (length persisted) (length plan.operations))) invalid)
                    (last persisted) s
                    (collect_states-Reaches (insert_all plan.operations []) persisted [] s
                      (list_operations-AllThere s.journal k)
                      (λ id row e. absurd (nothing id row e))))))))
    where
      nothing : (id : OperationId) (row : JournalOperation) → OrdMap.get id no_states ≢ some row
      nothing id row e = cc (e)

  pub execute_with_progress-Reaches :
      (s : Session W)
      → IsKeyed s.journal
      → Reaches plan
          (λ r j.
            r.status ≡ RunStatus.completed
            → (op : Operation) → In op plan.operations
            → IsFinished op.id j)
          s
          (execute_with_progress c plan s)
  unfolding execute_with_progress
  execute_with_progress-Reaches s k =
      let start : States → Loop =
        λ states. record { states = states; waiting_for_user = false; completed = 0 } in
      let P : ExecutionReport → Journal → Type 0 = λ r j.
        r.status ≡ RunStatus.completed
        → (op : Operation) → In op plan.operations
        → IsFinished op.id j in
      let run : States → Exec W ExecutionReport =
        λ states. run_operations c plan plan.operations (start states) in
      give_then plan P (require_approved plan.run_id s.journal)
        (λ done. validate_execution c plan >>= run) s
        λ _ _.
          then_reaches plan TracksIn P (validate_execution c plan) run s
            (validate_execution-Reaches s k)
            λ states t m tracks.
              Reaches_weaken plan (AllFinished plan.operations (start states)) P t (run states t)
                (λ r j _ all done. (all done).1)
                (run_operations-Reaches plan.operations (start states) t (λ op i. i) tracks)
