-- ===== src/Executor/Execution.antt =====
-- The loop body of the executor, crates/reforge-restore/src/executor.rs, as a whole.
use windows_component_harnes.Prelude.{
  Bool, true, false, ◌||◌, ◌≡◌, refl, inl, inr, Option, none, some, List, [], ◌∷◌, In, all, arith,
  Option-cases, if◌then◌else◌,
}
use windows_component_harnes.Prelude.OrdMap
use windows_component_harnes.Prelude.Text.{Text, text_ord}
use windows_component_harnes.Domain.Error.{ErrorEnvelope, Result, ok, err, stuck}
use windows_component_harnes.Domain.Kinds.{OperationState}
use windows_component_harnes.Domain.Operation.{Operation, OperationId, RestorePlan}
use windows_component_harnes.Journal.Tables.{Journal}
use windows_component_harnes.Executor.Session.{
  Session, Setting, Exec, Payload, Detail, give, either, ask_cancelled, ◌>>=◌,
}
use windows_component_harnes.Executor.Checks.{
  States, is_finished, state_test, correlate_error, prerequisites_complete,
}
use windows_component_harnes.Executor.Run.{
  Loop, Turn, persist_failure, fail, cancelled_operation_turn, settle, start, run_verification,
  find_row, expect_row, rows, proven, interrupted_turn, is_cancelled_code, is_interrupted_code,
}
use windows_component_harnes.Executor.Turns.{handler_failed}
use windows_component_harnes.Executor.Moves.{
  Charge, IsFinished, Moves, Moves-trans, IsFinished-Moves,
}
use windows_component_harnes.Executor.Reaching.{Anything, Reaches, give_then, then_reaches}
use windows_component_harnes.Executor.Branches.{
  Tracks, Tracks-Moves, TurnPost, IsStarted, persist_failure-Reaches,
  cancelled_operation_turn-Reaches, interrupted_turn-Reaches, settle-Reaches, start-Reaches,
}

abbrev pub IsReady : Operation → Journal → Type 0
IsReady op j = (p : OperationId) → In p op.prerequisites → IsFinished p j

pub IsReady-Moves :
    ⦃charge : Charge⦄ (plan : RestorePlan) (op : Operation) (j next : Journal)
    → Moves plan j next
    → IsReady op j
    → IsReady op next
IsReady-Moves plan op j next m r p i = IsFinished-Moves plan j next p m (r p i)

all-In : {A : Type 0} (f : A → Bool) (xs : List A) (x : A) → all f xs ≡ true → In x xs → f x ≡ true
all-In f [] x h i = absurd i
all-In f (y ∷ xs) x h (inl e) = rw e (ground (arith, h))
all-In f (y ∷ xs) x h (inr i) = all-In f xs x (ground (arith, h)) i

pub prerequisites-IsReady :
    (op : Operation) (states : States) (j : Journal)
    → Tracks states j
    → prerequisites_complete op states ≡ true
    → IsReady op j
unfolding prerequisites_complete
prerequisites-IsReady op states j t h p i =
    let test = all-In (λ q. state_test is_finished (OrdMap.get q states)) op.prerequisites p h i in
    elim (Option-cases (OrdMap.get p states)) [
      | inl e ↦ absurd (ground (arith, e, test))
      | inr (row, e) ↦ t p row e (rw e at test)
    ]

pub if_reaches :
    ⦃charge : Charge⦄ {W : Type 0} {B : Type 0} (plan : RestorePlan) (Q : B → Journal → Type 0)
    (b : Bool) (m n : Exec W B) (s : Session W)
    → (b ≡ true → Reaches plan Q s (m s))
    → (b ≡ false → Reaches plan Q s (n s))
    → Reaches plan Q s ((if b then m else n) s)
if_reaches plan Q true m n s h k = h refl
if_reaches plan Q false m n s h k = k refl

pub ask-Reaches :
    ⦃charge : Charge⦄ {W : Type 0} (c : Setting W) (plan : RestorePlan) (s : Session W)
    → Reaches plan Anything s (ask_cancelled c s)
ask-Reaches c plan s = (Moves.stay, tt)

module _ {W : Type 0} ⦃charge : Charge⦄ (c : Setting W) (plan : RestorePlan) (op : Operation)
    (member : In op plan.operations) (before : Loop) where
  -- the proof of a verification, behind its start
  abbrev prove : Loop → Exec W Turn
  prove l = give (expect_row c plan (find_row op.id l.states)) >>= λ row.
      either (give (c.operation_verification_proof row (rows l.states))) (fail c plan op none)
        (λ a. give (ok a))
      >>= λ answer.
          either (give (proven c plan op answer)) (fail c plan op none) (λ a. give (ok a))
          >>= λ proof.
              settle c plan op OperationState.completed
                (some (Payload.outcome_payload (Detail.verification_checked proof) [] none)) l

  pub or_fail-Reaches :
      {A : Type 0} (r : Result A) (backup : Option Text) (s : Session W)
      → Reaches plan Anything s (either (give r) (fail c plan op backup) (λ a. give (ok a)) s)
  or_fail-Reaches {A = A} (ok a) backup s = (Moves.stay, tt)
  or_fail-Reaches {A = A} (err e) backup s =
      persist_failure-Reaches c plan op member (Anything {A = A}) e backup s
  or_fail-Reaches {A = A} stuck backup s = (Moves.stay, tt)

  prove-Reaches :
      (l : Loop) (s : Session W)
      → Tracks l.states s.journal
      → l.waiting_for_user ≡ before.waiting_for_user
      → Reaches plan (TurnPost op before) s (prove l s)
  prove-Reaches l s t same =
      give_then plan (TurnPost op before) (expect_row c plan (find_row op.id l.states))
        (λ row.
          either (give (c.operation_verification_proof row (rows l.states))) (fail c plan op none)
            (λ a. give (ok a))
          >>= λ answer.
              either (give (proven c plan op answer)) (fail c plan op none) (λ a. give (ok a))
              >>= λ proof.
                  settle c plan op OperationState.completed
                    (some (Payload.outcome_payload (Detail.verification_checked proof) [] none)) l)
        s
        λ row _.
          then_reaches plan Anything (TurnPost op before)
            (either (give (c.operation_verification_proof row (rows l.states)))
              (fail c plan op none) (λ a. give (ok a)))
            (λ answer.
              either (give (proven c plan op answer)) (fail c plan op none) (λ a. give (ok a))
              >>= λ proof.
                  settle c plan op OperationState.completed
                    (some (Payload.outcome_payload (Detail.verification_checked proof) [] none)) l)
            s (or_fail-Reaches (c.operation_verification_proof row (rows l.states)) none s)
            λ answer u m _.
              then_reaches plan Anything (TurnPost op before)
                (either (give (proven c plan op answer)) (fail c plan op none) (λ a. give (ok a)))
                (λ proof.
                  settle c plan op OperationState.completed
                    (some (Payload.outcome_payload (Detail.verification_checked proof) [] none)) l)
                u (or_fail-Reaches (proven c plan op answer) none u)
                λ proof v n _.
                  settle-Reaches c plan op member OperationState.completed
                    (some (Payload.outcome_payload (Detail.verification_checked proof) [] none))
                    before l v refl refl same
                    (Tracks-Moves plan l.states s.journal v.journal
                      (Moves-trans plan s.journal u.journal v.journal m n) t)

  pub run_verification-Reaches :
      (s : Session W)
      → Tracks before.states s.journal
      → IsReady op s.journal
      → Reaches plan (TurnPost op before) s (run_verification c plan op before s)
  unfolding run_verification
  run_verification-Reaches s t r =
      then_reaches plan (IsStarted before) (TurnPost op before) (start c plan op before)
        (λ started. ask_cancelled c >>= λ stopped.
          if stopped then cancelled_operation_turn c plan op none else prove started.1)
        s (start-Reaches c plan op member before s t r)
        λ started u m (t', same).
          then_reaches plan Anything (TurnPost op before) (ask_cancelled c)
            (λ stopped.
              if stopped then cancelled_operation_turn c plan op none else prove started.1)
            u (ask-Reaches c plan u)
            λ stopped v n _.
              if_reaches plan (TurnPost op before) stopped (cancelled_operation_turn c plan op none)
                (prove started.1) v
                (λ _. cancelled_operation_turn-Reaches c plan op member before none v)
                (λ _.
                  prove-Reaches started.1 v
                    (Tracks-Moves plan started.1.states u.journal v.journal n t') same)

  pub handler_failed-Reaches :
      (backup : Option Text) (given : ErrorEnvelope) (s : Session W)
      → Reaches plan (TurnPost op before) s (handler_failed c plan op backup given s)
  unfolding handler_failed
  handler_failed-Reaches backup given s =
      let error = correlate_error op given in
      then_reaches plan Anything (TurnPost op before) (ask_cancelled c)
        (λ stopped.
          if stopped || is_cancelled_code error.code
          then cancelled_operation_turn c plan op backup
          else if is_interrupted_code error.code
          then interrupted_turn c plan op backup error
          else persist_failure c plan op error backup)
        s (ask-Reaches c plan s)
        λ stopped t _ _.
          if_reaches plan (TurnPost op before) (stopped || is_cancelled_code error.code)
            (cancelled_operation_turn c plan op backup)
            (if is_interrupted_code error.code
              then interrupted_turn c plan op backup error
              else persist_failure c plan op error backup)
            t (λ _. cancelled_operation_turn-Reaches c plan op member before backup t)
            λ _.
              if_reaches plan (TurnPost op before) (is_interrupted_code error.code)
                (interrupted_turn c plan op backup error) (persist_failure c plan op error backup) t
                (λ _. interrupted_turn-Reaches c plan op member before backup error t)
                (λ _. persist_failure-Reaches c plan op member (TurnPost op before) error backup t)
