-- ===== src/Executor/Entering.antt =====
-- The tests that `execute_with_progress` of crates/reforge-restore/src/executor.rs makes before its
-- loop: `require_approved` and `validate_execution`.
use windows_component_harnes.Prelude.{
  ◌++◌, length, nat_eq, not, ◌||◌, true, false, Bool, ◌≡◌, ◌≢◌, refl, sym, ap, ◌∙◌, ◌⊎◌, inl, inr,
  Option, none, some, List, [], ◌∷◌, In, any, arith, Bool-cases,
}
use windows_component_harnes.Prelude.Order.{◌==◌, ==_iff}
use windows_component_harnes.Prelude.OrdMap
use windows_component_harnes.Prelude.OrdMap.{OrdMap}
use windows_component_harnes.Prelude.Text.{codes, starts_with, text_ord}
use windows_component_harnes.Domain.Error.{
  ErrorEnvelope, Result, ok, err, stuck, coded_error, reject_if, schema_invalid, target_conflict,
  ok-injective,
}
use windows_component_harnes.Domain.Kinds.{RestoreMode}
use windows_component_harnes.Domain.Operation.{Operation, OperationId, RestorePlan}
use windows_component_harnes.Journal.Tables.{Journal, JournalOperation, JournalRun}
use windows_component_harnes.Journal.Transitions.{is_approved, found}
use windows_component_harnes.Journal.Guarded.{not_rejected}
use windows_component_harnes.Executor.Session.{
  ExecutionReport, Session, Setting, Exec, continue, give, ◌>>=◌,
}
use windows_component_harnes.Executor.Checks.{
  States, same_mode, insert_all, accept, collect_states, list_operations, require_approved,
  validate_execution,
}
use windows_component_harnes.Executor.Turns.{run_operations, execute_with_progress}
use windows_component_harnes.Executor.Keeping.{Keeps, give-Keeps}

-- A stored operation is one that the plan has.
abbrev pub IsPlanned : {W : Type 0} → Setting W → RestorePlan → JournalOperation → Type 0
IsPlanned c plan o =
    (op : Operation) × In op plan.operations
    × (op.id ≡ o.id)
    × (c.same_operation o.operation op ≡ true)

-- What the journal and the target have to be for a plan to run.
pub record MayRun {W : Type 0} (c : Setting W) (plan : RestorePlan) (j : Journal) : Type 0 where
  pub run : JournalRun
  pub found_run : OrdMap.get plan.run_id j.runs ≡ some run
  pub approved : is_approved run.approval_state ≡ true
  pub of_package : run.package_id ≡ plan.package_id
  pub of_mode : run.mode ≡ plan.mode
  pub of_target : run.target_fingerprint ≡ plan.target_fingerprint
  pub on_target : c.target_fingerprint ≡ plan.target_fingerprint
  pub valid : c.validate_restore_plan plan ≡ ok tt
  pub as_many : length (list_operations plan.run_id j) ≡ length plan.operations
  pub planned : (o : JournalOperation) → In o (list_operations plan.run_id j) → IsPlanned c plan o

-- Nothing has changed, and no report is returned.
abbrev pub IsRefused : {W A : Type 0} → Session W → Result A × Session W → Type 0
IsRefused {A = A} s r = (r.1 ≡ s) × ((a : A) → r.0 ≢ ok a)

found-some : {A : Type 0} (o : Option A) (a : A) → found o ≡ ok a → o ≡ some a
found-some none a h = cc
found-some (some b) a h = ap some (ok-injective h)

same_mode-eq : (a b : RestoreMode) → same_mode a b ≡ true → a ≡ b
same_mode-eq a b h = ground (arith, h)

passed : (b : Bool) (e : ErrorEnvelope) (u : Unit {0}) → reject_if (not b) e ≡ ok u → b ≡ true
passed b e u h = ground (arith, not_rejected (not b) e u h)

get-insert_all :
    (ops : List Operation) (m : OrdMap OperationId Operation) (k : OperationId) (op : Operation)
    → OrdMap.get k (insert_all ops m) ≡ some op
    → (In op ops × (op.id ≡ k)) ⊎ (OrdMap.get k m ≡ some op)
get-insert_all [] m k op e = inr e
get-insert_all (o ∷ os) m k op e = elim (get-insert_all os (OrdMap.insert o.id o m) k op e) [
  | inl (i, same) ↦ inl (inr i, same)
  | inr e' ↦ elim (OrdMap.get-insert_cases k o.id o op m e') [
    | inl (key, is_o) ↦ inl (inl (sym is_o), ap (λ (x : Operation). x.id) (sym is_o) ∙ sym key)
    | inr old ↦ inr old
  ]
]

abbrev no_operations : OrdMap OperationId Operation
no_operations = []

empty-get : (k : OperationId) (op : Operation) → OrdMap.get k no_operations ≢ some op
unfolding OrdMap.get
empty-get k op e = cc (e)

module _ {W : Type 0} (c : Setting W) (plan : RestorePlan) where
  accept-IsPlanned :
      (o : JournalOperation) (states : States) (u : Unit {0})
      → accept c (OrdMap.get o.id (insert_all plan.operations [])) o states ≡ ok u
      → IsPlanned c plan o
  accept-IsPlanned o states u h = of_option (OrdMap.get o.id (insert_all plan.operations [])) refl h
    where
      of_option :
          (x : Option Operation)
          → OrdMap.get o.id (insert_all plan.operations []) ≡ x
          → accept c x o states ≡ ok u
          → IsPlanned c plan o
      of_option none e h = cc (h)
      of_option (some op) e h = elim (Bool-cases (c.same_operation o.operation op)) [
        | inr differs ↦ cc (rw differs at h)
        | inl agrees ↦ elim (get-insert_all plan.operations [] o.id op e) [
          | inl (i, same) ↦ (op, i, same, agrees)
          | inr e' ↦ absurd (empty-get o.id op e')
        ]
      ]

  collect_states-Keeps :
      (os : List JournalOperation) (states : States) (s : Session W)
      → Keeps
          (λ (m : States). (o : JournalOperation) → In o os → IsPlanned c plan o)
          s
          (collect_states c (insert_all plan.operations []) os states s)
  unfolding collect_states
  collect_states-Keeps [] states s = (refl, λ m e o i. absurd i)
  collect_states-Keeps (o ∷ os) states s =
      give-Keeps (λ (m : States). (p : JournalOperation) → In p (o ∷ os) → IsPlanned c plan p)
        (accept c (OrdMap.get o.id (insert_all plan.operations [])) o states)
        (λ done. collect_states c (insert_all plan.operations []) os (OrdMap.insert o.id o states))
        s
        λ u h.
          let (same, later) = collect_states-Keeps os (OrdMap.insert o.id o states) s in
          (
            same,
            λ m e p i. elim i [
              | inl is_o ↦ rw is_o (accept-IsPlanned o states u h)
              | inr i' ↦ later m e p i'
            ],
          )

  validate_execution-Keeps :
      (s : Session W) (run : JournalRun)
      → OrdMap.get plan.run_id s.journal.runs ≡ some run
      → is_approved run.approval_state ≡ true
      → Keeps (λ (m : States). MayRun c plan s.journal) s (validate_execution c plan s)
  unfolding validate_execution
  validate_execution-Keeps s run there approved =
      let P : States → Type 0 = λ m. MayRun c plan s.journal in
      let mismatch = coded_error target_conflict none none in
      let invalid = coded_error schema_invalid none none in
      let persisted = list_operations plan.run_id s.journal in
      give-Keeps P (reject_if (not (c.target_fingerprint == plan.target_fingerprint)) mismatch) _ s
        λ u1 on_target.
          give-Keeps P
            (reject_if
              (any
                (λ (o : Operation).
                  not (starts_with o.id (codes "op_" ++ (plan.run_id ++ codes "_"))))
                plan.operations)
              invalid)
            _ s
            λ u2 _. give-Keeps P (c.validate_restore_plan plan) _ s λ u3 valid.
              give-Keeps P (found (OrdMap.get plan.run_id s.journal.runs)) _ s λ row stored.
                give-Keeps P
                  (reject_if
                    (not (row.package_id == plan.package_id) || not (same_mode row.mode plan.mode))
                    invalid)
                  _ s
                  λ u4 fits.
                    give-Keeps P
                      (reject_if (not (row.target_fingerprint == plan.target_fingerprint)) mismatch)
                      _ s
                      λ u5 aimed.
                        give-Keeps P
                          (reject_if (not (nat_eq (length persisted) (length plan.operations)))
                            invalid)
                          _ s
                          λ u6 sized.
                            let (same, planned) = collect_states-Keeps persisted [] s in
                            let is_run : run ≡ row =
                              ground (arith, there, found-some _ row stored) in
                            (
                              same,
                              λ m e. record {
                                run = row;
                                found_run = found-some _ row stored;
                                approved = rw (sym is_run) approved;
                                of_package =
                                    (==_iff row.package_id plan.package_id).0
                                      (ground (arith, not_rejected _ invalid u4 fits));
                                of_mode =
                                    same_mode-eq row.mode plan.mode
                                      (ground (arith, not_rejected _ invalid u4 fits));
                                of_target =
                                    (==_iff row.target_fingerprint plan.target_fingerprint).0
                                      (passed _ mismatch u5 aimed);
                                on_target =
                                    (==_iff c.target_fingerprint plan.target_fingerprint).0
                                      (passed _ mismatch u1 on_target);
                                valid = valid;
                                as_many = ground (arith, passed _ invalid u6 sized);
                                planned = planned m e;
                              },
                            )

  behind :
      {A B : Type 0} (Q : Type 0) (m : Exec W A) (next : A → Exec W B) (s : Session W)
      → Keeps (λ (a : A). Q) s (m s)
      → IsRefused s ((m >>= next) s) ⊎ Q
  behind {A = A} {B = B} Q m next s (same, holds) = after (m s).0 (m s).1 same holds
    where
      after :
          (r : Result A) (t : Session W)
          → t ≡ s
          → ((a : A) → r ≡ ok a → Q)
          → IsRefused s (continue r next t) ⊎ Q
      after (ok a) t e p = inr (p a refl)
      after (err x) t e p = inl (e, λ b h. cc (h))
      after stuck t e p = inl (e, λ b h. cc (h))

  require_approved-run :
      (j : Journal) (u : Unit {0})
      → require_approved plan.run_id j ≡ ok u
      → (run : JournalRun) × (OrdMap.get plan.run_id j.runs ≡ some run)
        × (is_approved run.approval_state ≡ true)
  unfolding require_approved
  require_approved-run j u h = of_option (OrdMap.get plan.run_id j.runs) refl
    where
      of_option :
          (x : Option JournalRun)
          → OrdMap.get plan.run_id j.runs ≡ x
          → (run : JournalRun) × (OrdMap.get plan.run_id j.runs ≡ some run)
            × (is_approved run.approval_state ≡ true)
      of_option none e = cc (rw (e, require_approved) at h)
      of_option (some run) e =
          (run, e, passed (is_approved run.approval_state) _ u (rw (e, require_approved) at h))

  pub execute_with_progress-Enters :
      (s : Session W) → IsRefused s (execute_with_progress c plan s) ⊎ MayRun c plan s.journal
  unfolding execute_with_progress
  execute_with_progress-Enters s = of_result (require_approved plan.run_id s.journal) refl
    where
      loop : States → Exec W ExecutionReport
      loop states =
          run_operations c plan plan.operations
            (record { states = states; waiting_for_user = false; completed = 0 })

      of_result :
          (r : Result (Unit {0}))
          → require_approved plan.run_id s.journal ≡ r
          → IsRefused s ((give r >>= λ done. validate_execution c plan >>= loop) s)
            ⊎ MayRun c plan s.journal
      of_result (err x) e = inl (refl, λ b h. cc (h))
      of_result stuck e = inl (refl, λ b h. cc (h))
      of_result (ok u) e =
          let (run, there, approved) = require_approved-run s.journal u e in
          behind (MayRun c plan s.journal) (validate_execution c plan) loop s
            (validate_execution-Keeps s run there approved)
