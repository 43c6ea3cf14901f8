-- ===== src/Executor/Stored.antt =====
-- What `ManualActionHandler::load_action` of crates/reforge-restore/src/manual_actions.rs returns: the
-- stored action of an operation, with the texts that the operation shows.
use windows_component_harnes.Prelude.{
  ltb, length, not, true, ◌≡◌, refl, sym, ap, ◌∙◌, inl, inr, Option, none, some, List, [], ◌∷◌, In,
  arith, Bool-cases,
}
use windows_component_harnes.Prelude.Order.{◌==◌, ==_iff}
use windows_component_harnes.Prelude.Text.{Text, text_ord}
use windows_component_harnes.Domain.Error.{
  ok, coded_error, reject_if, security_policy, ok-injective,
}
use windows_component_harnes.Domain.Kinds.{RiskLevel}
use windows_component_harnes.Domain.Operation.{ManualAction, Operation, RunId}
use windows_component_harnes.Journal.Tables.{Journal, JournalManualAction}
use windows_component_harnes.Journal.Adding.{
  max_manual_instructions, safe_instructions, safe_manual_text,
}
use windows_component_harnes.Journal.Guarded.{not_rejected}
use windows_component_harnes.Executor.Session.{Session, Setting}
use windows_component_harnes.Executor.Queue.{
  find_action, get_action, list_manual_actions, normalize_manual_action, safe_action_id, same_risk,
  same_texts,
}
use windows_component_harnes.Executor.Keeping.{Keeps, give-Keeps, bind-Keeps}
use windows_component_harnes.Executor.ManualHandler.{
  HandlerDetail, operation_run_id, or_operation_error, same_display, display_checked, load_action,
}

find_action-In :
    (id : Text) (l : List JournalManualAction) (a : JournalManualAction)
    → find_action id l ≡ some a
    → In a l × (a.id ≡ id)
find_action-In id [] a e = cc (e)
find_action-In id (b ∷ bs) a e = elim (Bool-cases (b.id == id)) [
  | inl same ↦
      let is_b : b ≡ a = ground (arith, rw same at e) in
      (inl (sym is_b), ap (λ (x : JournalManualAction). x.id) (sym is_b) ∙ (==_iff b.id id).0 same)
  | inr other ↦ let (i, named) = find_action-In id bs a (rw other at e) in (inr i, named)
]

same_risk-eq : (a b : RiskLevel) → same_risk a b ≡ true → a ≡ b
same_risk-eq a b h = ground (arith, h)

same_texts-eq : (a b : List Text) → same_texts a b ≡ true → a ≡ b
same_texts-eq [] [] h = refl
same_texts-eq [] (t ∷ ts) h = cc (h)
same_texts-eq (s ∷ ss) [] h = cc (h)
same_texts-eq (s ∷ ss) (t ∷ ts) h =
    let first : s ≡ t = (==_iff s t).0 (ground (arith, h)) in
    let rest : ss ≡ ts = same_texts-eq ss ts (ground (arith, h)) in cc (first, rest)

or_operation_error-some :
    {A : Type 0} (op : Operation) (o : Option A) (a : A)
    → or_operation_error op o ≡ ok a
    → o ≡ some a
or_operation_error-some op none a h = cc (h)
or_operation_error-some op (some b) a h = ap some (ok-injective h)

-- The texts of an action that a stored one has, behind the redactor.
pub record IsNormal {W : Type 0} (c : Setting W) (given normal : ManualAction) : Type 0 where
  pub id : normal.id ≡ given.id
  pub title : safe_manual_text c.redactor given.title ≡ ok normal.title
  pub reason : safe_manual_text c.redactor given.reason ≡ ok normal.reason
  pub risk : normal.risk ≡ given.risk
  pub instructions : safe_instructions c.redactor given.instructions ≡ ok normal.instructions

module _ {W : Type 0} (c : Setting W) where
  safe_action_id-Keeps :
      (id : Text) (s : Session W) → Keeps (λ safe. safe ≡ id) s (safe_action_id c id s)
  safe_action_id-Keeps id s =
      give-Keeps (λ safe. safe ≡ id) (safe_manual_text c.redactor id) _ s
        λ safe _.
          give-Keeps (λ t. t ≡ id)
            (reject_if (not (safe == id)) (coded_error security_policy none none)) _ s
            λ u h. (
              refl,
              λ t e.
                  sym (ok-injective e)
                  ∙ (==_iff safe id).0 (ground (arith, not_rejected (not (safe == id)) _ u h)),
            )

  normalize_manual_action-Keeps :
      (action : ManualAction) (s : Session W)
      → Keeps (IsNormal c action) s (normalize_manual_action c action s)
  unfolding normalize_manual_action
  normalize_manual_action-Keeps action s =
      give-Keeps (IsNormal c action)
        (reject_if (ltb max_manual_instructions (length action.instructions))
          (coded_error security_policy none none))
        _ s
        λ u _.
          bind-Keeps (λ id. id ≡ action.id) (IsNormal c action) (safe_action_id c action.id) _ s
            (safe_action_id-Keeps action.id s)
            λ id same.
              give-Keeps (IsNormal c action) (safe_manual_text c.redactor action.title) _ s
                λ title ht.
                  give-Keeps (IsNormal c action) (safe_manual_text c.redactor action.reason) _ s
                    λ reason hr.
                      give-Keeps (IsNormal c action)
                        (safe_instructions c.redactor action.instructions) _ s
                        λ instructions hi. (
                          refl,
                          λ normal e.
                              moved
                                (record action {
                                  id = id;
                                  title = title;
                                  reason = reason;
                                  instructions = instructions;
                                })
                                normal e
                                (record {
                                  id = same;
                                  title = ht;
                                  reason = hr;
                                  risk = refl;
                                  instructions = hi;
                                }),
                        )
    where
      moved :
          (built normal : ManualAction)
          → ok built ≡ ok normal
          → IsNormal c action built
          → IsNormal c action normal
      moved built normal e n = rw (sym (ok-injective e)) n

  get_action-Keeps :
      (run_id : RunId) (id : Text) (s : Session W)
      → Keeps
          (λ o. o ≡ find_action id (list_manual_actions run_id s.journal))
          s
          (get_action c run_id id s)
  unfolding get_action
  get_action-Keeps run_id id s =
      bind-Keeps (λ safe. safe ≡ id)
        (λ o. o ≡ find_action id (list_manual_actions run_id s.journal)) (safe_action_id c id) _ s
        (safe_action_id-Keeps id s) λ safe same. (refl, λ o e. rw (← same) (sym (ok-injective e)))

-- The stored action of an operation: it is in the journal, of the operation's run, and shows what the
-- operation's action shows behind the redactor.
pub record IsStored {W : Type 0} (c : Setting W) (parse_run_id : Text → Option RunId)
    (op : Operation) (action : ManualAction) (j : Journal) (stored : JournalManualAction)
    : Type 0 where
  pub run : RunId
  pub run_of_operation : operation_run_id parse_run_id op ≡ ok run
  pub in_journal : In stored (list_manual_actions run j)
  pub id : stored.id ≡ action.id
  pub title : safe_manual_text c.redactor action.title ≡ ok stored.title
  pub reason : safe_manual_text c.redactor action.reason ≡ ok stored.reason
  pub risk : stored.risk ≡ action.risk
  pub instructions : safe_instructions c.redactor action.instructions ≡ ok stored.instructions

module _ {W : Type 0} (c : Setting W) (parse_run_id : Text → Option RunId)
    (detail_text : HandlerDetail → Text) (op : Operation) where
  display_checked-same :
      (expected : ManualAction) (stored found : JournalManualAction)
      → display_checked c parse_run_id detail_text op expected stored ≡ ok found
      → (stored ≡ found) × (same_display c parse_run_id detail_text stored expected ≡ true)
  display_checked-same expected stored found h =
      elim (Bool-cases (same_display c parse_run_id detail_text stored expected)) [
        | inl e ↦ (ok-injective (rw e at h), e)
        | inr e ↦ cc (rw e at h)
      ]

  load_found :
      (action expected : ManualAction) (run : RunId) (j : Journal) (stored : JournalManualAction)
      → IsNormal c action expected
      → operation_run_id parse_run_id op ≡ ok run
      → find_action expected.id (list_manual_actions run j) ≡ some stored
      → same_display c parse_run_id detail_text stored expected ≡ true
      → IsStored c parse_run_id op action j stored
  load_found action expected run j stored n r f same =
      let (i, named) = find_action-In expected.id (list_manual_actions run j) stored f in
      let t : stored.title ≡ expected.title =
        (==_iff stored.title expected.title).0 (ground (arith, same)) in
      let w : stored.reason ≡ expected.reason =
        (==_iff stored.reason expected.reason).0 (ground (arith, same)) in
      let k = same_risk-eq stored.risk expected.risk (ground (arith, same)) in
      let l = same_texts-eq stored.instructions expected.instructions (ground (arith, same)) in
      record {
        run = run;
        run_of_operation = r;
        in_journal = i;
        id = named ∙ n.id;
        title = rw t n.title;
        reason = rw w n.reason;
        risk = k ∙ n.risk;
        instructions = rw l n.instructions;
      }

  pub load_action-Keeps :
      (action : ManualAction) (s : Session W)
      → Keeps
          (IsStored c parse_run_id op action s.journal)
          s
          (load_action c parse_run_id detail_text op action s)
  unfolding load_action
  load_action-Keeps action s =
      let P = IsStored c parse_run_id op action s.journal in
      bind-Keeps (IsNormal c action) P (normalize_manual_action c action) _ s
        (normalize_manual_action-Keeps c action s)
        λ expected n. give-Keeps P (operation_run_id parse_run_id op) _ s λ run r.
          bind-Keeps (λ o. o ≡ find_action expected.id (list_manual_actions run s.journal)) P
            (get_action c run expected.id) _ s (get_action-Keeps c run expected.id s)
            λ o read. give-Keeps P (or_operation_error op o) _ s λ stored there. (
              refl,
              λ found h.
                  let (is_found, same) = display_checked-same expected stored found h in
                  rw (sym is_found) (
                    load_found action expected run s.journal stored n r
                      (sym read ∙ or_operation_error-some op o stored there) same),
            )
