-- ===== src/Sandbox/Evidence.antt =====
-- sandbox/services/technical_evidence.py: what proves that an attempt has passed.
use ticket_sandbox.Prelude.{
  ℕ, Bool, true, false, not, ◌&&◌, ◌||◌, List, [], ◌∷◌, ◌++◌, Option, none, some, find, keep, any,
  ltb, leb, nat_beq, if◌then◌else◌,
}
use ticket_sandbox.Sandbox.Records.{Time, Status, CheckStatus, CheckResult, CheckRun, TaskAttempt}

pub data TechnicalEvidence : Type 0 where
  technical_passed_at : Time → TechnicalEvidence
  check_run : Time → ℕ → TechnicalEvidence
  missing : TechnicalEvidence

abbrev pub is_completed : TechnicalEvidence → Bool
is_completed TechnicalEvidence.missing = false
is_completed _ = true

abbrev is_passed_result : CheckResult → Bool
is_passed_result CheckResult.passed = true
is_passed_result CheckResult.failed = false

abbrev pub is_successful : CheckRun → Bool
is_successful r = is_passed_result r.result && nat_beq r.exit_code 0

-- `(a.created_at, a.pk) <= (b.created_at, b.pk)`
abbrev comes_first : CheckRun → CheckRun → Bool
comes_first a b =
    ltb a.created_at b.created_at || (nat_beq a.created_at b.created_at && leb a.id b.id)

-- `order_by("created_at", "pk")`
unfoldable pub insert_run : CheckRun → List CheckRun → List CheckRun
insert_run r [] = r ∷ []
insert_run r (x ∷ xs) =
    let rest = insert_run r xs in if comes_first r x then r ∷ x ∷ xs else x ∷ rest

unfoldable pub runs_in_order : List CheckRun → List CheckRun
unfolding insert_run
runs_in_order [] = []
runs_in_order (r ∷ rs) = insert_run r (runs_in_order rs)

abbrev first : List CheckRun → Option CheckRun
first [] = none
first (r ∷ rs) = some r

-- `min(..., key=lambda run: (run.created_at, run.pk), default=None)`
unfoldable pub earliest : List CheckRun → Option CheckRun
earliest [] = none
earliest (r ∷ rs) = elim (earliest rs) [
  | none ↦ some r
  | some x ↦ if comes_first r x then some r else some x
]

-- Where the evidence is read: the columns of `with_technical_evidence`, the rows that were
-- fetched before, or a query.
pub data Route : Type 0 where
  annotated prefetched queried : Route

unfoldable pub first_success : Route → List CheckRun → Option CheckRun
unfolding runs_in_order earliest
first_success Route.annotated runs = first (runs_in_order (keep is_successful runs))
first_success Route.prefetched runs = earliest (keep is_successful runs)
first_success Route.queried runs = first (runs_in_order (keep is_successful runs))

abbrev evidence_of : Option Time → Option CheckRun → TechnicalEvidence
evidence_of (some t) run = TechnicalEvidence.technical_passed_at t
evidence_of none (some r) = TechnicalEvidence.check_run r.created_at r.id
evidence_of none none = TechnicalEvidence.missing

unfoldable pub get_technical_evidence : Route → TaskAttempt → TechnicalEvidence
unfolding first_success
get_technical_evidence route a =
    evidence_of a.technical_passed_at (first_success route a.check_runs)

-- `exists()` of runs whose result and exit code disagree.
unfoldable pub conflicting_check_evidence : TaskAttempt → Bool
conflicting_check_evidence a =
    any
      (λ r.
        (is_passed_result r.result && not (nat_beq r.exit_code 0))
        || (not (is_passed_result r.result) && nat_beq r.exit_code 0))
      a.check_runs

abbrev pub is_credit_attempt : TaskAttempt → Bool
is_credit_attempt a = nat_beq a.attempt_number 1

-- `credit_task_completed`, of the first attempt of a user at a task.
unfoldable pub credit_task_completed : List TaskAttempt → ℕ → ℕ → Bool
unfolding get_technical_evidence
credit_task_completed attempts user task =
    elim (find (λ a. nat_beq a.user_id user && nat_beq a.task.id task && is_credit_attempt a)
      attempts) [ none ↦ false | some a ↦ is_completed (get_technical_evidence Route.annotated a) ]

pub data DiagnosticCode : Type 0 where
  passed_without_technical_evidence check_status_without_technical_evidence : DiagnosticCode
  conflicting_check_run : DiagnosticCode

pub record ProgressDiagnostic : Type 0 where
  pub attempt_id : ℕ
  pub user_id : ℕ
  pub task_id : ℕ
  pub code : DiagnosticCode

abbrev pub has_passed_status : TaskAttempt → Bool
has_passed_status a = elim a.status [ Status.passed ↦ true | _ ↦ false ]

abbrev has_passed_check : TaskAttempt → Bool
has_passed_check a = elim a.check_status [ CheckStatus.passed ↦ true | _ ↦ false ]

abbrev diagnostic : TaskAttempt → DiagnosticCode → ProgressDiagnostic
diagnostic a code = record {
  attempt_id = a.id;
  user_id = a.user_id;
  task_id = a.task.id;
  code = code;
}

abbrev when {ℓ} : {A : Type ℓ} → Bool → A → List A
when b a = if b then a ∷ [] else []

unfoldable pub diagnose_technical_evidence : TaskAttempt → List ProgressDiagnostic
unfolding get_technical_evidence conflicting_check_evidence
diagnose_technical_evidence a =
    let proved = is_completed (get_technical_evidence Route.annotated a) in
    when (not proved && has_passed_status a)
      (diagnostic a DiagnosticCode.passed_without_technical_evidence)
    ++ when (not proved && has_passed_check a)
        (diagnostic a DiagnosticCode.check_status_without_technical_evidence)
    ++ when (conflicting_check_evidence a) (diagnostic a DiagnosticCode.conflicting_check_run)
