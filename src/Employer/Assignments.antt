-- ===== src/Employer/Assignments.antt =====
-- The rounds of volcom_employer.c over its assignments: sending those that wait, taking back those that
-- are late, and recording a result.
use e19_4yp_voluntary_comput.Prelude.{
  ℕ, ◌+◌, ◌-◌, Bool, true, false, not, ◌&&◌, ◌||◌, Option, none, some, List, [], ◌∷◌, ltb,
  if◌then◌else◌, get_elem?, set, count, update_first, CString, str_eq,
}
use e19_4yp_voluntary_comput.Prelude.Int.{sub_int}
use e19_4yp_voluntary_comput.Employer.{
  EmployeeNode, TaskAssignment, Employer, task_timeout_seconds, has_ip, usable_at,
}

abbrev pub disconnect : EmployeeNode → EmployeeNode
disconnect e = record e { sockfd = none; is_available = false }

-- The sending of an assignment over a connection, if there is one. `send` is whether
-- `send_file_to_employee` succeeds.
abbrev pub send_over :
    (ℕ → TaskAssignment → Bool)
    → TaskAssignment
    → List EmployeeNode
    → Option ℕ
    → TaskAssignment × List EmployeeNode × ℕ
send_over send a es none = (a, es, 0)
send_over send a es (some fd) = if send fd a then (record a { is_sent = true }, es, 1) else (
  record a { retry_count = a.retry_count + 1 },
  update_first (has_ip a.employee_ip) disconnect es,
  0,
)

-- One round of `send_pending_tasks`: the assignment, the roster, and how many were sent.
abbrev pub send_one :
    (ℕ → TaskAssignment → Bool)
    → TaskAssignment
    → List EmployeeNode
    → TaskAssignment × List EmployeeNode × ℕ
send_one send a es =
    if a.is_sent || a.is_completed
    then (a, es, 0)
    else send_over send a es (usable_at a.employee_ip es)

unfoldable pub send_from :
    (ℕ → TaskAssignment → Bool)
    → List TaskAssignment
    → List EmployeeNode
    → List TaskAssignment × List EmployeeNode × ℕ
send_from send [] es = ([], es, 0)
send_from send (a ∷ ts) es =
    let (a', es', n) = send_one send a es in
    let (ts', es'', m) = send_from send ts es' in (a' ∷ ts', es'', n + m)

unfoldable pub send_pending_tasks : (ℕ → TaskAssignment → Bool) → Employer → ℕ × Employer
unfolding send_from
send_pending_tasks send s =
    let (ts, es, sent) = send_from send s.task_assignments s.employees in
    (sent, record s { task_assignments = ts; employees = es })

abbrev pub is_late : ℕ → TaskAssignment → Bool
is_late now a = a.is_sent && not a.is_completed && ltb (a.assigned_time + task_timeout_seconds) now

abbrev pub penalise : EmployeeNode → EmployeeNode
penalise e = record e {
  reliability_score = sub_int e.reliability_score 10;
  active_tasks = e.active_tasks - 1;
}

-- The loop of `handle_task_timeouts`.
unfoldable pub time_out_from :
    ℕ → List TaskAssignment → List EmployeeNode → List TaskAssignment × List EmployeeNode × ℕ
time_out_from now [] es = ([], es, 0)
time_out_from now (a ∷ ts) es =
    let (late, es', n) = time_out_from now ts (update_first (has_ip a.employee_ip) penalise es) in
    let (on_time, es'', m) = time_out_from now ts es in
    if is_late now a
    then (record a { is_sent = false; retry_count = a.retry_count + 1 } ∷ late, es', 1 + n)
    else (a ∷ on_time, es'', m)

unfoldable pub handle_task_timeouts : ℕ → Employer → ℕ × Employer
unfolding time_out_from
handle_task_timeouts now s =
    let (ts, es, n) = time_out_from now s.task_assignments s.employees in
    (n, record s { task_assignments = ts; employees = es })

abbrev pub awaits : CString → TaskAssignment → Bool
awaits task_id a = not a.is_completed && str_eq a.task_id task_id

-- The end of `receive_result_from_employee`, for the employee at `i`: the first incomplete
-- assignment of the task becomes complete.
unfoldable pub record_result : ℕ → CString → ℕ → Employer → Employer
record_result now task_id i s =
    if ltb 0 (count (awaits task_id) s.task_assignments)
    then record s {
      task_assignments =
          update_first (awaits task_id)
            (λ a. record a { is_completed = true; completed_time = now }) s.task_assignments;
      employees = elim (get_elem? s.employees i) [
        | none ↦ s.employees
        | some e ↦ set s.employees i (record e { active_tasks = e.active_tasks - 1 })
      ];
    }
    else s
