-- ===== src/Employer/Distribution.antt =====
-- `distribute_new_tasks` of volcom_employer.c: one task goes to the next employee, in round-robin
-- order, that is connected, configured and has fewer than three tasks.
use e19_4yp_voluntary_comput.Prelude.{
  ℕ, zero, suc, ◌+◌, ◌%◌, Bool, false, Option, none, some, ◌++◌, ltb, if◌then◌else◌, length,
  get_elem?, set, CString, codes, fit, decimal,
}
use e19_4yp_voluntary_comput.Prelude.Int.{ℤ, pos, negsuc}
use e19_4yp_voluntary_comput.Employer.{
  EmployeeNode, TaskAssignment, Employer, usable, add_task_assignment,
}

abbrev pub can_take : EmployeeNode → Bool
can_take e = elim (usable e) [ none ↦ false | some fd ↦ ltb e.active_tasks 3 ]

-- The assignment that is filled in; `memory` is what the stack holds where it stands.
abbrev pub assign_to : ℕ → CString → TaskAssignment → EmployeeNode → TaskAssignment
assign_to now path memory e = record memory {
  task_id = fit 64 (codes "task_" ++ decimal now);
  chunk_file = fit 256 path;
  employee_id = fit 64 e.employee_id;
  employee_ip = fit 64 e.ip_address;
  assigned_time = now;
  is_completed = false;
  is_sent = false;
  retry_count = 0;
}

abbrev pub advance : Employer → Employer
advance s = record s { last_used_employee = (s.last_used_employee + 1) % length s.employees }

-- The round that gives the task to `e`, the employee at the round-robin's place.
abbrev pub give : EmployeeNode → ℤ × Employer → Employer
give e (negsuc n, s) = advance s
give e (pos n, s) = advance (record s {
  employees = set s.employees s.last_used_employee (record e { active_tasks = e.active_tasks + 1 });
})

-- A round, with the rounds after it: `none` is a fault, where the place is beyond the entries in use,
-- and the pointer is null or its employee has been freed.
unfoldable pub visit :
    ℕ
    → CString
    → TaskAssignment
    → Employer
    → Option Employer
    → Option EmployeeNode
    → Option Employer
unfolding add_task_assignment
visit now path memory s later none = none
visit now path memory s later (some e) =
    if can_take e
    then some (give e (add_task_assignment (some (assign_to now path memory e)) s))
    else later

-- The loop, with the attempts left.
unfoldable pub try_from : ℕ → ℕ → CString → TaskAssignment → Employer → Option Employer
unfolding visit
try_from zero now path memory s = some s
try_from (suc attempts) now path memory s =
    visit now path memory s (try_from attempts now path memory (advance s))
      (get_elem? s.employees s.last_used_employee)

unfoldable pub distribute_new_tasks : ℕ → CString → TaskAssignment → Employer → Option Employer
unfolding try_from
distribute_new_tasks now path memory s = try_from (length s.employees) now path memory s
