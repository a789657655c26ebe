-- ===== src/Employer/Tests.antt =====
-- The theorems on volcom_employer.c applied to a roster of two employees, one of them stale.
use e19_4yp_voluntary_comput.Prelude.{
  ℕ, ◌≡◌, Bool, true, false, some, [], ◌∷◌, keep, count, CString, codes,
}
use e19_4yp_voluntary_comput.Prelude.Int.{pos}
use e19_4yp_voluntary_comput.Employer.{
  EmployeeNode, configured, TaskAssignment, Employer, remove_stale_employees,
}
use e19_4yp_voluntary_comput.Employer.Roster.{is_fresh, sent, remove_stale_employees-fresh}

abbrev node : CString → ℕ → EmployeeNode
node ip seen = record {
  employee_id = codes "emp";
  ip_address = ip;
  last_seen = seen;
  active_tasks = 1;
  reliability_score = pos 100;
  tasks_completed = 0;
  tasks_failed = 0;
  is_available = true;
  sockfd = some 7;
  state = configured;
}

abbrev task : Bool → TaskAssignment
task sent = record {
  task_id = codes "task_1";
  chunk_file = codes "chunk.json";
  employee_id = codes "emp";
  employee_ip = codes "10.0.0.1";
  assigned_time = 0;
  completed_time = 0;
  is_sent = sent;
  is_completed = false;
  retry_count = 0;
}

-- The round-robin stands at the second employee, last seen at time 3.
abbrev employer : Employer
employer = record {
  employees = node (codes "10.0.0.1") 400 ∷ node (codes "10.0.0.2") 3 ∷ [];
  task_assignments = task true ∷ task false ∷ [];
  last_used_employee = 1;
}

remove_stale_employees-fresh_example :
    count (λ e. e.is_available) (remove_stale_employees 401 employer).employees
    ≡ count (λ e. e.is_available) (keep (is_fresh 401) employer.employees)
remove_stale_employees-fresh_example =
    remove_stale_employees-fresh 401 employer (λ e. e.is_available)
