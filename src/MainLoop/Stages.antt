-- ===== src/MainLoop/Stages.antt =====
-- The bounds of the employer's arrays and of the load of its employees through the stages of a round
-- that send, time out, remove, assign and discover.
use e19_4yp_voluntary_comput.Prelude.{
  ℕ, ◌≤◌, ◌<◌, ◌≡◌, Bool, true, false, Option, none, some, List, [], ◌∷◌, ◌++◌, arith, ltb, leb,
  ltb→lt, length, count, All, length-append, length-update_first, All-append, CString, codes,
}
use e19_4yp_voluntary_comput.Employer.{
  EmployeeNode, TaskAssignment, Employer, max_employees, max_task_assignments, has_ip, see_again,
  new_node, add_or_update_employee, add_task_assignment, remove_stale_employees,
}
use e19_4yp_voluntary_comput.Employer.Assignments.{send_pending_tasks, handle_task_timeouts}
use e19_4yp_voluntary_comput.Employer.Rounds.{HasRoom}
use e19_4yp_voluntary_comput.Prelude.Int.{ℤ}
use e19_4yp_voluntary_comput.MainLoop.{
  Broadcast, Round, discover, assign_tasks, queued_file, queue_files, has_text,
}
use e19_4yp_voluntary_comput.MainLoop.Load.{
  if_cases, if_holds, update_first-HasRoom, see_again-HasRoom, sweep-HasRoom, length-sweep, Same,
  send_from-Same, time_out_from-Same, assign_from-Same,
}

-- At most 100 employees with at most three tasks each, and at most 1000 assignments.
pub record WithinBounds (s : Employer) : Type 0 where
  pub roster : length s.employees ≤ max_employees
  pub queue : length s.task_assignments ≤ max_task_assignments
  pub room : All HasRoom s.employees

pub add_task_assignment-WithinBounds :
    (a : TaskAssignment) (s : Employer)
    → WithinBounds s
    → WithinBounds (add_task_assignment (some a) s).1
unfolding add_task_assignment
add_task_assignment-WithinBounds a s w =
    let n = length s.task_assignments in
    if_cases (λ (r : ℤ × Employer). WithinBounds r.1) (leb max_task_assignments n) _ _ (λ q. w)
      (λ q. record {
        roster = w.roster;
        queue = ground (arith, q, length-append s.task_assignments (a ∷ []));
        room = w.room;
      })

pub queue_files-WithinBounds :
    (names : List CString) (s : Employer) → WithinBounds s → WithinBounds (queue_files names s)
unfolding queue_files
queue_files-WithinBounds [] s w = w
queue_files-WithinBounds (name ∷ names) s w = queue_files-WithinBounds names _ (
    if_holds WithinBounds (has_text (codes ".json") name) _ s
      (λ q. add_task_assignment-WithinBounds (queued_file name) s w) w)

-- A stage that replaces the tasks and the employees.
Same-WithinBounds :
    (s : Employer) (ts : List TaskAssignment) (es : List EmployeeNode)
    → WithinBounds s
    → length ts ≡ length s.task_assignments
    → Same s.employees es
    → WithinBounds (record s { task_assignments = ts; employees = es })
Same-WithinBounds s ts es w ht he = record {
  roster = omega (arith, w.roster, he.0);
  queue = omega (arith, w.queue, ht);
  room = he.1;
}

pub send_pending_tasks-WithinBounds :
    (send : ℕ → TaskAssignment → Bool) (s : Employer)
    → WithinBounds s
    → WithinBounds (send_pending_tasks send s).1
unfolding send_pending_tasks
send_pending_tasks-WithinBounds send s w =
    let (ts, es) = send_from-Same send s.task_assignments s.employees w.room in
    Same-WithinBounds s _ _ w ts es

pub handle_task_timeouts-WithinBounds :
    (now : ℕ) (s : Employer) → WithinBounds s → WithinBounds (handle_task_timeouts now s).1
unfolding handle_task_timeouts
handle_task_timeouts-WithinBounds now s w =
    let (ts, es) = time_out_from-Same now s.task_assignments s.employees w.room in
    Same-WithinBounds s _ _ w ts es

pub assign_tasks-WithinBounds :
    (now : ℕ) (s : Employer) → WithinBounds s → WithinBounds (assign_tasks now s)
unfolding assign_tasks
assign_tasks-WithinBounds now s w =
    let (ts, es) = assign_from-Same now s.task_assignments s.employees w.room in
    Same-WithinBounds s _ _ w ts es

pub remove_stale_employees-WithinBounds :
    (now : ℕ) (s : Employer) → WithinBounds s → WithinBounds (remove_stale_employees now s)
unfolding remove_stale_employees
remove_stale_employees-WithinBounds now s w = record {
  roster = length-sweep (length s.employees) now max_employees s.employees w.roster;
  queue = w.queue;
  room = sweep-HasRoom (length s.employees) now s.employees w.room;
}

-- An employer with another roster.
pub with_roster :
    (s : Employer) (es : List EmployeeNode)
    → WithinBounds s
    → length es ≤ max_employees
    → All HasRoom es
    → WithinBounds (record s { employees = es })
with_roster s es w hl hr = record { roster = hl; queue = w.queue; room = hr }

-- A new employee, where `malloc` gives memory for it.
pub new-WithinBounds :
    (now : ℕ) (ip : CString) (id : Option CString) (connection : Option ℕ)
    (memory : Option EmployeeNode) (s : Employer)
    → WithinBounds s
    → length s.employees < max_employees
    → WithinBounds
        (elim memory as (λ k. Bool × Employer) [
          | none ↦ (false, s)
          | some m ↦ (
            true,
            record s {
              employees = s.employees ++ new_node now ip id connection (length s.employees) m ∷ [];
            },
          )
        ]).1
new-WithinBounds now ip id connection none s w h = w
new-WithinBounds now ip id connection (some m) s w h =
    let e = new_node now ip id connection (length s.employees) m in
    with_roster s (s.employees ++ e ∷ []) w (omega (arith, h, length-append s.employees (e ∷ [])))
      (All-append HasRoom s.employees (e ∷ []) w.room (omega arith, tt))

pub add_or_update_employee-WithinBounds :
    (now : ℕ) (ip : CString) (id : Option CString) (connection : Option ℕ)
    (memory : Option EmployeeNode) (s : Employer)
    → WithinBounds s
    → WithinBounds (add_or_update_employee now ip id connection memory s).1
unfolding add_or_update_employee
add_or_update_employee-WithinBounds now ip id connection memory s w =
    let n = length s.employees in
    if_holds (λ (r : Bool × Employer). WithinBounds r.1) (ltb 0 (count (has_ip ip) s.employees)) _ _
      (λ q.
        with_roster s _ w
          (omega (
            arith,
            w.roster,
            length-update_first (has_ip ip) (see_again now connection) s.employees,
          ))
          (update_first-HasRoom (has_ip ip) (see_again now connection) s.employees
            (λ e k. see_again-HasRoom now connection e) w.room))
      (if_cases (λ (r : Bool × Employer). WithinBounds r.1) (ltb n max_employees) _ _
        (λ q. new-WithinBounds now ip id connection memory s w (ltb→lt n max_employees q)) (λ q. w))

pub discover-WithinBounds :
    (r : Round) (b : Option Broadcast) (s : Employer)
    → WithinBounds s
    → WithinBounds (discover r b s)
unfolding discover
discover-WithinBounds r none s w = w
discover-WithinBounds r (some b) s w =
    add_or_update_employee-WithinBounds r.now b.client_ip b.employee_id b.connection b.memory s w
