-- ===== src/MainLoop.antt =====
-- The employer's thread: `populate_chunked_tasks` and `employer_main_loop` of
-- src/uspacehelper/volcom_agents/employer/volcom_employer.c, over the functions of Employer.
-- What a round meets outside the program is the round's argument: the broadcast that has arrived, what
-- is received on each connection, and what each sending ends with.
pub mod Load
pub mod Stages
pub mod Arrivals
pub mod Bounds
pub mod Progress
mod Tests
use e19_4yp_voluntary_comput.Prelude.{
  starts_with, leb, ltb, find?, update_first, map, length, ℕ, zero, suc, ◌+◌, ◌-◌, ◌/◌, Bool, true,
  false, not, ◌&&◌, ◌||◌, Option, none, some, List, [], ◌∷◌, ◌++◌, ◌==◌, if◌then◌else◌, get_elem?,
  set, take, drop, count, CString, codes, fit,
}
use e19_4yp_voluntary_comput.Prelude.Int.{ℤ, pos, negsuc}
use e19_4yp_voluntary_comput.Employer.{
  EmployeeState, new, configured, EmployeeNode, TaskAssignment, Employer, add_or_update_employee,
  add_task_assignment, count_completed_tasks, remove_stale_employees,
}
use e19_4yp_voluntary_comput.Employer.Assignments.{send_pending_tasks, handle_task_timeouts}
use e19_4yp_voluntary_comput.Employer.Distribution.{can_take}
use e19_4yp_voluntary_comput.Transfer.Results.{Collected, collected}

-- `strstr(name, text)`
abbrev pub has_text : CString → CString → Bool
has_text text [] = starts_with text []
has_text text (c ∷ name) = starts_with text (c ∷ name) || has_text text name

abbrev pub queued_file : CString → TaskAssignment
queued_file name = record {
  task_id = fit 64 name;
  chunk_file = fit 256 (fit 512 (codes "./scripts//" ++ name));
  employee_id = [];
  employee_ip = [];
  assigned_time = 0;
  completed_time = 0;
  is_sent = false;
  is_completed = false;
  retry_count = 0;
}

-- The entries of the directory, in `readdir`'s order.
unfoldable pub queue_files : List CString → Employer → Employer
unfolding add_task_assignment
queue_files [] s = s
queue_files (name ∷ names) s =
    let (added, next) = add_task_assignment (some (queued_file name)) s in
    queue_files names (if has_text (codes ".json") name then next else s)

-- `none` is a directory that cannot be opened.
unfoldable pub populate_chunked_tasks : Option (List CString) → Employer → Employer
unfolding queue_files
populate_chunked_tasks none s = s
populate_chunked_tasks (some names) s = queue_files names s

-- A broadcast that cJSON can parse: the sender, the `employee_id` that it holds, and what a connection
-- attempt and `malloc` give.
pub record Broadcast : Type 0 where
  pub client_ip : CString
  pub employee_id : Option CString
  pub connection : Option ℕ
  pub memory : Option EmployeeNode

-- What a round meets: the clock, a broadcast, what `receive_result_from_employee` ends with on a
-- connection that is readable, and whether `send_initial_config` and `send_file_to_employee` succeed.
pub record Round : Type 0 where
  pub now : ℕ
  pub broadcast : Option Broadcast
  pub arrived : ℕ → Option Collected
  pub config_sent : ℕ → Bool
  pub file_sent : ℕ → TaskAssignment → Bool

abbrev pub discover : Round → Option Broadcast → Employer → Employer
unfolding add_or_update_employee
discover r none s = s
discover r (some b) s =
    let (returned, t) =
      add_or_update_employee r.now b.client_ip b.employee_id b.connection b.memory s in
    t

abbrev pub drop_connection : EmployeeNode → EmployeeNode
drop_connection e = record e { sockfd = none }

-- Dropping the connection of the employee at `i` where the call has not returned 0.
abbrev pub drop_at : ℕ → Employer → Option EmployeeNode → Employer
drop_at i s none = s
drop_at i s (some e) = record s { employees = set s.employees i (drop_connection e) }

abbrev pub unless_ok : ℤ → ℕ → Employer → Employer
unless_ok (pos zero) i s = s
unless_ok (pos (suc n)) i s = drop_at i s (get_elem? s.employees i)
unless_ok (negsuc n) i s = drop_at i s (get_elem? s.employees i)

abbrev pub collect : Round → ℕ → Employer → Option Collected → Employer
unfolding collected
collect r i s none = s
collect r i s (some c) = unless_ok c.result i (collected r.now i s c.received)

-- The stages of a round, in the order of the loop. Results, from the employee at `i` on, of which there
-- are `n` left.
abbrev pub collect_over : Round → ℕ → Employer → Option ℕ → Employer
unfolding collect
collect_over r i s none = s
collect_over r i s (some fd) = collect r i s (r.arrived fd)

abbrev pub collect_at : Round → ℕ → Employer → Option EmployeeNode → Employer
unfolding collect_over
collect_at r i s none = s
collect_at r i s (some e) = collect_over r i s e.sockfd

unfoldable pub collect_from : Round → ℕ → ℕ → Employer → Employer
unfolding collect_at
collect_from r i zero s = s
collect_from r i (suc n) s = collect_from r (suc i) n (collect_at r i s (get_elem? s.employees i))

unfoldable pub collect_results : Round → Employer → Employer
unfolding collect_from
collect_results r s = collect_from r 0 (length s.employees) s

-- The initial configurations.
abbrev pub configure_over : Round → EmployeeNode → EmployeeState → Option ℕ → EmployeeNode
configure_over r e state none = e
configure_over r e configured (some fd) = e
configure_over r e new (some fd) =
    if r.config_sent fd then record e { state = configured } else drop_connection e

abbrev pub configure : Round → EmployeeNode → EmployeeNode
configure r e = configure_over r e e.state e.sockfd

unfoldable pub send_configs : Round → Employer → Employer
send_configs r s = record s { employees = map (configure r) s.employees }

-- The assignment of tasks that are not sent, each to the first employee that can take it.
abbrev pub busier : EmployeeNode → EmployeeNode
busier e = record e { active_tasks = e.active_tasks + 1 }

abbrev pub assigned_to :
    ℕ
    → TaskAssignment
    → List EmployeeNode
    → Option EmployeeNode
    → TaskAssignment × List EmployeeNode
assigned_to now a es none = (a, es)
assigned_to now a es (some e) = (
  record a {
    employee_id = fit 64 e.employee_id;
    employee_ip = fit 64 e.ip_address;
    assigned_time = now;
  },
  update_first can_take busier es,
)

abbrev pub assign_one : ℕ → TaskAssignment → List EmployeeNode → TaskAssignment × List EmployeeNode
assign_one now a es =
    if a.is_sent || a.is_completed then (a, es) else assigned_to now a es (find? can_take es)

unfoldable pub assign_from :
    ℕ → List TaskAssignment → List EmployeeNode → List TaskAssignment × List EmployeeNode
assign_from now [] es = ([], es)
assign_from now (a ∷ ts) es =
    let (a', es') = assign_one now a es in
    let (ts', es'') = assign_from now ts es' in (a' ∷ ts', es'')

unfoldable pub assign_tasks : ℕ → Employer → Employer
unfolding assign_from
assign_tasks now s =
    let (ts, es) = assign_from now s.task_assignments s.employees in
    record s { task_assignments = ts; employees = es }

-- Whether there are tasks, and all are complete.
unfoldable pub all_completed : Employer → Bool
unfolding count_completed_tasks
all_completed s =
    let total = length s.task_assignments in ltb 0 total && leb total (count_completed_tasks s)

unfoldable pub stages : Round → Employer → Employer
unfolding discover collect_results send_configs assign_tasks send_pending_tasks handle_task_timeouts
    remove_stale_employees
stages r s =
    let known = discover r r.broadcast s in
    let ready = assign_tasks r.now (send_configs r (collect_results r known)) in
    let (sent, pending) = send_pending_tasks r.file_sent ready in
    let (late, timed) = handle_task_timeouts r.now pending in remove_stale_employees r.now timed

-- Whether the loop is still active after the rounds, and the state. In a round without a value `select`
-- fails, which ends the loop. After it the thread closes all connections and frees the roster.
unfoldable pub employer_main_loop : List (Option Round) → Employer → Bool × Employer
unfolding stages all_completed
employer_main_loop [] s = (true, s)
employer_main_loop (none ∷ rs) s = (false, s)
employer_main_loop (some r ∷ rs) s =
    let t = stages r s in
    let rest = employer_main_loop rs t in if all_completed t then (false, t) else rest
