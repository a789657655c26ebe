-- ===== src/Employer.antt =====
-- src/uspacehelper/volcom_agents/employer/volcom_employer.c: the employer's roster of employees and
-- its queue of task assignments.
-- Only the employer's thread changes these two arrays, so a function is a function of them. What the
-- clock, a connection attempt, `malloc` and the sending of a file give is an argument. `malloc` and
-- the stack give arrays with content of their own; the last byte of a string's array, which
-- `strncpy` leaves as it is there, is taken to be NUL.
pub mod Assignments
pub mod Distribution
pub mod Roster
pub mod Rounds
mod Tests
use e19_4yp_voluntary_comput.Prelude.{
  ℕ, zero, suc, ◌+◌, ◌-◌, ◌/◌, min, Bool, true, false, not, ◌&&◌, ◌||◌, Option, none, some, List,
  [], ◌∷◌, ◌++◌, ltb, leb, if◌then◌else◌, length, get_elem?, set, take, drop, count, find?,
  update_first, CString, codes, str_eq, fit, decimal,
}
use e19_4yp_voluntary_comput.Prelude.Int.{ℤ, pos, minus_one, sub_int}

pub data EmployeeState : Type 0 where
  new configured : EmployeeState

-- `employee_node_t`; `none` is a negative `sockfd`.
pub record EmployeeNode : Type 0 where
  pub employee_id : CString
  pub ip_address : CString
  pub last_seen : ℕ
  pub active_tasks : ℕ
  pub reliability_score : ℤ
  pub tasks_completed : ℕ
  pub tasks_failed : ℕ
  pub is_available : Bool
  pub sockfd : Option ℕ
  pub state : EmployeeState

-- `task_assignment_t`
pub record TaskAssignment : Type 0 where
  pub task_id : CString
  pub chunk_file : CString
  pub employee_id : CString
  pub employee_ip : CString
  pub assigned_time : ℕ
  pub completed_time : ℕ
  pub is_sent : Bool
  pub is_completed : Bool
  pub retry_count : ℕ

-- The static variables: the entries in use of the two arrays, and where the round-robin stands.
pub record Employer : Type 0 where
  pub employees : List EmployeeNode
  pub task_assignments : List TaskAssignment
  pub last_used_employee : ℕ

-- `STALE_THRESHOLD`, `TASK_TIMEOUT_SECONDS`, `MAX_EMPLOYEES` and `MAX_TASK_ASSIGNMENTS`
abbrev pub stale_threshold : ℕ
stale_threshold = 15

abbrev pub task_timeout_seconds : ℕ
task_timeout_seconds = 300

abbrev pub max_employees : ℕ
max_employees = 100

abbrev pub max_task_assignments : ℕ
max_task_assignments = 1000

abbrev pub is_stale : ℕ → EmployeeNode → Bool
is_stale now e = ltb (e.last_seen + stale_threshold) now

-- The last of some entries, and the others.
abbrev pub last_of {ℓ} : {A : Type ℓ} → A → List A → A
last_of x [] = x
last_of x (y ∷ ys) = last_of y ys

abbrev pub init_of {ℓ} : {A : Type ℓ} → A → List A → List A
init_of x [] = []
init_of x (y ∷ ys) = x ∷ init_of y ys

-- The entries from a removed one on, once the last has been moved to its place.
abbrev pub replace_by_last {ℓ} : {A : Type ℓ} → List A → List A
replace_by_last [] = []
replace_by_last (x ∷ xs) = last_of x xs ∷ init_of x xs

-- The loop from an index on; each round drops an entry or passes one.
unfoldable pub sweep : ℕ → ℕ → List EmployeeNode → List EmployeeNode
sweep zero now es = es
sweep (suc fuel) now [] = []
sweep (suc fuel) now (e ∷ es) =
    let removed = sweep fuel now (replace_by_last es) in
    let passed = sweep fuel now es in if is_stale now e then removed else e ∷ passed

unfoldable pub remove_stale_employees : ℕ → Employer → Employer
unfolding sweep
remove_stale_employees now s = record s { employees = sweep (length s.employees) now s.employees }

abbrev pub has_ip : CString → EmployeeNode → Bool
has_ip ip e = str_eq e.ip_address ip

-- A known employee is seen again, and reconnected where the connection was dropped.
abbrev pub see_again : ℕ → Option ℕ → EmployeeNode → EmployeeNode
see_again now connection e = elim e.sockfd [
  | some fd ↦ record e { last_seen = now }
  | none ↦ elim connection [
    | none ↦ record e { last_seen = now }
    | some fd ↦ record e { last_seen = now; sockfd = some fd; state = new }
  ]
]

abbrev id_or_default : ℕ → Option CString → CString
id_or_default n none = fit 64 (codes "emp_" ++ decimal n)
id_or_default n (some id) = fit 64 id

abbrev pub new_node : ℕ → CString → Option CString → Option ℕ → ℕ → EmployeeNode → EmployeeNode
new_node now ip id connection n memory = record memory {
  employee_id = id_or_default n id;
  ip_address = fit 16 ip;
  last_seen = now;
  active_tasks = 0;
  reliability_score = pos 100;
  tasks_completed = 0;
  tasks_failed = 0;
  sockfd = connection;
  state = new;
}

-- `id` is the broadcast's `employee_id` where that is a string, and `memory` what `malloc` gives.
-- Whether an employee is returned, and the state.
unfoldable pub add_or_update_employee :
    ℕ → CString → Option CString → Option ℕ → Option EmployeeNode → Employer → Bool × Employer
add_or_update_employee now ip id connection memory s =
    if ltb 0 (count (has_ip ip) s.employees)
    then (
      true,
      record s { employees = update_first (has_ip ip) (see_again now connection) s.employees },
    )
    else if ltb (length s.employees) max_employees
    then elim memory [
      | none ↦ (false, s)
      | some m ↦ (
        true,
        record s {
          employees = s.employees ++ new_node now ip id connection (length s.employees) m ∷ [];
        },
      )
    ]
    else (false, s)

unfoldable pub add_task_assignment : Option TaskAssignment → Employer → ℤ × Employer
add_task_assignment none s = (minus_one, s)
add_task_assignment (some a) s =
    if leb max_task_assignments (length s.task_assignments)
    then (minus_one, s)
    else (pos 0, record s { task_assignments = s.task_assignments ++ a ∷ [] })

unfoldable pub count_completed_tasks : Employer → ℕ
count_completed_tasks s = count (λ a. a.is_completed) s.task_assignments

-- The connection of an employee that can be sent a task.
abbrev pub usable : EmployeeNode → Option ℕ
usable e = elim e.state [ new ↦ none | configured ↦ e.sockfd ]

abbrev pub usable_at : CString → List EmployeeNode → Option ℕ
usable_at ip es = elim (find? (has_ip ip) es) [ none ↦ none | some e ↦ usable e ]
