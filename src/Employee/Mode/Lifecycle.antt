-- ===== src/Employee/Mode/Lifecycle.antt =====
-- What `run_employee_mode` of volcom_employee.c has freed when it ends.
use e19_4yp_voluntary_comput.Prelude.{◌≡◌, Bool, true, false, some}
use e19_4yp_voluntary_comput.Prelude.Int.{ℤ, pos, minus_one}
use e19_4yp_voluntary_comput.TaskManagement.{freed}
use e19_4yp_voluntary_comput.TaskManagement.Queues.{ResultQueue}
use e19_4yp_voluntary_comput.Employee.Connection.{Session}
use e19_4yp_voluntary_comput.Employee.Connection.Results.{AllSafe}
use e19_4yp_voluntary_comput.Employee.Mode.{Arrival, worked, accept_failed, connected, Outcome}

-- How the mode ends: with this result, and whether each of the two arrays is freed.
abbrev pub Leaves : ℤ → (ResultQueue → Type 0) → Outcome → Type 0
Leaves result P r =
    (s : Session) × (r ≡ some (result, s))
    × (s.shared.data_chunk_buffer.items ≡ freed)
    × P s.shared.result_queue

abbrev pub IsFreed : ResultQueue → Type 0
IsFreed q = q.items ≡ freed

-- The worker runs only without a script, and what the connections meet is safe.
abbrev pub SafeArrival : Arrival → Type 0
SafeArrival accept_failed = Unit
SafeArrival (worked e) = e.ready ≡ false
SafeArrival (connected enough rounds) = AllSafe rounds

-- The array of results is still allocated.
abbrev pub IsLeaked : ResultQueue → Type 0
IsLeaked q = ¬ (q.items ≡ freed)

-- How the mode ends, by whether the threads and the server start.
abbrev pub LeavesBy : Bool → Outcome → Type 0
LeavesBy true r = Leaves (pos 0) IsFreed r
LeavesBy false r = Leaves minus_one IsLeaked r
