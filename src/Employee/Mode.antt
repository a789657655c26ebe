-- ===== src/Employee/Mode.antt =====
-- `run_employee_mode` of src/uspacehelper/volcom_agents/employee/volcom_employee.c: the buffers, the
-- threads and the server, the connections of employers one after the other, and the end.
-- The resource manager's answers are those of Rcsmngr. The worker runs its rounds between those
-- of a connection and while `accept` waits. `none` as a whole is a fault.
pub mod Lifecycle
mod Tests
use e19_4yp_voluntary_comput.Prelude.{
  ◌-◌, ◌/◌, min, Bool, true, false, ◌&&◌, Option, none, some, List, [], ◌∷◌, if◌then◌else◌, set,
}
use e19_4yp_voluntary_comput.Prelude.Int.{ℤ, pos, minus_one}
use e19_4yp_voluntary_comput.TaskManagement.{Status, done, failed}
use e19_4yp_voluntary_comput.TaskManagement.Queues.{
  ReceivedTask, ResultInfo, TaskBuffer, ResultQueue, init_task_buffer, cleanup_task_buffer,
  init_result_queue, cleanup_result_queue,
}
use e19_4yp_voluntary_comput.Employee.Worker.{Worker, Answers, worker_round}
use e19_4yp_voluntary_comput.Employee.Connection.{
  Session, Activity, Next, with_worker, handle_persistent_connection,
}

-- What `accept` gives: an error, or a connection, with whether there is enough free memory for it and
-- the rounds that it has. With `worked`, the worker runs a round before the next.
pub data Arrival : Type 0 where
  accept_failed : Arrival
  worked : Answers → Arrival
  connected : Bool → List (Activity × Bool) → Arrival

-- The arrays that `malloc` gives, whether the manager is initialised and its cgroup created, whether
-- the two threads start and the server does, and what `accept` then gives until a signal ends the loop.
pub record Startup : Type 0 where
  pub chunk_block : Option (List ReceivedTask)
  pub result_block : Option (List ResultInfo)
  pub manager_initialised : Bool
  pub cgroup_created : Bool
  pub broadcaster_started : Bool
  pub worker_started : Bool
  pub server_started : Bool
  pub arrivals : List Arrival

abbrev pub Outcome : Type 0
Outcome = Option (ℤ × Session)

abbrev pub set_chunks : TaskBuffer → Session → Session
set_chunks b s = record s { shared = record s.shared { data_chunk_buffer = b } }

abbrev pub set_results : ResultQueue → Session → Session
set_results q s = record s { shared = record s.shared { result_queue = q } }

-- `cleanup_task_buffer` and `cleanup_result_queue`, and then a result.
abbrev pub chunks_freed : Session → Option (Option TaskBuffer) → Option Session
chunks_freed s none = none
chunks_freed s (some none) = some s
chunks_freed s (some (some b)) = some (set_chunks b s)

abbrev pub results_freed : Session → Option (Option ResultQueue) → Option Session
results_freed s none = none
results_freed s (some none) = some s
results_freed s (some (some q)) = some (set_results q s)

unfoldable pub free_chunks : Session → Option Session
unfolding cleanup_task_buffer
free_chunks s = chunks_freed s (cleanup_task_buffer (some s.shared.data_chunk_buffer))

unfoldable pub free_results : Session → Option Session
unfolding cleanup_result_queue
free_results s = results_freed s (cleanup_result_queue (some s.shared.result_queue))

abbrev pub ends_with : ℤ → Option Session → Outcome
ends_with result none = none
ends_with result (some s) = some (result, s)

-- A failure behind the start of the two buffers frees only the chunks.
unfoldable pub give_up : Session → Outcome
unfolding free_chunks
give_up s = ends_with minus_one (free_chunks s)

unfoldable pub free_both : Option Session → Outcome
unfolding free_results
free_both none = none
free_both (some s) = ends_with (pos 0) (free_results s)

abbrev pub after_connection : (Session → Outcome) → Next → Outcome
after_connection next none = none
after_connection next (some (goes_on, s)) = next s

-- The loop over what `accept` gives, and the end.
unfoldable pub accept_loop : List Arrival → Session → Outcome
unfolding free_both free_chunks handle_persistent_connection worker_round
accept_loop [] s = free_both (free_chunks s)
accept_loop (accept_failed ∷ arrivals) s = accept_loop arrivals s
accept_loop (worked e ∷ arrivals) s =
    after_connection (accept_loop arrivals) (with_worker s (worker_round e s.shared))
accept_loop (connected false rounds ∷ arrivals) s = accept_loop arrivals s
accept_loop (connected true rounds ∷ arrivals) s =
    after_connection (accept_loop arrivals) (handle_persistent_connection rounds s)

-- The broadcaster, the worker and the server.
abbrev pub all_started : Startup → Bool
all_started a = a.broadcaster_started && (a.worker_started && a.server_started)

unfoldable pub start_threads : Startup → Session → Outcome
unfolding give_up accept_loop
start_threads a s =
    if a.manager_initialised && a.cgroup_created
    then if all_started a then accept_loop a.arrivals s else give_up s
    else some (pos 1, s)

unfoldable pub with_result_queue : Startup → Session → Status × Option ResultQueue → Outcome
unfolding give_up start_threads
with_result_queue a s (failed, q) = give_up s
with_result_queue a s (done, none) = give_up s
with_result_queue a s (done, some q) = start_threads a (set_results q s)

unfoldable pub with_task_buffer : Startup → Session → Status × Option TaskBuffer → Outcome
unfolding with_result_queue init_result_queue
with_task_buffer a s (failed, b) = some (minus_one, s)
with_task_buffer a s (done, none) = some (minus_one, s)
with_task_buffer a s (done, some b) =
    with_result_queue a (set_chunks b s)
      (init_result_queue (some s.shared.result_queue) a.result_block 10)

unfoldable pub run_employee_mode : Startup → Session → Outcome
unfolding with_task_buffer init_task_buffer
run_employee_mode a s =
    with_task_buffer a s (init_task_buffer (some s.shared.data_chunk_buffer) a.chunk_block 50)
