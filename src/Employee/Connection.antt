-- ===== src/Employee/Connection.antt =====
-- `handle_persistent_connection` of src/uspacehelper/volcom_agents/employee/volcom_employee.c: the
-- employee's loop over the messages of its employer and the results that wait.
-- What a round meets is its argument. The worker runs its rounds between those of the connection. Both branches of the source for a data chunk, with the script
-- ready or not, put it into the same buffer. `none` as a whole is a fault, as in the worker.
pub mod Messages
pub mod Results
use e19_4yp_voluntary_comput.Prelude.{
  ℕ, zero, suc, ◌+◌, ◌-◌, ◌/◌, ap, Bool, true, false, not, ◌&&◌, Option, none, some, List, [], ◌∷◌,
  ◌++◌, ltb, if◌then◌else◌, length, take, drop, count, CString, codes, str_eq, fit,
}
use e19_4yp_voluntary_comput.Prelude.Int.{ℤ, pos, negsuc}
use e19_4yp_voluntary_comput.Protocol.{ProtocolStatus, ok, err, conn_closed}
use e19_4yp_voluntary_comput.TaskManagement.{Status, done, failed}
use e19_4yp_voluntary_comput.TaskManagement.Queues.{
  ReceivedTask, ResultInfo, ResultQueue, TaskBuffer, add_task_to_buffer, add_result_to_queue,
  get_result_from_queue, is_result_queue_empty,
}
use e19_4yp_voluntary_comput.Transfer.Receiving.{Intake}
use e19_4yp_voluntary_comput.Employee.Worker.{
  Answers, worker_round, Worker, free_data, with_results,
}

-- The employee's buffers, the configurations handed to the threads that save them and start the
-- script, and the counters of its status.
pub record Session : Type 0 where
  pub shared : Worker
  pub configurations : List ReceivedTask
  pub tasks_completed : ℕ
  pub tasks_failed : ℕ

-- What `select` and `recv_json_peek` show: a failure of `select`, nothing to read, or the status with
-- the `message_type`, if that is a string; what `receive_task_from_employer` would end with; and whether
-- `malloc` gives the blocks for the arguments of the two threads. With `idle_after`, there is nothing to
-- read, and the worker has run a round before.
pub data Activity : Type 0 where
  select_failed idle : Activity
  idle_after : Answers → Activity
  readable : ProtocolStatus → Option CString → Intake → Bool → Activity

-- Whether the loop goes on, with the state.
abbrev pub Next : Type 0
Next = Option (Bool × Session)

abbrev pub carry_on : Session → Next
carry_on s = some (true, s)

abbrev pub leave : Session → Next
leave s = some (false, s)

abbrev pub with_worker : Session → Option Worker → Next
with_worker s none = none
with_worker s (some w) = carry_on (record s { shared = w })

-- A chunk that the buffer has no room for is freed.
unfoldable pub buffer_added : Option ℕ → Worker → Option (Status × TaskBuffer) → Option Worker
unfolding free_data
buffer_added block w none = none
buffer_added block w (some (done, buffer)) = some (record w { data_chunk_buffer = buffer })
buffer_added block w (some (failed, buffer)) =
    free_data block (record w { data_chunk_buffer = buffer })

-- The block of a task's data that `receive_task_from_employer` has allocated.
abbrev pub with_data : Option ℕ → Worker → Worker
with_data none w = w
with_data (some a) w = record w { heap = a ∷ w.heap }

-- The arguments of the thread that starts the script: `strcpy` puts the task's id into 128 bytes. Neither
-- block is tested.
abbrev pub arguments_fit : Bool → ReceivedTask → Bool
arguments_fit allocates t = allocates && ltb (length t.task_id) 128

-- A message by its type: a failed configuration is passed over, a failed chunk ends the loop, and a
-- message of another type is read and dropped.
unfoldable pub handle_message : CString → Bool → Option ReceivedTask → Session → Next
unfolding buffer_added add_task_to_buffer
handle_message type allocates none s =
    if str_eq type (codes "data_chunk") then leave s else carry_on s
handle_message type allocates (some t) s =
    let w = with_data t.payload s.shared in
    if str_eq type (codes "initial_config")
    then if arguments_fit allocates t
      then carry_on (record s { shared = w; configurations = s.configurations ++ t ∷ [] })
      else none
    else if str_eq type (codes "data_chunk")
    then with_worker s (buffer_added t.payload w (add_task_to_buffer w.data_chunk_buffer t))
    else carry_on s

-- The task that `receive_task_from_employer` gives, if it returns 0.
abbrev pub accepted : ℤ → Option ReceivedTask → Option ReceivedTask
accepted (pos zero) t = t
accepted (pos (suc n)) t = none
accepted (negsuc n) t = none

unfoldable pub handle_activity : Activity → Session → Next
unfolding handle_message worker_round
handle_activity select_failed s = leave s
handle_activity idle s = carry_on s
handle_activity (idle_after e) s = with_worker s (worker_round e s.shared)
handle_activity (readable ok (some type) r allocates) s =
    handle_message type allocates (accepted r.result r.task) s
handle_activity (readable ok none r allocates) s = leave s
handle_activity (readable err type r allocates) s = leave s
handle_activity (readable conn_closed type r allocates) s = leave s

-- A result that could not be sent goes back to the queue.
abbrev pub result_sent : Bool → ResultInfo → Session → Next
unfolding add_result_to_queue
result_sent true r s = carry_on (record s { tasks_completed = s.tasks_completed + 1 })
result_sent false r s =
    with_worker (record s { tasks_failed = s.tasks_failed + 1 })
      (with_results s.shared (add_result_to_queue s.shared.result_queue r))

abbrev pub result_taken : Bool → Session → Option (Status × Option ResultInfo × ResultQueue) → Next
unfolding result_sent
result_taken sends s none = none
result_taken sends s (some (failed, r, queue)) = carry_on s
result_taken sends s (some (done, none, queue)) = carry_on s
result_taken sends s (some (done, some r, queue)) =
    result_sent sends r (record s { shared = record s.shared { result_queue = queue } })

-- The second half of the round; `sends` is whether `send_result_to_employer` succeeds.
unfoldable pub send_waiting : Bool → Bool × Session → Next
unfolding result_taken is_result_queue_empty get_result_from_queue
send_waiting sends (false, s) = leave s
send_waiting sends (true, s) =
    if is_result_queue_empty s.shared.result_queue
    then carry_on s
    else result_taken sends s (get_result_from_queue s.shared.result_queue)

abbrev pub and_then : Next → (Bool × Session → Next) → Next
and_then none f = none
and_then (some r) f = f r

unfoldable pub connection_round : Activity → Bool → Session → Next
unfolding handle_activity send_waiting
connection_round activity sends s = and_then (handle_activity activity s) (send_waiting sends)

abbrev pub unless_left : (Session → Next) → Bool × Session → Next
unless_left f (true, s) = f s
unless_left f (false, s) = leave s

-- The rounds, each with its activity and whether it can send a result.
unfoldable pub handle_persistent_connection : List (Activity × Bool) → Session → Next
unfolding connection_round
handle_persistent_connection [] s = carry_on s
handle_persistent_connection ((activity, sends) ∷ rounds) s =
    and_then (connection_round activity sends s) (unless_left (handle_persistent_connection rounds))
