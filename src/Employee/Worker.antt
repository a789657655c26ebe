-- ===== src/Employee/Worker.antt =====
-- A round of `worker_loop` of src/uspacehelper/volcom_agents/employee/volcom_employee.c: a data chunk
-- goes from the buffer to the script, and its answer to the queue of results.
-- The heap is the list of the blocks that are allocated; `none` as a whole is a fault: an access to
-- memory that is not, or a second `free`.
use e19_4yp_voluntary_comput.Prelude.{
  ℕ, Bool, true, false, not, ◌&&◌, Option, none, some, List, ◌∷◌, ◌++◌, ltb, ◌==◌, if◌then◌else◌,
  keep, count, CString, codes, fit,
}
use e19_4yp_voluntary_comput.TaskManagement.{Status, done, failed}
use e19_4yp_voluntary_comput.TaskManagement.Queues.{
  ReceivedTask, ResultInfo, TaskBuffer, ResultQueue, add_task_to_buffer, get_task_from_buffer,
  add_result_to_queue,
}

pub record Worker : Type 0 where
  pub data_chunk_buffer : TaskBuffer
  pub result_queue : ResultQueue
  pub heap : List ℕ

-- What a round meets: whether the script is started and connected, whether
-- `unix_socket_client_send_message` succeeds on a chunk, which is `none` where the data has no NUL in
-- its block, so that `strlen` reads past it, the block that `malloc` gives for the
-- response, whether a response arrives, whether cJSON parses it to an object with a status, and
-- whether the result's file can be created.
pub record Answers : Type 0 where
  pub ready : Bool
  pub sends : Option Bool
  pub response_block : Option ℕ
  pub responds : Bool
  pub has_status : Bool
  pub creates_file : Bool

abbrev pub is_allocated : ℕ → List ℕ → Bool
is_allocated a heap = ltb 0 (count (λ b. a == b) heap)

abbrev pub release : ℕ → List ℕ → List ℕ
release a heap = keep (λ b. not (a == b)) heap

-- `if (data_chunk.data) free(data_chunk.data)`
unfoldable pub free_data : Option ℕ → Worker → Option Worker
free_data none w = some w
free_data (some a) w =
    if is_allocated a w.heap then some (record w { heap = release a w.heap }) else none

abbrev pub result_file : ReceivedTask → CString
result_file t = fit 512 (codes "/tmp/node_result_" ++ (t.task_id ++ codes ".json"))

abbrev pub result_of : ReceivedTask → ResultInfo
result_of t = record {
  task_id = fit 256 t.task_id;
  result_filepath = fit 256 (result_file t);
  employer_ip = fit 16 t.sender_id;
}

abbrev pub with_results : Worker → Option (Status × ResultQueue) → Option Worker
with_results w none = none
with_results w (some (status, queue)) = some (record w { result_queue = queue })

-- A response that has arrived; its block is freed at the end.
unfoldable pub take_response : Answers → ReceivedTask → Worker → Option Worker
unfolding add_result_to_queue
take_response e t w =
    if e.has_status && e.creates_file
    then with_results w (add_result_to_queue w.result_queue (result_of t))
    else some w

unfoldable pub then_free : Option ℕ → Option Worker → Option Worker
unfolding free_data
then_free block none = none
then_free block (some w) = free_data block w

-- After the chunk has been sent. Without a block for the response the round ends there, and without a
-- response its block is not freed.
unfoldable pub await_response : Answers → ReceivedTask → Worker → Option ℕ → Option Worker
unfolding take_response then_free
await_response e t w none = some w
await_response e t w (some block) =
    let allocated = record w { heap = block ∷ w.heap } in
    if e.responds
    then then_free t.payload (then_free (some block) (take_response e t allocated))
    else then_free t.payload (some allocated)

abbrev pub with_chunks : Worker → Option (Status × TaskBuffer) → Option Worker
with_chunks w none = none
with_chunks w (some (status, buffer)) = some (record w { data_chunk_buffer = buffer })

-- A chunk that has not been sent goes back to the buffer, and its data is freed.
unfoldable pub put_back_chunk : ReceivedTask → Worker → Option Worker
unfolding add_task_to_buffer then_free
put_back_chunk t w = then_free t.payload (with_chunks w (add_task_to_buffer w.data_chunk_buffer t))

unfoldable pub data_sent : Answers → ReceivedTask → Worker → Option Bool → Option Worker
unfolding await_response put_back_chunk
data_sent e t w none = none
data_sent e t w (some true) = await_response e t w e.response_block
data_sent e t w (some false) = put_back_chunk t w

-- Sending reads the chunk's data; without data it fails.
unfoldable pub send_data : Answers → ReceivedTask → Worker → Option ℕ → Option Worker
unfolding data_sent put_back_chunk
send_data e t w none = put_back_chunk t w
send_data e t w (some a) = if is_allocated a w.heap then data_sent e t w e.sends else none

unfoldable pub process_chunk :
    Answers → Worker → Option (Status × Option ReceivedTask × TaskBuffer) → Option Worker
unfolding send_data
process_chunk e w none = none
process_chunk e w (some (failed, t, buffer)) = some w
process_chunk e w (some (done, none, buffer)) = some w
process_chunk e w (some (done, some t, buffer)) =
    send_data e t (record w { data_chunk_buffer = buffer }) t.payload

unfoldable pub worker_round : Answers → Worker → Option Worker
unfolding process_chunk get_task_from_buffer
worker_round e w =
    if e.ready then process_chunk e w (get_task_from_buffer w.data_chunk_buffer) else some w
