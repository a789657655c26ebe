-- ===== src/TaskManagement/Queues.antt =====
-- The two rings of task_management.c over the structs of volcom_agents.h, under the source's names.
use e19_4yp_voluntary_comput.Prelude.{ℕ, ◌≡◌, Bool, List, Option, none, some, CString, arith, ◌<◌}
use e19_4yp_voluntary_comput.Prelude.Int.{ℤ}
use e19_4yp_voluntary_comput.TaskManagement.{
  Ring, Status, live, init_ring, cleanup_ring, add_to_ring, get_from_ring, is_ring_empty,
}

-- `data` is a pointer: the address of a heap block, or NULL.
pub record ReceivedTask : Type 0 where
  pub task_id : CString
  pub chunk_filename : CString
  pub sender_id : CString
  pub payload : Option ℕ
  pub data_size : ℕ
  pub received_time : ℕ
  pub is_processed : Bool
  pub frame_no : ℤ

pub record ResultInfo : Type 0 where
  pub task_id : CString
  pub result_filepath : CString
  pub employer_ip : CString

abbrev pub TaskBuffer : Type 0
TaskBuffer = Ring ReceivedTask

abbrev pub ResultQueue : Type 0
ResultQueue = Ring ResultInfo

unfoldable pub init_task_buffer :
    Option TaskBuffer → Option (List ReceivedTask) → ℕ → Status × Option TaskBuffer
unfolding init_ring
init_task_buffer = init_ring

unfoldable pub cleanup_task_buffer : Option TaskBuffer → Option (Option TaskBuffer)
unfolding cleanup_ring
cleanup_task_buffer = cleanup_ring

unfoldable pub add_task_to_buffer : TaskBuffer → ReceivedTask → Option (Status × TaskBuffer)
unfolding add_to_ring
add_task_to_buffer = add_to_ring

unfoldable pub get_task_from_buffer :
    TaskBuffer → Option (Status × Option ReceivedTask × TaskBuffer)
unfolding get_from_ring
get_task_from_buffer = get_from_ring

unfoldable pub is_task_buffer_empty : TaskBuffer → Bool
unfolding is_ring_empty
is_task_buffer_empty = is_ring_empty

unfoldable pub init_result_queue :
    Option ResultQueue → Option (List ResultInfo) → ℕ → Status × Option ResultQueue
unfolding init_ring
init_result_queue = init_ring

unfoldable pub cleanup_result_queue : Option ResultQueue → Option (Option ResultQueue)
unfolding cleanup_ring
cleanup_result_queue = cleanup_ring

unfoldable pub add_result_to_queue : ResultQueue → ResultInfo → Option (Status × ResultQueue)
unfolding add_to_ring
add_result_to_queue = add_to_ring

unfoldable pub get_result_from_queue :
    ResultQueue → Option (Status × Option ResultInfo × ResultQueue)
unfolding get_from_ring
get_result_from_queue = get_from_ring

unfoldable pub is_result_queue_empty : ResultQueue → Bool
unfolding is_ring_empty
is_result_queue_empty = is_ring_empty

-- Cleaning up a buffer whose array is allocated frees it, and leaves a buffer that must not be
-- touched again: a second clean-up frees the array twice, and an addition to a buffer that is not
-- full writes to freed memory.
pub cleanup_task_buffer_once :
    (b : TaskBuffer) (xs : List ReceivedTask) (t : ReceivedTask) {b' : TaskBuffer}
    → b.items ≡ live xs
    → b.count < b.capacity
    → cleanup_task_buffer (some b) ≡ some (some b')
    → (cleanup_task_buffer (some b') ≡ none) × (add_task_to_buffer b' t ≡ none)
unfolding cleanup_task_buffer add_task_to_buffer
cleanup_task_buffer_once b xs t h room e = ground arith
