-- ===== src/Transfer/Receiving.antt =====
-- The receivers of the files of the agents: `receive_task_from_employer` of
-- src/uspacehelper/volcom_agents/employee/volcom_employee.c and `receive_result_from_employee` of
-- volcom_agents/employer/volcom_employer.c.
-- `none` as a whole is a loop that the rounds given are too few for. `malloc`, `fopen` and the clock
-- are arguments.
use e19_4yp_voluntary_comput.Prelude.{
  codes, CString, ℕ, zero, suc, ◌-◌, min, Bool, false, ◌||◌, Option, none, some, List, [], ◌∷◌,
  ◌++◌, ltb, ◌==◌, if◌then◌else◌, length, take, drop, CString, codes, fit,
}
use e19_4yp_voluntary_comput.Prelude.Int.{ℤ, pos, minus_one}
use e19_4yp_voluntary_comput.Protocol.{
  ProtocolStatus, ok, err, conn_closed, max_json_size, Received, whole, broken, running, prepend,
  put_back, read_rest, from_be32, recv_json,
}
use e19_4yp_voluntary_comput.Transfer.{JsonItem, text, number, Cjson, string_of}
use e19_4yp_voluntary_comput.TaskManagement.Queues.{ReceivedTask}

-- The loops that read a file, `need` bytes, at most `last + 1` of them in a round.
unfoldable pub read_capped : ℕ → ℕ → ℕ → List (List ℕ) → Received
read_capped last fuel zero fs = whole [] fs
read_capped last zero (suc need) fs = running
read_capped last (suc fuel) (suc need) [] = broken []
read_capped last (suc fuel) (suc need) ([] ∷ fs) = broken fs
read_capped last (suc fuel) (suc need) ((b ∷ bs) ∷ fs) =
    let m = min last need in
    prepend (b ∷ take m bs)
      (read_capped last fuel (need - length (take m bs)) (put_back (drop m bs) fs))

-- 100 MB, and the bytes that a round of each loop has room for, less one.
abbrev pub max_file_size : ℕ
max_file_size = 104857600

abbrev pub file_last : ℕ
file_last = 4095

abbrev pub discard_last : ℕ
discard_last = 1023

-- What a call of `receive_task_from_employer` ends with: its result, the task, what the task's `data`
-- points to, the file that it has saved, and the segments left.
pub record Intake : Type 0 where
  pub result : ℤ
  pub task : Option ReceivedTask
  pub content : List ℕ
  pub saved : Option (CString × List ℕ)
  pub left : List (List ℕ)

abbrev pub refuse_to : Option ReceivedTask → List (List ℕ) → Option Intake
refuse_to t left =
    some (record { result = minus_one; task = t; content = []; saved = none; left = left })

abbrev pub refuse : ReceivedTask → List (List ℕ) → Option Intake
refuse t left = refuse_to (some t) left

-- The strings of a task's metadata: the task, the file and the sender, if there are these three and
-- a message type.
abbrev pub task_strings :
    Option CString
    → Option CString
    → Option CString
    → Option CString
    → Option (CString × CString × CString)
task_strings (some task_id) (some chunk_filename) (some sender_id) (some message_type) =
    some (task_id, chunk_filename, sender_id)
task_strings none file sender message = none
task_strings (some task_id) none sender message = none
task_strings (some task_id) (some file) none message = none
task_strings (some task_id) (some file) (some sender) none = none

abbrev pub frame_of : Option JsonItem → ℤ
frame_of none = minus_one
frame_of (some (text s)) = minus_one
frame_of (some (number n)) = n

abbrev pub described : ReceivedTask → ℕ → ℤ → CString × CString × CString → ReceivedTask
described t now frame (task_id, chunk_filename, sender_id) = record t {
  task_id = fit 256 task_id;
  chunk_filename = fit 256 chunk_filename;
  sender_id = fit 64 sender_id;
  received_time = now;
  is_processed = false;
  frame_no = frame;
}

abbrev pub local_filename : CString → CString
local_filename task_id = fit 512 (codes "/tmp/employee_task_" ++ task_id)

-- A task whose data has been received is saved, if the file can be opened for writing.
abbrev pub save_task : (CString → Bool) → ReceivedTask → List ℕ → List (List ℕ) → Intake
save_task can_create t content left =
    let path = local_filename t.task_id in
    let saved = can_create path in
    record {
      result = pos 0;
      task = some (if saved then record t { chunk_filename = fit 256 path } else t);
      content = content;
      saved = if saved then some (path, content) else none;
      left = left;
    }

-- The end of the loop over the content: on an error the data is freed.
abbrev pub content_received : (CString → Bool) → ReceivedTask → Received → Option Intake
content_received can_create t running = none
content_received can_create t (broken left) = refuse (record t { payload = none }) left
content_received can_create t (whole content left) = some (save_task can_create t content left)

unfoldable pub receive_content :
    (CString → Bool) → ReceivedTask → ℕ → List (List ℕ) → Option ℕ → Option Intake
unfolding read_capped
receive_content can_create t size rest none = refuse (record t { payload = none }) rest
receive_content can_create t size rest (some address) =
    content_received can_create (record t { payload = some address; data_size = size })
      (read_capped file_last size size rest)

abbrev pub size_checked :
    (CString → Bool) → Option ℕ → ReceivedTask → List (List ℕ) → ℕ → Option Intake
size_checked can_create memory t rest size =
    if size == 0 || ltb max_file_size size
    then refuse t rest
    else receive_content can_create t size rest memory

-- The four bytes of the size, for which `recv` waits, and the content.
abbrev pub size_received : (CString → Bool) → Option ℕ → ReceivedTask → Received → Option Intake
size_received can_create memory t running = none
size_received can_create memory t (broken left) = refuse t left
size_received can_create memory t (whole header rest) =
    size_checked can_create memory t rest (from_be32 header)

unfoldable pub receive_sized :
    (CString → Bool) → Option ℕ → ReceivedTask → List (List ℕ) → Option Intake
unfolding read_rest
receive_sized can_create memory t rest = size_received can_create memory t (read_rest 4 4 rest)

unfoldable pub with_strings :
    (CString → Bool)
    → Option ℕ
    → ℕ
    → ReceivedTask
    → ℤ
    → List (List ℕ)
    → Option (CString × CString × CString)
    → Option Intake
with_strings can_create memory now t frame rest none = refuse t rest
with_strings can_create memory now t frame rest (some strings) =
    receive_sized can_create memory (described t now frame strings) rest

-- The metadata, as what `cJSON_GetObjectItem` finds in it.
unfoldable pub with_items :
    (CString → Bool)
    → Option ℕ
    → ℕ
    → ReceivedTask
    → List (List ℕ)
    → (CString → Option JsonItem)
    → Option Intake
unfolding with_strings
with_items can_create memory now t rest item =
    let string : CString → Option CString = λ key. string_of (item key) in
    with_strings can_create memory now t (frame_of (item (codes "frame_no"))) rest (
      task_strings (string (codes "task_id")) (string (codes "chunk_filename"))
        (string (codes "sender_id")) (string (codes "message_type")))

module _ {ℓ} {J : Type ℓ} (c : Cjson J) where
  unfoldable pub with_metadata :
      (CString → Bool)
      → Option ℕ
      → ℕ
      → ReceivedTask
      → Option (ProtocolStatus × Option J × List (List ℕ))
      → Option Intake
  unfolding with_items
  with_metadata can_create memory now t none = none
  with_metadata can_create memory now t (some (ok, some json, rest)) =
      with_items can_create memory now t rest (c.item json)
  with_metadata can_create memory now t (some (ok, none, rest)) = refuse t rest
  with_metadata can_create memory now t (some (err, json, rest)) = refuse t rest
  with_metadata can_create memory now t (some (conn_closed, json, rest)) = refuse t rest

  -- `buffer` is whether `malloc` gives a buffer for the metadata, `memory` what it gives for the
  -- content.
  unfoldable pub receive_task_from_employer :
      (CString → Bool) → Bool → Option ℕ → ℕ → Option ReceivedTask → List (List ℕ) → Option Intake
  unfolding recv_json with_metadata
  receive_task_from_employer can_create buffer memory now none fs = refuse_to none fs
  receive_task_from_employer can_create buffer memory now (some t) fs =
      with_metadata can_create memory now t (recv_json c.parse buffer max_json_size fs)
