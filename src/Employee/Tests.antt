-- ===== src/Employee/Tests.antt =====
-- The scanner of volcom_employee.c on an answer that comes in two chunks, and rounds of its worker.
use e19_4yp_voluntary_comput.Prelude.{
  ℕ, ◌≡◌, refl, Bool, true, false, none, some, List, [], ◌∷◌, arith, codes,
}
use e19_4yp_voluntary_comput.Prelude.Int.{pos}
use e19_4yp_voluntary_comput.Protocol.{ok}
use e19_4yp_voluntary_comput.Employee.{scan, scan_byte, returned, receive_complete_json_response}
use e19_4yp_voluntary_comput.Employee.Scanner.{
  joined, chunks_then, receive_complete_json_response-joined,
}
use e19_4yp_voluntary_comput.TaskManagement.{live}
use e19_4yp_voluntary_comput.TaskManagement.Refinement.{Represents}
use e19_4yp_voluntary_comput.TaskManagement.Queues.{
  ReceivedTask, ResultInfo, TaskBuffer, ResultQueue,
}
use e19_4yp_voluntary_comput.Employee.Worker.{Worker, Answers, release, worker_round}
use e19_4yp_voluntary_comput.Employee.Ownership.{worker_round-put_back, worker_round-result_of}
use e19_4yp_voluntary_comput.Transfer.Receiving.{Intake}
use e19_4yp_voluntary_comput.Employee.Connection.{Session, Activity, readable}

-- {"a": "}\""}, cut inside its string.
abbrev answer : List (List ℕ)
answer = codes "{\"a\": \"}" ∷ (92 ∷ codes "\"\"}") ∷ []

receive_complete_json_response-joined_example :
    receive_complete_json_response true 64 (chunks_then answer [])
    ≡ returned (pos 12) (joined answer)
unfolding scan scan_byte
receive_complete_json_response-joined_example =
    receive_complete_json_response-joined 64 answer [] (omega arith, (omega arith, tt)) refl
      (omega arith)

abbrev chunk : ReceivedTask
chunk = record {
  task_id = codes "a.json";
  chunk_filename = codes "/tmp/employee_task_a.json";
  sender_id = codes "employer";
  payload = some 64;
  data_size = 3;
  received_time = 0;
  is_processed = false;
  frame_no = pos 0;
}

abbrev one_chunk : TaskBuffer
one_chunk = record {
  items = live (chunk ∷ chunk ∷ []);
  capacity = 2;
  head = 1;
  tail = 0;
  count = 1;
}

abbrev result : ResultInfo
result = record { task_id = []; result_filepath = []; employer_ip = [] }

abbrev no_results : ResultQueue
no_results = record { items = live (result ∷ []); capacity = 1; head = 0; tail = 0; count = 0 }

abbrev worker : Worker
worker = record { data_chunk_buffer = one_chunk; result_queue = no_results; heap = 32 ∷ 64 ∷ [] }

abbrev answered : Answers
answered = record {
  ready = true;
  sends = some true;
  response_block = some 96;
  responds = true;
  has_status = true;
  creates_file = true;
}

abbrev unsent : Answers
unsent = record answered { sends = some false }

one_chunk-Represents : Represents one_chunk (chunk ∷ [])
one_chunk-Represents = record {
  valid = record { storage = refl; tail_in = omega arith; count_in = omega arith; head_at = refl };
  size = refl;
  held = (refl, tt);
}

no_results-Represents : Represents no_results []
no_results-Represents = record {
  valid = record { storage = refl; tail_in = omega arith; count_in = omega arith; head_at = refl };
  size = refl;
  held = tt;
}

worker_round-put_back_example :
    (w : Worker) × (worker_round unsent worker ≡ some w)
    × Represents w.data_chunk_buffer (chunk ∷ [])
    × (worker_round answered w ≡ none)
worker_round-put_back_example =
    worker_round-put_back unsent answered worker chunk 64 one_chunk-Represents refl refl refl refl
      refl

worker_round-result_of_example :
    (w : Worker) × (worker_round answered worker ≡ some w)
    × Represents w.data_chunk_buffer []
    × Represents w.result_queue (
        record {
          task_id = codes "a.json";
          result_filepath = codes "/tmp/node_result_a.json.json";
          employer_ip = codes "employer";
        }
        ∷ [])
    × (w.heap ≡ release 64 (32 ∷ 64 ∷ []))
worker_round-result_of_example =
    worker_round-result_of answered worker chunk [] [] 64 96 one_chunk-Represents
      no_results-Represents (omega arith) refl refl refl refl

-- A session with one chunk and one result that waits.
abbrev one_result : ResultQueue
one_result = record { items = live (result ∷ []); capacity = 1; head = 0; tail = 0; count = 1 }

abbrev session : Session
session = record {
  shared = record worker { result_queue = one_result };
  configurations = [];
  tasks_completed = 4;
  tasks_failed = 0;
}

abbrev received : ReceivedTask → Intake
received t = record {
  result = pos 0;
  task = some t;
  content = 7 ∷ 8 ∷ 9 ∷ [];
  saved = none;
  left = [];
}

-- A configuration and two chunks arrive, of which the second finds no room; the result is sent in the third round.
abbrev two_chunks : List (Activity × Bool)
two_chunks =
    (
      readable ok (some (codes "initial_config")) (received (record chunk { payload = some 256 }))
          true,
      false,
    )
    ∷ (readable ok (some (codes "data_chunk")) (received chunk) true, false)
    ∷ (
      readable ok (some (codes "data_chunk")) (received (record chunk { payload = some 128 })) true,
      true,
    )
    ∷ []
