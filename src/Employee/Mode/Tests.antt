-- ===== src/Employee/Mode/Tests.antt =====
-- A run of the employee's mode, and its end.
use e19_4yp_voluntary_comput.Prelude.{true, false, none, some, [], ◌∷◌, replicate, codes}
use e19_4yp_voluntary_comput.Prelude.Int.{pos}
use e19_4yp_voluntary_comput.Protocol.{ok}
use e19_4yp_voluntary_comput.TaskManagement.{null}
use e19_4yp_voluntary_comput.TaskManagement.Queues.{ReceivedTask, ResultInfo}
use e19_4yp_voluntary_comput.Transfer.Receiving.{Intake}
use e19_4yp_voluntary_comput.Employee.Connection.{Session, idle_after, readable}
use e19_4yp_voluntary_comput.Employee.Worker.{Answers}
use e19_4yp_voluntary_comput.Employee.Mode.{none, Startup, accept_failed, worked, connected}

abbrev task : ReceivedTask
task = record {
  task_id = codes "a.json";
  chunk_filename = codes "a.json";
  sender_id = codes "employer";
  payload = some 64;
  data_size = 3;
  received_time = 0;
  is_processed = false;
  frame_no = pos 0;
}

abbrev result : ResultInfo
result = record { task_id = []; result_filepath = []; employer_ip = [] }

abbrev received : Intake
received = record {
  result = pos 0;
  task = some task;
  content = 7 ∷ 8 ∷ 9 ∷ [];
  saved = none;
  left = [];
}

-- The worker, before a script has been started.
abbrev unready : Answers
unready = record {
  ready = false;
  sends = some true;
  response_block = none;
  responds = false;
  has_status = false;
  creates_file = false;
}

-- A connection with a chunk, after one that fails and one that is refused.
abbrev startup : Startup
startup = record {
  chunk_block = some (replicate 50 task);
  result_block = some (replicate 10 result);
  manager_initialised = true;
  cgroup_created = true;
  broadcaster_started = true;
  worker_started = true;
  server_started = true;
  arrivals =
      accept_failed
      ∷ worked unready
      ∷ connected false []
      ∷ connected true (
          (readable ok (some (codes "data_chunk")) received true, true)
          ∷ (idle_after unready, true)
          ∷ [])
      ∷ [];
}

abbrev session : Session
session = record {
  shared = record {
    data_chunk_buffer = record { items = null; capacity = 0; head = 0; tail = 0; count = 0 };
    result_queue = record { items = null; capacity = 0; head = 0; tail = 0; count = 0 };
    heap = [];
  };
  configurations = [];
  tasks_completed = 0;
  tasks_failed = 0;
}
