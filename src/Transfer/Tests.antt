-- ===== src/Transfer/Tests.antt =====
-- The theorems on transfers applied to short files and a connection.
use e19_4yp_voluntary_comput.Prelude.{
  ℕ, ◌<◌, ◌≡◌, refl, true, false, Option, none, some, List, [], ◌∷◌, ◌++◌, arith, length, CString,
  codes,
}
use e19_4yp_voluntary_comput.Prelude.Int.{pos}
use e19_4yp_voluntary_comput.Protocol.{be32, Writer}
use e19_4yp_voluntary_comput.Transfer.{
  JsonItem, Cjson, find_item, Link, sent, task_message, result_items, send_sized,
}
use e19_4yp_voluntary_comput.Transfer.Partial.{send_sized-part}
use e19_4yp_voluntary_comput.TaskManagement.Queues.{ReceivedTask}
use e19_4yp_voluntary_comput.Employer.{EmployeeNode, TaskAssignment, Employer, configured}

-- Objects that are their items, with "hi" as the text of the object `items`.
abbrev json : List (CString × JsonItem) → Cjson (List (CString × JsonItem))
json items = record {
  object = λ x. x;
  print = λ x. some (codes "hi");
  parse = λ s. some items;
  item = λ x key. find_item key x;
}

abbrev takes_all : Writer
takes_all bytes = some (length bytes)

abbrev link : Link
link = record { header = takes_all; payload = takes_all; size = takes_all; chunk = λ i. takes_all }

abbrev file : CString → Option (List ℕ)
file path = some (7 ∷ 8 ∷ 9 ∷ [])

abbrev no_task : ReceivedTask
no_task = record {
  task_id = [];
  chunk_filename = [];
  sender_id = [];
  payload = none;
  data_size = 0;
  received_time = 0;
  is_processed = false;
  frame_no = pos 0;
}

abbrev task : List (CString × JsonItem)
task = task_message (codes "a.json") (codes "t1") (codes "10.0.0.2")

abbrev node : EmployeeNode
node = record {
  employee_id = codes "emp_0";
  ip_address = codes "10.0.0.2";
  last_seen = 90;
  active_tasks = 1;
  reliability_score = pos 100;
  tasks_completed = 0;
  tasks_failed = 0;
  is_available = true;
  sockfd = some 5;
  state = configured;
}

abbrev assignment : TaskAssignment
assignment = record {
  task_id = codes "t1";
  chunk_file = codes "a.json";
  employee_id = codes "emp_0";
  employee_ip = codes "10.0.0.2";
  assigned_time = 80;
  completed_time = 0;
  is_sent = true;
  is_completed = false;
  retry_count = 0;
}

-- A task of the same id that is complete.
abbrev other : TaskAssignment
other = record assignment { is_completed = true }

abbrev employer : Employer
employer = record {
  employees = node ∷ [];
  task_assignments = other ∷ assignment ∷ [];
  last_used_employee = 0;
}

abbrev result : List (CString × JsonItem)
result = result_items (codes "t1") 3

-- A kernel that takes two bytes of a chunk.
abbrev slow_link : Link
slow_link = record {
  header = takes_all;
  payload = takes_all;
  size = takes_all;
  chunk = λ i bytes. some 2;
}

send_sized-part_example :
    (send_sized slow_link (7 ∷ 8 ∷ 9 ∷ []) ≡ sent true (be32 3 ++ 7 ∷ 8 ∷ []))
    × (length {A = ℕ} (7 ∷ 8 ∷ []) < 3)
send_sized-part_example =
    send_sized-part slow_link (7 ∷ 8 ∷ 9 ∷ []) 1 (omega arith) (λ bytes. refl) refl (omega arith)
