-- ===== src/MainLoop/Tests.antt =====
-- The theorems on the employer's loop applied to a run of two rounds.
use e19_4yp_voluntary_comput.Prelude.{
  ◌≤◌, ◌≡◌, refl, true, false, Option, none, some, List, [], ◌∷◌, map, CString, codes, str_eq,
}
use e19_4yp_voluntary_comput.Prelude.Int.{pos}
use e19_4yp_voluntary_comput.Employer.{EmployeeNode, new, count_completed_tasks}
use e19_4yp_voluntary_comput.MainLoop.{Broadcast, Round, populate_chunked_tasks, employer_main_loop}
use e19_4yp_voluntary_comput.MainLoop.Bounds.{idle, employer_main_loop-WithinBounds}
use e19_4yp_voluntary_comput.MainLoop.Stages.{WithinBounds}
use e19_4yp_voluntary_comput.MainLoop.Progress.{named, employer_main_loop-count_completed_tasks}

abbrev memory : EmployeeNode
memory = record {
  employee_id = [];
  ip_address = [];
  last_seen = 0;
  active_tasks = 0;
  reliability_score = pos 0;
  tasks_completed = 0;
  tasks_failed = 0;
  is_available = false;
  sockfd = none;
  state = new;
}

abbrev seen : Broadcast
seen = record {
  client_ip = codes "10.0.0.2";
  employee_id = none;
  connection = some 5;
  memory = some memory;
}

-- An employee is seen, configured and sent a task, and then its result arrives.
abbrev first_round : Round
first_round = record {
  now = 100;
  broadcast = some seen;
  arrived = λ fd. none;
  config_sent = λ fd. true;
  file_sent = λ fd a. true;
}

abbrev second_round : Round
second_round = record {
  now = 101;
  broadcast = none;
  arrived = λ fd. some (record {
    result = pos 0;
    received = some (codes "a.json", codes "./results/result_a.json", 7 ∷ []);
    left = [];
  });
  config_sent = λ fd. true;
  file_sent = λ fd a. true;
}

abbrev two_rounds : List (Option Round)
two_rounds = some first_round ∷ some second_round ∷ []

abbrev two_files : Option (List CString)
two_files = some (codes "a.json" ∷ codes "notes.txt" ∷ [])

-- The task is complete, and the loop has ended by itself.
two_rounds_end :
    let (active, s) = employer_main_loop two_rounds (populate_chunked_tasks two_files idle) in
    (active ≡ false) × (count_completed_tasks s ≡ 1)
unfolding employer_main_loop populate_chunked_tasks str_eq count_completed_tasks
two_rounds_end = (refl, refl)

employer_main_loop-WithinBounds_example :
    WithinBounds (employer_main_loop two_rounds (populate_chunked_tasks two_files idle)).1
employer_main_loop-WithinBounds_example = employer_main_loop-WithinBounds two_files two_rounds

employer_main_loop-count_completed_tasks_example :
    let s = populate_chunked_tasks two_files idle in
    let t = (employer_main_loop two_rounds s).1 in
    (map named t.task_assignments ≡ map named s.task_assignments)
    × (count_completed_tasks s ≤ count_completed_tasks t)
employer_main_loop-count_completed_tasks_example =
    employer_main_loop-count_completed_tasks two_rounds (populate_chunked_tasks two_files idle)
