-- ===== src/Scheduler/Tests.antt =====
-- Runs of the scheduler, and the theorems at concrete inputs.
use e19_4yp_voluntary_comput.Prelude.{
  ◌≢◌, ℕ, suc, ◌+◌, ◌*◌, ◌/◌, ◌≡◌, refl, ◌⊎◌, Bool, true, false, not, ◌&&◌, Option, none, some,
  List, [], ◌∷◌, ◌++◌, map, arith, ltb, length, replicate, count, CString, codes, str_eq, decimal,
}
use e19_4yp_voluntary_comput.Prelude.Int.{ℤ, pos, negsuc, sub_ℕ, minus_one}
use e19_4yp_voluntary_comput.Scheduler.{
  TaskDescriptor, ChunkInfo, Scheduler, done, round_robin, load_balanced, max_chunks,
  init_scheduler, find_task, has_task, remove_task, make_chunk, make_chunks, create_chunks,
  chunk_name, size_of_chunk, mark_chunk_completed, assign_chunk, get_chunk_status, is_available,
  get_next_chunk, set_chunked,
}
use e19_4yp_voluntary_comput.Scheduler.Removal.{remove_task_present}
use e19_4yp_voluntary_comput.Scheduler.Validity.{IsValid}
use e19_4yp_voluntary_comput.Scheduler.Operations.{
  Call, adds, creates, assigns, completes, removes, run, init_scheduler-run,
}
use e19_4yp_voluntary_comput.Scheduler.Splitting.{
  Found, Tiles, chunks_needed, create_chunks-Tiles, create_chunks_truncates,
}
use e19_4yp_voluntary_comput.Scheduler.Names.{chunk_name_injective, long_name_completes_first}
use e19_4yp_voluntary_comput.Scheduler.Dispatch.{
  DistinctChunks, bit, assign_next_chunk, mark_chunk_completed_status,
}
use e19_4yp_voluntary_comput.Scheduler.Selection.{
  Double, IsOrdered, EmployeeInfo, score, NoneAbove, IsBest, select_best_employee,
  select_best_employee_lem,
}

abbrev named : CString → TaskDescriptor
named id = record {
  task_id = id;
  task_name = codes "detection";
  input_file = codes "in.bin";
  output_file = codes "out.bin";
  chunk_size = 4;
  priority = pos 1;
  created_time = 0;
  deadline = 100;
  is_chunked = false;
}

abbrev stat : CString → Option ℕ
stat f = some 10

abbrev large_file : CString → Option ℕ
large_file f = some 1001

abbrev one_task : Scheduler
one_task = record { tasks = named (codes "t") ∷ []; chunks = []; current_policy = round_robin }

-- Ten bytes in chunks of four: sizes 4, 4 and 2.
create_sizes :
    map (λ (c : ChunkInfo). c.chunk_size) (make_chunks (codes "t") 10 4 (pos 3) 3 0 [])
    ≡ 4 ∷ 4 ∷ 2 ∷ []
unfolding make_chunks make_chunk size_of_chunk
create_sizes = refl

name_text : chunk_name (codes "t") 12 ≡ codes "t_chunk_12"
unfolding chunk_name decimal
name_text = refl

one_task-Found : Found one_task stat (codes "t") 0 10
unfolding find_task str_eq
one_task-Found = record { task = named (codes "t"); found = refl; entry = refl; file = refl }

one_task-Found_large : Found one_task large_file (codes "t") 0 1001
unfolding find_task str_eq
one_task-Found_large = record { task = named (codes "t"); found = refl; entry = refl; file = refl }

create_chunks-Tiles_example :
    (new : List ChunkInfo) × (create_chunks one_task stat (some (codes "t")) 4
      ≡ some (
        pos (length new),
        record one_task { tasks = set_chunked one_task.tasks 0; chunks = [] ++ new },
      ))
    × Tiles 4 0 0 10 new
create_chunks-Tiles_example =
    create_chunks-Tiles 4 one_task-Found (omega arith) (omega arith) (omega arith)

create_chunks_truncates_example :
    (s' : Scheduler) × (create_chunks one_task large_file (some (codes "t")) 1
      ≡ some (pos (chunks_needed 1001 1), s'))
    × (length s'.chunks ≡ max_chunks)
create_chunks_truncates_example =
    create_chunks_truncates 1 one_task-Found_large (omega arith) (omega arith) (omega arith)
      (omega arith)

abbrev calls : List Call
calls =
    adds (named (codes "t"))
    ∷ creates stat (codes "t") 4
    ∷ assigns (codes "t_chunk_0") (codes "e") 7
    ∷ completes (codes "t_chunk_0")
    ∷ removes (codes "t")
    ∷ []

init_scheduler-run_example :
    (s' : Scheduler) × (run (init_scheduler one_task).1 calls ≡ some s') × IsValid s'
init_scheduler-run_example = init_scheduler-run one_task calls (omega arith)

abbrev whole : ChunkInfo
whole = record {
  chunk_id = codes "t_chunk_0";
  task_id = codes "t";
  chunk_file = codes "/tmp/t_chunk_0.dat";
  chunk_size = 10;
  chunk_index = 0;
  total_chunks = pos 1;
  assigned_employee = [];
  assigned_time = 0;
  is_completed = false;
}

abbrev two_tasks : Scheduler
two_tasks = record {
  tasks = named (codes "t") ∷ named (codes "u") ∷ [];
  chunks = whole ∷ [];
  current_policy = round_robin;
}

remove_task_present_example :
    let (status, s') = remove_task two_tasks (some (codes "t")) in
    (status ≡ done)
    × (has_task (codes "t") s'.tasks ≡ false)
    × (get_chunk_status s' (codes "t") ≡ (0, 0))
    × (has_task (codes "u") s'.tasks ≡ has_task (codes "u") two_tasks.tasks)
    × (get_chunk_status s' (codes "u") ≡ get_chunk_status two_tasks (codes "u"))
unfolding str_eq
remove_task_present_example =
    remove_task_present two_tasks (codes "t") (codes "u") (refl, (refl, tt)) refl refl

chunk_name_injective_example : chunk_name (codes "t") 3 ≢ chunk_name (codes "t") 12
chunk_name_injective_example =
    chunk_name_injective (codes "t") 3 12 (omega arith) (omega arith) (omega arith) (omega arith)

abbrev long_name : CString
long_name = replicate 56 b'a'

abbrev long_task : Scheduler
long_task = record {
  tasks = named long_name ∷ [];
  chunks = make_chunk long_name 10 5 (pos 2) 0 ∷ make_chunk long_name 10 5 (pos 2) 1 ∷ [];
  current_policy = round_robin;
}

long_name_completes_first_example :
    mark_chunk_completed long_task (some (chunk_name long_name 1)) ≡ (
      done,
      record long_task {
        chunks =
            record (make_chunk long_name 10 5 (pos 2) 0) { is_completed = true }
            ∷ make_chunk long_name 10 5 (pos 2) 1
            ∷ [];
      },
    )
long_name_completes_first_example =
    long_name_completes_first long_task long_name 10 5 (pos 2) _ 1 (omega arith) refl

assign_next_chunk_example :
    let (status, s') = assign_chunk two_tasks (some (codes "t_chunk_0")) (some (codes "e")) 7 in
    (status ≡ done)
    × (suc (count is_available s'.chunks) ≡ 1)
    × DistinctChunks s'.chunks
    × (length s'.chunks ≡ 1)
unfolding get_next_chunk
assign_next_chunk_example =
    assign_next_chunk two_tasks whole (codes "e") 7 (refl, tt) refl (λ e. cc)

mark_chunk_completed_status_example :
    let (status, s') = mark_chunk_completed two_tasks (some (codes "t_chunk_0")) in
    let (completed, total) = get_chunk_status two_tasks (codes "t") in
    (status ≡ done)
    × (get_chunk_status s' (codes "t")
        ≡ (completed + bit (str_eq whole.task_id (codes "t") && not whole.is_completed), total))
unfolding str_eq
mark_chunk_completed_status_example =
    mark_chunk_completed_status two_tasks (codes "t_chunk_0") (codes "t") whole refl

-- Whole numbers in place of C's doubles.
abbrev above : ℤ → ℤ → Bool
above (pos a) (pos b) = ltb b a
above (pos a) (negsuc b) = true
above (negsuc a) (pos b) = false
above (negsuc a) (negsuc b) = ltb a b

abbrev plus : ℤ → ℤ → ℤ
plus (pos a) (pos b) = pos (a + b)
plus (pos a) (negsuc b) = sub_ℕ a (b + 1)
plus (negsuc a) (pos b) = sub_ℕ b (a + 1)
plus (negsuc a) (negsuc b) = negsuc (a + b + 1)

abbrev negate : ℤ → ℤ
negate (pos a) = sub_ℕ 0 a
negate (negsuc a) = pos (a + 1)

abbrev whole_numbers : Double
whole_numbers = record {
  Value = ℤ;
  gt = above;
  add = plus;
  sub = λ a b. plus a (negate b);
  mul = λ a b. elim a [
    | pos m ↦ elim b [ pos n ↦ pos (m * n) | negsuc n ↦ negate (pos (m * (n + 1))) ]
    | negsuc m ↦ elim b [ pos n ↦ negate (pos ((m + 1) * n)) | negsuc n ↦ pos ((m + 1) * (n + 1)) ]
  ];
  div = λ a b. elim a [
    | pos m ↦ elim b [ pos n ↦ pos (m / n) | negsuc n ↦ negate (pos (m / (n + 1))) ]
    | negsuc m ↦ elim b [ pos n ↦ negate (pos ((m + 1) / n)) | negsuc n ↦ pos ((m + 1) / (n + 1)) ]
  ];
  of_int = λ a. a;
  minus_one = minus_one;
  difftime = sub_ℕ;
}

whole_numbers-IsOrdered : IsOrdered whole_numbers
whole_numbers-IsOrdered = record {
  irreflexive = λ (a : ℤ). ground arith;
  transitive = λ (a b c : ℤ) p q. ground arith;
  incomparable = λ (a b c : ℤ) p q. ground arith;
}

abbrev worker : ℕ → EmployeeInfo whole_numbers
worker n = record {
  employee_id = codes "e";
  ip_address = codes "10.0.0.2";
  cpu_usage = pos 20;
  memory_usage = pos 30;
  active_tasks = n;
  last_seen = 0;
  is_available = true;
}

select_least_busy :
    select_best_employee whole_numbers load_balanced 0
      (some (worker 2 ∷ worker 1 ∷ []))
      (some (named []))
    ≡ some 1
unfolding select_best_employee
select_least_busy = refl

select_best_employee_lem_example :
    ((select_best_employee whole_numbers round_robin 0 (some (worker 2 ∷ [])) (some (named []))
        ≡ none)
      × NoneAbove whole_numbers
          (score whole_numbers round_robin 0 (named []))
          minus_one
          (worker 2 ∷ []))
    ⊎ ((k : ℕ) × (select_best_employee whole_numbers round_robin 0
            (some (worker 2 ∷ []))
            (some (named []))
          ≡ some k)
        × IsBest whole_numbers
            (score whole_numbers round_robin 0 (named []))
            minus_one
            (worker 2 ∷ [])
            k)
select_best_employee_lem_example =
    select_best_employee_lem whole_numbers round_robin 0 (worker 2 ∷ []) (named [])
      whole_numbers-IsOrdered
