-- ===== src/Scheduler.antt =====
-- src/uspacehelper/volcom_scheduler/task_scheduler.c and volcom_scheduler.h: the table of tasks and
-- the table of chunks. A table is the list of its used entries, `tasks[0..task_count)` and
-- `chunks[0..chunk_count)`; an entry past the count is written before it is read. A `char` array is
-- the C string that it holds, and a pointer argument that the code tests for NULL is an option.
pub mod Removal
pub mod Validity
pub mod Selection
pub mod Dispatch
pub mod Names
pub mod Splitting
pub mod Creation
pub mod Operations
-- The clock and the file system are arguments: the time, and the size that `stat` finds.
mod Tests
use e19_4yp_voluntary_comput.Prelude.{
  ℕ, zero, suc, ◌+◌, ◌-◌, ◌*◌, ◌/◌, ◌%◌, ◌^◌, Bool, true, false, not, ◌&&◌, ◌||◌, List, [], ◌∷◌,
  ◌++◌, Option, none, some, length, get_elem?, erase_at, find?, count, ltb, ◌==◌, if◌then◌else◌,
  CString, codes, str_eq, fit, decimal,
}
use e19_4yp_voluntary_comput.Prelude.Int.{ℤ, pos, negsuc, minus_one, to_int32}

abbrev pub max_tasks : ℕ
max_tasks = 100

abbrev pub max_chunks : ℕ
max_chunks = 1000

pub data SchedulingPolicy : Type 0 where
  round_robin load_balanced priority_based deadline_aware : SchedulingPolicy

pub record TaskDescriptor : Type 0 where
  pub task_id : CString
  pub task_name : CString
  pub input_file : CString
  pub output_file : CString
  pub chunk_size : ℕ
  pub priority : ℤ
  pub created_time : ℕ
  pub deadline : ℕ
  pub is_chunked : Bool

pub record ChunkInfo : Type 0 where
  pub chunk_id : CString
  pub task_id : CString
  pub chunk_file : CString
  pub chunk_size : ℕ
  pub chunk_index : ℕ
  pub total_chunks : ℤ
  pub assigned_employee : CString
  pub assigned_time : ℕ
  pub is_completed : Bool

pub record Scheduler : Type 0 where
  pub tasks : List TaskDescriptor
  pub chunks : List ChunkInfo
  pub current_policy : SchedulingPolicy

-- The return codes 0 and -1.
pub data Status : Type 0 where
  done failed : Status

pub init_scheduler : Scheduler → Status × Scheduler
init_scheduler s = (done, record { tasks = []; chunks = []; current_policy = round_robin })

pub cleanup_scheduler : Scheduler → Scheduler
cleanup_scheduler s = record s { tasks = []; chunks = [] }

-- The index of the first task of that name: the pointer that `get_task` returns.
pub find_task : CString → List TaskDescriptor → Option ℕ
find_task id [] = none
find_task id (t ∷ ts) =
    if str_eq t.task_id id
    then some 0
    else elim (find_task id ts) [ none ↦ none | some i ↦ some (suc i) ]

pub get_task : Scheduler → Option CString → Option ℕ
unfolding find_task
get_task s none = none
get_task s (some id) = find_task id s.tasks

-- Whether the loop of `add_task` finds the name.
abbrev pub has_task : CString → List TaskDescriptor → Bool
has_task id [] = false
has_task id (t ∷ ts) = str_eq t.task_id id || has_task id ts

pub add_task : Scheduler → Option TaskDescriptor → Status × Scheduler
add_task s none = (failed, s)
add_task s (some t) =
    if not (ltb (length s.tasks) max_tasks)
    then (failed, s)
    else if has_task t.task_id s.tasks
    then (failed, s)
    else (done, record s { tasks = s.tasks ++ t ∷ [] })

-- One round of the loop over `j`: a chunk of the task is taken out and `j` stays, or `j` moves on.
abbrev pub removal_round : CString → ChunkInfo → ℕ → List ChunkInfo → ℕ × List ChunkInfo
removal_round id c j cs = if str_eq c.task_id id then (j, erase_at cs j) else (j + 1, cs)

-- The loop of `remove_task` over the chunks, with fuel; `chunk_count` is the length of the list.
pub remove_chunks : ℕ → ℕ → CString → List ChunkInfo → List ChunkInfo
remove_chunks zero j id cs = cs
remove_chunks (suc f) j id cs = elim (get_elem? cs j) [
  | none ↦ cs
  | some c ↦ let (j', cs') = removal_round id c j cs in remove_chunks f j' id cs'
]

-- Each round brings `j` one nearer to the count, so the count is fuel enough.
pub remove_task : Scheduler → Option CString → Status × Scheduler
unfolding find_task
remove_task s none = (failed, s)
remove_task s (some id) = elim (find_task id s.tasks) [
  | none ↦ (failed, s)
  | some i ↦ (
    done,
    record s { tasks = erase_at s.tasks i; chunks = remove_chunks (length s.chunks) 0 id s.chunks },
  )
]

-- Whether the inner loop of `get_pending_tasks` finds an incomplete chunk of the task.
abbrev pub has_incomplete : CString → List ChunkInfo → Bool
has_incomplete id [] = false
has_incomplete id (c ∷ cs) = (str_eq c.task_id id && not c.is_completed) || has_incomplete id cs

pub pending_from : List ChunkInfo → List TaskDescriptor → ℕ → List TaskDescriptor
pending_from cs [] room = []
pending_from cs (t ∷ ts) zero = []
pending_from cs (t ∷ ts) (suc room) = elim (has_incomplete t.task_id cs || not t.is_chunked) [
  | true ↦ t ∷ pending_from cs ts room
  | false ↦ pending_from cs ts (suc room)
]

-- What is written to `tasks_out`; its length is the result.
pub get_pending_tasks : Scheduler → ℕ → List TaskDescriptor
unfolding pending_from
get_pending_tasks s room = pending_from s.chunks s.tasks room

pub chunk_name : CString → ℕ → CString
chunk_name id i = fit 64 (id ++ codes "_chunk_" ++ decimal i)

abbrev pub size_mod : ℕ
size_mod = 2 ^ 64

-- The size of chunk `i`, in `size_t`.
pub size_of_chunk : ℕ → ℕ → ℤ → ℕ → ℕ
size_of_chunk file_size chunk_size (pos total) i =
    if suc i == total
    then (file_size + size_mod - i * chunk_size % size_mod) % size_mod
    else chunk_size
size_of_chunk file_size chunk_size (negsuc n) i = chunk_size

-- `strncpy` ends the task's id where it has less than 63 bytes; with 63 or more, the last byte of the
-- chunk's array keeps what the stack held, which is not modelled.
pub make_chunk : CString → ℕ → ℕ → ℤ → ℕ → ChunkInfo
unfolding chunk_name size_of_chunk
make_chunk id file_size chunk_size total i = record {
  chunk_id = chunk_name id i;
  task_id = fit 64 id;
  chunk_file = fit 256 (codes "/tmp/" ++ id ++ codes "_chunk_" ++ decimal i ++ codes ".dat");
  chunk_size = size_of_chunk file_size chunk_size total i;
  chunk_index = i;
  total_chunks = total;
  assigned_employee = [];
  assigned_time = 0;
  is_completed = false;
}

-- The loop of `create_chunks`, with `n` rounds left at chunk `i`.
pub make_chunks : CString → ℕ → ℕ → ℤ → ℕ → ℕ → List ChunkInfo → List ChunkInfo
make_chunks id file_size chunk_size total zero i cs = cs
make_chunks id file_size chunk_size total (suc n) i cs = elim (ltb (length cs) max_chunks) [
  | true ↦
      make_chunks id file_size chunk_size total n (i + 1)
        (cs ++ make_chunk id file_size chunk_size total i ∷ [])
  | false ↦ cs
]

-- The rounds that `i < total_chunks` allows from 0 on.
abbrev pub rounds : ℤ → ℕ
rounds (pos n) = n
rounds (negsuc n) = 0

-- `int total_chunks = (file_size + chunk_size - 1) / chunk_size`
pub total_chunks_of : ℕ → ℕ → ℤ
total_chunks_of file_size chunk_size =
    to_int32 ((file_size + chunk_size + size_mod - 1) % size_mod / chunk_size)

abbrev pub set_chunked : List TaskDescriptor → ℕ → List TaskDescriptor
set_chunked [] i = []
set_chunked (t ∷ ts) zero = record t { is_chunked = true } ∷ ts
set_chunked (t ∷ ts) (suc i) = t ∷ set_chunked ts i

-- `stat` gives the size of the task's input file, or fails. `none` is a fault: a division by zero.
pub create_chunks : Scheduler → (CString → Option ℕ) → Option CString → ℕ → Option (ℤ × Scheduler)
unfolding get_task make_chunks total_chunks_of
create_chunks s stat none chunk_size = some (minus_one, s)
create_chunks s stat (some id) chunk_size = elim (find_task id s.tasks) [
  | none ↦ some (minus_one, s)
  | some t ↦ elim (get_elem? s.tasks t) [
    | none ↦ none
    | some task ↦ elim (stat task.input_file) [
      | none ↦ some (minus_one, s)
      | some file_size ↦
          if chunk_size == 0
          then none
          else let total = total_chunks_of file_size chunk_size in
            some (
              total,
              record s {
                tasks = set_chunked s.tasks t;
                chunks = make_chunks id file_size chunk_size total (rounds total) 0 s.chunks;
              },
            )
    ]
  ]
]

abbrev pub is_empty : CString → Bool
is_empty [] = true
is_empty (c ∷ s) = false

abbrev pub is_available : ChunkInfo → Bool
is_available c = not c.is_completed && is_empty c.assigned_employee

-- What is copied to `chunk_info`, if a chunk is available.
pub get_next_chunk : Scheduler → Option ChunkInfo
get_next_chunk s = find? is_available s.chunks

-- A write to the first chunk of that name; `none` where there is none.
pub at_chunk : CString → (ChunkInfo → ChunkInfo) → List ChunkInfo → Option (List ChunkInfo)
at_chunk id f [] = none
at_chunk id f (c ∷ cs) =
    if str_eq c.chunk_id id
    then some (f c ∷ cs)
    else elim (at_chunk id f cs) [ none ↦ none | some cs' ↦ some (c ∷ cs') ]

abbrev pub with_chunks : Scheduler → Option (List ChunkInfo) → Status × Scheduler
with_chunks s none = (failed, s)
with_chunks s (some cs) = (done, record s { chunks = cs })

pub assign_chunk : Scheduler → Option CString → Option CString → ℕ → Status × Scheduler
unfolding at_chunk
assign_chunk s none employee_id now = (failed, s)
assign_chunk s (some id) none now = (failed, s)
assign_chunk s (some id) (some employee_id) now = with_chunks s (
    at_chunk id (λ c. record c { assigned_employee = fit 64 employee_id; assigned_time = now })
      s.chunks)

pub mark_chunk_completed : Scheduler → Option CString → Status × Scheduler
unfolding at_chunk
mark_chunk_completed s none = (failed, s)
mark_chunk_completed s (some id) =
    with_chunks s (at_chunk id (λ c. record c { is_completed = true }) s.chunks)

-- What is written to `*completed` and `*total`.
pub get_chunk_status : Scheduler → CString → ℕ × ℕ
get_chunk_status s id = (
  count (λ c. str_eq c.task_id id && c.is_completed) s.chunks,
  count (λ c. str_eq c.task_id id) s.chunks,
)

pub send_task_to_employee : Option CString → Option CString → Status
send_task_to_employee none employee_id = failed
send_task_to_employee (some id) none = failed
send_task_to_employee (some id) (some employee_id) = done

pub set_scheduling_policy : Scheduler → SchedulingPolicy → Status × Scheduler
set_scheduling_policy s p = (done, record s { current_policy = p })

pub get_scheduling_policy : Scheduler → SchedulingPolicy
get_scheduling_policy s = s.current_policy
