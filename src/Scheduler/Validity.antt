-- ===== src/Scheduler/Validity.antt =====
-- The invariant of the scheduler's tables, kept by every operation.
use e19_4yp_voluntary_comput.Prelude.{
  ℕ, zero, suc, ◌≤◌, ◌<◌, ◌≡◌, refl, ◌∙◌, sym, true, false, ◌||◌, List, [], ◌∷◌, ◌++◌, some, inl,
  inr, arith, length, length-append, All, All-append, keep, erase_at, Bool-cases, Option-cases,
  CString, str_eq, str_eq_iff, length-keep, count-le-length, ltb,
}
use e19_4yp_voluntary_comput.Scheduler.{
  TaskDescriptor, ChunkInfo, Scheduler, max_tasks, max_chunks, find_task, has_task, add_task,
  remove_task, init_scheduler,
}
use e19_4yp_voluntary_comput.Scheduler.Removal.{
  DistinctTasks, of_other_task, remove_chunks_lem, has_task-erase_at_ne,
}

abbrev pub Owned : List TaskDescriptor → ChunkInfo → Type 0
Owned ts c = has_task c.task_id ts ≡ true

abbrev pub HasShortName : TaskDescriptor → Type 0
HasShortName t = length t.task_id < 63

-- Names are distinct and fit their arrays, the tables fit theirs, and every chunk is of a task
-- that the table has.
pub record IsValid (s : Scheduler) : Type 0 where
  pub distinct : DistinctTasks s.tasks
  pub short : All HasShortName s.tasks
  pub task_room : length s.tasks ≤ max_tasks
  pub chunk_room : length s.chunks ≤ max_chunks
  pub owned : All (Owned s.tasks) s.chunks

pub init_scheduler-IsValid : (s : Scheduler) → IsValid (init_scheduler s).1
unfolding init_scheduler
init_scheduler-IsValid s = record {
  distinct = tt;
  short = tt;
  task_room = omega arith;
  chunk_room = omega arith;
  owned = tt;
}

str_eq_sym : (a b : CString) → str_eq a b ≡ false → str_eq b a ≡ false
str_eq_sym a b h = elim (Bool-cases (str_eq b a)) [
  | inl e ↦ cc ((str_eq_iff a b).1 (sym ((str_eq_iff b a).0 e)))
  | inr e ↦ e
]

has_task-append :
    (id : CString) (ts us : List TaskDescriptor)
    → has_task id (ts ++ us) ≡ (has_task id ts || has_task id us)
has_task-append id [] us = refl
has_task-append id (t ∷ ts) us = ground (arith, has_task-append id ts us)

DistinctTasks-append :
    (ts : List TaskDescriptor) (t : TaskDescriptor)
    → DistinctTasks ts
    → has_task t.task_id ts ≡ false
    → DistinctTasks (ts ++ t ∷ [])
DistinctTasks-append [] t d h = (refl, tt)
DistinctTasks-append (u ∷ ts) t d h = (
  ground (arith, has_task-append u.task_id ts (t ∷ []), str_eq_sym u.task_id t.task_id),
  DistinctTasks-append ts t d.1 (ground arith),
)

Owned-append :
    (ts us : List TaskDescriptor) (cs : List ChunkInfo)
    → All (Owned ts) cs
    → All (Owned (ts ++ us)) cs
Owned-append ts us [] h = tt
Owned-append ts us (c ∷ cs) h =
    (ground (arith, has_task-append c.task_id ts us, h.0), Owned-append ts us cs h.1)

pub add_task-IsValid :
    (s : Scheduler) (t : TaskDescriptor)
    → HasShortName t
    → IsValid s
    → IsValid (add_task s (some t)).1
unfolding add_task
add_task-IsValid s t h v = elim (Bool-cases (ltb (length s.tasks) max_tasks)) [
  | inr full ↦ rw full v
  | inl room ↦ elim (Bool-cases (has_task t.task_id s.tasks)) [
    | inl old ↦ rw (room, old) v
    | inr new ↦
        rw (room, new)
          (record {
            distinct = DistinctTasks-append s.tasks t v.distinct new;
            short = All-append HasShortName s.tasks (t ∷ []) v.short (h, tt);
            task_room = ground (arith, length-append s.tasks (t ∷ []));
            chunk_room = v.chunk_room;
            owned = Owned-append s.tasks (t ∷ []) s.chunks v.owned;
          })
  ]
]

has_task-erase_at :
    (id : CString) (ts : List TaskDescriptor) (i : ℕ)
    → has_task id ts ≡ false
    → has_task id (erase_at ts i) ≡ false
has_task-erase_at id [] i h = refl
has_task-erase_at id (t ∷ ts) zero h = ground arith
has_task-erase_at id (t ∷ ts) (suc i) h = ground (arith, has_task-erase_at id ts i)

DistinctTasks-erase_at :
    (ts : List TaskDescriptor) (i : ℕ) → DistinctTasks ts → DistinctTasks (erase_at ts i)
DistinctTasks-erase_at [] i d = tt
DistinctTasks-erase_at (t ∷ ts) zero d = d.1
DistinctTasks-erase_at (t ∷ ts) (suc i) d =
    (has_task-erase_at t.task_id ts i d.0, DistinctTasks-erase_at ts i d.1)

All-erase_at :
    (P : TaskDescriptor → Type 0) (ts : List TaskDescriptor) (i : ℕ)
    → All P ts
    → All P (erase_at ts i)
All-erase_at P [] i h = tt
All-erase_at P (t ∷ ts) zero h = h.1
All-erase_at P (t ∷ ts) (suc i) h = (h.0, All-erase_at P ts i h.1)

length-erase_at-le : (ts : List TaskDescriptor) (i : ℕ) → length (erase_at ts i) ≤ length ts
length-erase_at-le [] i = omega arith
length-erase_at-le (t ∷ ts) zero = omega arith
length-erase_at-le (t ∷ ts) (suc i) = omega (arith, length-erase_at-le ts i)

Owned-erase_at :
    (id : CString) (ts : List TaskDescriptor) (i : ℕ) (cs : List ChunkInfo)
    → find_task id ts ≡ some i
    → All (Owned ts) cs
    → All (Owned (erase_at ts i)) (keep (of_other_task id) cs)
Owned-erase_at id ts i [] e h = tt
Owned-erase_at id ts i (c ∷ cs) e h = elim (Bool-cases (str_eq c.task_id id)) [
  | inl hit ↦ rw hit (Owned-erase_at id ts i cs e h.1)
  | inr miss ↦ rw miss (
    has_task-erase_at_ne id c.task_id ts i e (str_eq_sym c.task_id id miss) ∙ h.0,
    Owned-erase_at id ts i cs e h.1,
  )
]

pub remove_task-IsValid :
    (s : Scheduler) (id : CString) → IsValid s → IsValid (remove_task s (some id)).1
unfolding remove_task
remove_task-IsValid s id v = elim (Option-cases (find_task id s.tasks)) [
  | inl e ↦ rw (e, remove_task) v
  | inr (i, e) ↦
      rw (e, remove_task, remove_chunks_lem id s.chunks)
        (record {
          distinct = DistinctTasks-erase_at s.tasks i v.distinct;
          short = All-erase_at HasShortName s.tasks i v.short;
          task_room = omega (arith, length-erase_at-le s.tasks i, v.task_room);
          chunk_room = omega (
            arith,
            length-keep (of_other_task id) s.chunks,
            count-le-length (of_other_task id) s.chunks,
            v.chunk_room,
          );
          owned = Owned-erase_at id s.tasks i s.chunks e v.owned;
        })
]
