-- ===== src/Scheduler/Removal.antt =====
-- `remove_task`: its in-place loop over the chunks keeps exactly the chunks of other tasks.
use e19_4yp_voluntary_comput.Prelude.{
  ◌&&◌, count, str_eq_iff, ℕ, zero, suc, ◌≤◌, ◌≡◌, refl, ap, ◌∙◌, sym, Bool, true, false, not, List,
  [], ◌∷◌, ◌++◌, none, some, inl, inr, arith, length, length-append, append_assoc, erase_at, keep,
  get_elem?-append_end, get_elem?-append_at, erase_at-append_at, Bool-cases, Option-cases, CString,
  str_eq,
}
use e19_4yp_voluntary_comput.Scheduler.{
  get_chunk_status, TaskDescriptor, ChunkInfo, Scheduler, done, failed, find_task, has_task,
  remove_chunks, remove_task,
}

abbrev pub of_other_task : CString → ChunkInfo → Bool
of_other_task id c = not (str_eq c.task_id id)

remove_chunks_from :
    (f : ℕ) (id : CString) (pre suf : List ChunkInfo)
    → length suf ≤ f
    → remove_chunks f (length pre) id (pre ++ suf) ≡ pre ++ keep (of_other_task id) suf
unfolding remove_chunks
remove_chunks_from zero id pre [] h = refl
remove_chunks_from zero id pre (c ∷ cs) h = absurd (omega arith)
remove_chunks_from (suc f) id pre [] h = rw (get_elem?-append_end pre, remove_chunks)
remove_chunks_from (suc f) id pre (c ∷ cs) h = elim (Bool-cases (str_eq c.task_id id)) [
  | inl same ↦
      rw (get_elem?-append_at pre c cs, remove_chunks, same, erase_at-append_at pre c cs)
        (remove_chunks_from f id pre cs (omega arith))
  | inr other ↦
      rw (get_elem?-append_at pre c cs, remove_chunks, other)
        (ap (λ k. remove_chunks f k id (pre ++ c ∷ cs)) (omega (arith, length-append pre (c ∷ [])))
          ∙ ap (remove_chunks f (length (pre ++ c ∷ [])) id) (sym (append_assoc pre (c ∷ []) cs))
          ∙ remove_chunks_from f id (pre ++ c ∷ []) cs (omega arith)
          ∙ append_assoc pre (c ∷ []) (keep (of_other_task id) cs))
]

-- The loop that takes out one chunk at a time and tests the same position again leaves exactly the
-- chunks of other tasks, in their order, whatever the table holds.
pub remove_chunks_lem :
    (id : CString) (cs : List ChunkInfo)
    → remove_chunks (length cs) 0 id cs ≡ keep (of_other_task id) cs
remove_chunks_lem id cs = remove_chunks_from (length cs) id [] cs (omega arith)

abbrev pub DistinctTasks : List TaskDescriptor → Type 0
DistinctTasks [] = Unit
DistinctTasks (t ∷ ts) = (has_task t.task_id ts ≡ false) × DistinctTasks ts

-- `find_task` finds a name exactly when the table has it, and finds where the name stands.
pub find_task-none :
    (id : CString) (ts : List TaskDescriptor) → find_task id ts ≡ none → has_task id ts ≡ false
unfolding find_task
find_task-none id [] e = refl
find_task-none id (t ∷ ts) e = ground (arith, find_task-none id ts)

-- Taking out the first task of a name leaves the other names alone.
pub has_task-erase_at_ne :
    (id other : CString) (ts : List TaskDescriptor) (i : ℕ)
    → find_task id ts ≡ some i
    → str_eq id other ≡ false
    → has_task other (erase_at ts i) ≡ has_task other ts
unfolding find_task
has_task-erase_at_ne id other [] i e ne = refl
has_task-erase_at_ne id other (t ∷ ts) zero e ne =
    let hit : str_eq t.task_id id ≡ true = ground arith in
    ground (arith, ap (λ k. str_eq k other) ((str_eq_iff t.task_id id).0 hit))
has_task-erase_at_ne id other (t ∷ ts) (suc i) e ne =
    ground (arith, has_task-erase_at_ne id other ts i)

-- The name itself is gone, where the names are distinct.
pub has_task-erase_at_self :
    (id : CString) (ts : List TaskDescriptor) (i : ℕ)
    → DistinctTasks ts
    → find_task id ts ≡ some i
    → has_task id (erase_at ts i) ≡ false
unfolding find_task
has_task-erase_at_self id [] i d e = refl
has_task-erase_at_self id (t ∷ ts) zero d e =
    let hit : str_eq t.task_id id ≡ true = ground arith in
    ap (λ k. has_task k ts) (sym ((str_eq_iff t.task_id id).0 hit)) ∙ d.0
has_task-erase_at_self id (t ∷ ts) (suc i) d e = ground (arith, has_task-erase_at_self id ts i d.1)

-- A test that no chunk of the removed task passes counts the same chunks after the removal.
count-keep_other :
    (id : CString) (p : ChunkInfo → Bool) (cs : List ChunkInfo)
    → ((c : ChunkInfo) → str_eq c.task_id id ≡ true → p c ≡ false)
    → count p (keep (of_other_task id) cs) ≡ count p cs
count-keep_other id p [] h = refl
count-keep_other id p (c ∷ cs) h = ground (arith, h c, count-keep_other id p cs h)

count-keep_self :
    (id : CString) (p : ChunkInfo → Bool) (cs : List ChunkInfo)
    → ((c : ChunkInfo) → str_eq c.task_id id ≡ false → p c ≡ false)
    → count p (keep (of_other_task id) cs) ≡ 0
count-keep_self id p [] h = refl
count-keep_self id p (c ∷ cs) h = ground (arith, h c, count-keep_self id p cs h)

status_of_other :
    (s : Scheduler) (id other : CString) (ts : List TaskDescriptor)
    → str_eq id other ≡ false
    → get_chunk_status (record s { tasks = ts; chunks = keep (of_other_task id) s.chunks }) other
      ≡ get_chunk_status s other
unfolding get_chunk_status
status_of_other s id other ts ne = cc (
  count-keep_other id (λ c. str_eq c.task_id other && c.is_completed) s.chunks
      (λ c hit. ground (arith, differs c hit)),
  count-keep_other id (λ c. str_eq c.task_id other) s.chunks differs,
)
  where
    differs : (c : ChunkInfo) → str_eq c.task_id id ≡ true → str_eq c.task_id other ≡ false
    differs c hit = ap (λ k. str_eq k other) ((str_eq_iff c.task_id id).0 hit) ∙ ne

status_of_removed :
    (s : Scheduler) (id : CString) (ts : List TaskDescriptor)
    → get_chunk_status (record s { tasks = ts; chunks = keep (of_other_task id) s.chunks }) id
      ≡ (0, 0)
unfolding get_chunk_status
status_of_removed s id ts = cc (
  count-keep_self id (λ c. str_eq c.task_id id && c.is_completed) s.chunks (λ c miss. ground arith),
  count-keep_self id (λ c. str_eq c.task_id id) s.chunks (λ c miss. miss),
)

-- Removing a task that the table has, where the table's names are distinct: the call succeeds, the
-- name is gone and no chunk counts for it; and for every other name, whether the table has it and
-- how many chunks it has, completed and in all, stay as they were.
pub remove_task_present :
    (s : Scheduler) (id other : CString)
    → DistinctTasks s.tasks
    → has_task id s.tasks ≡ true
    → str_eq id other ≡ false
    → let (status, s') = remove_task s (some id) in
      (status ≡ done)
      × (has_task id s'.tasks ≡ false)
      × (get_chunk_status s' id ≡ (0, 0))
      × (has_task other s'.tasks ≡ has_task other s.tasks)
      × (get_chunk_status s' other ≡ get_chunk_status s other)
unfolding remove_task
remove_task_present s id other d present ne = elim (Option-cases (find_task id s.tasks)) [
  | inl e ↦ cc (find_task-none id s.tasks e)
  | inr (i, e) ↦
      rw (e, remove_task, remove_chunks_lem id s.chunks)
        (
          refl,
          has_task-erase_at_self id s.tasks i d e,
          status_of_removed s id (erase_at s.tasks i),
          has_task-erase_at_ne id other s.tasks i e ne,
          status_of_other s id other (erase_at s.tasks i) ne,
        )
]

find_task_absent :
    (id : CString) (ts : List TaskDescriptor) → has_task id ts ≡ false → find_task id ts ≡ none
unfolding find_task
find_task_absent id [] h = refl
find_task_absent id (t ∷ ts) h = ground (arith, find_task_absent id ts)

pub remove_task_absent :
    (s : Scheduler) (id : CString)
    → has_task id s.tasks ≡ false
    → remove_task s (some id) ≡ (failed, s)
unfolding remove_task
remove_task_absent s id h = rw (find_task_absent id s.tasks h, remove_task)
