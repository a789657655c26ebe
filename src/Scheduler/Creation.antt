-- ===== src/Scheduler/Creation.antt =====
-- `create_chunks`: it keeps the invariant, and does not fault where chunks have a positive size.
use e19_4yp_voluntary_comput.Prelude.{
  ℕ, zero, suc, ◌+◌, ◌≤◌, ◌<◌, ◌≡◌, refl, ap, subst, ◌∙◌, ◌≢◌, ◌⊎◌, inl, inr, true, Option, none,
  some, List, [], ◌∷◌, ◌++◌, arith, ltb, Bool-cases, Option-cases, length, get_elem?, All,
  length-append, take_all, All-append, CString, str_eq, str_eq_iff, fit,
}
use e19_4yp_voluntary_comput.Prelude.Int.{ℤ}
use e19_4yp_voluntary_comput.Scheduler.{
  Option, ℕ, List, CString, TaskDescriptor, ChunkInfo, Scheduler, max_chunks, find_task, has_task,
  make_chunk, make_chunks, create_chunks, set_chunked, total_chunks_of, rounds,
}
use e19_4yp_voluntary_comput.Scheduler.Validity.{IsValid, Owned, HasShortName}
use e19_4yp_voluntary_comput.Scheduler.Removal.{DistinctTasks}

make_chunks-room :
    (id : CString) (fs size : ℕ) (total : ℤ) (n i : ℕ) (cs : List ChunkInfo)
    → length cs ≤ max_chunks
    → length (make_chunks id fs size total n i cs) ≤ max_chunks
unfolding make_chunks
make_chunks-room id fs size total zero i cs h = h
make_chunks-room id fs size total (suc n) i cs h =
    let new = make_chunk id fs size total i in
    elim (Bool-cases (ltb (length cs) max_chunks)) [
      | inr full ↦ rw (full, make_chunks) h
      | inl room ↦
          rw (room, make_chunks)
            (make_chunks-room id fs size total n (i + 1) (cs ++ new ∷ [])
              (ground (arith, length-append cs (new ∷ []))))
    ]

make_chunks-Owned :
    (ts : List TaskDescriptor) (id : CString) (fs size : ℕ) (total : ℤ) (n i : ℕ)
    (cs : List ChunkInfo)
    → has_task (fit 64 id) ts ≡ true
    → All (Owned ts) cs
    → All (Owned ts) (make_chunks id fs size total n i cs)
unfolding make_chunks
make_chunks-Owned ts id fs size total zero i cs own h = h
make_chunks-Owned ts id fs size total (suc n) i cs own h =
    let new = make_chunk id fs size total i in
    elim (Bool-cases (ltb (length cs) max_chunks)) [
      | inr full ↦ rw (full, make_chunks) h
      | inl room ↦
          rw (room, make_chunks)
            (make_chunks-Owned ts id fs size total n (i + 1) (cs ++ new ∷ []) own
              (All-append (Owned ts) cs (new ∷ []) h (unfold make_chunk in (own, tt))))
    ]

has_task-set_chunked :
    (id : CString) (ts : List TaskDescriptor) (i : ℕ)
    → has_task id (set_chunked ts i) ≡ has_task id ts
has_task-set_chunked id [] i = refl
has_task-set_chunked id (t ∷ ts) zero = refl
has_task-set_chunked id (t ∷ ts) (suc i) = ground (arith, has_task-set_chunked id ts i)

DistinctTasks-set_chunked :
    (ts : List TaskDescriptor) (i : ℕ) → DistinctTasks ts → DistinctTasks (set_chunked ts i)
DistinctTasks-set_chunked [] i d = tt
DistinctTasks-set_chunked (t ∷ ts) zero d = d
DistinctTasks-set_chunked (t ∷ ts) (suc i) d =
    (has_task-set_chunked t.task_id ts i ∙ d.0, DistinctTasks-set_chunked ts i d.1)

All-set_chunked :
    (ts : List TaskDescriptor) (i : ℕ) → All HasShortName ts → All HasShortName (set_chunked ts i)
All-set_chunked [] i h = tt
All-set_chunked (t ∷ ts) zero h = h
All-set_chunked (t ∷ ts) (suc i) h = (h.0, All-set_chunked ts i h.1)

length-set_chunked : (ts : List TaskDescriptor) (i : ℕ) → length (set_chunked ts i) ≡ length ts
length-set_chunked [] i = refl
length-set_chunked (t ∷ ts) zero = refl
length-set_chunked (t ∷ ts) (suc i) = ap suc (length-set_chunked ts i)

Owned-set_chunked :
    (ts : List TaskDescriptor) (i : ℕ) (cs : List ChunkInfo)
    → All (Owned ts) cs
    → All (Owned (set_chunked ts i)) cs
Owned-set_chunked ts i [] h = tt
Owned-set_chunked ts i (c ∷ cs) h =
    (has_task-set_chunked c.task_id ts i ∙ h.0, Owned-set_chunked ts i cs h.1)

-- A name that the table finds is in the table and fits its array.
pub find_task-some :
    (id : CString) (ts : List TaskDescriptor) (i : ℕ)
    → find_task id ts ≡ some i
    → All HasShortName ts
    → (has_task id ts ≡ true) × (length id < 63)
unfolding find_task
find_task-some id [] i e h = cc
find_task-some id (t ∷ ts) i e h = elim (Bool-cases (str_eq t.task_id id)) [
  | inl hit ↦ (ground arith, subst (λ k. length k < 63) ((str_eq_iff t.task_id id).0 hit) h.0)
  | inr miss ↦ elim (Option-cases (find_task id ts)) [
    | inl none_found ↦ absurd (ground arith)
    | inr (j, e') ↦ let (has, fits) = find_task-some id ts j e' h.1 in (ground arith, fits)
  ]
]

-- Where `create_chunks` returns, it has left the tables alone, or it has found the task and its file
-- and added the chunks.
pub create_chunks_cases :
    (s : Scheduler) (stat : CString → Option ℕ) (id : CString) (size : ℕ) {total : ℤ}
    {s' : Scheduler}
    → create_chunks s stat (some id) size ≡ some (total, s')
    → (s' ≡ s)
      ⊎ ((i : ℕ) × (fs : ℕ) × (find_task id s.tasks ≡ some i)
          × (s' ≡ record s {
            tasks = set_chunked s.tasks i;
            chunks =
                make_chunks id fs size
                  (total_chunks_of fs size)
                  (rounds (total_chunks_of fs size))
                  0
                  s.chunks;
          }))
unfolding create_chunks
create_chunks_cases s stat id size e = elim (Option-cases (find_task id s.tasks)) [
  | inl e1 ↦ inl (ground arith)
  | inr (i, e1) ↦ elim (Option-cases (get_elem? s.tasks i)) [
    | inl e2 ↦ absurd (ground arith)
    | inr (t, e2) ↦ elim (Option-cases (stat t.input_file)) [
      | inl e3 ↦ inl (ground arith)
      | inr (fs, e3) ↦ inr (i, fs, e1, ground arith)
    ]
  ]
]

pub create_chunks-IsValid :
    (s : Scheduler) (stat : CString → Option ℕ) (id : CString) (size : ℕ) {total : ℤ}
    {s' : Scheduler}
    → IsValid s
    → create_chunks s stat (some id) size ≡ some (total, s')
    → IsValid s'
create_chunks-IsValid s stat id size v e = elim (create_chunks_cases s stat id size e) [
  | inl same ↦ rw same v
  | inr (i, fs, found, made) ↦
      let (has, fits) = find_task-some id s.tasks i found v.short in
      let total = total_chunks_of fs size in
      rw made (record {
        distinct = DistinctTasks-set_chunked s.tasks i v.distinct;
        short = All-set_chunked s.tasks i v.short;
        task_room = omega (arith, length-set_chunked s.tasks i, v.task_room);
        chunk_room = make_chunks-room id fs size total (rounds total) 0 s.chunks v.chunk_room;
        owned = Owned-set_chunked s.tasks i _ (
            make_chunks-Owned s.tasks id fs size total (rounds total) 0 s.chunks
              (ap (λ k. has_task k s.tasks) (take_all 63 id (omega arith)) ∙ has) v.owned);
      })
]

find_task-get_elem? :
    (id : CString) (ts : List TaskDescriptor) (i : ℕ)
    → find_task id ts ≡ some i
    → (t : TaskDescriptor) × (get_elem? ts i ≡ some t)
unfolding find_task
find_task-get_elem? id [] i e = cc
find_task-get_elem? id (t ∷ ts) zero e = (t, refl)
find_task-get_elem? id (t ∷ ts) (suc i) e = find_task-get_elem? id ts i (ground arith)

-- With chunks of a positive size, `create_chunks` does not fault.
pub create_chunks_returns :
    (s : Scheduler) (stat : CString → Option ℕ) (id : CString) (size : ℕ)
    → 0 < size
    → create_chunks s stat (some id) size ≢ none
unfolding create_chunks
create_chunks_returns s stat id size h e = elim (Option-cases (find_task id s.tasks)) [
  | inl e1 ↦ ground arith
  | inr (i, e1) ↦ let (t, e2) = find_task-get_elem? id s.tasks i e1 in ground arith
]
