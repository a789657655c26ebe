-- ===== src/Scheduler/Operations.antt =====
-- Sequences of calls of the scheduler, and the invariant after any of them.
use e19_4yp_voluntary_comput.Prelude.{
  ℕ, suc, ◌<◌, ◌≡◌, refl, ap, ◌∙◌, inl, inr, Option, none, some, List, [], ◌∷◌, arith, Bool-cases,
  Option-cases, length, All, CString, str_eq,
}
use e19_4yp_voluntary_comput.Scheduler.{
  Option, ℕ, List, CString, TaskDescriptor, ChunkInfo, Scheduler, SchedulingPolicy, has_task,
  add_task, remove_task, create_chunks, at_chunk, with_chunks, assign_chunk, mark_chunk_completed,
  set_scheduling_policy, init_scheduler,
}
use e19_4yp_voluntary_comput.Scheduler.Validity.{
  IsValid, Owned, HasShortName, init_scheduler-IsValid, add_task-IsValid, remove_task-IsValid,
}
use e19_4yp_voluntary_comput.Scheduler.Creation.{create_chunks-IsValid, create_chunks_returns}

at_chunk-All :
    (P : ChunkInfo → Type 0) (f : ChunkInfo → ChunkInfo) (id : CString) (cs : List ChunkInfo)
    {cs' : List ChunkInfo}
    → ((c : ChunkInfo) → P c → P (f c))
    → All P cs
    → at_chunk id f cs ≡ some cs'
    → All P cs' × (length cs' ≡ length cs)
unfolding at_chunk
at_chunk-All P f id [] keeps h e = cc
at_chunk-All P f id (c ∷ cs) {cs'} keeps h e = elim (Bool-cases (str_eq c.chunk_id id)) [
  | inl hit ↦ let e' : cs' ≡ f c ∷ cs = ground arith in rw e' ((keeps c h.0, h.1), refl)
  | inr miss ↦ elim (Option-cases (at_chunk id f cs)) [
    | inl e1 ↦ absurd (ground arith)
    | inr (ds, e1) ↦
        let (all, len) = at_chunk-All P f id cs keeps h.1 e1 in
        let e' : cs' ≡ c ∷ ds = ground arith in rw e' ((h.0, all), ap suc len)
  ]
]

at_chunk-IsValid :
    (s : Scheduler) (f : ChunkInfo → ChunkInfo) (id : CString)
    → ((c : ChunkInfo) → (f c).task_id ≡ c.task_id)
    → IsValid s
    → IsValid (with_chunks s (at_chunk id f s.chunks)).1
at_chunk-IsValid s f id same v = elim (Option-cases (at_chunk id f s.chunks)) [
  | inl e ↦ rw e v
  | inr (cs, e) ↦
      let (all, len) =
        at_chunk-All (Owned s.tasks) f id s.chunks
          (λ c h. ap (λ k. has_task k s.tasks) (same c) ∙ h) v.owned e in
      rw e (record {
        distinct = v.distinct;
        short = v.short;
        task_room = v.task_room;
        chunk_room = omega (arith, len, v.chunk_room);
        owned = all;
      })
]

-- A call of the scheduler's interface that changes its state.
pub data Call : Type 0 where
  adds : TaskDescriptor → Call
  removes : CString → Call
  creates : (CString → Option ℕ) → CString → ℕ → Call
  assigns : CString → CString → ℕ → Call
  completes : CString → Call
  policies : SchedulingPolicy → Call

-- The state after a call; `none` is a fault.
pub step : Scheduler → Call → Option Scheduler
step s (adds t) = some (add_task s (some t)).1
step s (removes id) = some (remove_task s (some id)).1
step s (creates stat id size) = elim (create_chunks s stat (some id) size) [
  | none ↦ none
  | some (total, s') ↦ some s'
]
step s (assigns id employee now) = some (assign_chunk s (some id) (some employee) now).1
step s (completes id) = some (mark_chunk_completed s (some id)).1
step s (policies p) = some (set_scheduling_policy s p).1

pub run : Scheduler → List Call → Option Scheduler
run s [] = some s
run s (c ∷ cs) = elim (step s c) [ none ↦ none | some s' ↦ run s' cs ]

-- The names of added tasks have less than 63 bytes, and chunks have a size.
abbrev pub IsProper : Call → Type 0
IsProper (adds t) = HasShortName t
IsProper (removes id) = Unit
IsProper (creates stat id size) = 0 < size
IsProper (assigns id employee now) = Unit
IsProper (completes id) = Unit
IsProper (policies p) = Unit

step-IsValid :
    (s : Scheduler) (c : Call)
    → IsProper c
    → IsValid s
    → (s' : Scheduler) × (step s c ≡ some s') × IsValid s'
unfolding step
step-IsValid s (adds t) h v = (_, refl, add_task-IsValid s t h v)
step-IsValid s (removes id) h v = (_, refl, remove_task-IsValid s id v)
step-IsValid s (creates stat id size) h v =
    elim (Option-cases (create_chunks s stat (some id) size)) [
      | inl e ↦ absurd (create_chunks_returns s stat id size h e)
      | inr ((total, s'), e) ↦ (s', rw (e, step), create_chunks-IsValid s stat id size v e)
    ]
step-IsValid s (assigns id employee now) h v =
    (_, refl, unfold assign_chunk in at_chunk-IsValid s _ id (λ c. refl) v)
step-IsValid s (completes id) h v =
    (_, refl, unfold mark_chunk_completed in at_chunk-IsValid s _ id (λ c. refl) v)
step-IsValid s (policies p) h v = (
  _,
  refl,
  unfold set_scheduling_policy in
      record {
        distinct = v.distinct;
        short = v.short;
        task_room = v.task_room;
        chunk_room = v.chunk_room;
        owned = v.owned;
      },
)

run-IsValid :
    (s : Scheduler) (cs : List Call)
    → All IsProper cs
    → IsValid s
    → (s' : Scheduler) × (run s cs ≡ some s') × IsValid s'
unfolding run
run-IsValid s [] h v = (s, refl, v)
run-IsValid s (c ∷ cs) h v =
    let (s', e, v') = step-IsValid s c h.0 v in
    let (t, r, w) = run-IsValid s' cs h.1 v' in (t, rw (e, run) r, w)

-- After `init_scheduler`, no sequence of calls faults, if chunks have a positive size and added
-- tasks have names of less than 63 bytes, for which the chunk's copy of the name is whole; and then task names are distinct, both tables are within their
-- arrays, and every chunk belongs to a task that the table has.
pub init_scheduler-run :
    (s : Scheduler) (cs : List Call)
    → All IsProper cs
    → (s' : Scheduler) × (run (init_scheduler s).1 cs ≡ some s') × IsValid s'
init_scheduler-run s cs h = run-IsValid (init_scheduler s).1 cs h (init_scheduler-IsValid s)
