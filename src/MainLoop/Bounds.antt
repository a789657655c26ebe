-- ===== src/MainLoop/Bounds.antt =====
-- The employer's loop stays within its arrays and within the load of an employee.
use e19_4yp_voluntary_comput.Prelude.{
  Bool, Option, none, some, List, [], ◌∷◌, arith, length, CString,
}
use e19_4yp_voluntary_comput.Employer.{Employer}
use e19_4yp_voluntary_comput.MainLoop.{
  Round, discover, collect_results, stages, all_completed, employer_main_loop,
  populate_chunked_tasks,
}
use e19_4yp_voluntary_comput.MainLoop.Load.{if_holds}
use e19_4yp_voluntary_comput.MainLoop.Stages.{
  WithinBounds, queue_files-WithinBounds, send_pending_tasks-WithinBounds,
  handle_task_timeouts-WithinBounds, assign_tasks-WithinBounds, remove_stale_employees-WithinBounds,
  discover-WithinBounds,
}
use e19_4yp_voluntary_comput.MainLoop.Arrivals.{
  collect_from-WithinBounds, send_configs-WithinBounds,
}

stages-WithinBounds : (r : Round) (s : Employer) → WithinBounds s → WithinBounds (stages r s)
unfolding stages collect_results
stages-WithinBounds r s w =
    let known = discover-WithinBounds r r.broadcast s w in
    let collected =
      collect_from-WithinBounds r 0 (length (discover r r.broadcast s).employees) _ known in
    let ready = assign_tasks-WithinBounds r.now _ (send_configs-WithinBounds r _ collected) in
    remove_stale_employees-WithinBounds r.now _ (
      handle_task_timeouts-WithinBounds r.now _
        (send_pending_tasks-WithinBounds r.file_sent _ ready))

employer_main_loop-keeps :
    (rs : List (Option Round)) (s : Employer)
    → WithinBounds s
    → WithinBounds (employer_main_loop rs s).1
unfolding employer_main_loop
employer_main_loop-keeps [] s w = w
employer_main_loop-keeps (none ∷ rs) s w = w
employer_main_loop-keeps (some r ∷ rs) s w =
    let t = stages-WithinBounds r s w in
    if_holds (λ (r : Bool × Employer). WithinBounds r.1) (all_completed (stages r s)) _ _ (λ q. t)
      (employer_main_loop-keeps rs (stages r s) t)

abbrev pub idle : Employer
idle = record { employees = []; task_assignments = []; last_used_employee = 0 }

populate_chunked_tasks-WithinBounds :
    (files : Option (List CString)) → WithinBounds (populate_chunked_tasks files idle)
unfolding populate_chunked_tasks
populate_chunked_tasks-WithinBounds none = record {
  roster = omega arith;
  queue = omega arith;
  room = tt;
}
populate_chunked_tasks-WithinBounds (some names) =
    queue_files-WithinBounds names idle
      (record { roster = omega arith; queue = omega arith; room = tt })

-- From the start of the employer, whatever files are queued and whatever the rounds of its loop meet,
-- there are at most 100 employees, none with more than three tasks, and at most 1000 assignments.
pub employer_main_loop-WithinBounds :
    (files : Option (List CString)) (rounds : List (Option Round))
    → WithinBounds (employer_main_loop rounds (populate_chunked_tasks files idle)).1
employer_main_loop-WithinBounds files rounds =
    employer_main_loop-keeps rounds _ (populate_chunked_tasks-WithinBounds files)
