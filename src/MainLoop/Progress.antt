-- ===== src/MainLoop/Progress.antt =====
-- The rounds of the employer's loop lose no task and no completion.
use e19_4yp_voluntary_comput.Prelude.{
  ℕ, zero, suc, ◌+◌, ◌≤◌, ◌≡◌, refl, sym, ap, subst, ◌∙◌, Bool, true, false, ◌||◌, Option, none,
  some, List, [], ◌∷◌, ◌++◌, map, arith, ltb, length, get_elem?, count, find?, update_first,
  CString,
}
use e19_4yp_voluntary_comput.Prelude.Int.{ℤ, pos, negsuc}
use e19_4yp_voluntary_comput.Employer.{
  EmployeeNode, TaskAssignment, Employer, max_employees, new_node, add_or_update_employee,
  count_completed_tasks, remove_stale_employees, usable_at, has_ip,
}
use e19_4yp_voluntary_comput.Employer.Assignments.{
  send_over, send_one, send_from, send_pending_tasks, penalise, is_late, time_out_from,
  handle_task_timeouts, awaits, record_result,
}
use e19_4yp_voluntary_comput.Employer.Distribution.{can_take}
use e19_4yp_voluntary_comput.Transfer.Results.{Collected, collected}
use e19_4yp_voluntary_comput.MainLoop.{
  Broadcast, Round, discover, drop_at, unless_ok, collect, collect_over, collect_at, collect_from,
  collect_results, send_configs, assigned_to, assign_one, assign_from, assign_tasks, stages,
  all_completed, employer_main_loop,
}
use e19_4yp_voluntary_comput.MainLoop.Load.{if_holds}

abbrev is_done : TaskAssignment → Bool
is_done a = a.is_completed

-- What is to be done for a task: its id and its file.
abbrev pub named : TaskAssignment → CString × CString
named a = (a.task_id, a.chunk_file)

-- What a stage that collects no result leaves of a task.
abbrev kept : TaskAssignment → (CString × CString) × Bool
kept a = (named a, a.is_completed)

-- The same tasks in the same order, as many of them complete or more.
abbrev pub Progress : List TaskAssignment → List TaskAssignment → Type 0
Progress ts ts' = (map named ts' ≡ map named ts) × (count is_done ts ≤ count is_done ts')

none_lost : (ts : List TaskAssignment) → Progress ts ts
none_lost ts = (refl, omega arith)

Progress-trans : (a b c : List TaskAssignment) → Progress a b → Progress b c → Progress a c
Progress-trans a b c h h' = (h'.0 ∙ h.0, omega (arith, h.1, h'.1))

-- A task whose completion stays.
cons-Progress :
    (a a' : TaskAssignment) (ts ts' : List TaskAssignment)
    → kept a ≡ kept a'
    → Progress ts ts'
    → Progress (a ∷ ts) (a' ∷ ts')
cons-Progress a a' ts ts' e h =
    let done : a.is_completed ≡ a'.is_completed = ap (λ k. k.1) e in
    (ap (λ k. k.0 ∷ map named ts') (sym e) ∙ ap (named a ∷◌) h.0, ground (arith, done, h.1))

send_over-done :
    (send : ℕ → TaskAssignment → Bool) (a : TaskAssignment) (es : List EmployeeNode) (fd : Option ℕ)
    → kept a ≡ kept (send_over send a es fd).0
send_over-done send a es none = refl
send_over-done send a es (some fd) =
    if_holds (λ (r : TaskAssignment × List EmployeeNode × ℕ). kept a ≡ kept r.0) (send fd a) _ _
      (λ q. refl) refl

send_one-done :
    (send : ℕ → TaskAssignment → Bool) (a : TaskAssignment) (es : List EmployeeNode)
    → kept a ≡ kept (send_one send a es).0
send_one-done send a es =
    if_holds (λ (r : TaskAssignment × List EmployeeNode × ℕ). kept a ≡ kept r.0)
      (a.is_sent || a.is_completed) _ _ (λ q. refl)
      (send_over-done send a es (usable_at a.employee_ip es))

send_from-Progress :
    (send : ℕ → TaskAssignment → Bool) (ts : List TaskAssignment) (es : List EmployeeNode)
    → Progress ts (send_from send ts es).0
unfolding send_from
send_from-Progress send [] es = none_lost []
send_from-Progress send (a ∷ ts) es =
    cons-Progress a (send_one send a es).0 ts _ (send_one-done send a es)
      (send_from-Progress send ts (send_one send a es).1)

time_out_from-Progress :
    (now : ℕ) (ts : List TaskAssignment) (es : List EmployeeNode)
    → Progress ts (time_out_from now ts es).0
unfolding time_out_from
time_out_from-Progress now [] es = none_lost []
time_out_from-Progress now (a ∷ ts) es =
    let late : TaskAssignment = record a { is_sent = false; retry_count = a.retry_count + 1 } in
    if_holds (λ (r : List TaskAssignment × List EmployeeNode × ℕ). Progress (a ∷ ts) r.0)
      (is_late now a) _ _
      (λ q.
        cons-Progress a late ts _ refl
          (time_out_from-Progress now ts (update_first (has_ip a.employee_ip) penalise es)))
      (cons-Progress a a ts _ refl (time_out_from-Progress now ts es))

assigned_to-done :
    (now : ℕ) (a : TaskAssignment) (es : List EmployeeNode) (e : Option EmployeeNode)
    → kept a ≡ kept (assigned_to now a es e).0
assigned_to-done now a es none = refl
assigned_to-done now a es (some e) = refl

assign_one-done :
    (now : ℕ) (a : TaskAssignment) (es : List EmployeeNode) → kept a ≡ kept (assign_one now a es).0
assign_one-done now a es =
    if_holds (λ (r : TaskAssignment × List EmployeeNode). kept a ≡ kept r.0)
      (a.is_sent || a.is_completed) _ _ (λ q. refl) (assigned_to-done now a es (find? can_take es))

assign_from-Progress :
    (now : ℕ) (ts : List TaskAssignment) (es : List EmployeeNode)
    → Progress ts (assign_from now ts es).0
unfolding assign_from
assign_from-Progress now [] es = none_lost []
assign_from-Progress now (a ∷ ts) es =
    cons-Progress a (assign_one now a es).0 ts _ (assign_one-done now a es)
      (assign_from-Progress now ts (assign_one now a es).1)

update_first-Progress :
    (p : TaskAssignment → Bool) (now : ℕ) (ts : List TaskAssignment)
    → Progress ts (update_first p (λ a. record a { is_completed = true; completed_time = now }) ts)
update_first-Progress p now [] = none_lost []
update_first-Progress p now (a ∷ ts) =
    if_holds (Progress (a ∷ ts)) (p a) _ _ (λ q. (refl, ground arith))
      (cons-Progress a a ts _ refl (update_first-Progress p now ts))

record_result-Progress :
    (now : ℕ) (task_id : CString) (i : ℕ) (s : Employer)
    → Progress s.task_assignments (record_result now task_id i s).task_assignments
unfolding record_result
record_result-Progress now task_id i s =
    if_holds (λ (t : Employer). Progress s.task_assignments t.task_assignments)
      (ltb 0 (count (awaits task_id) s.task_assignments)) _ s
      (λ q. update_first-Progress (awaits task_id) now s.task_assignments)
      (none_lost s.task_assignments)

-- A stage that leaves the tasks as they are.
unchanged :
    (s t : Employer)
    → t.task_assignments ≡ s.task_assignments
    → Progress s.task_assignments t.task_assignments
unchanged s t e = subst (Progress s.task_assignments) (sym e) (none_lost s.task_assignments)

added-tasks :
    (memory : Option EmployeeNode) (node : EmployeeNode → EmployeeNode) (s : Employer)
    → (elim memory as (λ k. Bool × Employer) [
      | none ↦ (false, s)
      | some m ↦ (true, record s { employees = s.employees ++ node m ∷ [] })
    ]).1.task_assignments
      ≡ s.task_assignments
added-tasks none node s = refl
added-tasks (some m) node s = refl

discover-tasks :
    (r : Round) (b : Option Broadcast) (s : Employer)
    → (discover r b s).task_assignments ≡ s.task_assignments
unfolding discover add_or_update_employee
discover-tasks r none s = refl
discover-tasks r (some b) s =
    let same : Bool × Employer → Type 0 = λ e. e.1.task_assignments ≡ s.task_assignments in
    let n = length s.employees in
    if_holds same (ltb 0 (count (has_ip b.client_ip) s.employees)) _ _ (λ q. refl)
      (if_holds same (ltb n max_employees) _ _
        (λ q. added-tasks b.memory (new_node r.now b.client_ip b.employee_id b.connection n) s)
        refl)

drop_at-tasks :
    (i : ℕ) (s : Employer) (e : Option EmployeeNode)
    → (drop_at i s e).task_assignments ≡ s.task_assignments
drop_at-tasks i s none = refl
drop_at-tasks i s (some e) = refl

unless_ok-tasks :
    (result : ℤ) (i : ℕ) (s : Employer)
    → (unless_ok result i s).task_assignments ≡ s.task_assignments
unless_ok-tasks (pos zero) i s = refl
unless_ok-tasks (pos (suc n)) i s = drop_at-tasks i s (get_elem? s.employees i)
unless_ok-tasks (negsuc n) i s = drop_at-tasks i s (get_elem? s.employees i)

collected-Progress :
    (now i : ℕ) (s : Employer) (received : Option (CString × CString × List ℕ))
    → Progress s.task_assignments (collected now i s received).task_assignments
unfolding collected
collected-Progress now i s none = none_lost s.task_assignments
collected-Progress now i s (some (task_id, path, content)) = record_result-Progress now task_id i s

collect-Progress :
    (r : Round) (i : ℕ) (s : Employer) (c : Option Collected)
    → Progress s.task_assignments (collect r i s c).task_assignments
unfolding collect
collect-Progress r i s none = none_lost s.task_assignments
collect-Progress r i s (some c) =
    let t = collected r.now i s c.received in
    Progress-trans _ _ _ (collected-Progress r.now i s c.received)
      (unchanged t (unless_ok c.result i t) (unless_ok-tasks c.result i t))

collect_over-Progress :
    (r : Round) (i : ℕ) (s : Employer) (fd : Option ℕ)
    → Progress s.task_assignments (collect_over r i s fd).task_assignments
unfolding collect_over
collect_over-Progress r i s none = none_lost s.task_assignments
collect_over-Progress r i s (some fd) = collect-Progress r i s (r.arrived fd)

collect_at-Progress :
    (r : Round) (i : ℕ) (s : Employer) (e : Option EmployeeNode)
    → Progress s.task_assignments (collect_at r i s e).task_assignments
unfolding collect_at
collect_at-Progress r i s none = none_lost s.task_assignments
collect_at-Progress r i s (some e) = collect_over-Progress r i s e.sockfd

collect_from-Progress :
    (r : Round) (i n : ℕ) (s : Employer)
    → Progress s.task_assignments (collect_from r i n s).task_assignments
unfolding collect_from
collect_from-Progress r i zero s = none_lost s.task_assignments
collect_from-Progress r i (suc n) s =
    Progress-trans _ _ _ (collect_at-Progress r i s (get_elem? s.employees i))
      (collect_from-Progress r (suc i) n (collect_at r i s (get_elem? s.employees i)))

stages-Progress :
    (r : Round) (s : Employer) → Progress s.task_assignments (stages r s).task_assignments
unfolding stages collect_results send_configs assign_tasks send_pending_tasks handle_task_timeouts
    remove_stale_employees
stages-Progress r s =
    let known = discover r r.broadcast s in
    let ready = send_configs r (collect_results r known) in
    let assigned = assign_tasks r.now ready in
    let pending = (send_pending_tasks r.file_sent assigned).1 in
    Progress-trans _ _ _ (unchanged s known (discover-tasks r r.broadcast s)) (
      Progress-trans _ _ _ (collect_from-Progress r 0 (length known.employees) known) (
        Progress-trans _ _ _ (assign_from-Progress r.now ready.task_assignments ready.employees) (
          Progress-trans _ _ _
            (send_from-Progress r.file_sent assigned.task_assignments assigned.employees)
            (time_out_from-Progress r.now pending.task_assignments pending.employees))))

employer_main_loop-Progress :
    (rounds : List (Option Round)) (s : Employer)
    → Progress s.task_assignments (employer_main_loop rounds s).1.task_assignments
unfolding employer_main_loop
employer_main_loop-Progress [] s = none_lost s.task_assignments
employer_main_loop-Progress (none ∷ rounds) s = none_lost s.task_assignments
employer_main_loop-Progress (some r ∷ rounds) s =
    let t = stages r s in
    let here = stages-Progress r s in
    if_holds (λ (e : Bool × Employer). Progress s.task_assignments e.1.task_assignments)
      (all_completed t) _ _ (λ q. here)
      (Progress-trans _ _ _ here (employer_main_loop-Progress rounds t))

-- Whatever the rounds of the employer's loop meet, the queue has the same tasks in the same order after
-- them, each with its id and its file, and the number of completed tasks does not fall.
pub employer_main_loop-count_completed_tasks :
    (rounds : List (Option Round)) (s : Employer)
    → let t = (employer_main_loop rounds s).1 in
      (map named t.task_assignments ≡ map named s.task_assignments)
      × (count_completed_tasks s ≤ count_completed_tasks t)
unfolding count_completed_tasks
employer_main_loop-count_completed_tasks rounds s = employer_main_loop-Progress rounds s
