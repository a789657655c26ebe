-- ===== src/Employer/Rounds.antt =====
-- What `distribute_new_tasks` of volcom_employer.c does to the employees' load, and when it reads
-- beyond the roster.
use e19_4yp_voluntary_comput.Prelude.{
  Bool, if◌then◌else◌, leb, length-set, length-append, get_elem?-some, get_elem?, subst, sym, ap,
  ◌∙◌, none, [], ◌++◌, false, ℕ, zero, suc, ◌+◌, ◌%◌, ◌≤◌, ◌<◌, ◌≡◌, refl, true, some, List, [],
  ◌∷◌, arith, length, set, All, CString,
}
use e19_4yp_voluntary_comput.Prelude.Int.{minus_one, pos}
use e19_4yp_voluntary_comput.Employer.{
  EmployeeNode, TaskAssignment, Employer, max_task_assignments, add_task_assignment,
  remove_stale_employees,
}
use e19_4yp_voluntary_comput.Employer.Distribution.{
  can_take, assign_to, advance, give, visit, try_from, distribute_new_tasks,
}

abbrev pub HasRoom : EmployeeNode → Type 0
HasRoom e = e.active_tasks ≤ 3

pub set-HasRoom :
    (es : List EmployeeNode) (i : ℕ) (e : EmployeeNode)
    → All HasRoom es
    → HasRoom e
    → All HasRoom (set es i e)
set-HasRoom [] i e h he = h
set-HasRoom (x ∷ es) zero e h he = (he, h.1)
set-HasRoom (x ∷ es) (suc i) e h he = (h.0, set-HasRoom es i e (h.1) he)

-- What holds of the state after a call that found its place in the roster: one that was in it is
-- still in it, no employee has more than three tasks, and the queue is within its array and has
-- grown by at most one.
pub record Distributed (s t : Employer) : Type 0 where
  pub same_roster : length t.employees ≡ length s.employees
  pub in_roster : t.last_used_employee < length t.employees
  pub has_room : All HasRoom t.employees
  pub grown : length t.task_assignments ≤ length s.task_assignments + 1
  pub bounded : length t.task_assignments ≤ max_task_assignments

pub can_take-HasRoom : (e : EmployeeNode) → can_take e ≡ true → e.active_tasks < 3
can_take-HasRoom e h = ground (arith, h)

advance-in_roster :
    (s : Employer)
    → s.last_used_employee < length s.employees
    → (s.last_used_employee + 1) % length s.employees < length s.employees
advance-in_roster s h = omega arith

-- What the round-robin starts from.
pub record Ready (s : Employer) : Type 0 where
  pub at : s.last_used_employee < length s.employees
  pub room : All HasRoom s.employees
  pub fits : length s.task_assignments ≤ max_task_assignments

advance-Ready : (s : Employer) → Ready s → Ready (advance s)
advance-Ready s r = record { at = advance-in_roster s r.at; room = r.room; fits = r.fits }

advance-Distributed : (s t : Employer) → Ready s → Distributed (advance s) t → Distributed s t
advance-Distributed s t r d = record {
  same_roster = d.same_roster;
  in_roster = d.in_roster;
  has_room = d.has_room;
  grown = d.grown;
  bounded = d.bounded;
}

abbrev queued : Employer → TaskAssignment → Employer
queued s a = record s { task_assignments = s.task_assignments ++ a ∷ [] }

give-cases :
    (s : Employer) (e : EmployeeNode) (a : TaskAssignment) (full : Bool)
    → leb max_task_assignments (length s.task_assignments) ≡ full
    → Ready s
    → e.active_tasks < 3
    → Distributed s (give e (if full then (minus_one, s) else (pos 0, queued s a)))
give-cases s e a true hf r h = record {
  same_roster = refl;
  in_roster = advance-in_roster s r.at;
  has_room = r.room;
  grown = omega arith;
  bounded = r.fits;
}
give-cases s e a false hf r h =
    let n = length s.employees in
    let es =
      set s.employees s.last_used_employee (record e { active_tasks = e.active_tasks + 1 }) in
    let same : length es ≡ n = length-set s.employees s.last_used_employee _ in
    record {
      same_roster = same;
      in_roster =
          subst (λ k. (s.last_used_employee + 1) % k < k) (sym same) (advance-in_roster s r.at);
      has_room = set-HasRoom s.employees s.last_used_employee _ r.room (omega (arith, h));
      grown = omega (arith, length-append s.task_assignments (a ∷ []));
      bounded = ground (arith, hf, length-append s.task_assignments (a ∷ []));
    }

visit-Distributed :
    (now : ℕ) (path : CString) (memory : TaskAssignment) (s later : Employer) (e : EmployeeNode)
    (takes : Bool)
    → can_take e ≡ takes
    → Ready s
    → Distributed s later
    → (t : Employer) × (visit now path memory s (some later) (some e) ≡ some t) × Distributed s t
unfolding visit add_task_assignment
visit-Distributed now path memory s later e true h r d =
    let a = assign_to now path memory e in
    (
      give e (add_task_assignment (some a) s),
      ap (λ b. if b then some (give e (add_task_assignment (some a) s)) else some later) h,
      give-cases s e a (leb max_task_assignments (length s.task_assignments)) refl r
          (can_take-HasRoom e h),
    )
visit-Distributed now path memory s later e false h r d =
    let a = assign_to now path memory e in
    (later, ap (λ b. if b then some (give e (add_task_assignment (some a) s)) else some later) h, d)

try_from-Distributed :
    (attempts now : ℕ) (path : CString) (memory : TaskAssignment) (s : Employer)
    → Ready s
    → (t : Employer) × (try_from attempts now path memory s ≡ some t) × Distributed s t
unfolding try_from
try_from-Distributed zero now path memory s r = (
  s,
  refl,
  record {
    same_roster = refl;
    in_roster = r.at;
    has_room = r.room;
    grown = omega arith;
    bounded = r.fits;
  },
)
try_from-Distributed (suc attempts) now path memory s r =
    let (later, runs, d) =
      try_from-Distributed attempts now path memory (advance s) (advance-Ready s r) in
    let (e, found) = get_elem?-some s.employees s.last_used_employee r.at in
    let (t, ends, d') =
      visit-Distributed now path memory s later e (can_take e) refl r
        (advance-Distributed s later r d) in
    (
      t,
      ap (λ o. visit now path memory s o (get_elem? s.employees s.last_used_employee)) runs
          ∙ ap (visit now path memory s (some later)) found
          ∙ ends,
      d',
    )

-- Where the round-robin's place is in the roster, no employee has more than three tasks and the
-- queue is within its array: `distribute_new_tasks` ends without a fault, the roster stays, with the
-- place in it, still no employee has more than three tasks, and the queue has grown by at most one
-- entry and is within its array.
pub distribute_new_tasks-Distributed :
    (now : ℕ) (path : CString) (memory : TaskAssignment) (s : Employer)
    → Ready s
    → (t : Employer) × (distribute_new_tasks now path memory s ≡ some t) × Distributed s t
unfolding distribute_new_tasks
distribute_new_tasks-Distributed now path memory s r =
    try_from-Distributed (length s.employees) now path memory s r

get_elem?-beyond : (es : List EmployeeNode) (i : ℕ) → length es ≤ i → get_elem? es i ≡ none
get_elem?-beyond [] i h = refl
get_elem?-beyond (e ∷ es) zero h = absurd (omega arith)
get_elem?-beyond (e ∷ es) (suc i) h = get_elem?-beyond es i (omega arith)

-- Where the roster is not empty and the round-robin's place is beyond it, as after the removal of
-- stale employees, which leaves the place as it is, the next `distribute_new_tasks` reads beyond the
-- entries in use.
pub distribute_new_tasks_fault :
    (now : ℕ) (path : CString) (memory : TaskAssignment) (s : Employer) (e : EmployeeNode)
    (es : List EmployeeNode)
    → (remove_stale_employees now s).employees ≡ e ∷ es
    → length (e ∷ es) ≤ s.last_used_employee
    → distribute_new_tasks now path memory (remove_stale_employees now s) ≡ none
unfolding distribute_new_tasks try_from remove_stale_employees visit
distribute_new_tasks_fault now path memory s e es h hl =
    ap (λ r. distribute_new_tasks now path memory (record s { employees = r })) h
    ∙ ap (visit now path memory (record s { employees = e ∷ es }) _)
        (get_elem?-beyond (e ∷ es) s.last_used_employee hl)
