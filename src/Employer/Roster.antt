-- ===== src/Employer/Roster.antt =====
-- What the employer's functions keep of its roster and its assignments.
use e19_4yp_voluntary_comput.Prelude.{
  some, none, if◌then◌else◌, suc, ap, sym, ◌∙◌, ◌&&◌, ℕ, zero, suc, ◌+◌, ◌≤◌, ◌≡◌, refl, Bool, not,
  List, [], ◌∷◌, arith, length, keep, count,
}
use e19_4yp_voluntary_comput.Employer.{
  update_first, Option, EmployeeNode, TaskAssignment, Employer, is_stale, last_of, init_of,
  replace_by_last, sweep, remove_stale_employees, usable_at, has_ip,
}
use e19_4yp_voluntary_comput.Employer.Assignments.{
  send_over, penalise, send_one, send_from, send_pending_tasks, time_out_from, handle_task_timeouts,
}

module _ {ℓ} {A : Type ℓ} where
  length-init_of : (x : A) (xs : List A) → length (init_of x xs) ≡ length xs
  length-init_of x [] = refl
  length-init_of x (y ∷ ys) = ap suc (length-init_of y ys)

  count-init_of :
      (p : A → Bool) (x : A) (xs : List A)
      → count p (last_of x xs ∷ init_of x xs) ≡ count p (x ∷ xs)
  count-init_of p x [] = refl
  count-init_of p x (y ∷ ys) = ground (arith, count-init_of p y ys)

  count-replace_by_last : (p : A → Bool) (xs : List A) → count p (replace_by_last xs) ≡ count p xs
  count-replace_by_last p [] = refl
  count-replace_by_last p (x ∷ xs) = count-init_of p x xs

  pub length-replace_by_last : (xs : List A) → length (replace_by_last xs) ≡ length xs
  length-replace_by_last [] = refl
  length-replace_by_last (x ∷ xs) = ap suc (length-init_of x xs)

  count-keep : (p f : A → Bool) (xs : List A) → count p (keep f xs) ≡ count (λ x. f x && p x) xs
  count-keep p f [] = refl
  count-keep p f (x ∷ xs) = ground (arith, count-keep p f xs)

abbrev pub is_fresh : ℕ → EmployeeNode → Bool
is_fresh now e = not (is_stale now e)

-- As many rounds as entries are enough.
count-sweep :
    (fuel now : ℕ) (p : EmployeeNode → Bool) (es : List EmployeeNode)
    → length es ≤ fuel
    → count p (sweep fuel now es) ≡ count (λ e. is_fresh now e && p e) es
unfolding sweep
count-sweep zero now p [] h = refl
count-sweep zero now p (e ∷ es) h = absurd (omega arith)
count-sweep (suc fuel) now p [] h = refl
count-sweep (suc fuel) now p (e ∷ es) h = ground (
  arith,
  count-sweep fuel now p (replace_by_last es) (omega (arith, length-replace_by_last es, h)),
  count-sweep fuel now p es (omega (arith, h)),
  count-replace_by_last (λ e. is_fresh now e && p e) es,
)

-- `remove_stale_employees` keeps exactly the employees that have been seen in the last 15 seconds:
-- for every test, the roster afterwards has as many that pass it as there were such employees.
-- (The order may change.)
pub remove_stale_employees-fresh :
    (now : ℕ) (s : Employer) (p : EmployeeNode → Bool)
    → count p (remove_stale_employees now s).employees ≡ count p (keep (is_fresh now) s.employees)
unfolding remove_stale_employees
remove_stale_employees-fresh now s p =
    count-sweep (length s.employees) now p s.employees (omega arith)
    ∙ sym (count-keep p (is_fresh now) s.employees)

abbrev pub sent : TaskAssignment → Bool
sent a = a.is_sent

sent_over :
    (send : ℕ → TaskAssignment → Bool) (a : TaskAssignment) (es : List EmployeeNode) (fd : Option ℕ)
    → (if a.is_sent then 0 else count sent ((send_over send a es fd).0 ∷ []))
      ≡ (if a.is_sent then 0 else (send_over send a es fd).2)
sent_over send a es none = ground arith
sent_over send a es (some fd) = ground arith

sent_one :
    (send : ℕ → TaskAssignment → Bool) (a : TaskAssignment) (es : List EmployeeNode)
    → count sent ((send_one send a es).0 ∷ []) ≡ count sent (a ∷ []) + (send_one send a es).2
sent_one send a es = ground (arith, sent_over send a es (usable_at a.employee_ip es))

sent_from :
    (send : ℕ → TaskAssignment → Bool) (ts : List TaskAssignment) (es : List EmployeeNode)
    → count sent (send_from send ts es).0 ≡ count sent ts + (send_from send ts es).2
unfolding send_from
sent_from send [] es = refl
sent_from send (a ∷ ts) es =
    ground (arith, sent_one send a es, sent_from send ts ((send_one send a es).1))

timed_out_lem :
    (now : ℕ) (ts : List TaskAssignment) (es : List EmployeeNode)
    → count sent ts ≡ count sent (time_out_from now ts es).0 + (time_out_from now ts es).2
unfolding time_out_from
timed_out_lem now [] es = refl
timed_out_lem now (a ∷ ts) es = ground (
  arith,
  timed_out_lem now ts es,
  timed_out_lem now ts (update_first (has_ip a.employee_ip) penalise es),
)

-- The number that `send_pending_tasks` returns is how many more assignments are marked as sent after
-- it, whatever the sending of each file gives; and the number that `handle_task_timeouts` returns is
-- how many fewer are after it.
pub sent_count :
    (send : ℕ → TaskAssignment → Bool) (now : ℕ) (s : Employer)
    → (let (n, after) = send_pending_tasks send s in
        count sent after.task_assignments ≡ count sent s.task_assignments + n)
      × (let (n, after) = handle_task_timeouts now s in
          count sent s.task_assignments ≡ count sent after.task_assignments + n)
unfolding send_pending_tasks handle_task_timeouts
sent_count send now s = (
  sent_from send s.task_assignments s.employees,
  timed_out_lem now s.task_assignments s.employees,
)
