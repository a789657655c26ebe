-- ===== src/MainLoop/Arrivals.antt =====
-- The same bounds through the stages of a round that receive results and send configurations.
use e19_4yp_voluntary_comput.Prelude.{
  ℕ, zero, suc, ◌-◌, true, Option, none, some, List, map, arith, ltb, get_elem?, set, count,
  update_first, length-set, length-update_first, CString,
}
use e19_4yp_voluntary_comput.Employer.{
  EmployeeState, new, configured, EmployeeNode, TaskAssignment, Employer,
}
use e19_4yp_voluntary_comput.Employer.Assignments.{awaits, record_result}
use e19_4yp_voluntary_comput.Employer.Rounds.{HasRoom, set-HasRoom}
use e19_4yp_voluntary_comput.Transfer.Results.{Collected, collected}
use e19_4yp_voluntary_comput.Prelude.Int.{ℤ, pos, negsuc}
use e19_4yp_voluntary_comput.MainLoop.{
  Round, drop_connection, unless_ok, drop_at, collect, collect_over, collect_at, collect_from,
  configure_over, configure, send_configs,
}
use e19_4yp_voluntary_comput.MainLoop.Load.{
  if_holds, length-map, map-HasRoom, HasRoom?, get_elem?-HasRoom,
}
use e19_4yp_voluntary_comput.MainLoop.Stages.{WithinBounds, with_roster}

pub set-WithinBounds :
    (s : Employer) (i : ℕ) (e : EmployeeNode)
    → WithinBounds s
    → HasRoom e
    → WithinBounds (record s { employees = set s.employees i e })
set-WithinBounds s i e w h =
    with_roster s (set s.employees i e) w (omega (arith, w.roster, length-set s.employees i e))
      (set-HasRoom s.employees i e w.room h)

pub drop_at-WithinBounds :
    (i : ℕ) (s : Employer) (e : Option EmployeeNode)
    → WithinBounds s
    → HasRoom? e
    → WithinBounds (drop_at i s e)
drop_at-WithinBounds i s none w h = w
drop_at-WithinBounds i s (some e) w h = set-WithinBounds s i (drop_connection e) w h

pub unless_ok-WithinBounds :
    (result : ℤ) (i : ℕ) (s : Employer) → WithinBounds s → WithinBounds (unless_ok result i s)
unless_ok-WithinBounds (pos zero) i s w = w
unless_ok-WithinBounds (pos (suc n)) i s w =
    drop_at-WithinBounds i s (get_elem? s.employees i) w (get_elem?-HasRoom s.employees i w.room)
unless_ok-WithinBounds (negsuc n) i s w =
    drop_at-WithinBounds i s (get_elem? s.employees i) w (get_elem?-HasRoom s.employees i w.room)

-- An employee with a task fewer, if there is one.
pub less_busy-WithinBounds :
    (s : Employer) (i : ℕ) (e : Option EmployeeNode)
    → WithinBounds s
    → HasRoom? e
    → WithinBounds (record s {
      employees = elim e [
        | none ↦ s.employees
        | some e ↦ set s.employees i (record e { active_tasks = e.active_tasks - 1 })
      ];
    })
less_busy-WithinBounds s i none w h = w
less_busy-WithinBounds s i (some e) w h =
    set-WithinBounds s i (record e { active_tasks = e.active_tasks - 1 }) w (omega (arith, h))

pub record_result-WithinBounds :
    (now : ℕ) (task_id : CString) (i : ℕ) (s : Employer)
    → WithinBounds s
    → WithinBounds (record_result now task_id i s)
unfolding record_result
record_result-WithinBounds now task_id i s w =
    let complete : TaskAssignment → TaskAssignment =
      λ a. record a { is_completed = true; completed_time = now } in
    let ts = update_first (awaits task_id) complete s.task_assignments in
    let same = length-update_first (awaits task_id) complete s.task_assignments in
    let t : Employer = record s { task_assignments = ts } in
    let w' : WithinBounds t = record {
      roster = w.roster;
      queue = omega (arith, w.queue, same);
      room = w.room;
    } in
    if_holds WithinBounds (ltb 0 (count (awaits task_id) s.task_assignments)) _ s
      (λ q.
        less_busy-WithinBounds t i (get_elem? s.employees i) w'
          (get_elem?-HasRoom s.employees i w.room))
      w

pub collected-WithinBounds :
    (now i : ℕ) (s : Employer) (received : Option (CString × CString × List ℕ))
    → WithinBounds s
    → WithinBounds (collected now i s received)
unfolding collected
collected-WithinBounds now i s none w = w
collected-WithinBounds now i s (some (task_id, path, content)) w =
    record_result-WithinBounds now task_id i s w

pub collect-WithinBounds :
    (r : Round) (i : ℕ) (s : Employer) (c : Option Collected)
    → WithinBounds s
    → WithinBounds (collect r i s c)
unfolding collect collected
collect-WithinBounds r i s none w = w
collect-WithinBounds r i s (some c) w =
    unless_ok-WithinBounds c.result i _ (collected-WithinBounds r.now i s c.received w)

pub collect_over-WithinBounds :
    (r : Round) (i : ℕ) (s : Employer) (fd : Option ℕ)
    → WithinBounds s
    → WithinBounds (collect_over r i s fd)
unfolding collect_over
collect_over-WithinBounds r i s none w = w
collect_over-WithinBounds r i s (some fd) w = collect-WithinBounds r i s (r.arrived fd) w

pub collect_at-WithinBounds :
    (r : Round) (i : ℕ) (s : Employer) (e : Option EmployeeNode)
    → WithinBounds s
    → WithinBounds (collect_at r i s e)
unfolding collect_at
collect_at-WithinBounds r i s none w = w
collect_at-WithinBounds r i s (some e) w = collect_over-WithinBounds r i s e.sockfd w

pub collect_from-WithinBounds :
    (r : Round) (i n : ℕ) (s : Employer) → WithinBounds s → WithinBounds (collect_from r i n s)
unfolding collect_from
collect_from-WithinBounds r i zero s w = w
collect_from-WithinBounds r i (suc n) s w =
    collect_from-WithinBounds r (suc i) n _
      (collect_at-WithinBounds r i s (get_elem? s.employees i) w)

configure_over-HasRoom :
    (r : Round) (e : EmployeeNode) (state : EmployeeState) (fd : Option ℕ)
    → HasRoom e
    → HasRoom (configure_over r e state fd)
configure_over-HasRoom r e state none h = h
configure_over-HasRoom r e configured (some fd) h = h
configure_over-HasRoom r e new (some fd) h =
    if_holds HasRoom (r.config_sent fd) _ (drop_connection e) (λ q. h) h

pub send_configs-WithinBounds :
    (r : Round) (s : Employer) → WithinBounds s → WithinBounds (send_configs r s)
unfolding send_configs
send_configs-WithinBounds r s w =
    with_roster s (map (configure r) s.employees) w
      (omega (arith, w.roster, length-map (configure r) s.employees))
      (map-HasRoom (configure r) s.employees (λ e. configure_over-HasRoom r e e.state e.sockfd)
        w.room)
