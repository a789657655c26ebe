-- ===== src/MainLoop/Load.antt =====
-- What the stages of a round of the employer's loop do to the load of its employees.
use e19_4yp_voluntary_comput.Prelude.{
  ℕ, zero, suc, ◌≤◌, ◌≡◌, refl, ap, ◌∙◌, Bool, true, false, ◌||◌, Option, none, some, List, [], ◌∷◌,
  map, arith, if◌then◌else◌, length, get_elem?, find?, update_first, All, length-update_first,
}
use e19_4yp_voluntary_comput.Employer.{
  EmployeeNode, TaskAssignment, has_ip, see_again, is_stale, last_of, init_of, replace_by_last,
  sweep, usable_at,
}
use e19_4yp_voluntary_comput.Employer.Assignments.{
  disconnect, send_over, send_one, send_from, penalise, time_out_from, is_late,
}
use e19_4yp_voluntary_comput.Employer.Distribution.{can_take}
use e19_4yp_voluntary_comput.Employer.Rounds.{HasRoom, can_take-HasRoom}
use e19_4yp_voluntary_comput.Employer.Roster.{length-replace_by_last}
use e19_4yp_voluntary_comput.MainLoop.{map, busier, assigned_to, assign_one, assign_from}

pub if_cases :
    {A : Type 0} (P : A → Type 0) (b : Bool) (x y : A)
    → (b ≡ true → P x)
    → (b ≡ false → P y)
    → P (if b then x else y)
if_cases P true x y hx hy = hx refl
if_cases P false x y hx hy = hy refl

pub if_holds :
    {A : Type 0} (P : A → Type 0) (b : Bool) (x y : A)
    → (b ≡ true → P x)
    → P y
    → P (if b then x else y)
if_holds P true x y hx hy = hx refl
if_holds P false x y hx hy = hy

-- A write to an employee that passes a test.
pub update_first-HasRoom :
    (p : EmployeeNode → Bool) (f : EmployeeNode → EmployeeNode) (es : List EmployeeNode)
    → ((e : EmployeeNode) → p e ≡ true → HasRoom e → HasRoom (f e))
    → All HasRoom es
    → All HasRoom (update_first p f es)
update_first-HasRoom p f [] hf h = h
update_first-HasRoom p f (e ∷ es) hf h =
    if_holds (All HasRoom) (p e) (f e ∷ es) (e ∷ update_first p f es) (λ q. (hf e q h.0, h.1))
      (h.0, update_first-HasRoom p f es hf h.1)

pub length-map :
    (f : EmployeeNode → EmployeeNode) (es : List EmployeeNode) → length (map f es) ≡ length es
length-map f [] = refl
length-map f (e ∷ es) = ap suc (length-map f es)

pub map-HasRoom :
    (f : EmployeeNode → EmployeeNode) (es : List EmployeeNode)
    → ((e : EmployeeNode) → HasRoom e → HasRoom (f e))
    → All HasRoom es
    → All HasRoom (map f es)
map-HasRoom f [] hf h = h
map-HasRoom f (e ∷ es) hf h = (hf e h.0, map-HasRoom f es hf h.1)

-- An entry of the roster, if there is one.
abbrev pub HasRoom? : Option EmployeeNode → Type 0
HasRoom? none = Unit
HasRoom? (some e) = HasRoom e

pub get_elem?-HasRoom :
    (es : List EmployeeNode) (i : ℕ) → All HasRoom es → HasRoom? (get_elem? es i)
get_elem?-HasRoom [] i h = tt
get_elem?-HasRoom (e ∷ es) zero h = h.0
get_elem?-HasRoom (e ∷ es) (suc i) h = get_elem?-HasRoom es i h.1

pub see_again-HasRoom :
    (now : ℕ) (connection : Option ℕ) (e : EmployeeNode)
    → HasRoom e
    → HasRoom (see_again now connection e)
see_again-HasRoom now connection e h = ground arith

pub penalise-HasRoom : (e : EmployeeNode) → HasRoom e → HasRoom (penalise e)
penalise-HasRoom e h = omega (arith, h)

pub last_of-HasRoom :
    (e : EmployeeNode) (es : List EmployeeNode)
    → HasRoom e
    → All HasRoom es
    → HasRoom (last_of e es)
last_of-HasRoom e [] h hs = h
last_of-HasRoom e (x ∷ es) h hs = last_of-HasRoom x es hs.0 hs.1

pub init_of-HasRoom :
    (e : EmployeeNode) (es : List EmployeeNode)
    → HasRoom e
    → All HasRoom es
    → All HasRoom (init_of e es)
init_of-HasRoom e [] h hs = tt
init_of-HasRoom e (x ∷ es) h hs = (h, init_of-HasRoom x es hs.0 hs.1)

pub replace_by_last-HasRoom :
    (es : List EmployeeNode) → All HasRoom es → All HasRoom (replace_by_last es)
replace_by_last-HasRoom [] h = h
replace_by_last-HasRoom (e ∷ es) h = (last_of-HasRoom e es h.0 h.1, init_of-HasRoom e es h.0 h.1)

pub sweep-HasRoom :
    (fuel now : ℕ) (es : List EmployeeNode) → All HasRoom es → All HasRoom (sweep fuel now es)
unfolding sweep
sweep-HasRoom zero now es h = h
sweep-HasRoom (suc fuel) now [] h = h
sweep-HasRoom (suc fuel) now (e ∷ es) h =
    if_holds (All HasRoom) (is_stale now e) _ _
      (λ q. sweep-HasRoom fuel now (replace_by_last es) (replace_by_last-HasRoom es h.1))
      (h.0, sweep-HasRoom fuel now es h.1)

pub length-sweep :
    (fuel now n : ℕ) (es : List EmployeeNode) → length es ≤ n → length (sweep fuel now es) ≤ n
unfolding sweep
length-sweep zero now n es h = h
length-sweep (suc fuel) now n [] h = h
length-sweep (suc fuel) now zero (e ∷ es) h = absurd (omega arith)
length-sweep (suc fuel) now (suc n) (e ∷ es) h =
    if_holds (λ l. length l ≤ suc n) (is_stale now e) (sweep fuel now (replace_by_last es))
      (e ∷ sweep fuel now es)
      (λ q. omega (
        arith,
        length-sweep fuel now n (replace_by_last es) (omega (arith, length-replace_by_last es)),
      ))
      (omega (arith, length-sweep fuel now n es (omega arith)))

-- What a stage makes of the roster: as many employees, none with more than three tasks.
abbrev pub Same : List EmployeeNode → List EmployeeNode → Type 0
Same es es' = (length es' ≡ length es) × All HasRoom es'

Same-trans : (a b c : List EmployeeNode) → Same a b → Same b c → Same a c
Same-trans a b c h h' = (h'.0 ∙ h.0, h'.1)

pub update_first-Same :
    (p : EmployeeNode → Bool) (f : EmployeeNode → EmployeeNode) (es : List EmployeeNode)
    → ((e : EmployeeNode) → p e ≡ true → HasRoom e → HasRoom (f e))
    → All HasRoom es
    → Same es (update_first p f es)
update_first-Same p f es hf h = (length-update_first p f es, update_first-HasRoom p f es hf h)

pub send_over-Same :
    (send : ℕ → TaskAssignment → Bool) (a : TaskAssignment) (es : List EmployeeNode) (fd : Option ℕ)
    → All HasRoom es
    → Same es (send_over send a es fd).1
send_over-Same send a es none h = (refl, h)
send_over-Same send a es (some fd) h =
    if_holds (λ (r : TaskAssignment × List EmployeeNode × ℕ). Same es r.1) (send fd a) _ _
      (λ q. (refl, h)) (update_first-Same (has_ip a.employee_ip) disconnect es (λ e q k. k) h)

pub send_one-Same :
    (send : ℕ → TaskAssignment → Bool) (a : TaskAssignment) (es : List EmployeeNode)
    → All HasRoom es
    → Same es (send_one send a es).1
send_one-Same send a es h =
    if_holds (λ (r : TaskAssignment × List EmployeeNode × ℕ). Same es r.1)
      (a.is_sent || a.is_completed) _ _ (λ q. (refl, h))
      (send_over-Same send a es (usable_at a.employee_ip es) h)

pub send_from-Same :
    (send : ℕ → TaskAssignment → Bool) (ts : List TaskAssignment) (es : List EmployeeNode)
    → All HasRoom es
    → (length (send_from send ts es).0 ≡ length ts) × Same es (send_from send ts es).1
unfolding send_from
send_from-Same send [] es h = (refl, (refl, h))
send_from-Same send (a ∷ ts) es h =
    let es' = (send_one send a es).1 in
    let first = send_one-Same send a es h in
    let (same, rest) = send_from-Same send ts es' first.1 in
    (ap suc same, Same-trans es es' _ first rest)

pub time_out_from-Same :
    (now : ℕ) (ts : List TaskAssignment) (es : List EmployeeNode)
    → All HasRoom es
    → (length (time_out_from now ts es).0 ≡ length ts) × Same es (time_out_from now ts es).1
unfolding time_out_from
time_out_from-Same now [] es h = (refl, (refl, h))
time_out_from-Same now (a ∷ ts) es h =
    let es' = update_first (has_ip a.employee_ip) penalise es in
    let first =
      update_first-Same (has_ip a.employee_ip) penalise es (λ e q. penalise-HasRoom e) h in
    let (late, rest) = time_out_from-Same now ts es' first.1 in
    let (on_time, rest') = time_out_from-Same now ts es h in
    if_holds
      (λ (r : List TaskAssignment × List EmployeeNode × ℕ).
        (length r.0 ≡ length (a ∷ ts)) × Same es r.1)
      (is_late now a) _ _ (λ q. (ap suc late, Same-trans es es' _ first rest))
      (ap suc on_time, rest')

pub busier-HasRoom : (e : EmployeeNode) → can_take e ≡ true → HasRoom e → HasRoom (busier e)
busier-HasRoom e q h = omega (arith, can_take-HasRoom e q)

pub assigned_to-Same :
    (now : ℕ) (a : TaskAssignment) (es : List EmployeeNode) (e : Option EmployeeNode)
    → All HasRoom es
    → Same es (assigned_to now a es e).1
assigned_to-Same now a es none h = (refl, h)
assigned_to-Same now a es (some e) h = update_first-Same can_take busier es busier-HasRoom h

pub assign_one-Same :
    (now : ℕ) (a : TaskAssignment) (es : List EmployeeNode)
    → All HasRoom es
    → Same es (assign_one now a es).1
assign_one-Same now a es h =
    if_holds (λ (r : TaskAssignment × List EmployeeNode). Same es r.1) (a.is_sent || a.is_completed)
      _ _ (λ q. (refl, h)) (assigned_to-Same now a es (find? can_take es) h)

pub assign_from-Same :
    (now : ℕ) (ts : List TaskAssignment) (es : List EmployeeNode)
    → All HasRoom es
    → (length (assign_from now ts es).0 ≡ length ts) × Same es (assign_from now ts es).1
unfolding assign_from
assign_from-Same now [] es h = (refl, (refl, h))
assign_from-Same now (a ∷ ts) es h =
    let es' = (assign_one now a es).1 in
    let first = assign_one-Same now a es h in
    let (same, rest) = assign_from-Same now ts es' first.1 in
    (ap suc same, Same-trans es es' _ first rest)
