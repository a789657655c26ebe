-- ===== src/Main/Balance.antt =====
-- How `main` of volcom_main.c takes back the managers and the cgroups that it has made.
use e19_4yp_voluntary_comput.Main.{
  exited, not_forked, signalled, stopped, cleaned, deleted, volcom_single, agent, data_points,
  run_result, Mode, no_config, volcom_interactive, counted, ran, argument, command, Summary,
  run_calls, with_manager, created, console, mode_calls, Answers, Child, Config, initialised, main,
  Surroundings, volcom, configure_by_cmd, Scanned, process_from, Call, Manager,
}
use e19_4yp_voluntary_comput.Prelude.{
  ℕ, ◌+◌, ◌≡◌, refl, sym, subst, inl, inr, Bool, true, false, not, ◌&&◌, ◌||◌, Option, List, [],
  ◌∷◌, ◌++◌, arith, ltb, ◌==◌, if◌then◌else◌, Bool-cases, length, drop, CString, codes, str_eq,
  starts_with,
}

-- What is held: a manager, or the main cgroup of a manager.
pub data Held : Type 0 where
  manager : Manager → Held
  cgroup : Manager → Held

-- What a call needs at the top of what is held, and leaves: a cgroup is created for a manager and
-- deleted before the manager is cleaned; a script runs in a cgroup, and an agent in that of `volcom`.
pub data Step : List Held → Call → List Held → Type 0 where
  initialises : {h : List Held} {m : Manager} → Step h (initialised m) (manager m ∷ h)
  creates_cgroup :
      {h : List Held} {m : Manager} {c : Config}
      → Step (manager m ∷ h) (created m c) (cgroup m ∷ manager m ∷ h)
  runs_script :
      {h : List Held} {m : Manager} {s : CString} → Step (cgroup m ∷ h) (ran m s) (cgroup m ∷ h)
  runs_agent :
      {h : List Held} {mode : Mode} → Step (cgroup volcom ∷ h) (agent mode) (cgroup volcom ∷ h)
  deletes : {h : List Held} {m : Manager} → Step (cgroup m ∷ h) (deleted m) h
  cleans : {h : List Held} {m : Manager} → Step (manager m ∷ h) (cleaned m) h

abbrev pub Runs : List Held → List Call → List Held → Type 0
Runs h [] h' = h ≡ h'
Runs h (call ∷ calls) h' = (mid : List Held) × Step h call mid × Runs mid calls h'

Runs-append :
    (h mid h' : List Held) (xs ys : List Call)
    → Runs h xs mid
    → Runs mid ys h'
    → Runs h (xs ++ ys) h'
Runs-append h mid h' [] ys e r = subst (λ x. Runs x ys h') (sym e) r
Runs-append h mid h' (x ∷ xs) ys (next, s, r) q = (next, s, Runs-append next mid h' xs ys r q)

-- A list of calls that leaves what is held.
abbrev pub Keeps : List Held → List Call → Type 0
Keeps h calls = Runs h calls h

Keeps-append : (h : List Held) (xs ys : List Call) → Keeps h xs → Keeps h ys → Keeps h (xs ++ ys)
Keeps-append h xs ys = Runs-append h h h xs ys

Keeps-either :
    (h : List Held) (b : Bool) (xs ys : List Call)
    → Keeps h xs
    → Keeps h ys
    → Keeps h (if b then xs else ys)
Keeps-either h true xs ys x y = x
Keeps-either h false xs ys x y = y

with_manager-Keeps :
    (m : Manager) (c : Config) (a : Answers) (body : List Call) (h : List Held)
    → Keeps (cgroup m ∷ manager m ∷ h) body
    → Keeps h (with_manager m c a body)
with_manager-Keeps m c a body h r = Keeps-either h (not a.inits) _ _ refl (
    Keeps-either h (not a.creates) _ _ (manager m ∷ h, initialises, (h, cleans, refl))
      (
        manager m ∷ h,
        initialises,
        (
          cgroup m ∷ manager m ∷ h,
          creates_cgroup,
          Runs-append _ _ h body _ r (manager m ∷ h, deletes, (h, cleans, refl)),
        ),
      ))

run_calls-Keeps :
    (m : Manager) (s : CString) (child : Child) (h : List Held)
    → Keeps (cgroup m ∷ h) (run_calls m s child)
run_calls-Keeps m s not_forked h = refl
run_calls-Keeps m s (exited code) h = (_, runs_script, refl)
run_calls-Keeps m s signalled h = (_, runs_script, refl)
run_calls-Keeps m s stopped h = (_, runs_script, refl)

process_from-Keeps :
    (m : Manager) (children : ℕ → Child) (i : ℕ) (points : List CString) (s : Summary)
    (h : List Held)
    → Keeps (cgroup m ∷ h) (process_from m children i points s).1
unfolding process_from
process_from-Keeps m children i [] s h = refl
process_from-Keeps m children i (p ∷ points) s h =
    Keeps-append (cgroup m ∷ h) (run_calls m p (children i)) _ (run_calls-Keeps m p (children i) h)
      (process_from-Keeps m children (i + 1) points (counted (run_result (children i)) s) h)

command-Keeps :
    (scanned : CString → Scanned) (input : CString) (a : Answers) (c : Config)
    → Keeps [] (command scanned input a c).1
command-Keeps scanned input a c = elim (Bool-cases (starts_with (codes "config ") input)) [
  | inl config ↦ rw config refl
  | inr other ↦ elim (Bool-cases (str_eq input (codes "process"))) [
    | inl process ↦
        rw (other, process)
          (with_manager-Keeps volcom_interactive c a _ [] (
            process_from-Keeps volcom_interactive a.children 0 data_points _
              (manager volcom_interactive ∷ [])))
    | inr single ↦ elim (Bool-cases (starts_with (codes "process ") input)) [
      | inl runs ↦
          rw (other, single, runs)
            (with_manager-Keeps volcom_single c a _ [] (
              run_calls-Keeps volcom_single (drop 8 input) (a.children 0)
                (manager volcom_single ∷ [])))
      | inr prints ↦ rw (other, single, prints) refl
    ]
  ]
]

configure_by_cmd-Keeps :
    (scanned : CString → Scanned) (lines : List (CString × Answers)) (c : Config)
    → Keeps [] (configure_by_cmd scanned lines c).calls
unfolding configure_by_cmd
configure_by_cmd-Keeps scanned [] c = refl
configure_by_cmd-Keeps scanned ((input, a) ∷ lines) c =
    let r = command scanned input a c in
    elim (Bool-cases (str_eq input (codes "q"))) [
      | inl quits ↦ rw quits refl
      | inr goes_on ↦ rw goes_on (
          Keeps-append [] r.1 _ (command-Keeps scanned input a c)
            (configure_by_cmd-Keeps scanned lines r.0))
    ]

-- The agent is the employer, or none: the employee's mode makes calls on the manager of its own.
abbrev pub IsEmployer : List CString → Type 0
IsEmployer argv =
    (str_eq (argument 1 argv) (codes "--mode") && not (str_eq (argument 2 argv) (codes "employer")))
    ≡ false

mode_calls-Keeps :
    (start : Option Answers) (argv : List CString) (h : List Held)
    → IsEmployer argv
    → Keeps (cgroup volcom ∷ h) (mode_calls start argv)
mode_calls-Keeps start argv h e = elim (Bool-cases (str_eq (argument 1 argv) (codes "--mode"))) [
  | inr none_given ↦ rw none_given refl
  | inl given ↦ elim (Bool-cases (str_eq (argument 2 argv) (codes "employer"))) [
    | inl employs ↦ rw (given, employs) (_, runs_agent, refl)
    | inr employed ↦ absurd (ground (arith, e, given, employed))
  ]
]

console-Keeps : (w : Surroundings) (argv : List CString) → Keeps [] (console w argv).calls
console-Keeps w argv =
    elim (Bool-cases ((length argv == 5) && str_eq (argument 3 argv) (codes "--file"))) [
      | inl from_file ↦ rw from_file refl
      | inr from_console ↦ rw from_console (configure_by_cmd-Keeps w.scanned w.lines no_config)
    ]

-- Where `main` is not given the employee's mode, whatever else its arguments, the surroundings and the
-- answers are: its calls of the resource manager are in order, those for the console's commands too.
-- A manager is initialised before its cgroup is created, a script and the employer's agent run between
-- the creation of a cgroup and the call that deletes it, that call comes before the manager's cleanup,
-- and on every path, of errors too, each manager that was initialised is cleaned up, and each
-- cgroup that was created has had its call of volcom_delete_main_cgroup, whatever that returns.
pub main-Keeps :
    (w : Surroundings) (argv : List CString) (a : Answers)
    → IsEmployer argv
    → Keeps [] (main w argv a).1
unfolding main
main-Keeps w argv a e =
    let c = console w argv in
    elim (Bool-cases (not w.is_root || ltb (length argv) 3)) [
      | inl refused ↦ rw refused refl
      | inr starts ↦ elim (Bool-cases c.ended) [
        | inl ended ↦
            rw (starts, ended)
              (Keeps-append [] c.calls _ (console-Keeps w argv) (
                with_manager-Keeps volcom c.config a (mode_calls w.employee_start argv) []
                  (mode_calls-Keeps w.employee_start argv (manager volcom ∷ []) e)))
        | inr waits ↦ rw (starts, waits) (console-Keeps w argv)
      ]
    ]
