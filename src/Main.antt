-- ===== src/Main.antt =====
-- src/uspacehelper/volcom_main.c: the console that configures the program, the demonstration that runs
-- scripts in a cgroup, and `main`.
-- The parts that are called are those of the other modules. Here what they return is an argument,
-- and the calls made of them are listed. What is only printed is left out.
pub mod Balance
mod Tests
use e19_4yp_voluntary_comput.Sysinfo.{no_config, load_config}
use e19_4yp_voluntary_comput.Rcsmngr.Files.{Config}
use e19_4yp_voluntary_comput.Prelude.{
  ℕ, zero, suc, ◌+◌, ◌-◌, ◌*◌, ◌/◌, ◌%◌, ◌<◌, ap, Bool, true, false, not, ◌&&◌, ◌||◌, Option, none,
  some, List, [], ◌∷◌, ◌++◌, ltb, ◌==◌, if◌then◌else◌, length, set, take, drop, count, CString,
  codes, str_eq, starts_with, fit,
}
use e19_4yp_voluntary_comput.Prelude.Int.{ℤ, pos, negsuc}

-- The managers: that of `main`, and those of the console's `process` and `process <data>`.
pub data Manager : Type 0 where
  volcom : Manager
  volcom_interactive : Manager
  volcom_single : Manager

pub data Mode : Type 0 where
  employer : Mode
  employee : Mode

-- The calls of volcom_rcsmngr.c on a manager: `volcom_rcsmngr_init` and `volcom_create_main_cgroup`
-- where they return 0, and `volcom_delete_main_cgroup` and `volcom_rcsmngr_cleanup`, whatever they
-- return; a script run in
-- the manager's cgroup; and the run of an agent, from `init_agent` to `cleanup_agent`.
pub data Call : Type 0 where
  initialised : Manager → Call
  created : Manager → Config → Call
  ran : Manager → CString → Call
  agent : Mode → Call
  deleted : Manager → Call
  cleaned : Manager → Call

-- How a child process ends, where there is one.
pub data Child : Type 0 where
  not_forked : Child
  exited : ℕ → Child
  signalled : Child
  stopped : Child

-- What a command's calls return: whether `volcom_rcsmngr_init` and `volcom_create_main_cgroup` return 0,
-- and the children, in order.
pub record Answers : Type 0 where
  pub inits : Bool
  pub creates : Bool
  pub children : ℕ → Child

-- What `sscanf(arg, "%31s %d", key, &value)` stores. A value below 0, and one that does not fit an `int`
-- when it is multiplied by 1024, are not modelled.
pub data Scanned : Type 0 where
  nothing : Scanned
  key_only : CString → Scanned
  key_value : CString → ℕ → Scanned

abbrev pub run_result : Child → ℤ
run_result not_forked = negsuc 0
run_result (exited code) = pos code
run_result signalled = negsuc 0
run_result stopped = pos 0

abbrev pub run_calls : Manager → CString → Child → List Call
run_calls m data_point not_forked = []
run_calls m data_point (exited code) = ran m data_point ∷ []
run_calls m data_point signalled = ran m data_point ∷ []
run_calls m data_point stopped = ran m data_point ∷ []

abbrev pub run_node_in_cgroup_o : Manager → CString → Child → ℤ × List Call
run_node_in_cgroup_o m data_point child = (run_result child, run_calls m data_point child)

-- `total_processed`, `successful` and `failed`
pub record Summary : Type 0 where
  pub total_processed : ℕ
  pub successful : ℕ
  pub failed : ℕ

abbrev pub counted : ℤ → Summary → Summary
counted (pos zero) s = record {
  total_processed = s.total_processed + 1;
  successful = s.successful + 1;
  failed = s.failed;
}
counted (pos (suc n)) s = record {
  total_processed = s.total_processed + 1;
  successful = s.successful;
  failed = s.failed + 1;
}
counted (negsuc n) s = record {
  total_processed = s.total_processed + 1;
  successful = s.successful;
  failed = s.failed + 1;
}

abbrev pub data_points : List CString
data_points =
    codes "{\"id\":\"sensor_001\", \"type\":\"sensor\", \"value\":75}"
    ∷ codes "{\"id\":\"calc_001\", \"type\":\"calculation\", \"value\":8}"
    ∷ codes "{\"id\":\"sensor_002\", \"type\":\"sensor\", \"value\":120}"
    ∷ codes "{\"id\":\"calc_002\", \"type\":\"calculation\", \"value\":5}"
    ∷ codes "{\"id\":\"sensor_003\", \"type\":\"sensor\", \"value\":45}"
    ∷ codes "{\"id\":\"calc_003\", \"type\":\"calculation\", \"value\":10}"
    ∷ []

-- The data points from number i on.
unfoldable pub process_from :
    Manager → (ℕ → Child) → ℕ → List CString → Summary → Summary × List Call
process_from m children i [] s = (s, [])
process_from m children i (p ∷ points) s =
    let r = run_node_in_cgroup_o m p (children i) in
    let rest = process_from m children (i + 1) points (counted r.0 s) in (rest.0, r.1 ++ rest.1)

abbrev pub process_data_stream : Manager → (ℕ → Child) → Summary × List Call
process_data_stream m children =
    process_from m children 0 data_points
      (record { total_processed = 0; successful = 0; failed = 0 })

-- A manager that is made for a command and taken back after it.
abbrev pub with_manager : Manager → Config → Answers → List Call → List Call
with_manager m config a body =
    if not a.inits
    then []
    else if not a.creates
    then initialised m ∷ cleaned m ∷ []
    else initialised m ∷ created m config ∷ (body ++ (deleted m ∷ cleaned m ∷ []))

abbrev pub set_memory : ℕ → Config → Config
set_memory value c = record {
  mem_config = record {
    allocated_memory_size_max = value * 1024;
    allocated_memory_size_high = value * 1024 / 2;
    allocated_swap_memory_size_max = c.mem_config.allocated_swap_memory_size_max;
    allocated_swap_memory_size_high = c.mem_config.allocated_swap_memory_size_high;
    memory_oom_protection = c.mem_config.memory_oom_protection;
  };
  cpu_config = c.cpu_config;
}

abbrev pub set_cpu : ℕ → Config → Config
set_cpu value c = record {
  mem_config = c.mem_config;
  cpu_config = record { allocated_logical_processors = value; allocated_cpu_share = 1024 };
}

-- `config <key> <value>`; any other key, and a key without its value, only print.
abbrev pub configured : Scanned → Config → Config
configured nothing c = c
configured (key_only key) c = c
configured (key_value key value) c =
    if str_eq key (codes "memory")
    then set_memory value c
    else if str_eq key (codes "cpu")
    then set_cpu value c
    else c

-- The commands that change the configuration or make calls; the others only print, or save.
abbrev pub command : (CString → Scanned) → CString → Answers → Config → Config × List Call
command scanned input a c =
    if starts_with (codes "config ") input
    then (configured (scanned (drop 7 input)) c, [])
    else if str_eq input (codes "process")
    then (
      c,
      with_manager volcom_interactive c a (process_data_stream volcom_interactive a.children).1,
    )
    else if starts_with (codes "process ") input
    then (
      c,
      with_manager volcom_single c a
          (run_node_in_cgroup_o volcom_single (drop 8 input) (a.children 0)).1,
    )
    else (c, [])

-- The configuration, and the calls made. `ended` is false where the lines end before `q`: the code
-- does not test for the end of its input, and goes on.
pub record Console : Type 0 where
  pub config : Config
  pub calls : List Call
  pub ended : Bool

-- The lines are those that `fgets` gives, without the newline.
unfoldable pub configure_by_cmd : (CString → Scanned) → List (CString × Answers) → Config → Console
unfolding process_from str_eq
configure_by_cmd scanned [] c = record { config = c; calls = []; ended = false }
configure_by_cmd scanned ((input, a) ∷ lines) c =
    let r = command scanned input a c in
    let rest = configure_by_cmd scanned lines r.0 in
    if str_eq input (codes "q")
    then record { config = c; calls = []; ended = true }
    else record { config = rest.config; calls = r.1 ++ rest.calls; ended = rest.ended }

-- The arguments that `main` is given, argv[0] included.
abbrev pub argument : ℕ → List CString → CString
argument n [] = []
argument zero (arg ∷ args) = arg
argument (suc n) (arg ∷ args) = argument n args

-- What the run finds: whether the user is root, the lines of the configuration's file if it opens,
-- those of the console, and what the calls of the resource manager in `run_employee_mode` return, if
-- it gets as far as these.
pub record Surroundings : Type 0 where
  pub is_root : Bool
  pub file : Option (List CString)
  pub scanned : CString → Scanned
  pub lines : List (CString × Answers)
  pub employee_start : Option Answers

-- The configuration of `run_employee_mode`.
abbrev pub employee_config : Config
employee_config = record {
  mem_config = record {
    allocated_memory_size_max = 1073741824;
    allocated_memory_size_high = 838860800;
    allocated_swap_memory_size_max = 0;
    allocated_swap_memory_size_high = 0;
    memory_oom_protection = 0;
  };
  cpu_config = record { allocated_logical_processors = 2; allocated_cpu_share = 80 };
}

-- The calls that `run_employee_mode` itself makes on the manager of `main`: it initialises it again.
abbrev pub employee_calls : Option Answers → List Call
employee_calls none = []
employee_calls (some a) =
    if not a.inits
    then []
    else initialised volcom
      ∷ (if a.creates then created volcom employee_config else cleaned volcom)
      ∷ []

abbrev pub mode_calls : Option Answers → List CString → List Call
mode_calls start argv =
    if str_eq (argument 1 argv) (codes "--mode")
    then if str_eq (argument 2 argv) (codes "employer")
      then agent employer ∷ []
      else agent employee ∷ employee_calls start
    else []

abbrev pub launch : Option Answers → List CString → Answers → Config → ℤ × List Call
launch start argv a config = (
  (if a.inits && a.creates then pos 0 else negsuc 0),
  with_manager volcom config a (mode_calls start argv),
)

abbrev pub console : Surroundings → List CString → Console
console w argv =
    if (length argv == 5) && str_eq (argument 3 argv) (codes "--file")
    then record { config = load_config w.file; calls = []; ended = true }
    else configure_by_cmd w.scanned w.lines no_config

-- The exit status, `none` where the console does not end, and the calls.
unfoldable pub main : Surroundings → List CString → Answers → Option ℤ × List Call
unfolding configure_by_cmd
main w argv a =
    let c = console w argv in
    let r = launch w.employee_start argv a c.config in
    if not w.is_root || ltb (length argv) 3
    then (some (negsuc 0), [])
    else if c.ended
    then (some r.0, c.calls ++ r.1)
    else (none, c.calls)
