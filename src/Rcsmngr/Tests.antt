-- ===== src/Rcsmngr/Tests.antt =====
-- The theorems on volcom_rcsmngr.c applied to a manager with two children.
use e19_4yp_voluntary_comput.Prelude.Int.{pos}
use e19_4yp_voluntary_comput.Rcsmngr.Pids.{add_pid_to_cgroup, remove_pid_from_cgroup, procs_text}
use e19_4yp_voluntary_comput.Rcsmngr.Membership.{remove_pid-add_pid}
use e19_4yp_voluntary_comput.Rcsmngr.Files.{Config}
use e19_4yp_voluntary_comput.Rcsmngr.Manager.{create_main_cgroup}
use e19_4yp_voluntary_comput.Rcsmngr.Creation.{
  permissive, main_limits, create_main_cgroup-permissive,
}
use e19_4yp_voluntary_comput.Prelude.{
  ◌≡◌, refl, Bool, true, false, none, some, List, [], ◌∷◌, ◌++◌, arith, CString, codes,
}
use e19_4yp_voluntary_comput.Memory.{live}
use e19_4yp_voluntary_comput.Rcsmngr.Files.{System, done, failed}
use e19_4yp_voluntary_comput.Rcsmngr.Manager.{Cgroup, Manager, cleanup}
use e19_4yp_voluntary_comput.Rcsmngr.Deletion.{
  finished, fault, delete_child_cgroup, delete_main_cgroup,
}
use e19_4yp_voluntary_comput.Rcsmngr.Faults.{
  IsValid, delete_main_cgroup-done, delete_child_cgroup_fault,
}

abbrev system : Bool → System
system rmdir = record {
  cgroup_v2 = true;
  mkdir = λ path. true;
  rmdir = λ path. rmdir;
  can_open = λ path. true;
  can_write = λ path text. true;
  malloc = λ request. true;
}

abbrev cgroup : CString → Cgroup
cgroup name = record {
  name = name;
  path = codes "/sys/fs/cgroup/volcom/" ++ name;
  parent_path = codes "/sys/fs/cgroup/volcom";
  is_created = true;
  pids = live [];
  pid_count = 0;
  pid_capacity = 10;
}

abbrev two_children : List Cgroup
two_children = cgroup (codes "a") ∷ cgroup (codes "b") ∷ []

abbrev manager : Manager
manager = record {
  root_cgroup_path = codes "/sys/fs/cgroup/volcom";
  main_cgroup = cgroup (codes "volcom");
  child_cgroups = live two_children;
  child_count = 2;
  child_capacity = 5;
  is_initialized = true;
}

manager-IsValid : IsValid manager two_children
manager-IsValid = record {
  initialized = refl;
  children = refl;
  counted = refl;
  has_pids = (([], refl), (([], refl), tt));
}

delete_main_cgroup-done_example :
    (m' : Manager) × (delete_main_cgroup 2 (system true) manager ≡ finished (done, m'))
    × (m'.child_count ≡ 0)
    × (m'.child_cgroups ≡ live [])
    × (m'.main_cgroup.is_created ≡ false)
delete_main_cgroup-done_example =
    delete_main_cgroup-done (system true) manager two_children manager-IsValid (λ path. refl)

delete_child_cgroup_fault_example :
    (m' : Manager) × (delete_child_cgroup (system false) manager (some (codes "a"))
      ≡ some (failed, m'))
    × (delete_child_cgroup (system false) m' (some (codes "a")) ≡ none)
    × (cleanup m' ≡ none)
    × (delete_main_cgroup 2 (system false) manager ≡ fault)
delete_child_cgroup_fault_example =
    delete_child_cgroup_fault (system false) manager (cgroup (codes "a")) (cgroup (codes "b") ∷ [])
      0 manager-IsValid refl

abbrev procs : CString
procs = codes "/sys/fs/cgroup/volcom/volcom/cgroup.procs"

remove_pid-add_pid_example :
    (m' : Manager) × (add_pid_to_cgroup (system true) manager (some (codes "volcom")) (pos 42)
      ≡ some (done, m', (procs, procs_text 42) ∷ []))
    × (remove_pid_from_cgroup m' (some (codes "volcom")) (pos 42) ≡ some (done, manager))
remove_pid-add_pid_example =
    remove_pid-add_pid (system true) manager [] 41
      (record { initialized = refl; created = refl; pids = refl; counted = refl }) (omega arith)
      refl refl

abbrev config : Config
config = record {
  mem_config = record {
    allocated_memory_size_max = 1024;
    allocated_memory_size_high = 512;
    allocated_swap_memory_size_max = 0;
    allocated_swap_memory_size_high = 0;
    memory_oom_protection = 0;
  };
  cpu_config = record { allocated_logical_processors = 2; allocated_cpu_share = 100 };
}

create_main_cgroup-permissive_example :
    create_main_cgroup permissive
      (record manager { main_cgroup = record manager.main_cgroup { is_created = false } })
      config
    ≡ (done, manager, main_limits manager.main_cgroup.path config)
create_main_cgroup-permissive_example =
    create_main_cgroup-permissive
      (record manager { main_cgroup = record manager.main_cgroup { is_created = false } }) config
      (omega arith)
