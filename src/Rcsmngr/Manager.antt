-- ===== src/Rcsmngr/Manager.antt =====
-- The manager of volcom_rcsmngr.c: its state, and each of its operations.
use e19_4yp_voluntary_comput.Prelude.{
  ℕ, zero, suc, ◌+◌, ◌*◌, ◌/◌, ◌%◌, ◌^◌, Bool, true, false, not, ◌&&◌, ◌||◌, Option, none, some,
  List, [], ◌∷◌, ◌++◌, leb, if◌then◌else◌, CString, codes, fit,
}
use e19_4yp_voluntary_comput.Memory.{Block, null, freed, live, cells, free_block}
use e19_4yp_voluntary_comput.Rcsmngr.Files.{
  Config, System, main_pids, children, child_pids, more_children, Status, done, failed, Writes,
  path_len, join_path, set_memory_limit, set_cpu_limit, enable_controllers,
}

pub record Cgroup : Type 0 where
  pub name : CString
  pub path : CString
  pub parent_path : CString
  pub is_created : Bool
  pub pids : Block ℕ
  pub pid_count : ℕ
  pub pid_capacity : ℕ

pub record Manager : Type 0 where
  pub root_cgroup_path : CString
  pub main_cgroup : Cgroup
  pub child_cgroups : Block Cgroup
  pub child_count : ℕ
  pub child_capacity : ℕ
  pub is_initialized : Bool

abbrev cgroup_root : CString
cgroup_root = codes "/sys/fs/cgroup"

abbrev zero_cgroup : Cgroup
zero_cgroup = record {
  name = [];
  path = [];
  parent_path = [];
  is_created = false;
  pids = null;
  pid_count = 0;
  pid_capacity = 0;
}

-- `memset(manager, 0, …)`
abbrev pub zero_manager : Manager
zero_manager = record {
  root_cgroup_path = [];
  main_cgroup = zero_cgroup;
  child_cgroups = null;
  child_count = 0;
  child_capacity = 0;
  is_initialized = false;
}

abbrev allocated {ℓ} : {A : Type ℓ} → Bool → Block A
allocated true = live []
allocated false = null

-- Freeing the arrays of the first `n` children.
unfoldable pub free_children : ℕ → List Cgroup → Option (Unit {0})
free_children zero cs = some tt
free_children (suc n) [] = none
free_children (suc n) (c ∷ cs) = elim (free_block c.pids) [
  | none ↦ none
  | some b ↦ free_children n cs
]

unfoldable pub cleanup : Manager → Option Manager
unfolding free_children
cleanup m = elim (free_block m.main_cgroup.pids) [
  | none ↦ none
  | some b ↦ elim (free_children m.child_count (cells m.child_cgroups)) [
    | none ↦ none
    | some u ↦ elim (free_block m.child_cgroups) [ none ↦ none | some c ↦ some zero_manager ]
  ]
]

-- What `volcom_rcsmngr_init` has filled in before it tests the two allocations.
abbrev prepared : System → CString → Manager
prepared sys name = record {
  root_cgroup_path = join_path cgroup_root name;
  main_cgroup = record {
    name = fit 64 name;
    path = fit path_len (join_path cgroup_root name);
    parent_path = cgroup_root;
    is_created = false;
    pids = allocated (sys.malloc main_pids);
    pid_count = 0;
    pid_capacity = 10;
  };
  child_cgroups = allocated (sys.malloc children);
  child_count = 0;
  child_capacity = 5;
  is_initialized = false;
}

pub init : System → Option Manager → Option CString → Option (Status × Option Manager)
unfolding cleanup
init sys none name = some (failed, none)
init sys (some m) none = some (failed, some m)
init sys (some m) (some name) =
    if not sys.cgroup_v2
    then some (failed, some m)
    else if sys.malloc main_pids && sys.malloc children
    then some (done, some (record (prepared sys name) { is_initialized = true }))
    else elim (cleanup (prepared sys name)) [ none ↦ none | some m' ↦ some (failed, some m') ]

abbrev pub kib : ℕ → ℕ
kib n = n * 1024 % 2 ^ 64

-- Each step returns what it wrote; the first that fails ends the function.
infixl 5 ◌and_then◌
abbrev ◌and_then◌ : Status × Writes → Status × Writes → Status × Writes
(done, ws) and_then (s, ws') = (s, ws ++ ws')
(failed, ws) and_then next = (failed, ws)

-- The writes of `volcom_create_main_cgroup`.
unfoldable pub limit_main : System → CString → Config → Status × Writes
unfolding set_memory_limit set_cpu_limit enable_controllers
limit_main sys path c =
    set_memory_limit sys path (kib c.mem_config.allocated_memory_size_max)
    and_then set_cpu_limit sys path c.cpu_config.allocated_cpu_share
        c.cpu_config.allocated_logical_processors
    and_then enable_controllers sys path (codes "memory cpu")

abbrev set_created : Manager → Manager
set_created m = record m { main_cgroup = record m.main_cgroup { is_created = true } }

abbrev created_if : Manager → Status × Writes → Status × Manager × Writes
created_if m (done, ws) = (done, set_created m, ws)
created_if m (failed, ws) = (failed, m, ws)

unfoldable pub create_main_cgroup : System → Manager → Config → Status × Manager × Writes
unfolding limit_main
create_main_cgroup sys m c =
    if not m.is_initialized
    then (failed, m, [])
    else if m.main_cgroup.is_created
    then (failed, m, [])
    else if not (sys.mkdir m.main_cgroup.path)
    then (failed, m, [])
    else created_if m (limit_main sys m.main_cgroup.path c)

-- `realloc` to twice the size, where the array is full; a failure leaves a null pointer.
pub grow_children : System → Manager → Manager × Bool
grow_children sys m =
    if leb m.child_capacity m.child_count
    then (if sys.malloc more_children
        then (record m { child_capacity = m.child_capacity * 2 }, true)
        else (record m { child_capacity = m.child_capacity * 2; child_cgroups = null }, false))
    else (m, true)

abbrev new_child : Manager → CString → Cgroup
new_child m name = record zero_cgroup {
  name = fit 64 name;
  path = join_path m.main_cgroup.path name;
  parent_path = fit path_len m.main_cgroup.path;
}

pub limit_child : System → CString → Config → Status × Writes
unfolding set_memory_limit set_cpu_limit
limit_child sys path c =
    set_memory_limit sys path (kib c.mem_config.allocated_memory_size_high)
    and_then set_cpu_limit sys path (c.cpu_config.allocated_cpu_share / 2) 1

-- The new entry is counted only when all steps have succeeded.
abbrev append_child : Manager → Cgroup → Writes → Option (Status × Manager × Writes)
append_child m c ws = elim m.child_cgroups [
  | null ↦ none
  | freed ↦ none
  | live cs ↦
      some (
        done,
        record m { child_cgroups = live (cs ++ c ∷ []); child_count = m.child_count + 1 },
        ws,
      )
]

abbrev with_limits :
    System → Manager → Cgroup → Status × Writes → Option (Status × Manager × Writes)
with_limits sys m c (failed, ws) = some (failed, m, ws)
with_limits sys m c (done, ws) =
    if sys.malloc child_pids
    then append_child m (record c { is_created = true; pids = live []; pid_capacity = 10 }) ws
    else some (failed, m, ws)

pub create_child_cgroup :
    System → Manager → Option CString → Config → Option (Status × Manager × Writes)
unfolding grow_children limit_child
create_child_cgroup sys m none c = some (failed, m, [])
create_child_cgroup sys m (some name) c =
    if not m.is_initialized || not m.main_cgroup.is_created
    then some (failed, m, [])
    else let (m', grown) = grow_children sys m in
      if not grown
      then some (failed, m', [])
      else if not (sys.mkdir (new_child m name).path)
      then some (failed, m', [])
      else with_limits sys m' (new_child m name) (limit_child sys (new_child m name).path c)
