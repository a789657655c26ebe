-- ===== src/Rcsmngr/Pids.antt =====
-- The functions of volcom_rcsmngr.c that add a process to a cgroup, remove one and list them.
use e19_4yp_voluntary_comput.Prelude.{
  str_eq, ℕ, zero, suc, ◌+◌, ◌-◌, ◌*◌, not, ◌&&◌, Option, none, some, List, [], ◌∷◌, ◌++◌, ltb, leb,
  ◌==◌, if◌then◌else◌, get_elem?, take, CString, codes, decimal,
}
use e19_4yp_voluntary_comput.Prelude.Int.{ℤ, pos, negsuc}
use e19_4yp_voluntary_comput.Memory.{Block, null, freed, live, cells, store_at}
use e19_4yp_voluntary_comput.Rcsmngr.Files.{
  System, more_pids, pids_copy, Status, done, failed, Writes, newline, join_path,
}
use e19_4yp_voluntary_comput.Rcsmngr.Manager.{Cgroup, Manager}

-- What the loop over the children finds: the index of the first of that name among the first `n`.
unfoldable pub find_child : CString → ℕ → List Cgroup → ℕ → Option (Option ℕ)
find_child name zero cs i = some none
find_child name (suc n) [] i = none
find_child name (suc n) (c ∷ cs) i =
    let later = find_child name n cs (suc i) in if str_eq name c.name then some (some i) else later

-- The pointer `target_cgroup`: to the main cgroup or into the array of children.
pub data Target : Type 0 where
  main : Target
  child : ℕ → Target

abbrev pub or_child : Option (Option ℕ) → Option (Option Target)
or_child none = none
or_child (some none) = some none
or_child (some (some i)) = some (some (child i))

unfoldable pub find_target : Manager → CString → Option (Option Target)
unfolding find_child
find_target m name =
    if str_eq name m.main_cgroup.name
    then some (some main)
    else or_child (find_child name m.child_count (cells m.child_cgroups) 0)

abbrev pub load_target : Manager → Target → Option Cgroup
load_target m main = some m.main_cgroup
load_target m (child i) = get_elem? (cells m.child_cgroups) i

abbrev pub store_target : Manager → Target → Cgroup → Option Manager
store_target m main c = some (record m { main_cgroup = c })
store_target m (child i) c = elim (store_at m.child_cgroups i c) [
  | none ↦ none
  | some b ↦ some (record m { child_cgroups = b })
]

-- The record of a process in its cgroup, once it has been moved: `realloc` to twice the size where
-- the array is full, and then the store.
unfoldable pub push_pid : System → Cgroup → ℕ → Option (Status × Cgroup)
push_pid sys c pid =
    if leb c.pid_capacity c.pid_count && not (sys.malloc more_pids)
    then some (failed, record c { pid_capacity = c.pid_capacity * 2; pids = null })
    else elim c.pids [
      | null ↦ none
      | freed ↦ none
      | live ps ↦ some (
        done,
        record c {
          pids = live (ps ++ pid ∷ []);
          pid_count = c.pid_count + 1;
          pid_capacity =
              if leb c.pid_capacity c.pid_count then c.pid_capacity * 2 else c.pid_capacity;
        },
      )
    ]

abbrev pub procs_text : ℕ → CString
procs_text pid = decimal pid ++ newline

abbrev pub store_pushed :
    Manager → Target → Writes → Option (Status × Cgroup) → Option (Status × Manager × Writes)
store_pushed m t ws none = none
store_pushed m t ws (some (s, c)) = elim (store_target m t c) [
  | none ↦ none
  | some m' ↦ some (s, m', ws)
]

-- The part of `volcom_add_pid_to_cgroup` after the cgroup has been found.
unfoldable pub add_to_target :
    System → Manager → Target → Cgroup → ℕ → Option (Status × Manager × Writes)
unfolding push_pid
add_to_target sys m t c pid =
    let file = join_path c.path (codes "cgroup.procs") in
    if not c.is_created
    then some (failed, m, [])
    else if not (sys.can_open file && sys.can_write file (procs_text pid))
    then some (failed, m, [])
    else store_pushed m t ((file, procs_text pid) ∷ []) (push_pid sys c pid)

abbrev pub on_loaded {ℓ} :
    {A : Type ℓ} → (Target → Cgroup → Option A) → Target → Option Cgroup → Option A
on_loaded act t none = none
on_loaded act t (some c) = act t c

-- The cgroup that is found is acted on; `missing` is for none.
abbrev pub on_target {ℓ} :
    {A : Type ℓ}
    → Manager
    → Option A
    → (Target → Cgroup → Option A)
    → Option (Option Target)
    → Option A
on_target m missing act none = none
on_target m missing act (some none) = missing
on_target m missing act (some (some t)) = on_loaded act t (load_target m t)

unfoldable pub add_pid_to_cgroup :
    System → Manager → Option CString → ℤ → Option (Status × Manager × Writes)
unfolding add_to_target
add_pid_to_cgroup sys m none pid = some (failed, m, [])
add_pid_to_cgroup sys m (some name) (negsuc n) = some (failed, m, [])
add_pid_to_cgroup sys m (some name) (pos zero) = some (failed, m, [])
add_pid_to_cgroup sys m (some name) (pos (suc n)) =
    if not m.is_initialized
    then some (failed, m, [])
    else on_target m (some (failed, m, [])) (λ t c. add_to_target sys m t c (suc n))
        (find_target m name)

abbrev pub kept : ℕ → Option (Option (List ℕ)) → Option (Option (List ℕ))
kept p none = none
kept p (some none) = some none
kept p (some (some ps)) = some (some (p ∷ ps))

-- The loops of `volcom_remove_pid_from_cgroup` over the first `n` processes: the first that is
-- `pid` is overwritten by those behind it; `some none` where there is none.
unfoldable pub erase_pid : ℕ → ℕ → List ℕ → Option (Option (List ℕ))
erase_pid pid zero ps = some none
erase_pid pid (suc n) [] = none
erase_pid pid (suc n) (p ∷ ps) =
    let later = erase_pid pid n ps in if p == pid then some (some ps) else kept p later

abbrev pub stored_done : Option Manager → Option (Status × Manager)
stored_done none = none
stored_done (some m) = some (done, m)

abbrev pub erased : Manager → Target → Cgroup → Option (Option (List ℕ)) → Option (Status × Manager)
erased m t c none = none
erased m t c (some none) = some (failed, m)
erased m t c (some (some ps)) =
    stored_done (store_target m t (record c { pids = live ps; pid_count = c.pid_count - 1 }))

unfoldable pub remove_from_target : Manager → Target → Cgroup → ℕ → Option (Status × Manager)
unfolding erase_pid
remove_from_target m t c pid = erased m t c (erase_pid pid c.pid_count (cells c.pids))

unfoldable pub remove_pid_from_cgroup : Manager → Option CString → ℤ → Option (Status × Manager)
unfolding remove_from_target
remove_pid_from_cgroup m none pid = some (failed, m)
remove_pid_from_cgroup m (some name) (negsuc n) = some (failed, m)
remove_pid_from_cgroup m (some name) (pos zero) = some (failed, m)
remove_pid_from_cgroup m (some name) (pos (suc n)) =
    if not m.is_initialized
    then some (failed, m)
    else on_target m (some (failed, m)) (λ t c. remove_from_target m t c (suc n))
        (find_target m name)

-- The count and the copy that the caller gets; the copy has the first `count` processes.
unfoldable pub copy_pids : System → Cgroup → Option (Status × ℕ × Block ℕ)
copy_pids sys c =
    if ltb 0 c.pid_count
    then (if not (sys.malloc pids_copy) then some (failed, c.pid_count, null) else elim c.pids [
      | null ↦ none
      | freed ↦ none
      | live ps ↦ some (done, c.pid_count, live (take c.pid_count ps))
    ])
    else some (done, c.pid_count, null)

unfoldable pub get_cgroup_pids : System → Manager → Option CString → Option (Status × ℕ × Block ℕ)
unfolding copy_pids
get_cgroup_pids sys m none = some (failed, 0, null)
get_cgroup_pids sys m (some name) =
    if not m.is_initialized
    then some (failed, 0, null)
    else on_target m (some (failed, 0, null)) (λ t c. copy_pids sys c) (find_target m name)
