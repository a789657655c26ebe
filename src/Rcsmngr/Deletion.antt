-- ===== src/Rcsmngr/Deletion.antt =====
-- The functions of volcom_rcsmngr.c that delete a child cgroup, and all of them with the main one.
use e19_4yp_voluntary_comput.Prelude.{
  set, ℕ, zero, suc, ◌-◌, false, not, Option, none, some, ltb, if◌then◌else◌, get_elem?, erase_at,
  CString,
}
use e19_4yp_voluntary_comput.Memory.{Block, null, freed, live, cells, free_block}
use e19_4yp_voluntary_comput.Rcsmngr.Files.{System, Status, done, failed}
use e19_4yp_voluntary_comput.Rcsmngr.Manager.{Cgroup, Manager}
use e19_4yp_voluntary_comput.Rcsmngr.Pids.{find_child}

-- The later children move up.
abbrev pub drop_child : Manager → ℕ → Block Cgroup → Option (Status × Manager)
drop_child m i null = none
drop_child m i freed = none
drop_child m i (live cs) =
    some (done, record m { child_cgroups = live (erase_at cs i); child_count = m.child_count - 1 })

abbrev pub store_child : Manager → ℕ → Cgroup → Block Cgroup → Option (Status × Manager)
store_child m i c null = none
store_child m i c freed = none
store_child m i c (live cs) = some (failed, record m { child_cgroups = live (set cs i c) })

-- What follows the `free` of the child's array: `rmdir`, after a failure of which the child stays.
abbrev pub after_free : System → Manager → ℕ → Cgroup → Option (Block ℕ) → Option (Status × Manager)
after_free sys m i c none = none
after_free sys m i c (some b) =
    if sys.rmdir c.path
    then drop_child m i m.child_cgroups
    else store_child m i (record c { pids = b }) m.child_cgroups

abbrev pub delete_loaded : System → Manager → ℕ → Option Cgroup → Option (Status × Manager)
delete_loaded sys m i none = none
delete_loaded sys m i (some c) = after_free sys m i c (free_block c.pids)

-- The child at the index that the search has found is deleted.
abbrev pub delete_found : System → Manager → Option (Option ℕ) → Option (Status × Manager)
delete_found sys m none = none
delete_found sys m (some none) = some (failed, m)
delete_found sys m (some (some i)) = delete_loaded sys m i (get_elem? (cells m.child_cgroups) i)

unfoldable pub delete_child_cgroup : System → Manager → Option CString → Option (Status × Manager)
unfolding find_child
delete_child_cgroup sys m none = some (failed, m)
delete_child_cgroup sys m (some name) =
    if not m.is_initialized
    then some (failed, m)
    else delete_found sys m (find_child name m.child_count (cells m.child_cgroups) 0)

-- How a loop ends within the rounds given: with its state, by a fault, or not yet.
pub data Run {ℓ} (A : Type ℓ) : Type ℓ where
  finished : A → Run A
  fault running : Run A

unfoldable pub delete_named : System → Manager → Option Cgroup → Option (Status × Manager)
unfolding delete_child_cgroup
delete_named sys m none = none
delete_named sys m (some c) = delete_child_cgroup sys m (some c.name)

abbrev pub after_round : (Manager → Run Manager) → Option (Status × Manager) → Run Manager
after_round next none = fault
after_round next (some (s, m)) = next m

-- The loop of `volcom_delete_main_cgroup`; the result of the call in its body is not looked at.
unfoldable pub delete_children : ℕ → System → Manager → Run Manager
unfolding delete_named
delete_children zero sys m = if ltb 0 m.child_count then running else finished m
delete_children (suc fuel) sys m =
    if not (ltb 0 m.child_count)
    then finished m
    else after_round (λ m'. delete_children fuel sys m')
        (delete_named sys m (get_elem? (cells m.child_cgroups) 0))

-- What follows the loop.
unfoldable pub delete_main : System → Manager → Status × Manager
delete_main sys m =
    if m.main_cgroup.is_created
    then (if sys.rmdir m.main_cgroup.path
        then (done, record m { main_cgroup = record m.main_cgroup { is_created = false } })
        else (failed, m))
    else (done, m)

unfoldable pub after_children : System → Run Manager → Run (Status × Manager)
unfolding delete_main
after_children sys fault = fault
after_children sys running = running
after_children sys (finished m) = finished (delete_main sys m)

unfoldable pub delete_main_cgroup : ℕ → System → Manager → Run (Status × Manager)
unfolding delete_children after_children
delete_main_cgroup fuel sys m =
    if not m.is_initialized
    then finished (failed, m)
    else after_children sys (delete_children fuel sys m)
