-- ===== src/Rcsmngr/Faults.antt =====
-- When the deletion of cgroups in volcom_rcsmngr.c ends with none left, and when it frees memory
-- twice.
use e19_4yp_voluntary_comput.Prelude.{
  Bool, Option, CString, false, ◌∙◌, if◌then◌else◌, suc, [], ◌-◌, none, some, ◌≡◌, str_eq_refl, not,
  ltb, ap, arith, refl, ℕ, ◌-◌, ◌≡◌, true, none, some, List, ◌∷◌, length, All,
}
use e19_4yp_voluntary_comput.Memory.{Block, null, freed, live, free_block}
use e19_4yp_voluntary_comput.Rcsmngr.Files.{System, Status, done, failed}
use e19_4yp_voluntary_comput.Rcsmngr.Manager.{Cgroup, Manager, cleanup, free_children}
use e19_4yp_voluntary_comput.Rcsmngr.Pids.{find_child}
use e19_4yp_voluntary_comput.Rcsmngr.Deletion.{
  finished, fault, delete_found, delete_named, after_round, after_free, drop_child, store_child,
  after_children, delete_child_cgroup, delete_children, delete_main_cgroup, delete_main,
}

-- The manager is initialised, the children counted are those of the array, and the array of each is
-- allocated.
abbrev pub HasPids : Cgroup → Type 0
HasPids c = (ps : List ℕ) × (c.pids ≡ live ps)

pub record IsValid (m : Manager) (cs : List Cgroup) : Type 0 where
  pub initialized : m.is_initialized ≡ true
  pub children : m.child_cgroups ≡ live cs
  pub counted : m.child_count ≡ length cs
  pub has_pids : All HasPids cs

-- A manager with these children.
abbrev with_children : Manager → List Cgroup → Manager
with_children m cs = record m {
  child_cgroups = live cs;
  child_count = length cs;
  is_initialized = true;
}

IsValid-with_children : (m : Manager) (cs : List Cgroup) → IsValid m cs → m ≡ with_children m cs
IsValid-with_children m cs v = λ i. record m {
  child_cgroups = v.children i;
  child_count = v.counted i;
  is_initialized = v.initialized i;
}

suc_sub_one : (n : ℕ) → suc n - 1 ≡ n
suc_sub_one n = omega arith

find_child_first :
    (c : Cgroup) (cs : List Cgroup) (n : ℕ) → find_child c.name (suc n) (c ∷ cs) 0 ≡ some (some 0)
unfolding find_child
find_child_first c cs n =
    ap (λ b. if b then some (some 0) else find_child c.name n cs 1) (str_eq_refl c.name)

delete_first :
    (sys : System) (m : Manager) (c : Cgroup) (cs : List Cgroup)
    → delete_child_cgroup sys (with_children m (c ∷ cs)) (some c.name)
      ≡ after_free sys (with_children m (c ∷ cs)) 0 c (free_block c.pids)
unfolding delete_child_cgroup
delete_first sys m c cs =
    ap (delete_found sys (with_children m (c ∷ cs))) (find_child_first c cs (length cs))

delete_first-done :
    (sys : System) (m : Manager) (c : Cgroup) (cs : List Cgroup)
    → HasPids c
    → sys.rmdir c.path ≡ true
    → delete_child_cgroup sys (with_children m (c ∷ cs)) (some c.name)
      ≡ some (done, with_children m cs)
delete_first-done sys m c cs (ps, hp) hr =
    delete_first sys m c cs
    ∙ ap (λ b. after_free sys (with_children m (c ∷ cs)) 0 c (free_block b)) hp
    ∙ ap
        (λ b.
          if b
          then drop_child (with_children m (c ∷ cs)) 0 (live (c ∷ cs))
          else store_child (with_children m (c ∷ cs)) 0 (record c { pids = freed }) (live (c ∷ cs)))
        hr
    ∙ ap
        (λ n.
          some (done, record m { child_cgroups = live cs; child_count = n; is_initialized = true }))
        (suc_sub_one (length cs))

abbrev freed_child : Cgroup → Cgroup
freed_child c = record c { pids = freed }

delete_first-failed :
    (sys : System) (m : Manager) (c : Cgroup) (cs : List Cgroup)
    → HasPids c
    → sys.rmdir c.path ≡ false
    → delete_child_cgroup sys (with_children m (c ∷ cs)) (some c.name)
      ≡ some (failed, with_children m (freed_child c ∷ cs))
delete_first-failed sys m c cs (ps, hp) hr =
    delete_first sys m c cs
    ∙ ap (λ b. after_free sys (with_children m (c ∷ cs)) 0 c (free_block b)) hp
    ∙ ap
        (λ b.
          if b
          then drop_child (with_children m (c ∷ cs)) 0 (live (c ∷ cs))
          else store_child (with_children m (c ∷ cs)) 0 (freed_child c) (live (c ∷ cs)))
        hr

delete_freed :
    (sys : System) (m : Manager) (c : Cgroup) (cs : List Cgroup)
    → delete_child_cgroup sys (with_children m (freed_child c ∷ cs)) (some c.name) ≡ none
delete_freed sys m c cs = delete_first sys m (freed_child c) cs

has_more : (n : ℕ) → not (ltb 0 (suc n)) ≡ false
has_more n = ground arith

-- A round of the loop, given what its call returns.
delete_children_round :
    (sys : System) (m : Manager) (c : Cgroup) (cs : List Cgroup) (fuel : ℕ)
    (r : Option (Status × Manager))
    → delete_child_cgroup sys (with_children m (c ∷ cs)) (some c.name) ≡ r
    → delete_children (suc fuel) sys (with_children m (c ∷ cs))
      ≡ after_round (λ m'. delete_children fuel sys m') r
unfolding delete_children delete_named
delete_children_round sys m c cs fuel r h =
    ap
      (λ b.
        if b
        then finished (with_children m (c ∷ cs))
        else after_round (λ m'. delete_children fuel sys m')
            (delete_child_cgroup sys (with_children m (c ∷ cs)) (some c.name)))
      (has_more (length cs))
    ∙ ap (after_round (λ m'. delete_children fuel sys m')) h

delete_children-done :
    (sys : System) (m : Manager) (cs : List Cgroup)
    → All HasPids cs
    → ((path : CString) → sys.rmdir path ≡ true)
    → delete_children (length cs) sys (with_children m cs) ≡ finished (with_children m [])
unfolding delete_children
delete_children-done sys m [] h hr = refl
delete_children-done sys m (c ∷ cs) h hr =
    delete_children_round sys m c cs (length cs) (some (done, with_children m cs))
      (delete_first-done sys m c cs (h.0) (hr c.path))
    ∙ delete_children-done sys m cs (h.1) hr

abbrev not_created : Manager → Bool → Manager
not_created m b = record m { main_cgroup = record m.main_cgroup { is_created = b } }

delete_main-done :
    (sys : System) (m : Manager) (b : Bool)
    → ((path : CString) → sys.rmdir path ≡ true)
    → delete_main sys (not_created m b) ≡ (done, not_created m false)
unfolding delete_main
delete_main-done sys m false hr = refl
delete_main-done sys m true hr =
    ap (λ b. if b then (done, not_created m false) else (failed, not_created m true))
      (hr m.main_cgroup.path)

abbrev with_pids : Manager → Block ℕ → Manager
with_pids m b = record m { main_cgroup = record m.main_cgroup { pids = b } }

cleanup_freed :
    (m : Manager) (c : Cgroup) (cs : List Cgroup) (b : Block ℕ)
    → cleanup (with_pids (with_children m (freed_child c ∷ cs)) b) ≡ none
unfolding cleanup free_children
cleanup_freed m c cs null = refl
cleanup_freed m c cs freed = refl
cleanup_freed m c cs (live ps) = refl

-- Where `rmdir` always succeeds and no array is freed, `volcom_delete_main_cgroup` ends without a
-- fault within as many rounds as there are children: it succeeds, no child is left, and the main
-- cgroup is not created any more.
pub delete_main_cgroup-done :
    (sys : System) (m : Manager) (cs : List Cgroup)
    → IsValid m cs
    → ((path : CString) → sys.rmdir path ≡ true)
    → (m' : Manager) × (delete_main_cgroup (length cs) sys m ≡ finished (done, m'))
      × (m'.child_count ≡ 0)
      × (m'.child_cgroups ≡ live [])
      × (m'.main_cgroup.is_created ≡ false)
unfolding delete_main_cgroup after_children delete_main
delete_main_cgroup-done sys m cs v hr = (
  not_created (with_children m []) false,
  ap (delete_main_cgroup (length cs) sys) (IsValid-with_children m cs v)
      ∙ ap (after_children sys) (delete_children-done sys m cs v.has_pids hr)
      ∙ ap finished (delete_main-done sys (with_children m []) m.main_cgroup.is_created hr),
  refl,
  refl,
  refl,
)

-- If `rmdir` fails for the first child, whose array is allocated: the child is still there after
-- `volcom_delete_child_cgroup` has failed, with its array freed, and each of a second deletion,
-- `volcom_rcsmngr_cleanup` and, from the start, `volcom_delete_main_cgroup` with two rounds or more
-- frees the array twice.
pub delete_child_cgroup_fault :
    (sys : System) (m : Manager) (c : Cgroup) (cs : List Cgroup) (rounds : ℕ)
    → IsValid m (c ∷ cs)
    → sys.rmdir c.path ≡ false
    → (m' : Manager) × (delete_child_cgroup sys m (some c.name) ≡ some (failed, m'))
      × (delete_child_cgroup sys m' (some c.name) ≡ none)
      × (cleanup m' ≡ none)
      × (delete_main_cgroup (suc (suc rounds)) sys m ≡ fault)
unfolding delete_main_cgroup cleanup after_children delete_children delete_named
delete_child_cgroup_fault sys m c cs rounds v hr =
    let m' = with_children m (freed_child c ∷ cs) in
    let same = IsValid-with_children m (c ∷ cs) v in
    let first = delete_first-failed sys m c cs (v.has_pids.0) hr in
    let again = delete_freed sys m c cs in
    (
      m',
      ap (λ n. delete_child_cgroup sys n (some c.name)) same ∙ first,
      again,
      cleanup_freed m c cs m.main_cgroup.pids,
      ap (delete_main_cgroup (suc (suc rounds)) sys) same
          ∙ ap (after_children sys) (
              delete_children_round sys m c cs (suc rounds) (some (failed, m')) first
              ∙ delete_children_round sys m (freed_child c) cs rounds none again),
    )
