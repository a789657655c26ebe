-- ===== src/Rcsmngr/Membership.antt =====
-- A process that volcom_rcsmngr.c adds to the main cgroup can be removed again.
use e19_4yp_voluntary_comput.Prelude.{
  ℕ, suc, ◌+◌, ◌-◌, ◌*◌, ◌<◌, ◌≡◌, sym, ap, ◌∙◌, true, false, not, ◌&&◌, some, List, [], ◌∷◌, ◌++◌,
  arith, leb, ◌==◌, if◌then◌else◌, length, count, CString, codes, str_eq_refl,
}
use e19_4yp_voluntary_comput.Prelude.Int.{pos}
use e19_4yp_voluntary_comput.Memory.{null, live, cells}
use e19_4yp_voluntary_comput.Rcsmngr.Files.{System, more_pids, done, failed, join_path}
use e19_4yp_voluntary_comput.Rcsmngr.Manager.{Manager}
use e19_4yp_voluntary_comput.Rcsmngr.Pids.{
  main, find_child, or_child, find_target, push_pid, procs_text, store_pushed, add_to_target,
  on_target, add_pid_to_cgroup, kept, erase_pid, erased, remove_from_target, remove_pid_from_cgroup,
}

-- The manager is initialised, and its main cgroup is created and has these processes.
pub record HasMain (m : Manager) (ps : List ℕ) : Type 0 where
  pub initialized : m.is_initialized ≡ true
  pub created : m.main_cgroup.is_created ≡ true
  pub pids : m.main_cgroup.pids ≡ live ps
  pub counted : m.main_cgroup.pid_count ≡ length ps

abbrev with_count : Manager → List ℕ → ℕ → Manager
with_count m ps n = record m {
  is_initialized = true;
  main_cgroup = record m.main_cgroup { is_created = true; pids = live ps; pid_count = n };
}

abbrev with_main : Manager → List ℕ → Manager
with_main m ps = with_count m ps (length ps)

HasMain-with_main : (m : Manager) (ps : List ℕ) → HasMain m ps → m ≡ with_main m ps
HasMain-with_main m ps h = λ i. record m {
  is_initialized = h.initialized i;
  main_cgroup = record m.main_cgroup {
    is_created = h.created i;
    pids = h.pids i;
    pid_count = h.counted i;
  };
}

find_target-main : (m : Manager) → find_target m m.main_cgroup.name ≡ some (some main)
unfolding find_target
find_target-main m =
    ap
      (λ b.
        if b
        then some (some main)
        else or_child (find_child m.main_cgroup.name m.child_count (cells m.child_cgroups) 0))
      (str_eq_refl m.main_cgroup.name)

erase_pid-last :
    (p : ℕ) (ps : List ℕ)
    → count (λ q. q == p) ps ≡ 0
    → erase_pid p (suc (length ps)) (ps ++ p ∷ []) ≡ some (some ps)
unfolding erase_pid
erase_pid-last p [] h = ground arith
erase_pid-last p (q ∷ ps) h =
    let rest : erase_pid p (suc (length ps)) (ps ++ p ∷ []) ≡ some (some ps) =
      erase_pid-last p ps (ground (arith, h)) in
    let other : (q == p) ≡ false = ground (arith, h) in
    ap
      (λ b.
        if b
        then some (some (ps ++ p ∷ []))
        else kept q (erase_pid p (suc (length ps)) (ps ++ p ∷ [])))
      other
    ∙ ap (kept q) rest

suc_length : (n : ℕ) → n + 1 ≡ suc n
suc_length n = omega arith

add_sub_one : (n : ℕ) → n + 1 - 1 ≡ n
add_sub_one n = omega arith

remove_added :
    (m : Manager) (ps : List ℕ) (n : ℕ)
    → count (λ q. q == suc n) ps ≡ 0
    → remove_pid_from_cgroup
        (with_count m (ps ++ suc n ∷ []) (length ps + 1))
        (some m.main_cgroup.name)
        (pos (suc n))
      ≡ some (done, with_main m ps)
unfolding remove_pid_from_cgroup remove_from_target
remove_added m ps n h =
    let added = with_count m (ps ++ suc n ∷ []) (length ps + 1) in
    ap (on_target added (some (failed, added)) (λ t c. remove_from_target added t c (suc n)))
      (find_target-main added)
    ∙ ap (erased added main added.main_cgroup) (
        ap (λ k. erase_pid (suc n) k (ps ++ suc n ∷ [])) (suc_length (length ps))
        ∙ erase_pid-last (suc n) ps h)
    ∙ ap (λ k. some (done, with_count m ps k)) (add_sub_one (length ps))

abbrev pub procs_file : Manager → CString
procs_file m = join_path m.main_cgroup.path (codes "cgroup.procs")

push_pid-room :
    (sys : System) (m : Manager) (ps : List ℕ) (p : ℕ)
    → leb m.main_cgroup.pid_capacity (length ps) ≡ false
    → push_pid sys ((with_main m ps).main_cgroup) p
      ≡ some (done, (with_count m (ps ++ p ∷ []) (length ps + 1)).main_cgroup)
unfolding push_pid
push_pid-room sys m ps p h =
    ap
      (λ b.
        if b && not (sys.malloc more_pids)
        then some (
          failed,
          record (with_main m ps).main_cgroup {
            pid_capacity = m.main_cgroup.pid_capacity * 2;
            pids = null;
          },
        )
        else some (
          done,
          record (with_main m ps).main_cgroup {
            pids = live (ps ++ p ∷ []);
            pid_count = length ps + 1;
            pid_capacity = if b then m.main_cgroup.pid_capacity * 2 else m.main_cgroup.pid_capacity;
          },
        ))
      h

add_room :
    (sys : System) (m : Manager) (ps : List ℕ) (n : ℕ)
    → (sys.can_open (procs_file m) && sys.can_write (procs_file m) (procs_text (suc n))) ≡ true
    → leb m.main_cgroup.pid_capacity (length ps) ≡ false
    → add_pid_to_cgroup sys (with_main m ps) (some m.main_cgroup.name) (pos (suc n))
      ≡ some (
        done,
        with_count m (ps ++ suc n ∷ []) (length ps + 1),
        (procs_file m, procs_text (suc n)) ∷ [],
      )
unfolding add_pid_to_cgroup add_to_target
add_room sys m ps n hw hc =
    let old = with_main m ps in
    let ws = (procs_file m, procs_text (suc n)) ∷ [] in
    ap (on_target old (some (failed, old, [])) (λ t c. add_to_target sys old t c (suc n)))
      (find_target-main old)
    ∙ ap
        (λ b.
          if not b
          then some (failed, old, [])
          else store_pushed old main ws (push_pid sys old.main_cgroup (suc n)))
        hw
    ∙ ap (store_pushed old main ws) (push_pid-room sys m ps (suc n) hc)

-- Where the main cgroup is created, has these processes and room in its array for one more, and
-- the kernel accepts the write: adding a process that is not among them writes its number to the
-- cgroup's cgroup.procs and nothing else, and removing it then gives the manager as it was.
pub remove_pid-add_pid :
    (sys : System) (m : Manager) (ps : List ℕ) (n : ℕ)
    → HasMain m ps
    → length ps < m.main_cgroup.pid_capacity
    → count (λ q. q == suc n) ps ≡ 0
    → (sys.can_open (procs_file m) && sys.can_write (procs_file m) (procs_text (suc n))) ≡ true
    → (m' : Manager) × (add_pid_to_cgroup sys m (some m.main_cgroup.name) (pos (suc n))
        ≡ some (done, m', (procs_file m, procs_text (suc n)) ∷ []))
      × (remove_pid_from_cgroup m' (some m.main_cgroup.name) (pos (suc n)) ≡ some (done, m))
remove_pid-add_pid sys m ps n hm hl hn hw =
    let same = HasMain-with_main m ps hm in
    (
      with_count m (ps ++ suc n ∷ []) (length ps + 1),
      ap (λ k. add_pid_to_cgroup sys k (some m.main_cgroup.name) (pos (suc n))) same
          ∙ add_room sys m ps n hw (ground (arith, hl)),
      remove_added m ps n hn ∙ ap (λ k. some (done, k)) (sym same),
    )
