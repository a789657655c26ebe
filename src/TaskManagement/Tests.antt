-- ===== src/TaskManagement/Tests.antt =====
-- Runs of the rings of task_management.c, and the theorems at concrete inputs.
use e19_4yp_voluntary_comput.Prelude.{◌≡◌, refl, true, false, List, [], ◌∷◌, none, some, arith, ℕ}
use e19_4yp_voluntary_comput.Fifo
use e19_4yp_voluntary_comput.Fifo.{Call, add, get}
use e19_4yp_voluntary_comput.TaskManagement.{
  Ring, null, live, init_ring, run_ring, add_to_ring, get_from_ring,
}
use e19_4yp_voluntary_comput.TaskManagement.Refinement.{init_ring-run}

abbrev unset : Ring ℕ
unset = record { items = null; capacity = 0; head = 0; tail = 0; count = 0 }

abbrev fresh : Ring ℕ
fresh = record { items = live (9 ∷ 9 ∷ []); capacity = 2; head = 0; tail = 0; count = 0 }

abbrev calls : List (Call ℕ)
calls = add 1 ∷ add 2 ∷ add 3 ∷ get ∷ add 4 ∷ get ∷ get ∷ get ∷ []

run_ring_wraps :
    run_ring fresh calls
    ≡ some (
        (true, none)
        ∷ (true, none)
        ∷ (false, none)
        ∷ (true, some 1)
        ∷ (true, none)
        ∷ (true, some 2)
        ∷ (true, some 4)
        ∷ (false, none)
        ∷ [])
unfolding run_ring add_to_ring get_from_ring
run_ring_wraps = refl

init_ring-run_example : run_ring fresh calls ≡ some (Fifo.run 2 [] calls)
unfolding init_ring
init_ring-run_example = init_ring-run unset (9 ∷ 9 ∷ []) 2 calls refl (omega arith) refl
