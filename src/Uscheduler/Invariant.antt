-- ===== src/Uscheduler/Invariant.antt =====
-- The buffer alone: what `task_buffer_enqueue` and `task_buffer_dequeue` do to the queue it holds.
use e19_4yp_voluntary_comput.Prelude.{
  subst, ℕ, ◌+◌, ◌%◌, ◌≤◌, ◌<◌, ◌≡◌, refl, ap, ◌∙◌, sym, List, [], ◌∷◌, ◌++◌, some, arith, length,
  length-append, length-set, map,
}
use e19_4yp_voluntary_comput.Cyclic.{Holds, Holds-set}
use e19_4yp_voluntary_comput.Uscheduler.{
  TaskBuffer, max_tasks, task_buffer_init, deposit, withdraw, rows_from, task_buffer_print,
}

module _ {ℓ} {A : Type ℓ} where
  -- The buffer holds the tasks of the list, oldest first, from `head` on.
  pub record Holding (b : TaskBuffer A) (q : List A) : Type ℓ where
    pub storage : length b.tasks ≡ max_tasks
    pub head_in : b.head < max_tasks
    pub size : length q ≡ b.count
    pub fits : b.count ≤ max_tasks
    pub tail_at : b.tail ≡ (b.head + b.count) % max_tasks
    pub held : Holds b.tasks max_tasks b.head q

  pub init-Holding :
      (b : TaskBuffer A) → length b.tasks ≡ max_tasks → Holding (task_buffer_init b) []
  unfolding task_buffer_init
  init-Holding b h = ground arith

  pub deposit-Holding :
      {b : TaskBuffer A} {q : List A} (t : A)
      → Holding b q
      → b.count < max_tasks
      → Holding (deposit b t) (q ++ t ∷ [])
  unfolding deposit
  deposit-Holding {b} {q} t v room = record {
    storage = omega (arith, length-set b.tasks b.tail t);
    head_in = v.head_in;
    size = omega (arith, length-append q (t ∷ []));
    fits = omega arith;
    tail_at = omega arith;
    held =
        Holds-set b.tasks max_tasks b.head b.tail t q (omega arith) v.head_in (omega arith)
          (v.tail_at ∙ ap (λ k. (b.head + k) % max_tasks) (sym v.size)) v.held;
  }

  pub withdraw-Holding :
      {b : TaskBuffer A} (t : A) (q : List A)
      → Holding b (t ∷ q)
      → ((withdraw b).0 ≡ some t) × Holding (withdraw b).1 q
  unfolding withdraw
  withdraw-Holding {b} t q v = (
    v.held.0,
    record {
      storage = v.storage;
      head_in = omega arith;
      size = omega (arith, v.size);
      fits = omega arith;
      tail_at = omega (arith, v.size);
      held = v.held.1;
    },
  )

  rows_from-Holds :
      (b : TaskBuffer A) (i : ℕ) (q : List A)
      → Holds b.tasks max_tasks ((b.head + i) % max_tasks) q
      → rows_from b i (length q) ≡ map some q
  unfolding rows_from
  rows_from-Holds b i [] h = refl
  rows_from-Holds b i (t ∷ q) h =
      let rest =
        rows_from-Holds b (i + 1) q (subst (λ k. Holds b.tasks max_tasks k q) (omega arith) h.1) in
      cc (h.0, rest)

  -- `task_buffer_print` lists the tasks that the buffer holds, all of them, oldest first.
  pub task_buffer_print_lem :
      {b : TaskBuffer A} {q : List A} → Holding b q → task_buffer_print b ≡ map some q
  unfolding task_buffer_print
  task_buffer_print_lem {b} {q} v =
      ap (rows_from b 0) (sym v.size)
      ∙ rows_from-Holds b 0 q (subst (λ k. Holds b.tasks max_tasks k q) (omega arith) v.held)
