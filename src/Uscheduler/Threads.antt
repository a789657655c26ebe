-- ===== src/Uscheduler/Threads.antt =====
-- All interleavings of threads that add and take: nothing is lost or reordered, the bound holds,
-- and no wake-up is lost.
use e19_4yp_voluntary_comput.Prelude.{
  subst, ℕ, zero, suc, ◌+◌, ◌≤◌, ◌≡◌, ◌≢◌, refl, ap, ◌∙◌, sym, ◌⊎◌, inl, List, [], ◌∷◌, ◌++◌, some,
  arith, length, length-append, append_assoc,
}
use e19_4yp_voluntary_comput.Uscheduler.{
  TaskBuffer, Monitor, max_tasks, deposit, withdraw, signal_not_empty, wake_consumer, SignalNotFull,
  nobody, wakes, finish_enqueue, finish_dequeue, Step, Reach, here, next, start, enqueue,
  enqueue_waits, enqueue_resumes, enqueue_waits_again, dequeue, dequeue_waits, dequeue_resumes,
  dequeue_waits_again, spurious_producer, spurious_consumer,
}
use e19_4yp_voluntary_comput.Uscheduler.Invariant.{
  Holding, init-Holding, deposit-Holding, withdraw-Holding,
}

consumers_signalled :
    (blocked woken n : ℕ)
    → (blocked ≡ 0) ⊎ (n ≤ woken)
    → ((wake_consumer blocked woken).0 ≡ 0) ⊎ (n + 1 ≤ (wake_consumer blocked woken).1)
consumers_signalled zero woken n h = inl refl
consumers_signalled (suc blocked) woken n h = omega arith

module _ {ℓ} {A : Type ℓ} where
  -- Free cells are matched by producers that are awake, unless no producer is blocked.
  abbrev pub ProducersServed : Monitor A → Type 0
  ProducersServed m =
      (length m.blocked_producers ≡ 0) ⊎ (max_tasks ≤ m.buffer.count + length m.woken_producers)

  -- Tasks are matched by consumers that are awake, unless no consumer is blocked.
  abbrev pub ConsumersServed : Monitor A → Type 0
  ConsumersServed m = (m.blocked_consumers ≡ 0) ⊎ (m.buffer.count ≤ m.woken_consumers)

  pub record Inv (m : Monitor A) (q : List A) : Type ℓ where
    pub holding : Holding m.buffer q
    pub history : m.added ≡ m.taken ++ q
    pub producers : ProducersServed m
    pub consumers : ConsumersServed m

  start-Inv : (b : TaskBuffer A) → length b.tasks ≡ max_tasks → Inv (start b) []
  unfolding start
  start-Inv b h = record {
    holding = init-Holding b h;
    history = refl;
    producers = inl refl;
    consumers = inl refl;
  }

  length-remove : (xs ys : List A) (t : A) → length (xs ++ t ∷ ys) ≡ suc (length (xs ++ ys))
  length-remove xs ys t = omega (arith, length-append xs (t ∷ ys), length-append xs ys)

  finish_enqueue-Inv :
      (m : Monitor A) (t : A) (q : List A)
      → Holding m.buffer q
      → m.added ≡ m.taken ++ q
      → m.buffer.count ≢ max_tasks
      → (length m.blocked_producers ≡ 0)
        ⊎ (max_tasks ≤ m.buffer.count + 1 + length m.woken_producers)
      → ConsumersServed m
      → Inv (finish_enqueue m t) (q ++ t ∷ [])
  unfolding finish_enqueue signal_not_empty
  finish_enqueue-Inv m t q v e room ps cs = record {
    holding = deposit-Holding t v (omega (arith, v.fits));
    history = ap (λ xs. xs ++ t ∷ []) e ∙ append_assoc m.taken q (t ∷ []);
    producers = unfold deposit in ps;
    consumers =
        unfold deposit in
        consumers_signalled m.blocked_consumers m.woken_consumers m.buffer.count cs;
  }

  finish_dequeue-Inv :
      (m n : Monitor A) (t : A) (q : List A)
      → Holding m.buffer (t ∷ q)
      → m.added ≡ m.taken ++ t ∷ q
      → ProducersServed m
      → (m.blocked_consumers ≡ 0) ⊎ (m.buffer.count ≤ m.woken_consumers + 1)
      → SignalNotFull (finish_dequeue m t) n
      → Inv n q
  unfolding finish_dequeue withdraw
  finish_dequeue-Inv m n t q v e ps cs (nobody none_blocked same) = rw same (record {
    holding = (withdraw-Holding t q v).1;
    history = e ∙ sym (append_assoc m.taken (t ∷ []) q);
    producers = inl (ap length none_blocked);
    consumers = omega arith;
  })
  finish_dequeue-Inv m n t q v e ps cs (wakes w xs ys waiting same) = rw same (record {
    holding = (withdraw-Holding t q v).1;
    history = e ∙ sym (append_assoc m.taken (t ∷ []) q);
    producers = omega (arith, ap length waiting, length-remove xs ys w, v.size);
    consumers = omega arith;
  })

  held_first :
      {b : TaskBuffer A} {q : List A} (t : A)
      → Holding b q
      → b.count ≢ 0
      → (withdraw b).0 ≡ some t
      → (rest : List A) × (q ≡ t ∷ rest)
  unfolding withdraw
  held_first {q = []} t v busy e = absurd (omega (arith, v.size))
  held_first {q = x ∷ q} t v busy e = (q, ground (arith, v.held))

  -- Every step keeps the invariant, for the queue as the step leaves it.
  pub Step-Inv : {m n : Monitor A} {q : List A} → Step m n → Inv m q → (q' : List A) × Inv n q'
  Step-Inv {m} {q = q} (enqueue t room e) v = (
    q ++ t ∷ [],
    rw e (
        finish_enqueue-Inv m t q v.holding v.history room (omega (arith, v.producers)) v.consumers),
  )
  Step-Inv {m} {q = q} (enqueue_waits t full e) v = (
    q,
    rw e (record {
      holding = v.holding;
      history = v.history;
      producers = omega arith;
      consumers = v.consumers;
    }),
  )
  Step-Inv {m} {q = q} (enqueue_resumes t xs ys w room e) v = (
    q ++ t ∷ [],
    rw e (
        finish_enqueue-Inv (record m { woken_producers = xs ++ ys }) t q v.holding v.history room
          (omega (arith, v.producers, ap length w, length-remove xs ys t)) v.consumers),
  )
  Step-Inv {m} {q = q} (enqueue_waits_again t xs ys w full e) v = (
    q,
    rw e (record {
      holding = v.holding;
      history = v.history;
      producers = omega arith;
      consumers = v.consumers;
    }),
  )
  Step-Inv {m} {n} {q} (dequeue t busy read s) v =
      let (rest, e) = held_first t v.holding busy read in
      (
        rest,
        finish_dequeue-Inv m n t rest (subst (Holding m.buffer) e v.holding)
            (v.history ∙ ap (◌++◌ m.taken) e) v.producers (omega (arith, v.consumers)) s,
      )
  Step-Inv {m} {q = q} (dequeue_waits none_held e) v = (
    q,
    rw e (record {
      holding = v.holding;
      history = v.history;
      producers = v.producers;
      consumers = omega arith;
    }),
  )
  Step-Inv {m} {n} {q} (dequeue_resumes t woken w busy read s) v =
      let (rest, e) = held_first t v.holding busy read in
      (
        rest,
        finish_dequeue-Inv (record m { woken_consumers = woken }) n t rest
            (subst (Holding m.buffer) e v.holding) (v.history ∙ ap (◌++◌ m.taken) e) v.producers
            (omega (arith, v.consumers)) s,
      )
  Step-Inv {m} {q = q} (dequeue_waits_again woken w none_held e) v = (
    q,
    rw e (record {
      holding = v.holding;
      history = v.history;
      producers = v.producers;
      consumers = omega arith;
    }),
  )
  Step-Inv {m} {q = q} (spurious_producer t xs ys w e) v = (
    q,
    rw e (record {
      holding = v.holding;
      history = v.history;
      producers = omega (arith, v.producers, ap length w, length-remove xs ys t);
      consumers = v.consumers;
    }),
  )
  Step-Inv {m} {q = q} (spurious_consumer blocked w e) v = (
    q,
    rw e (record {
      holding = v.holding;
      history = v.history;
      producers = v.producers;
      consumers = omega (arith, v.consumers);
    }),
  )

  Reach-Inv : {m n : Monitor A} {q : List A} → Inv m q → Reach m n → (q' : List A) × Inv n q'
  Reach-Inv {q = q} v here = (q, v)
  Reach-Inv v (next r s) = let (q', v') = Reach-Inv v r in Step-Inv s v'

  -- However the calls of any number of threads interleave, and however waiting threads wake: the
  -- buffer never holds more than 8 tasks, and the tasks added, in order, are those taken, in order,
  -- followed by those that the buffer holds.
  pub tasks_in_order :
      (b : TaskBuffer A) (m : Monitor A)
      → length b.tasks ≡ max_tasks
      → Reach (start b) m
      → (q : List A) × (m.added ≡ m.taken ++ q) × Holding m.buffer q × (length q ≤ max_tasks)
  tasks_in_order b m h r =
      let (q, v) = Reach-Inv (start-Inv b h) r in
      (q, v.history, v.holding, omega (arith, v.holding.size, v.holding.fits))

  -- No wake-up is lost: a producer is blocked only while the buffer is full or enough awake
  -- producers remain to fill it, and a consumer only while the buffer is empty or enough awake
  -- consumers remain to empty it.
  pub no_lost_wakeup :
      (b : TaskBuffer A) (m : Monitor A)
      → length b.tasks ≡ max_tasks
      → Reach (start b) m
      → ProducersServed m × ConsumersServed m
  no_lost_wakeup b m h r = let (q, v) = Reach-Inv (start-Inv b h) r in (v.producers, v.consumers)

  -- Producers and consumers are never asleep together: where no thread is awake inside a call,
  -- either no producer is blocked or no consumer is.
  pub no_mutual_sleep :
      (b : TaskBuffer A) (m : Monitor A)
      → length b.tasks ≡ max_tasks
      → Reach (start b) m
      → length m.woken_producers ≡ 0
      → m.woken_consumers ≡ 0
      → (length m.blocked_producers ≡ 0) ⊎ (m.blocked_consumers ≡ 0)
  no_mutual_sleep b m h r wp wc = omega (arith, no_lost_wakeup b m h r)
