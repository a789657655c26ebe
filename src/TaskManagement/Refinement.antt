-- ===== src/TaskManagement/Refinement.antt =====
-- A valid ring of task_management.c behaves as the bounded FIFO queue of the items it holds.
use e19_4yp_voluntary_comput.Prelude.{
  ℕ, ◌+◌, ◌-◌, ◌%◌, ◌<◌, ◌≡◌, refl, sym, ap, ◌∙◌, inl, inr, none, some, List, [], ◌∷◌, ◌++◌, arith,
  ltb, Bool-cases, length, length-append, length-set,
}
use e19_4yp_voluntary_comput.Cyclic.{Holds, Holds-set, cycle_add, cycle_lt, cycle_step}
use e19_4yp_voluntary_comput.Fifo
use e19_4yp_voluntary_comput.Fifo.{Call, add, get}
use e19_4yp_voluntary_comput.TaskManagement.{
  Block, null, freed, live, cells, init_ring, cleanup_ring, Ring, done, failed, add_to_ring,
  get_from_ring, run_ring,
}
use e19_4yp_voluntary_comput.TaskManagement.Invariant.{
  init_ring-IsValid, IsValid, store_at-some, load_at-some,
}

module _ {ℓ} {A : Type ℓ} where
  -- The ring is valid and holds the items of the list, oldest first.
  pub record Represents (r : Ring A) (q : List A) : Type ℓ where
    pub valid : IsValid r
    pub size : length q ≡ r.count
    pub held : Holds (cells r.items) r.capacity r.tail q

  -- What `add` leaves when there is room: the old queue with the new item at its end.
  pub add_to_ring-room :
      {r : Ring A} {q : List A} (x : A)
      → Represents r q
      → r.count < r.capacity
      → (r' : Ring A) × (add_to_ring r x ≡ some (done, r'))
        × Represents r' (q ++ x ∷ [])
        × (r'.capacity ≡ r.capacity)
  unfolding add_to_ring
  add_to_ring-room {r} {q} x rep room =
      let inside : r.head < length (cells r.items) =
        omega (arith, cycle_lt r.capacity (r.tail + r.count) (omega arith)) in
      let (items', wrote, e) = store_at-some r.items r.head x inside in
      (
        record r { items = items'; head = (r.head + 1) % r.capacity; count = r.count + 1 },
        ground arith,
        record {
          valid = record {
            storage = omega (arith, ap length e, length-set (cells r.items) r.head x);
            tail_in = rep.valid.tail_in;
            count_in = omega arith;
            head_at =
                ap (λ k. (k + 1) % r.capacity) rep.valid.head_at
                ∙ cycle_add r.capacity (r.tail + r.count) 1
                ∙ ap (λ k. k % r.capacity) (omega arith);
          };
          size = omega (arith, length-append q (x ∷ []));
          held = rw e (
              Holds-set (cells r.items) r.capacity r.tail r.head x q (omega arith) rep.valid.tail_in
                (omega arith)
                (rep.valid.head_at ∙ ap (λ k. (r.tail + k) % r.capacity) (sym rep.size)) rep.held);
        },
        refl,
      )

  pub add_to_ring-full :
      {r : Ring A} {q : List A} (x : A)
      → Represents r q
      → r.count ≡ r.capacity
      → add_to_ring r x ≡ some (failed, r)
  unfolding add_to_ring
  add_to_ring-full x rep full = ground arith

  pub get_from_ring-empty :
      {r : Ring A} → Represents r [] → get_from_ring r ≡ some (failed, none, r)
  unfolding get_from_ring
  get_from_ring-empty rep = ground (arith, rep.size)

  pub get_from_ring-some :
      {r : Ring A} (x : A) (q : List A)
      → Represents r (x ∷ q)
      → (r' : Ring A) × (get_from_ring r ≡ some (done, some x, r'))
        × Represents r' q
        × (r'.capacity ≡ r.capacity)
  unfolding get_from_ring
  get_from_ring-some {r} x q rep =
      let (y, read, e) = load_at-some r.items r.tail (omega arith) in
      (
        record r { tail = (r.tail + 1) % r.capacity; count = r.count - 1 },
        ground (arith, rep.held),
        record {
          valid = record {
            storage = rep.valid.storage;
            tail_in = cycle_lt r.capacity (r.tail + 1) (omega arith);
            count_in = omega arith;
            head_at =
                rep.valid.head_at
                ∙ ap (λ k. (r.tail + k) % r.capacity) (sym rep.size)
                ∙ cycle_step r.capacity r.tail (length q)
                ∙ ap (λ k. ((r.tail + 1) % r.capacity + k) % r.capacity) (omega (arith, rep.size));
          };
          size = omega (arith, rep.size);
          held = rep.held.1;
        },
        refl,
      )

  -- From a ring that holds `q`, no sequence of calls faults, and each returns what the bounded queue
  -- returns.
  pub run_ring_refines :
      (calls : List (Call A)) {r : Ring A} (q : List A)
      → Represents r q
      → run_ring r calls ≡ some (Fifo.run r.capacity q calls)
  unfolding run_ring Fifo.run Fifo.enqueue Fifo.dequeue
  run_ring_refines [] q rep = refl
  run_ring_refines (add x ∷ calls) {r} q rep = elim (Bool-cases (ltb r.count r.capacity)) [
    | inl room ↦
        let (r', e, rep', same) = add_to_ring-room x rep (ground arith) in
        ground (arith, run_ring_refines calls (q ++ x ∷ []) rep', rep.size)
    | inr full ↦
        ground (
          arith,
          add_to_ring-full x rep,
          run_ring_refines calls q rep,
          rep.size,
          rep.valid.count_in,
        )
  ]
  run_ring_refines (get ∷ calls) [] rep =
      ground (arith, get_from_ring-empty rep, run_ring_refines calls [] rep)
  run_ring_refines (get ∷ calls) (x ∷ q) rep =
      let (r', e, rep', same) = get_from_ring-some x q rep in
      ground (arith, run_ring_refines calls q rep')

  -- A ring that `init` has just made holds nothing.
  init_ring-Represents :
      (r : Ring A) (xs : List A) (capacity : ℕ) {r' : Ring A}
      → length xs ≡ capacity
      → 0 < capacity
      → init_ring (some r) (some xs) capacity ≡ (done, some r')
      → Represents r' [] × (r'.capacity ≡ capacity)
  init_ring-Represents r xs capacity h pos e =
      let (valid, empty, same) = init_ring-IsValid r xs capacity h pos e in
      (record { valid = valid; size = sym empty; held = tt }, same)

  -- A block of the capacity's size is what `init` needs.
  pub init_ring-some :
      (r : Ring A) (xs : List A) (capacity : ℕ)
      → length xs ≡ capacity
      → 0 < capacity
      → (r' : Ring A) × (init_ring (some r) (some xs) capacity ≡ (done, some r')) × Represents r' []
  unfolding init_ring
  init_ring-some r xs capacity h pos =
      let r' : Ring A = record {
        items = live xs;
        capacity = capacity;
        head = 0;
        tail = 0;
        count = 0;
      } in
      (r', refl, (init_ring-Represents r xs capacity h pos refl).0)

  -- The array of a valid ring is allocated, and cleaning it up frees it.
  cleanup_items :
      (r : Ring A) (b : Block A)
      → r.items ≡ b
      → r.tail < length (cells b)
      → cleanup_ring (some r) ≡ some (some (record r { items = freed }))
  unfolding cleanup_ring
  cleanup_items r null e h = absurd (omega arith)
  cleanup_items r freed e h = absurd (omega arith)
  cleanup_items r (live xs) e h = rw e refl

  pub cleanup_ring-freed :
      {r : Ring A} {q : List A}
      → Represents r q
      → cleanup_ring (some r) ≡ some (some (record r { items = freed }))
  cleanup_ring-freed {r} {q} rep =
      cleanup_items r r.items refl (omega (arith, rep.valid.storage, rep.valid.tail_in))

  -- From initialisation with a positive capacity and a block of that size, whatever the block
  -- contains, no sequence of additions and removals touches memory out of range, and each call
  -- returns what a FIFO queue bounded by the capacity returns.
  pub init_ring-run :
      (r : Ring A) (xs : List A) (capacity : ℕ) (calls : List (Call A)) {r' : Ring A}
      → length xs ≡ capacity
      → 0 < capacity
      → init_ring (some r) (some xs) capacity ≡ (done, some r')
      → run_ring r' calls ≡ some (Fifo.run capacity [] calls)
  init_ring-run r xs capacity calls {r'} h pos e =
      let (rep, same) = init_ring-Represents r xs capacity h pos e in
      run_ring_refines calls [] rep ∙ ap (λ n. some (Fifo.run n [] calls)) same
