-- ===== src/Uscheduler.antt =====
-- src/uspacehelper/volcom_uscheduler/volcom_uscheduler.c: the bounded task buffer that threads
-- share through a mutex and two condition variables (a monitor).
-- A thread runs between taking and giving up the mutex as one atomic step, so the program is a
-- relation on the monitor's state. A thread blocked in `pthread_cond_wait` becomes awake by a
-- signal (any one waiter) or spuriously, and then tests its loop condition again. Items are only
-- copied, so they have any type.
pub mod Invariant
pub mod Threads
mod Tests
use e19_4yp_voluntary_comput.Prelude.{
  ℕ, zero, suc, ◌+◌, ◌-◌, ◌%◌, ◌≡◌, ◌≢◌, List, [], ◌∷◌, ◌++◌, Option, none, some, get_elem?, set,
}

-- `MAX_TASKS`
abbrev pub max_tasks : ℕ
max_tasks = 8

-- `struct task_buffer`, less the mutex and the condition variables.
pub record TaskBuffer {ℓ} (A : Type ℓ) : Type ℓ where
  pub tasks : List A
  pub head : ℕ
  pub tail : ℕ
  pub count : ℕ

module _ {ℓ} {A : Type ℓ} where
  pub task_buffer_init : TaskBuffer A → TaskBuffer A
  task_buffer_init b = record b { head = 0; tail = 0; count = 0 }

  -- The writes of `task_buffer_enqueue`, once its loop has left.
  pub deposit : TaskBuffer A → A → TaskBuffer A
  deposit b t = record b {
    tasks = set b.tasks b.tail t;
    tail = (b.tail + 1) % max_tasks;
    count = b.count + 1;
  }

  -- The read and the writes of `task_buffer_dequeue`, once its loop has left.
  pub withdraw : TaskBuffer A → Option A × TaskBuffer A
  withdraw b =
      (get_elem? b.tasks b.head, record b { head = (b.head + 1) % max_tasks; count = b.count - 1 })

  -- The items that `task_buffer_print` lists, from its `i`-th round on.
  pub rows_from : TaskBuffer A → ℕ → ℕ → List (Option A)
  rows_from b i zero = []
  rows_from b i (suc n) = get_elem? b.tasks ((b.head + i) % max_tasks) ∷ rows_from b (i + 1) n

  pub task_buffer_print : TaskBuffer A → List (Option A)
  unfolding rows_from
  task_buffer_print b = rows_from b 0 b.count

  pub task_buffer_size : TaskBuffer A → ℕ
  task_buffer_size b = b.count

-- The buffer and the threads that are inside a call. Waiting producers carry the task that they
-- want to add. `added` and `taken` record what completed calls added and took, in order.
pub record Monitor {ℓ} (A : Type ℓ) : Type ℓ where
  pub buffer : TaskBuffer A
  pub blocked_producers : List A
  pub woken_producers : List A
  pub blocked_consumers : ℕ
  pub woken_consumers : ℕ
  pub added : List A
  pub taken : List A

-- One of the blocked consumers, if there is one, becomes awake.
abbrev pub wake_consumer : ℕ → ℕ → ℕ × ℕ
wake_consumer zero woken = (zero, woken)
wake_consumer (suc blocked) woken = (blocked, suc woken)

module _ {ℓ} {A : Type ℓ} where
  -- `pthread_cond_signal(&buf->not_empty)`: wakes a blocked consumer if there is one.
  pub signal_not_empty : Monitor A → Monitor A
  signal_not_empty m =
      let (blocked, woken) = wake_consumer m.blocked_consumers m.woken_consumers in
      record m { blocked_consumers = blocked; woken_consumers = woken }

  -- `pthread_cond_signal(&buf->not_full)`: any one of the blocked producers wakes.
  pub data SignalNotFull (m n : Monitor A) : Type ℓ where
    nobody : m.blocked_producers ≡ [] → n ≡ m → SignalNotFull m n
    wakes :
        (t : A) (xs ys : List A)
        → m.blocked_producers ≡ xs ++ t ∷ ys
        → n ≡ record m { blocked_producers = xs ++ ys; woken_producers = t ∷ m.woken_producers }
        → SignalNotFull m n

  -- The rest of `task_buffer_enqueue` when the buffer is not full.
  pub finish_enqueue : Monitor A → A → Monitor A
  unfolding deposit signal_not_empty
  finish_enqueue m t =
      signal_not_empty (record m { buffer = deposit m.buffer t; added = m.added ++ t ∷ [] })

  -- The rest of `task_buffer_dequeue` when the buffer is not empty, up to the signal.
  pub finish_dequeue : Monitor A → A → Monitor A
  unfolding withdraw
  finish_dequeue m t = record m { buffer = (withdraw m.buffer).1; taken = m.taken ++ t ∷ [] }

  -- One thread runs from the mutex to the next wait or to its return, or wakes.
  pub data Step (m n : Monitor A) : Type ℓ where
    enqueue : (t : A) → m.buffer.count ≢ max_tasks → n ≡ finish_enqueue m t → Step m n
    enqueue_waits :
        (t : A)
        → m.buffer.count ≡ max_tasks
        → n ≡ record m { blocked_producers = t ∷ m.blocked_producers }
        → Step m n
    enqueue_resumes :
        (t : A) (xs ys : List A)
        → m.woken_producers ≡ xs ++ t ∷ ys
        → m.buffer.count ≢ max_tasks
        → n ≡ finish_enqueue (record m { woken_producers = xs ++ ys }) t
        → Step m n
    enqueue_waits_again :
        (t : A) (xs ys : List A)
        → m.woken_producers ≡ xs ++ t ∷ ys
        → m.buffer.count ≡ max_tasks
        → n ≡ record m { woken_producers = xs ++ ys; blocked_producers = t ∷ m.blocked_producers }
        → Step m n
    dequeue :
        (t : A)
        → m.buffer.count ≢ 0
        → (withdraw m.buffer).0 ≡ some t
        → SignalNotFull (finish_dequeue m t) n
        → Step m n
    dequeue_waits :
        m.buffer.count ≡ 0 → n ≡ record m { blocked_consumers = suc m.blocked_consumers } → Step m n
    dequeue_resumes :
        (t : A) (woken : ℕ)
        → m.woken_consumers ≡ suc woken
        → m.buffer.count ≢ 0
        → (withdraw m.buffer).0 ≡ some t
        → SignalNotFull (finish_dequeue (record m { woken_consumers = woken }) t) n
        → Step m n
    dequeue_waits_again :
        (woken : ℕ)
        → m.woken_consumers ≡ suc woken
        → m.buffer.count ≡ 0
        → n ≡ record m { woken_consumers = woken; blocked_consumers = suc m.blocked_consumers }
        → Step m n
    spurious_producer :
        (t : A) (xs ys : List A)
        → m.blocked_producers ≡ xs ++ t ∷ ys
        → n ≡ record m { blocked_producers = xs ++ ys; woken_producers = t ∷ m.woken_producers }
        → Step m n
    spurious_consumer :
        (blocked : ℕ)
        → m.blocked_consumers ≡ suc blocked
        → n ≡ record m { blocked_consumers = blocked; woken_consumers = suc m.woken_consumers }
        → Step m n

  -- Before any call: an initialised buffer, and no thread inside.
  pub start : TaskBuffer A → Monitor A
  unfolding task_buffer_init
  start b = record {
    buffer = task_buffer_init b;
    blocked_producers = [];
    woken_producers = [];
    blocked_consumers = 0;
    woken_consumers = 0;
    added = [];
    taken = [];
  }

  pub data Reach (m : Monitor A) : Monitor A → Type ℓ where
    here : Reach m m
    next : {n o : Monitor A} → Reach m n → Step n o → Reach m o
