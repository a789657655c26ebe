-- ===== src/Uscheduler/Tests.antt =====
-- A run of two threads on the shared buffer, and the theorems at it.
use e19_4yp_voluntary_comput.Prelude.{
  ℕ, List, length, ◌≡◌, ◌≤◌, ◌⊎◌, [], ◌∷◌, refl, replicate, arith,
}
use e19_4yp_voluntary_comput.Uscheduler.{
  TaskBuffer, Monitor, max_tasks, task_buffer_init, deposit, withdraw, signal_not_empty,
  finish_enqueue, finish_dequeue, Reach, here, next, start, enqueue, dequeue_waits, dequeue_resumes,
  nobody,
}
use e19_4yp_voluntary_comput.Uscheduler.Threads.{
  ProducersServed, ConsumersServed, tasks_in_order, no_lost_wakeup, no_mutual_sleep,
}
use e19_4yp_voluntary_comput.Uscheduler.Invariant.{Holding}

abbrev unset : TaskBuffer ℕ
unset = record { tasks = replicate 8 0; head = 5; tail = 2; count = 1 }

-- A consumer finds the buffer empty and waits.
abbrev sleeping : Monitor ℕ
sleeping = record {
  buffer = record { tasks = replicate 8 0; head = 0; tail = 0; count = 0 };
  blocked_producers = [];
  woken_producers = [];
  blocked_consumers = 1;
  woken_consumers = 0;
  added = [];
  taken = [];
}

-- A producer then adds task 7, which wakes it.
abbrev woken : Monitor ℕ
woken = record {
  buffer = record { tasks = 7 ∷ replicate 7 0; head = 0; tail = 1; count = 1 };
  blocked_producers = [];
  woken_producers = [];
  blocked_consumers = 0;
  woken_consumers = 1;
  added = 7 ∷ [];
  taken = [];
}

-- It takes the task.
abbrev served : Monitor ℕ
served = record {
  buffer = record { tasks = 7 ∷ replicate 7 0; head = 1; tail = 1; count = 0 };
  blocked_producers = [];
  woken_producers = [];
  blocked_consumers = 0;
  woken_consumers = 0;
  added = 7 ∷ [];
  taken = 7 ∷ [];
}

Reach-woken : Reach (start unset) woken
unfolding start task_buffer_init finish_enqueue deposit signal_not_empty
Reach-woken =
    next {n = sleeping} (next here (dequeue_waits refl refl)) (enqueue 7 (omega arith) refl)

Reach-served : Reach (start unset) served
unfolding finish_dequeue withdraw
Reach-served =
    next {n = woken} Reach-woken (dequeue_resumes 7 0 refl (omega arith) refl (nobody refl refl))

tasks_in_order_example :
    (q : List ℕ) × (7 ∷ [] ≡ q) × Holding woken.buffer q × (length q ≤ max_tasks)
tasks_in_order_example = tasks_in_order unset woken refl Reach-woken

no_lost_wakeup_example : ProducersServed woken × ConsumersServed woken
no_lost_wakeup_example = no_lost_wakeup unset woken refl Reach-woken

no_mutual_sleep_example : (length served.blocked_producers ≡ 0) ⊎ (served.blocked_consumers ≡ 0)
no_mutual_sleep_example = no_mutual_sleep unset served refl Reach-served refl refl
