-- ===== src/Employee/Connection/Messages.antt =====
-- A message on the employee's connection is handled without a fault, and leaves the results.
use e19_4yp_voluntary_comput.Prelude.{
  ℕ, ◌+◌, ◌<◌, ◌≡◌, refl, ap, ◌∙◌, ◌⊎◌, inl, inr, Bool, true, false, Option, none, some, List, [],
  ◌∷◌, ◌++◌, arith, ltb, if◌then◌else◌, ltb→lt, Bool-cases, length, CString, codes, str_eq,
}
use e19_4yp_voluntary_comput.TaskManagement.{Ring}
use e19_4yp_voluntary_comput.TaskManagement.Refinement.{
  Represents, add_to_ring-room, add_to_ring-full,
}
use e19_4yp_voluntary_comput.TaskManagement.Queues.{ReceivedTask, ResultInfo, add_task_to_buffer}
use e19_4yp_voluntary_comput.Protocol.{ok, err, conn_closed}
use e19_4yp_voluntary_comput.Employee.Worker.{Answers, worker_round, Worker, release, free_data}
use e19_4yp_voluntary_comput.Employee.Ownership.{first_allocated, free_data-allocated}
use e19_4yp_voluntary_comput.Employee.Connection.{
  accepted, Session, Activity, select_failed, idle, idle_after, arguments_fit, readable, Next,
  carry_on, leave, with_worker, buffer_added, with_data, handle_message, handle_activity,
}

-- The buffers hold these chunks and results, and `n` results are sent or wait.
pub record Holding (s : Session) (n : ℕ) : Type 0 where
  pub chunks : List ReceivedTask
  pub results : List ResultInfo
  pub holds_chunks : Represents s.shared.data_chunk_buffer chunks
  pub holds_results : Represents s.shared.result_queue results
  pub balance : length results + s.tasks_completed ≡ n

-- How a part of a round ends: without a fault, and with the same number of results sent or waiting.
abbrev pub Ends : ℕ → Next → Type 0
Ends n r = (goes_on : Bool) × (s : Session) × (r ≡ some (goes_on, s)) × Holding s n

pub ends : (b : Bool) (s : Session) (n : ℕ) → Holding s n → Ends n (some (b, s))
ends b s n h = (b, s, refl, h)

-- Room, or none.
room_or_full :
    {A : Type 0} (r : Ring A) (q : List A)
    → Represents r q
    → (r.count < r.capacity) ⊎ (r.count ≡ r.capacity)
room_or_full r q rep = elim (Bool-cases (ltb r.count r.capacity)) [
  | inl room ↦ inl (ltb→lt r.count r.capacity room)
  | inr full ↦ inr (ground (arith, full, rep.valid.count_in))
]

-- The chunk's data can be freed.
free_with_data :
    (block : Option ℕ) (w : Worker)
    → (heap : List ℕ) × (free_data block (with_data block w) ≡ some (record w { heap = heap }))
unfolding free_data
free_with_data none w = (w.heap, refl)
free_with_data (some a) w = (
  release a (a ∷ w.heap),
  free_data-allocated (some a) a (record w { heap = a ∷ w.heap }) refl (first_allocated a w.heap),
)

-- A chunk is put into the buffer, or its data is freed.
buffer_added-Ends :
    (block : Option ℕ) (t : ReceivedTask) (w : Worker) (s : Session) (n : ℕ)
    (chunks : List ReceivedTask) (results : List ResultInfo)
    → Represents w.data_chunk_buffer chunks
    → Represents w.result_queue results
    → length results + s.tasks_completed ≡ n
    → (heap : List ℕ) × (free_data block w ≡ some (record w { heap = heap }))
    → Ends n (with_worker s (buffer_added block w (add_task_to_buffer w.data_chunk_buffer t)))
unfolding buffer_added add_task_to_buffer
buffer_added-Ends block t w s n chunks results hc hr hn (heap, freed) =
    elim (room_or_full w.data_chunk_buffer chunks hc) [
      | inl room ↦
          let (buffer, added, hc', same) = add_to_ring-room t hc room in
          (
            true,
            record s { shared = record w { data_chunk_buffer = buffer } },
            ap (λ r. with_worker s (buffer_added block w r)) added,
            record {
              chunks = chunks ++ t ∷ [];
              results = results;
              holds_chunks = hc';
              holds_results = hr;
              balance = hn;
            },
          )
      | inr full ↦ (
        true,
        record s { shared = record w { heap = heap } },
        ap (λ r. with_worker s (buffer_added block w r)) (add_to_ring-full t hc full)
            ∙ ap (with_worker s) freed,
        record {
          chunks = chunks;
          results = results;
          holds_chunks = hc;
          holds_results = hr;
          balance = hn;
        },
      )
    ]

chunk-Ends :
    (block : Option ℕ) (t : ReceivedTask) (s : Session) (n : ℕ)
    → Holding s n
    → let w = with_data block s.shared in
      Ends n (with_worker s (buffer_added block w (add_task_to_buffer w.data_chunk_buffer t)))
chunk-Ends none t s n h =
    buffer_added-Ends none t s.shared s n h.chunks h.results h.holds_chunks h.holds_results
      h.balance (free_with_data none s.shared)
chunk-Ends (some a) t s n h =
    buffer_added-Ends (some a) t (with_data (some a) s.shared) s n h.chunks h.results h.holds_chunks
      h.holds_results h.balance (free_with_data (some a) s.shared)

configuration-Holding :
    (block : Option ℕ) (ts : List ReceivedTask) (s : Session) (n : ℕ)
    → Holding s n
    → Holding (record s { shared = with_data block s.shared; configurations = ts }) n
configuration-Holding none ts s n h = record {
  chunks = h.chunks;
  results = h.results;
  holds_chunks = h.holds_chunks;
  holds_results = h.holds_results;
  balance = h.balance;
}
configuration-Holding (some a) ts s n h = record {
  chunks = h.chunks;
  results = h.results;
  holds_chunks = h.holds_chunks;
  holds_results = h.holds_results;
  balance = h.balance;
}

pub either : (n : ℕ) (b : Bool) (x y : Next) → Ends n x → Ends n y → Ends n (if b then x else y)
either n true x y hx hy = hx
either n false x y hx hy = hy

-- A configuration whose id fits the arguments of the thread, for which there is memory, or a message
-- without one.
abbrev pub SafeMessage : CString → Bool → Option ReceivedTask → Type 0
SafeMessage type allocates none = Unit
SafeMessage type allocates (some t) =
    (str_eq type (codes "initial_config") ≡ false) ⊎ ((allocates ≡ true) × (length t.task_id < 128))

-- What is met: messages as above, and rounds of the worker without a script.
abbrev pub Safe : Activity → Type 0
Safe select_failed = Unit
Safe idle = Unit
Safe (idle_after e) = e.ready ≡ false
Safe (readable ok (some type) r allocates) = SafeMessage type allocates (accepted r.result r.task)
Safe (readable ok none r allocates) = Unit
Safe (readable err type r allocates) = Unit
Safe (readable conn_closed type r allocates) = Unit

when : (n : ℕ) (b : Bool) (x : Next) → b ≡ true → Ends n x → Ends n (if b then x else none)
when n true x e h = h
when n false x e h = absurd (ground arith)

pub worker_waits :
    (e : Answers) (s : Session)
    → e.ready ≡ false
    → with_worker s (worker_round e s.shared) ≡ carry_on s
unfolding worker_round
worker_waits e s h = rw h refl

handle_message-Ends :
    (type : CString) (allocates : Bool) (task : Option ReceivedTask) (s : Session) (n : ℕ)
    → SafeMessage type allocates task
    → Holding s n
    → Ends n (handle_message type allocates task s)
unfolding handle_message
handle_message-Ends type allocates none s n safe h =
    either n (str_eq type (codes "data_chunk")) (leave s) (carry_on s) (ends false s n h)
      (ends true s n h)
handle_message-Ends type allocates (some t) s n (inr (memory, short)) h =
    either n (str_eq type (codes "initial_config")) _ _
      (when n (arguments_fit allocates t) _ (ground (arith, memory, short))
        (ends true _ n (configuration-Holding t.payload (s.configurations ++ t ∷ []) s n h)))
      (either n (str_eq type (codes "data_chunk")) _ _ (chunk-Ends t.payload t s n h)
        (ends true s n h))
handle_message-Ends type allocates (some t) s n (inl other) h = rw other (
    either n (str_eq type (codes "data_chunk")) _ _ (chunk-Ends t.payload t s n h)
      (ends true s n h))

pub handle_activity-Ends :
    (activity : Activity) (s : Session) (n : ℕ)
    → Safe activity
    → Holding s n
    → Ends n (handle_activity activity s)
unfolding handle_activity
handle_activity-Ends select_failed s n safe h = ends false s n h
handle_activity-Ends idle s n safe h = ends true s n h
handle_activity-Ends (idle_after e) s n safe h = (true, s, worker_waits e s safe, h)
handle_activity-Ends (readable ok (some type) r allocates) s n safe h =
    handle_message-Ends type allocates (accepted r.result r.task) s n safe h
handle_activity-Ends (readable ok none r allocates) s n safe h = ends false s n h
handle_activity-Ends (readable err type r allocates) s n safe h = ends false s n h
handle_activity-Ends (readable conn_closed type r allocates) s n safe h = ends false s n h
