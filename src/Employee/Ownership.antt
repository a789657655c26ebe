-- ===== src/Employee/Ownership.antt =====
-- Who owns the data of a chunk in `worker_loop` of volcom_employee.c.
use e19_4yp_voluntary_comput.Prelude.{
  ℕ, ◌<◌, ◌≡◌, refl, ap, ◌∙◌, inl, inr, Bool, true, false, Option, none, some, List, [], ◌∷◌, ◌++◌,
  arith, ◌==◌, if◌then◌else◌, Bool-cases, codes, fit,
}
use e19_4yp_voluntary_comput.TaskManagement.Refinement.{
  Represents, add_to_ring-room, get_from_ring-some,
}
use e19_4yp_voluntary_comput.TaskManagement.Queues.{
  ReceivedTask, ResultInfo, TaskBuffer, add_task_to_buffer, get_task_from_buffer,
  add_result_to_queue,
}
use e19_4yp_voluntary_comput.Employee.Worker.{
  Worker, Answers, is_allocated, release, free_data, result_of, with_results, take_response,
  then_free, await_response, with_chunks, put_back_chunk, data_sent, send_data, process_chunk,
  worker_round,
}

release-is_allocated : (a : ℕ) (heap : List ℕ) → is_allocated a (release a heap) ≡ false
release-is_allocated a [] = refl
release-is_allocated a (b ∷ heap) = elim (Bool-cases (a == b)) [
  | inl same ↦ rw same (release-is_allocated a heap)
  | inr other ↦ rw other (rw other (release-is_allocated a heap))
]

-- A block that is not on the heap, put there and freed.
release-fresh : (b : ℕ) (heap : List ℕ) → is_allocated b heap ≡ false → release b heap ≡ heap
release-fresh b [] h = refl
release-fresh b (c ∷ heap) h = elim (Bool-cases (b == c)) [
  | inl same ↦ ground (arith, h, same)
  | inr other ↦ rw other (ap (c ∷◌) (release-fresh b heap (ground (arith, h, other))))
]

-- A round that takes the oldest chunk, which has data.
process_chunk-some :
    (e : Answers) (w : Worker) (t : ReceivedTask) (q : List ReceivedTask) (a : ℕ)
    → Represents w.data_chunk_buffer (t ∷ q)
    → t.payload ≡ some a
    → e.ready ≡ true
    → (buffer : TaskBuffer) × Represents buffer q
      × (buffer.capacity ≡ w.data_chunk_buffer.capacity)
      × (worker_round e w ≡ send_data e t (record w { data_chunk_buffer = buffer }) (some a))
unfolding worker_round process_chunk get_task_from_buffer
process_chunk-some e w t q a rep ha hr =
    let (buffer, taken, rep', same) = get_from_ring-some t q rep in
    (
      buffer,
      rep',
      same,
      ap (λ b. if b then process_chunk e w (get_task_from_buffer w.data_chunk_buffer) else some w)
            hr
          ∙ ap (process_chunk e w) taken
          ∙ ap (send_data e t (record w { data_chunk_buffer = buffer })) ha,
    )

send_data-allocated :
    (e : Answers) (t : ReceivedTask) (w : Worker) (a : ℕ) (sends : Bool)
    → is_allocated a w.heap ≡ true
    → e.sends ≡ some sends
    → send_data e t w (some a) ≡ data_sent e t w (some sends)
unfolding send_data
send_data-allocated e t w a sends h hs =
    ap (λ b. if b then data_sent e t w e.sends else none) h ∙ ap (data_sent e t w) hs

pub free_data-allocated :
    (block : Option ℕ) (a : ℕ) (w : Worker)
    → block ≡ some a
    → is_allocated a w.heap ≡ true
    → free_data block w ≡ some (record w { heap = release a w.heap })
unfolding free_data
free_data-allocated block a w hb h =
    ap (λ o. free_data o w) hb
    ∙ ap (λ b. if b then some (record w { heap = release a w.heap }) else none) h

freed_chunk :
    (e : Answers) (t : ReceivedTask) (w : Worker) (a : ℕ)
    → is_allocated a w.heap ≡ false
    → send_data e t w (some a) ≡ none
unfolding send_data
freed_chunk e t w a h = ap (λ b. if b then data_sent e t w e.sends else none) h

-- A buffer with one chunk, whose data is allocated, and has a NUL, where sending to the script fails: the round puts
-- the chunk back and frees its data, so that the next round with the script reads freed memory.
pub worker_round-put_back :
    (e e' : Answers) (w : Worker) (t : ReceivedTask) (a : ℕ)
    → Represents w.data_chunk_buffer (t ∷ [])
    → t.payload ≡ some a
    → is_allocated a w.heap ≡ true
    → e.ready ≡ true
    → e.sends ≡ some false
    → e'.ready ≡ true
    → (w' : Worker) × (worker_round e w ≡ some w')
      × Represents w'.data_chunk_buffer (t ∷ [])
      × (worker_round e' w' ≡ none)
unfolding data_sent put_back_chunk then_free add_task_to_buffer
worker_round-put_back e e' w t a rep ha h hr hs hr' =
    let (buffer, empty, same, taken) = process_chunk-some e w t [] a rep ha hr in
    let room : buffer.count < buffer.capacity =
      omega (arith, empty.size, same, rep.valid.tail_in) in
    let (buffer', added, rep', same') = add_to_ring-room t empty room in
    let popped : Worker = record w { data_chunk_buffer = buffer } in
    let kept : Worker = record w { data_chunk_buffer = buffer' } in
    let w' : Worker = record kept { heap = release a w.heap } in
    let (buffer'', rep'', same'', again) = process_chunk-some e' w' t [] a rep' ha hr' in
    (
      w',
      taken
          ∙ send_data-allocated e t popped a false h hs
          ∙ ap (λ o. then_free t.payload (with_chunks popped o)) added
          ∙ free_data-allocated t.payload a kept ha h,
      rep',
      again
          ∙ freed_chunk e' t (record w' { data_chunk_buffer = buffer'' }) a
              (release-is_allocated a w.heap),
    )

pub first_allocated : (b : ℕ) (heap : List ℕ) → is_allocated b (b ∷ heap) ≡ true
first_allocated b heap = ground arith

response_freed :
    (b : ℕ) (w : Worker) (heap : List ℕ)
    → w.heap ≡ b ∷ heap
    → is_allocated b heap ≡ false
    → then_free (some b) (some w) ≡ some (record w { heap = heap })
unfolding then_free
response_freed b w heap hw h =
    let itself : (b == b) ≡ true = ground arith in
    free_data-allocated (some b) b w refl (ap (is_allocated b) hw ∙ first_allocated b heap)
    ∙ ap (λ k. some (record w { heap = k }))
        (ap (release b) hw ∙ rw itself (release-fresh b heap h))

-- A chunk with data that has a NUL and is sent, and whose answer has a status and can be saved, where the queue of
-- results has room and the response gets a block of its own: the round takes the chunk from the
-- buffer, puts at the end of the queue a result with the chunk's task id, the file
-- /tmp/node_result_<id>.json and the chunk's sender, each cut to its array, and frees the chunk's data and the response, and
-- nothing else.
pub worker_round-result_of :
    (e : Answers) (w : Worker) (t : ReceivedTask) (q : List ReceivedTask) (r : List ResultInfo)
    (a b : ℕ)
    → Represents w.data_chunk_buffer (t ∷ q)
    → Represents w.result_queue r
    → w.result_queue.count < w.result_queue.capacity
    → t.payload ≡ some a
    → is_allocated a w.heap ≡ true
    → is_allocated b w.heap ≡ false
    → e ≡ record {
      ready = true;
      sends = some true;
      response_block = some b;
      responds = true;
      has_status = true;
      creates_file = true;
    }
    → (w' : Worker) × (worker_round e w ≡ some w')
      × Represents w'.data_chunk_buffer q
      × Represents w'.result_queue (
          r
          ++ record {
            task_id = fit 256 t.task_id;
            result_filepath =
                fit 256 (fit 512 (codes "/tmp/node_result_" ++ (t.task_id ++ codes ".json")));
            employer_ip = fit 16 t.sender_id;
          }
            ∷ [])
      × (w'.heap ≡ release a w.heap)
unfolding data_sent await_response take_response then_free free_data add_result_to_queue
worker_round-result_of e w t q r a b rep results room ha h hb he =
    let (buffer, rep', same, taken) = process_chunk-some e w t q a rep ha (ap (λ e. e.ready) he) in
    let (queue, added, results', same') = add_to_ring-room (result_of t) results room in
    let popped : Worker = record w { data_chunk_buffer = buffer } in
    let answered : Worker = record popped { result_queue = queue; heap = b ∷ w.heap } in
    let back : Worker = record answered { heap = w.heap } in
    (
      record back { heap = release a w.heap },
      taken
          ∙ send_data-allocated e t popped a true h (ap (λ e. e.sends) he)
          ∙ ap (λ e. await_response e t popped e.response_block) he
          ∙ ap
              (λ o.
                then_free t.payload
                  (then_free (some b) (with_results (record popped { heap = b ∷ w.heap }) o)))
              added
          ∙ ap (then_free t.payload) (response_freed b answered w.heap refl hb)
          ∙ free_data-allocated t.payload a back ha h,
      rep',
      results',
      refl,
    )
