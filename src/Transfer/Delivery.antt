-- ===== src/Transfer/Delivery.antt =====
-- A task that `send_file_to_employee` of volcom_employer.c reports as sent is received whole by
-- `receive_task_from_employer` of volcom_employee.c, and a result of the employee by the employer.
use e19_4yp_voluntary_comput.Prelude.{
  ℕ, ◌≤◌, ◌<◌, ◌≡◌, ap, ◌∙◌, Bool, true, false, none, some, List, ◌∷◌, ◌++◌, append_assoc, arith,
  if◌then◌else◌, length, take, drop, All, length-append, CString, codes, fit,
}
use e19_4yp_voluntary_comput.Prelude.Int.{minus_one, pos}
use e19_4yp_voluntary_comput.Protocol.{recv_json, be32, max_json_size, whole, read_rest}
use e19_4yp_voluntary_comput.Protocol.Streams.{
  stream, NonEmpty, read_rest-Reads, take-whole, drop-whole,
}
use e19_4yp_voluntary_comput.Protocol.Framing.{Receives, recv_json-Receives}
use e19_4yp_voluntary_comput.Transfer.{JsonItem, Cjson}
use e19_4yp_voluntary_comput.Transfer.Receiving.{Intake, read_capped, described}
use e19_4yp_voluntary_comput.Transfer.Whole.{read_capped-Reads, Carries}
use e19_4yp_voluntary_comput.TaskManagement.Queues.{ReceivedTask}

-- After the message, the size and the file are read up to the end of the file.
pub sized_read :
    (last : ℕ) (content later : List ℕ) (fs : List (List ℕ))
    → length content < 4294967296
    → All NonEmpty fs
    → stream fs ≡ (be32 (length content) ++ content) ++ later
    → (rest left : List (List ℕ)) × (read_rest 4 4 fs ≡ whole (be32 (length content)) rest)
      × (read_capped last (length content) (length content) rest ≡ whole content left)
      × (stream left ≡ later)
sized_read last content later fs small full hl =
    let n = length content in
    let (rest, reads, after, full') =
      read_rest-Reads 4 4 fs full (omega (arith, ap length hl)) (omega arith) in
    let payload : stream rest ≡ content ++ later = after ∙ ap (drop 4) hl in
    let (left, reads', after', full'') =
      read_capped-Reads last n n rest full'
        (omega (arith, ap length payload, length-append content later)) (omega arith) in
    (
      rest,
      left,
      reads ∙ ap (λ s. whole (take 4 s) rest) hl,
      reads' ∙ ap (λ s. whole s left) (ap (take n) payload ∙ take-whole content later),
      after' ∙ ap (drop n) payload ∙ drop-whole content later,
    )

-- The task as the employee holds it.
abbrev pub taken : ReceivedTask → ℕ → ℕ → CString → CString → List ℕ → ReceivedTask
taken t now address task_id filepath content =
    record (described t now minus_one (task_id, filepath, codes "employer")) {
      payload = some address;
      data_size = length content;
    }

-- A message and a file that are on the connection: the message is received, and the file is what
-- follows.
pub message_received {ℓ} :
    {J : Type ℓ} (c : Cjson J) (items : List (CString × JsonItem)) (text file bytes first : List ℕ)
    (fs : List (List ℕ)) (later : List ℕ)
    → Carries c items text
    → bytes ≡ (be32 (length text) ++ text) ++ file
    → 4 ≤ length first
    → All NonEmpty fs
    → first ++ stream fs ≡ bytes ++ later
    → Receives (c.object items) (file ++ later) (recv_json c.parse true max_json_size (first ∷ fs))
message_received c items text file bytes first fs later k split h4 full hl =
    recv_json-Receives c.parse (c.object items) text max_json_size first fs (file ++ later)
      k.is_text k.is_text.bounded h4 full
      (hl
        ∙ ap (λ b. b ++ later) split
        ∙ append_assoc (be32 (length text) ++ text) file later
        ∙ append_assoc (be32 (length text)) text (file ++ later))

-- What the employee's call gives for a task: its id, the file that holds the data, the sender, the data's
-- block and its length, the time, no frame number; and that file, if it could be created.
abbrev pub task_delivered :
    ReceivedTask → ℕ → ℕ → CString → CString → Bool → List ℕ → List (List ℕ) → Intake
task_delivered t now address task_id filepath created content left =
    let local = fit 512 (codes "/tmp/employee_task_" ++ fit 256 task_id) in
    record {
      result = pos 0;
      task = some (record {
        task_id = fit 256 task_id;
        chunk_filename = if created then fit 256 local else fit 256 filepath;
        sender_id = codes "employer";
        payload = some address;
        data_size = length content;
        received_time = now;
        is_processed = false;
        frame_no = minus_one;
      });
      content = content;
      saved = if created then some (local, content) else none;
      left = left;
    }
