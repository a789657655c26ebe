-- ===== src/Transfer.antt =====
-- The transfer of files between the agents: `send_file_to_employee` and `send_initial_config` of
-- src/uspacehelper/volcom_agents/employer/volcom_employer.c, `send_result_to_employer` of
-- volcom_agents/employee/volcom_employee.c, and the metadata of volcom_net/protocol.c.
-- A transfer is a JSON message, four bytes of length and the file. cJSON is a parameter; a file is
-- its bytes, and what each `send` takes is answered by the link.
pub mod Receiving
pub mod Results
pub mod Whole
pub mod Delivery
pub mod Collection
pub mod Partial
mod Tests
use e19_4yp_voluntary_comput.Prelude.Int.{ℤ, pos}
use e19_4yp_voluntary_comput.Prelude.{
  ℕ, zero, suc, ◌-◌, ◌%◌, ◌^◌, min, Bool, true, false, Option, none, some, List, [], ◌∷◌, ◌++◌,
  if◌then◌else◌, length, take, drop, CString, codes, str_eq,
}
use e19_4yp_voluntary_comput.Protocol.{
  ProtocolStatus, ok, err, conn_closed, be32, Writer, written, send_json,
}

-- An item of a JSON object: a string, or a number by its `valueint`.
pub data JsonItem : Type 0 where
  text : CString → JsonItem
  number : ℤ → JsonItem

-- cJSON: building an object, printing, parsing, and `cJSON_GetObjectItem`, which gives nothing for
-- a missing item.
pub record Cjson {ℓ} (J : Type ℓ) : Type ℓ where
  pub object : List (CString × JsonItem) → J
  pub print : J → Option CString
  pub parse : CString → Option J
  pub item : J → CString → Option JsonItem

abbrev pub find_item : CString → List (CString × JsonItem) → Option JsonItem
find_item key [] = none
find_item key ((k, i) ∷ items) =
    let later = find_item key items in if str_eq k key then some i else later

abbrev pub string_of : Option JsonItem → Option CString
string_of none = none
string_of (some (text s)) = some s
string_of (some (number n)) = none

-- `create_task_metadata`, as the items of the object.
pub create_task_metadata :
    CString → CString → CString → CString → CString → List (CString × JsonItem)
create_task_metadata task_id chunk_filename sender_id receiver_id status =
    (codes "type", text (codes "task"))
    ∷ (codes "version", text (codes "1"))
    ∷ (codes "task_id", text task_id)
    ∷ (codes "chunk_filename", text chunk_filename)
    ∷ (codes "sender_id", text sender_id)
    ∷ (codes "receiver_id", text receiver_id)
    ∷ (codes "status", text status)
    ∷ []

-- What the sockets do with the writes of a transfer: the two of `send_json`, the size, and each
-- chunk of the file by its number.
pub record Link : Type 0 where
  pub header : Writer
  pub payload : Writer
  pub size : Writer
  pub chunk : ℕ → Writer

-- How a sender ends: with its result and all that it has put on the connection; or the rounds given
-- were too few.
pub data Sending : Type 0 where
  sent : Bool → List ℕ → Sending
  running : Sending

abbrev pub after_bytes : List ℕ → Sending → Sending
after_bytes bytes (sent result more) = sent result (bytes ++ more)
after_bytes bytes running = running

-- What one `send` of a chunk does: an error, or nothing taken, ends the loop.
abbrev pub chunk_sent : List ℕ → Option ℕ → (ℕ → Sending) → Sending
chunk_sent chunk none next = sent false []
chunk_sent chunk (some zero) next = sent false []
chunk_sent chunk (some (suc n)) next = after_bytes (take (suc n) chunk) (next (suc n))

-- At the end of the file `fread` gives nothing, which ends the loop without an error.
abbrev pub send_chunk : List ℕ → Writer → (ℕ → Sending) → Sending
send_chunk [] w next = sent true []
send_chunk (b ∷ bs) w next = chunk_sent (b ∷ bs) (w (b ∷ bs)) next

-- The loop: `rest` is what `fread` has not read yet, `left` the file's size less `total_sent`.
unfoldable pub send_content : ℕ → (ℕ → Writer) → ℕ → List ℕ → ℕ → Sending
send_content fuel w i rest zero = sent true []
send_content zero w i rest (suc left) = running
send_content (suc fuel) w i rest (suc left) =
    let chunk = take (min 4096 (suc left)) rest in
    send_chunk chunk (w i)
      (λ n. send_content fuel w (suc i) (drop (length chunk) rest) (suc left - n))

-- The size and the file; each round sends at least a byte, so the size is fuel enough.
abbrev pub sized : (ℕ → Writer) → List ℕ → Bool × List ℕ → Sending
unfolding send_content
sized w content (false, bytes) = sent false bytes
sized w content (true, bytes) =
    after_bytes bytes (send_content (length content) w 0 content (length content))

unfoldable pub send_sized : Link → List ℕ → Sending
unfolding sized
send_sized link content =
    let size = be32 (length content % 2 ^ 32) in
    sized link.chunk content (written size (link.size size))

abbrev pub task_message : CString → CString → CString → List (CString × JsonItem)
unfolding create_task_metadata
task_message filepath task_id ip =
    create_task_metadata task_id filepath (codes "employer") ip (codes "pending")
    ++ (codes "message_type", text (codes "data_chunk")) ∷ []

abbrev pub config_items : List (CString × JsonItem)
config_items =
    (codes "message_type", text (codes "initial_config"))
    ∷ (codes "task_id", text (codes "init_script"))
    ∷ (codes "chunk_filename", text (codes "script.js"))
    ∷ (codes "sender_id", text (codes "employer"))
    ∷ []

abbrev pub result_items : CString → ℕ → List (CString × JsonItem)
result_items task_id size =
    (codes "type", text (codes "task_result"))
    ∷ (codes "task_id", text task_id)
    ∷ (codes "result_size", number (pos size))
    ∷ []

module _ {ℓ} {J : Type ℓ} (c : Cjson J) (link : Link) where
  -- The metadata, and then the file, where it can be opened.
  abbrev pub after_metadata : ProtocolStatus × List ℕ → Option (List ℕ) → Sending
  unfolding send_sized
  after_metadata (ok, bytes) (some content) = after_bytes bytes (send_sized link content)
  after_metadata (ok, bytes) none = sent false bytes
  after_metadata (err, bytes) file = sent false bytes
  after_metadata (conn_closed, bytes) file = sent false bytes

  abbrev pub send_message : List (CString × JsonItem) → ProtocolStatus × List ℕ
  unfolding send_json
  send_message items = send_json c.print link.header link.payload (c.object items)

  -- `open_file` is what `fopen` finds at a path.
  unfoldable pub send_file_to_employee :
      (CString → Option (List ℕ)) → Option ℕ → Option CString → Option CString → CString → Sending
  unfolding task_message send_message after_metadata
  send_file_to_employee open_file none filepath task_id ip = sent false []
  send_file_to_employee open_file (some fd) none task_id ip = sent false []
  send_file_to_employee open_file (some fd) (some filepath) none ip = sent false []
  send_file_to_employee open_file (some fd) (some filepath) (some task_id) ip =
      after_metadata (send_message (task_message filepath task_id ip)) (open_file filepath)

  -- The change of the employee's state on success is made where the roster is.
  unfoldable pub send_initial_config : (CString → Option (List ℕ)) → Sending
  unfolding send_message after_metadata
  send_initial_config open_file =
      after_metadata (send_message config_items)
        (open_file (codes "./scripts//object-detection.js"))

  abbrev pub result_opened : CString → Option (List ℕ) → Sending
  unfolding send_message after_metadata
  result_opened task_id none = sent false []
  result_opened task_id (some content) =
      after_metadata (send_message (result_items task_id (length content))) (some content)

  -- Here the file is opened before anything is sent.
  unfoldable pub send_result_to_employer :
      (CString → Option (List ℕ)) → Option ℕ → Option (CString × CString) → Sending
  unfolding result_opened
  send_result_to_employer open_file none result = sent false []
  send_result_to_employer open_file (some fd) none = sent false []
  send_result_to_employer open_file (some fd) (some (task_id, filepath)) =
      result_opened task_id (open_file filepath)
