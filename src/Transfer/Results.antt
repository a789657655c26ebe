-- ===== src/Transfer/Results.antt =====
-- `receive_result_from_employee` of src/uspacehelper/volcom_agents/employer/volcom_employer.c: a
-- result is received into a file, and its task becomes complete.
-- `none` as a whole is a loop that the rounds given are too few for.
use e19_4yp_voluntary_comput.Prelude.{
  true, false, ℕ, Bool, Option, none, some, List, ◌++◌, if◌then◌else◌, CString, codes, str_eq, fit,
}
use e19_4yp_voluntary_comput.Prelude.Int.{ℤ, pos, minus_one}
use e19_4yp_voluntary_comput.Protocol.{
  ProtocolStatus, ok, err, conn_closed, max_json_size, Received, whole, broken, running, read_rest,
  from_be32, recv_json,
}
use e19_4yp_voluntary_comput.Transfer.{JsonItem, string_of, Cjson}
use e19_4yp_voluntary_comput.Transfer.Receiving.{read_capped, file_last, discard_last}
use e19_4yp_voluntary_comput.Employer.{Employer}
use e19_4yp_voluntary_comput.Employer.Assignments.{record_result}

-- What a call ends with: its result, the task whose result has been received whole, with the file
-- that holds it and the file's content, and the segments left.
pub record Collected : Type 0 where
  pub result : ℤ
  pub received : Option (CString × CString × List ℕ)
  pub left : List (List ℕ)

abbrev pub nothing : ℤ → List (List ℕ) → Option Collected
nothing result left = some (record { result = result; received = none; left = left })

abbrev pub result_path : CString → CString
result_path task_id = fit 512 (codes "./results/result_" ++ task_id)

-- With the file open: a `recv` that fails is an error of the connection.
abbrev pub stored : CString → Received → Option Collected
stored task_id running = none
stored task_id (broken left) = nothing minus_one left
stored task_id (whole content left) = some (record {
  result = pos 0;
  received = some (task_id, result_path task_id, content);
  left = left;
})

-- Without one: the content is discarded, and the result is success.
abbrev pub discarded : Received → Option Collected
discarded running = none
discarded (broken left) = nothing (pos 0) left
discarded (whole content left) = nothing (pos 0) left

-- The content, given whether the file for it could be created.
unfoldable pub collect_sized : Bool → CString → List (List ℕ) → ℕ → Option Collected
unfolding read_capped
collect_sized true task_id rest size = stored task_id (read_capped file_last size size rest)
collect_sized false task_id rest size = discarded (read_capped discard_last size size rest)

unfoldable pub collect_content : (CString → Bool) → CString → Received → Option Collected
unfolding collect_sized
collect_content can_create task_id running = none
collect_content can_create task_id (broken left) = nothing minus_one left
collect_content can_create task_id (whole header rest) =
    collect_sized (can_create (result_path task_id)) task_id rest (from_be32 header)

-- The type and the task of the metadata: a message of another type, or without a task, is skipped.
unfoldable pub collect_result :
    (CString → Bool) → List (List ℕ) → Option CString → Option CString → Option Collected
unfolding read_rest
collect_result can_create rest none task_id = nothing (pos 0) rest
collect_result can_create rest (some type) none = nothing (pos 0) rest
collect_result can_create rest (some type) (some task_id) =
    if str_eq type (codes "task_result")
    then collect_content can_create (fit 256 task_id) (read_rest 4 4 rest)
    else nothing (pos 0) rest

-- The metadata, as what `cJSON_GetObjectItem` finds in it.
unfoldable pub collect_items :
    (CString → Bool) → List (List ℕ) → (CString → Option JsonItem) → Option Collected
unfolding collect_result
collect_items can_create rest item =
    collect_result can_create rest (string_of (item (codes "type")))
      (string_of (item (codes "task_id")))

module _ {ℓ} {J : Type ℓ} (c : Cjson J) where
  unfoldable pub with_result_metadata :
      (CString → Bool) → Option (ProtocolStatus × Option J × List (List ℕ)) → Option Collected
  unfolding collect_items
  with_result_metadata can_create none = none
  with_result_metadata can_create (some (ok, some json, rest)) =
      collect_items can_create rest (c.item json)
  with_result_metadata can_create (some (ok, none, rest)) = nothing minus_one rest
  with_result_metadata can_create (some (err, json, rest)) = nothing minus_one rest
  with_result_metadata can_create (some (conn_closed, json, rest)) = nothing minus_one rest

  -- What is received on the connection, before the employer's state is changed.
  unfoldable pub receive_result : (CString → Bool) → Bool → List (List ℕ) → Option Collected
  unfolding recv_json with_result_metadata
  receive_result can_create buffer fs =
      with_result_metadata can_create (recv_json c.parse buffer max_json_size fs)

-- The change of the employer's state, for the employee at `i`.
unfoldable pub collected : ℕ → ℕ → Employer → Option (CString × CString × List ℕ) → Employer
unfolding record_result
collected now i s none = s
collected now i s (some (task_id, path, content)) = record_result now task_id i s

unfoldable pub with_state : ℕ → ℕ → Employer → Option Collected → Option (Collected × Employer)
unfolding collected
with_state now i s none = none
with_state now i s (some r) = some (r, collected now i s r.received)

-- The result and the state; `none` as above.
unfoldable pub receive_result_from_employee {ℓ} :
    {J : Type ℓ}
    → Cjson J
    → (CString → Bool)
    → Bool
    → ℕ
    → ℕ
    → List (List ℕ)
    → Employer
    → Option (Collected × Employer)
unfolding receive_result with_state
receive_result_from_employee c can_create buffer now i fs s =
    with_state now i s (receive_result c can_create buffer fs)
