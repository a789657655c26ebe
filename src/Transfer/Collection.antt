-- ===== src/Transfer/Collection.antt =====
-- A result that `send_result_to_employer` of volcom_employee.c reports as sent is collected by
-- `receive_result_from_employee` of volcom_employer.c.
use e19_4yp_voluntary_comput.Prelude.{
  ℕ, ◌≡◌, ◌≢◌, ◌⊎◌, Bool, true, false, Option, none, some, List, if◌then◌else◌, CString,
}
use e19_4yp_voluntary_comput.Prelude.Int.{pos}
use e19_4yp_voluntary_comput.Protocol.Streams.{stream}
use e19_4yp_voluntary_comput.Transfer.Results.{Collected, result_path}
use e19_4yp_voluntary_comput.Employer.{Employer, TaskAssignment}

-- What is collected: the file, unless it cannot be created.
abbrev pub kept : Bool → CString → List ℕ → Option (CString × CString × List ℕ)
kept created task_id content =
    if created then some (task_id, result_path task_id, content) else none

abbrev Collects : (CString → Bool) → CString → List ℕ → List ℕ → Option Collected → Type 0
Collects can_create task_id content later r =
    (left : List (List ℕ)) × (r
      ≡ some (record {
        result = pos 0;
        received = kept (can_create (result_path task_id)) task_id content;
        left = left;
      }))
    × (stream left ≡ later)

-- A task that is complete, or another.
abbrev pub Passed : CString → TaskAssignment → Type 0
Passed id t = (t.is_completed ≡ true) ⊎ (t.task_id ≢ id)

abbrev mark : ℕ → TaskAssignment → TaskAssignment
mark now t = record t { is_completed = true; completed_time = now }

-- The task `a` behind what has been collected: complete since `now`, if the file was created.
abbrev pub finished : ℕ → Bool → TaskAssignment → TaskAssignment
finished now true a = record a { is_completed = true; completed_time = now }
finished now false a = a
