-- ===== src/TaskManagement.antt =====
-- src/uspacehelper/volcom_agents/task_management.c: the buffer of received data chunks
-- (`task_buffer_t`) and the queue of results to send (`result_queue_t`). The two are the same ring
-- over different items; here they are two instances of one. Every call takes the buffer's mutex
-- for its whole body, so it is one atomic step. Sizes stay below the capacity, so the sums of
-- `int`s are exact.
pub mod Invariant
pub mod Refinement
pub mod Queues
mod Tests
pub use e19_4yp_voluntary_comput.Memory.{Block, null, freed, live, store_at, load_at, cells}
use e19_4yp_voluntary_comput.Prelude.{
  ℕ, ◌+◌, ◌-◌, ◌%◌, Bool, true, false, List, [], ◌∷◌, Option, none, some, get_elem?, set, leb, ◌==◌,
  if◌then◌else◌,
}
use e19_4yp_voluntary_comput.Fifo.{Call, add, get}

pub record Ring {ℓ} (A : Type ℓ) : Type ℓ where
  pub items : Block A
  pub capacity : ℕ
  pub head : ℕ
  pub tail : ℕ
  pub count : ℕ

-- The return codes 0 and -1.
pub data Status : Type 0 where
  done failed : Status

abbrev pub succeeded : Status → Bool
succeeded done = true
succeeded failed = false

module _ {ℓ} {A : Type ℓ} where
  -- The block is what `malloc` returned: `none` for NULL, else an array with any contents.
  -- A null `buffer` is `none`.
  pub init_ring : Option (Ring A) → Option (List A) → ℕ → Status × Option (Ring A)
  init_ring none block capacity = (failed, none)
  init_ring (some r) none capacity = (failed, some (record r { items = null }))
  init_ring (some r) (some xs) capacity =
      (done, some (record { items = live xs; capacity = capacity; head = 0; tail = 0; count = 0 }))

  -- The pointer is kept after `free`, as in the source.
  pub cleanup_ring : Option (Ring A) → Option (Option (Ring A))
  cleanup_ring none = some none
  cleanup_ring (some r) = elim r.items [
    | null ↦ some (some r)
    | freed ↦ none
    | live xs ↦ some (some (record r { items = freed }))
  ]

  -- `none` is a fault: an access through a pointer that is null or freed, or out of range.
  pub add_to_ring : Ring A → A → Option (Status × Ring A)
  add_to_ring r x =
      if leb r.capacity r.count then some (failed, r) else elim (store_at r.items r.head x) [
        | none ↦ none
        | some items' ↦ some (
          done,
          record r { items = items'; head = (r.head + 1) % r.capacity; count = r.count + 1 },
        )
      ]

  -- The item goes out through the second argument.
  pub get_from_ring : Ring A → Option (Status × Option A × Ring A)
  get_from_ring r = if r.count == 0 then some (failed, none, r) else elim (load_at r.items r.tail) [
    | none ↦ none
    | some x ↦
        some (done, some x, record r { tail = (r.tail + 1) % r.capacity; count = r.count - 1 })
  ]

  pub is_ring_empty : Ring A → Bool
  is_ring_empty r = r.count == 0

  -- A client's calls in order and what each returns; `none` where one faults.
  pub run_ring : Ring A → List (Call A) → Option (List (Bool × Option A))
  run_ring r [] = some []
  run_ring r (add x ∷ calls) = elim (add_to_ring r x) [
    | none ↦ none
    | some (s, r') ↦ elim (run_ring r' calls) [
      | none ↦ none
      | some replies ↦ some ((succeeded s, none) ∷ replies)
    ]
  ]
  run_ring r (get ∷ calls) = elim (get_from_ring r) [
    | none ↦ none
    | some (s, out, r') ↦ elim (run_ring r' calls) [
      | none ↦ none
      | some replies ↦ some ((succeeded s, out) ∷ replies)
    ]
  ]
