-- ===== src/TaskManagement/Invariant.antt =====
-- The representation invariant of the ring of task_management.c, and what an initialised ring is.
use e19_4yp_voluntary_comput.Prelude.{
  ℕ, ◌+◌, ◌%◌, ◌≤◌, ◌<◌, ◌≡◌, refl, List, some, arith, length, get_elem?, get_elem?-some, set,
}
use e19_4yp_voluntary_comput.TaskManagement.{
  cells, Block, null, freed, live, Ring, done, init_ring, store_at, load_at,
}

module _ {ℓ} {A : Type ℓ} where
  -- The array has `capacity` cells, and `head` is `count` cells past `tail`.
  pub record IsValid (r : Ring A) : Type 0 where
    pub storage : length (cells r.items) ≡ r.capacity
    pub tail_in : r.tail < r.capacity
    pub count_in : r.count ≤ r.capacity
    pub head_at : r.head ≡ (r.tail + r.count) % r.capacity

  pub init_ring-IsValid :
      (r : Ring A) (xs : List A) (capacity : ℕ) {r' : Ring A}
      → length xs ≡ capacity
      → 0 < capacity
      → init_ring (some r) (some xs) capacity ≡ (done, some r')
      → IsValid r' × (r'.count ≡ 0) × (r'.capacity ≡ capacity)
  unfolding init_ring
  init_ring-IsValid r xs capacity h pos e = ground arith

  -- Within the array a write and a read do not fault.
  pub store_at-some :
      (b : Block A) (i : ℕ) (x : A)
      → i < length (cells b)
      → (b' : Block A) × (store_at b i x ≡ some b') × (cells b' ≡ set (cells b) i x)
  store_at-some null i x h = elim h [ ]
  store_at-some freed i x h = elim h [ ]
  store_at-some (live xs) i x h = (live (set xs i x), refl, refl)

  pub load_at-some :
      (b : Block A) (i : ℕ)
      → i < length (cells b)
      → (x : A) × (load_at b i ≡ some x) × (get_elem? (cells b) i ≡ some x)
  load_at-some null i h = elim h [ ]
  load_at-some freed i h = elim h [ ]
  load_at-some (live xs) i h = let (x, e) = get_elem?-some xs i h in (x, e, e)
