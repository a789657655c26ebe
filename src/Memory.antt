-- ===== src/Memory.antt =====
-- What a C pointer to an allocated array may be. A use of a null or freed array is a fault, and so
-- is a second `free`.
use e19_4yp_voluntary_comput.Prelude.{ℕ, Option, none, some, List, [], get_elem?, set}

pub data Block {ℓ} (A : Type ℓ) : Type ℓ where
  null freed : Block A
  live : List A → Block A

module _ {ℓ} {A : Type ℓ} where
  abbrev pub cells : Block A → List A
  cells null = []
  cells freed = []
  cells (live xs) = xs

  abbrev pub store_at : Block A → ℕ → A → Option (Block A)
  store_at (live xs) i x = some (live (set xs i x))
  store_at null i x = none
  store_at freed i x = none

  abbrev pub load_at : Block A → ℕ → Option A
  load_at (live xs) i = get_elem? xs i
  load_at null i = none
  load_at freed i = none

  -- `if (p) free(p)`
  abbrev pub free_block : Block A → Option (Block A)
  free_block null = some null
  free_block freed = none
  free_block (live xs) = some freed
