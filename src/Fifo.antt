-- ===== src/Fifo.antt =====
-- The abstract contract of the program's bounded buffers: a FIFO queue of at most `cap` items,
-- oldest first, that refuses to grow over its bound and to give what it does not hold.
use e19_4yp_voluntary_comput.Prelude.{
  ℕ, Bool, true, false, List, [], ◌∷◌, ◌++◌, Option, none, some, length, ltb, if◌then◌else◌,
}

-- What a client asks, and what it is told: whether the call succeeded, and the item.
pub data Call {ℓ} (A : Type ℓ) : Type ℓ where
  add : A → Call A
  get : Call A

module _ {ℓ} {A : Type ℓ} where
  unfoldable pub dequeue : List A → (Bool × Option A) × List A
  dequeue [] = ((false, none), [])
  dequeue (x ∷ q) = ((true, some x), q)

  unfoldable pub enqueue : ℕ → List A → A → (Bool × Option A) × List A
  enqueue cap q x = if ltb (length q) cap then ((true, none), q ++ x ∷ []) else ((false, none), q)

  unfoldable pub run : ℕ → List A → List (Call A) → List (Bool × Option A)
  run cap q [] = []
  run cap q (add x ∷ calls) = let (r, q') = enqueue cap q x in r ∷ run cap q' calls
  run cap q (get ∷ calls) = let (r, q') = dequeue q in r ∷ run cap q' calls
