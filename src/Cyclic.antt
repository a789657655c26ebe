-- ===== src/Cyclic.antt =====
-- Arrays used in a circle: what a run of cells from an index on, taken modulo the size, holds.
-- Shared by the ring of volcom_agents/task_management.c and that of volcom_uscheduler.c.
use native.Mathlib.Nat.{mod-add-mod, mod-eq_of_lt, mod-eq-sub-mod}
use native.Mathlib.Decide.{dec_lt}
use e19_4yp_voluntary_comput.Prelude.{
  ℕ, suc, ◌+◌, ◌-◌, ◌%◌, ◌≤◌, ◌<◌, ◌≡◌, ap, ◌∙◌, ◌≢◌, List, [], ◌∷◌, ◌++◌, some, arith, length,
  get_elem?, set, get_elem?-set_self, get_elem?-set_ne,
}

-- Fewer than `cap` steps round do not come back.
pub cycle_ne : (cap i k : ℕ) → i < cap → suc k < cap → (i + suc k) % cap ≢ i
cycle_ne cap i k hi hk = elim (dec_lt (i + suc k) cap) [
  | yes p ↦ omega (arith, mod-eq_of_lt p)
  | no p ↦ omega (
    arith,
    mod-eq-sub-mod {n = i + suc k} {m = cap} (omega arith),
    mod-eq_of_lt {n = i + suc k - cap} {m = cap} (omega arith),
  )
]

pub cycle_step : (cap i n : ℕ) → (i + suc n) % cap ≡ ((i + 1) % cap + n) % cap
cycle_step cap i n = rw mod-add-mod (ap (λ k. k % cap) (omega arith))

pub cycle_lt : (cap i : ℕ) → 0 < cap → i % cap < cap
cycle_lt cap i h = omega arith

pub cycle_add : (size i n : ℕ) → (i % size + n) % size ≡ (i + n) % size
cycle_add size i n = mod-add-mod i size n

module _ {ℓ} {A : Type ℓ} where
  -- Going round from index `i`, the cells hold the items of the list in order.
  abbrev pub Holds : List A → ℕ → ℕ → List A → Type ℓ
  Holds cells cap i [] = Unit
  Holds cells cap i (x ∷ q) = (get_elem? cells i ≡ some x) × Holds cells cap ((i + 1) % cap) q

  -- A write just past the run extends it.
  pub Holds-set :
      (cells : List A) (cap i j : ℕ) (v : A) (q : List A)
      → cap ≤ length cells
      → i < cap
      → length q < cap
      → j ≡ (i + length q) % cap
      → Holds cells cap i q
      → Holds (set cells j v) cap i (q ++ v ∷ [])
  Holds-set cells cap i j v [] hs hi hq e h =
      let e' : j ≡ i = e ∙ ap (λ k. k % cap) (omega arith) ∙ mod-eq_of_lt hi in
      rw e' (get_elem?-set_self cells i v (omega arith), tt)
  Holds-set cells cap i j v (x ∷ q) hs hi hq e h =
      let other : j ≢ i = λ p. cycle_ne cap i (length q) hi hq (rw (← e) p) in
      (
        get_elem?-set_ne cells j i v other ∙ h.0,
        Holds-set cells cap ((i + 1) % cap) j v q hs (cycle_lt cap (i + 1) (omega arith))
            (omega arith) (e ∙ cycle_step cap i (length q)) h.1,
      )
