-- ===== src/Scheduler/Selection.antt =====
-- `select_best_employee`. A `double` is a parameter: its operations as the code uses them, and for
-- the theorem the order of numbers that are not NaN.
use e19_4yp_voluntary_comput.Prelude.{
  suc, ap, ◌∙◌, inr, Bool-cases, ℕ, ◌+◌, ◌≡◌, refl, ◌⊎◌, inl, Bool, true, false, not, ◌&&◌, Option,
  none, some, List, [], ◌∷◌, arith, if◌then◌else◌, get_elem?, All, CString,
}
use e19_4yp_voluntary_comput.Prelude.Int.{ℤ, pos}
use e19_4yp_voluntary_comput.Scheduler.{
  TaskDescriptor, SchedulingPolicy, round_robin, load_balanced, priority_based, deadline_aware,
}

-- C's `double`, with `a > b`, the arithmetic, the conversion from `int`, and `difftime`.
pub record Double : Type 1 where
  pub Value : Type 0
  pub gt : Value → Value → Bool
  pub add : Value → Value → Value
  pub sub : Value → Value → Value
  pub mul : Value → Value → Value
  pub div : Value → Value → Value
  pub of_int : ℤ → Value
  pub minus_one : Value
  pub difftime : ℕ → ℕ → Value

-- `a > b` is a strict weak order. IEEE 754 gives this on the numbers that are not NaN.
pub record IsOrdered (d : Double) : Type 0 where
  pub irreflexive : (a : d.Value) → d.gt a a ≡ false
  pub transitive : (a b c : d.Value) → d.gt a b ≡ true → d.gt b c ≡ true → d.gt a c ≡ true
  pub incomparable : (a b c : d.Value) → d.gt a b ≡ false → d.gt b c ≡ false → d.gt a c ≡ false

module _ (d : Double) where
  pub record EmployeeInfo : Type 0 where
    pub employee_id : CString
    pub ip_address : CString
    pub cpu_usage : d.Value
    pub memory_usage : d.Value
    pub active_tasks : ℕ
    pub last_seen : ℕ
    pub is_available : Bool

  abbrev num : ℕ → d.Value
  num n = d.of_int (pos n)

  -- The `switch` over the policy.
  pub score : SchedulingPolicy → ℕ → TaskDescriptor → EmployeeInfo → d.Value
  score load_balanced now task e =
      d.sub (d.add (d.sub (num 100) e.cpu_usage) (d.sub (num 100) e.memory_usage))
        (d.mul (num e.active_tasks) (num 10))
  score round_robin now task e = d.sub (num 100) (num e.active_tasks)
  score priority_based now task e =
      d.mul (d.sub (num 100) e.cpu_usage) (d.div (d.of_int task.priority) (num 10))
  score deadline_aware now task e = d.div (d.difftime task.deadline now) (num (e.active_tasks + 1))

  -- One round of the loop at index `i`, on `best_index` and `best_score`.
  pub consider :
      (EmployeeInfo → d.Value) → EmployeeInfo → ℕ → Option ℕ × d.Value → Option ℕ × d.Value
  consider sc e i (best, top) =
      if not e.is_available
      then (best, top)
      else if d.gt (sc e) top
      then (some i, sc e)
      else (best, top)

  -- `none` is the index -1.
  pub select_from : (EmployeeInfo → d.Value) → List EmployeeInfo → ℕ → Option ℕ × d.Value → Option ℕ
  unfolding consider
  select_from sc [] i best = best.0
  select_from sc (e ∷ es) i best = select_from sc es (i + 1) (consider sc e i best)

  unfoldable pub select_best_employee :
      SchedulingPolicy → ℕ → Option (List EmployeeInfo) → Option TaskDescriptor → Option ℕ
  unfolding select_from score
  select_best_employee policy now none task = none
  select_best_employee policy now (some es) none = none
  select_best_employee policy now (some []) (some task) = none
  select_best_employee policy now (some (e ∷ es)) (some task) =
      select_from (score policy now task) (e ∷ es) 0 (none, d.minus_one)

  -- No available employee of the list scores above the value.
  abbrev pub NoneAbove : (EmployeeInfo → d.Value) → d.Value → List EmployeeInfo → Type 0
  NoneAbove sc top = All (λ e. (e.is_available && d.gt (sc e) top) ≡ false)

  -- The employee at an index is available, scores above the value, and nobody scores above it.
  abbrev pub IsBest : (EmployeeInfo → d.Value) → d.Value → List EmployeeInfo → ℕ → Type 0
  IsBest sc top es k =
      (e : EmployeeInfo) × (get_elem? es k ≡ some e)
      × (e.is_available ≡ true)
      × (d.gt (sc e) top ≡ true)
      × NoneAbove sc (sc e) es

  -- What a loop from index `i` returns: the best so far if nobody scores above it, or the best.
  abbrev Selected :
      (EmployeeInfo → d.Value) → List EmployeeInfo → ℕ → Option ℕ × d.Value → Option ℕ → Type 0
  Selected sc es i (best, top) r =
      ((r ≡ best) × NoneAbove sc top es) ⊎ ((k : ℕ) × (r ≡ some (i + k)) × IsBest sc top es k)

  module _ (o : IsOrdered d) (sc : EmployeeInfo → d.Value) where
    NoneAbove-mono :
        (a b : d.Value) (es : List EmployeeInfo)
        → d.gt a b ≡ false
        → NoneAbove sc a es
        → NoneAbove sc b es
    NoneAbove-mono a b [] h all = tt
    NoneAbove-mono a b (e ∷ es) h all =
        (ground (arith, o.incomparable (sc e) a b, all.0), NoneAbove-mono a b es h all.1)

    gt_asym : (a b : d.Value) → d.gt a b ≡ true → d.gt b a ≡ false
    gt_asym a b h = ground (arith, o.transitive a b a h, o.irreflexive a)

    select_from-Selected :
        (es : List EmployeeInfo) (i : ℕ) (best : Option ℕ) (top : d.Value)
        → Selected sc es i (best, top) (select_from sc es i (best, top))
    unfolding select_from consider
    select_from-Selected [] i best top = inl (refl, tt)
    select_from-Selected (e ∷ es) i best top =
        elim (Bool-cases (e.is_available && d.gt (sc e) top)) [
          | inl better ↦
              let taken : consider sc e i (best, top) ≡ (some i, sc e) = ground arith in
              let wins : d.gt (sc e) top ≡ true = ground arith in
              elim (select_from-Selected es (i + 1) (some i) (sc e)) [
                | inl (r, all) ↦ inr (
                  0,
                  rw taken (r ∙ ap some (omega arith)),
                  (e, refl, ground arith, wins, (ground (arith, o.irreflexive (sc e)), all)),
                )
                | inr (k, r, (x, at, free, above, all)) ↦ inr (
                  suc k,
                  rw taken (r ∙ ap some (omega arith)),
                  (
                    x,
                    at,
                    free,
                    o.transitive (sc x) (sc e) top above wins,
                    (ground (arith, gt_asym (sc x) (sc e) above), all),
                  ),
                )
              ]
          | inr worse ↦
              let kept : consider sc e i (best, top) ≡ (best, top) = ground arith in
              elim (select_from-Selected es (i + 1) best top) [
                | inl (r, all) ↦ inl (rw kept r, (worse, all))
                | inr (k, r, (x, at, free, above, all)) ↦ inr (
                  suc k,
                  rw kept (r ∙ ap some (omega arith)),
                  (
                    x,
                    at,
                    free,
                    above,
                    (
                      ground (arith, gt_asym (sc x) top above, o.incomparable (sc e) top (sc x)),
                      all,
                    ),
                  ),
                )
              ]
        ]

  -- For scores that are not NaN, under every policy: the result is the index of an available employee
  -- with a score above -1 that no available employee's score exceeds; or it is -1, and no available
  -- employee scores above -1.
  pub select_best_employee_lem :
      (policy : SchedulingPolicy) (now : ℕ) (es : List EmployeeInfo) (task : TaskDescriptor)
      → IsOrdered d
      → ((select_best_employee policy now (some es) (some task) ≡ none)
          × NoneAbove (score policy now task) d.minus_one es)
        ⊎ ((k : ℕ) × (select_best_employee policy now (some es) (some task) ≡ some k)
            × IsBest (score policy now task) d.minus_one es k)
  unfolding select_best_employee
  select_best_employee_lem policy now [] task o = inl (refl, tt)
  select_best_employee_lem policy now (e ∷ es) task o =
      elim (select_from-Selected o (score policy now task) (e ∷ es) 0 none d.minus_one) [
        | inl found ↦ inl found
        | inr (k, r, best) ↦ inr (k, r ∙ ap some (omega arith), best)
      ]
