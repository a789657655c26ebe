-- ===== src/Lkm/Limits.antt =====
-- In what order the ioctl of volcom_rsucmngr.c writes, and where it stops.
use e19_4yp_voluntary_comput.Prelude.{
  ℕ, zero, suc, ◌<◌, ◌≡◌, ◌⊎◌, [], ◌∷◌, ◌++◌, length, take, CString, codes, fit, decimal,
}
use e19_4yp_voluntary_comput.Prelude.Int.{signed_decimal, ℤ, pos, negsuc}
use e19_4yp_voluntary_comput.Lkm.{TaskConfig, Writes, full_path}

-- The quota of a process in a period of 100000 microseconds, if there is one.
abbrev pub quota : CString → ℤ → Writes
quota path (pos zero) = []
quota path (pos (suc n)) =
    (full_path path (codes "cpu.max"), fit 32 (decimal (suc n) ++ codes " 100000")) ∷ []
quota path (negsuc n) = []

-- The writes of a process that is attached last.
abbrev pub limits_and_process : CString → TaskConfig → Writes
limits_and_process path config =
    (
      full_path path (codes "memory.max"),
      fit 32 (signed_decimal config.memory_limit_mb ++ codes "M"),
    )
    ∷ (quota path config.cpu_share
        ++ (full_path path (codes "cgroup.procs"), fit 16 (signed_decimal config.pid)) ∷ [])

-- All of the writes, with the result 0, or an error with the first of them, the last left out.
abbrev pub InOrder : Writes → ℤ × Writes → Type 0
InOrder all r =
    (r ≡ (pos 0, all)) ⊎ ((e : ℕ) × (n : ℕ) × (n < length all) × (r ≡ (negsuc e, take n all)))
