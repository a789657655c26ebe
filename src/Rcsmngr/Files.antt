-- ===== src/Rcsmngr/Files.antt =====
-- The configuration structs of volcom_sysinfo.h, and the functions of volcom_rcsmngr.c that write
-- the limits of a cgroup into its files.
use e19_4yp_voluntary_comput.Prelude.Int.{signed_decimal, to_int32}
use e19_4yp_voluntary_comput.Prelude.{
  not, ℕ, zero, suc, ◌*◌, Bool, true, false, ◌&&◌, List, [], ◌∷◌, ◌++◌, ◌==◌, if◌then◌else◌,
  CString, codes, fit, decimal,
}

pub record MemConfig : Type 0 where
  pub allocated_memory_size_max : ℕ
  pub allocated_memory_size_high : ℕ
  pub allocated_swap_memory_size_max : ℕ
  pub allocated_swap_memory_size_high : ℕ
  pub memory_oom_protection : ℕ

pub record CpuConfig : Type 0 where
  pub allocated_logical_processors : ℕ
  pub allocated_cpu_share : ℕ

pub record Config : Type 0 where
  pub mem_config : MemConfig
  pub cpu_config : CpuConfig

-- Which array a `malloc`, `realloc` or `strdup` is for.
pub data Request : Type 0 where
  main_pids children child_pids more_children more_pids pids_copy controllers_copy : Request

-- What the system answers during a call: whether cgroup v2 is mounted, whether `mkdir` leaves a
-- directory (EEXIST included), `rmdir` and opening a file for writing succeed, whether writing a
-- text to a file succeeds, and which allocations do.
pub record System : Type 0 where
  pub cgroup_v2 : Bool
  pub mkdir : CString → Bool
  pub rmdir : CString → Bool
  pub can_open : CString → Bool
  pub can_write : CString → CString → Bool
  pub malloc : Request → Bool

pub data Status : Type 0 where
  done failed : Status

-- The files written, with the text of each write.
abbrev pub Writes : Type 0
Writes = List (CString × CString)

abbrev pub path_len : ℕ
path_len = 512

abbrev pub newline : CString
newline = 10 ∷ []

-- `snprintf(dst, MAX_PATH_LEN, "%s/%s", a, b)`
abbrev pub join_path : CString → CString → CString
join_path a b = fit path_len (a ++ (b'/' ∷ b))

-- `fopen`, `fprintf` and `fclose` where both errors end the function.
abbrev pub write_or_fail : System → CString → CString → Status × Writes
write_or_fail sys file text =
    if sys.can_open file && sys.can_write file text then (done, (file, text) ∷ []) else (failed, [])

-- The same where errors are passed over.
abbrev pub write_or_skip : System → CString → CString → Writes
write_or_skip sys file text =
    if sys.can_open file && sys.can_write file text then (file, text) ∷ [] else []

unfoldable pub set_memory_limit : System → CString → ℕ → Status × Writes
set_memory_limit sys path limit =
    write_or_fail sys (join_path path (codes "memory.max")) (decimal limit ++ newline)

-- The quota is an `int`: a product that does not fit it is taken to wrap around.
abbrev pub cpu_max_text : ℕ → CString
cpu_max_text zero = codes "max 100000" ++ newline
cpu_max_text (suc n) = signed_decimal (to_int32 (suc n * 100000)) ++ (codes " 100000" ++ newline)

unfoldable pub set_cpu_limit : System → CString → ℕ → ℕ → Status × Writes
set_cpu_limit sys path shares cpus = (
  done,
  write_or_skip sys (join_path path (codes "cpu.weight")) (decimal shares ++ newline)
      ++ write_or_skip sys (join_path path (codes "cpu.max")) (cpu_max_text cpus),
)

-- The words that `strtok(…, " ")` gives: the first word's bytes so far, and the rest of the text.
unfoldable pub words_from : CString → CString → List CString
words_from [] [] = []
words_from (b ∷ bs) [] = (b ∷ bs) ∷ []
words_from word (c ∷ cs) = elim (c == b' ') [
  | true ↦ elim word [ [] ↦ words_from [] cs | b ∷ bs ↦ (b ∷ bs) ∷ words_from [] cs ]
  | false ↦ words_from (word ++ c ∷ []) cs
]

-- The loop over the words: each is enabled by a write of its own; an error ends the loop.
unfoldable pub enable_each : System → CString → List CString → Status × Writes
enable_each sys file [] = (done, [])
enable_each sys file (w ∷ ws) = elim (sys.can_open file && sys.can_write file (fit 64 (b'+' ∷ w))) [
  | false ↦ (failed, [])
  | true ↦
      let (status, writes) = enable_each sys file ws in (status, (file, fit 64 (b'+' ∷ w)) ∷ writes)
]

unfoldable pub enable_controllers : System → CString → CString → Status × Writes
unfolding words_from enable_each
enable_controllers sys path controllers =
    if not (sys.malloc controllers_copy)
    then (failed, [])
    else enable_each sys (join_path path (codes "cgroup.subtree_control"))
        (words_from [] controllers)
