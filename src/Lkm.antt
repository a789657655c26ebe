-- ===== src/Lkm.antt =====
-- src/lkm/volcom_rsucmngr.c: the ioctl of the kernel module, which writes the limits of a cgroup and
-- attaches a process to it.
-- What the kernel answers is an argument, and that of `kern_path` is its result: that it stores through a
-- null pointer is not modelled. The strings that the ioctl is given end within their array.
pub mod Limits
pub mod Registration
mod Tests
use e19_4yp_voluntary_comput.Prelude.{
  ℕ, zero, suc, ◌+◌, ◌-◌, ◌/◌, ◌%◌, Bool, not, Option, none, some, List, [], ◌∷◌, ◌++◌,
  if◌then◌else◌, CString, codes, fit, decimal,
}
use e19_4yp_voluntary_comput.Prelude.Int.{signed_decimal, ℤ, pos, negsuc}

-- `struct task_config`
pub record TaskConfig : Type 0 where
  pub task_name : CString
  pub memory_limit_mb : ℤ
  pub cpu_share : ℤ
  pub pid : ℤ

-- Whether the argument can be copied from the caller and the directory is there; the error of
-- `filp_open` on a file, as -(n + 1), if any; and whether `kernel_write` writes something.
pub record Kernel : Type 0 where
  pub copies : Bool
  pub has_directory : CString → Bool
  pub open_error : CString → Option ℕ
  pub writes : CString → CString → Bool

-- The errors -EIO, -EINVAL, -EFAULT and -ENOENT.
abbrev pub eio : ℤ
eio = negsuc 4

abbrev pub einval : ℤ
einval = negsuc 21

abbrev pub efault : ℤ
efault = negsuc 13

abbrev pub enoent : ℤ
enoent = negsuc 1

-- The files written, with their texts.
abbrev pub Writes : Type 0
Writes = List (CString × CString)

abbrev pub full_path : CString → CString → CString
full_path path filename = fit 256 (path ++ (b'/' ∷ filename))

abbrev pub write_opened : Kernel → CString → CString → Option ℕ → ℤ × Writes
write_opened k file value (some e) = (negsuc e, [])
write_opened k file value none =
    if k.writes file value then (pos 0, (file, value) ∷ []) else (eio, [])

unfoldable pub write_cgroup_file : Kernel → CString → CString → CString → ℤ × Writes
write_cgroup_file k path filename value =
    let file = full_path path filename in write_opened k file value (k.open_error file)

-- An error ends the ioctl.
abbrev pub and_then : ℤ × Writes → ℤ × Writes → ℤ × Writes
and_then (negsuc e, writes) rest = (negsuc e, writes)
and_then (pos n, writes) (result, more) = (result, writes ++ more)

-- The limit of the memory, that of the processor if it is above 0, and the process, each with what
-- follows it.
unfoldable pub assign_pid : Kernel → CString → TaskConfig → ℤ × Writes
unfolding write_cgroup_file
assign_pid k path config =
    and_then (write_cgroup_file k path (codes "cgroup.procs") (fit 16 (signed_decimal config.pid)))
      (pos 0, [])

unfoldable pub limit_cpu : Kernel → CString → TaskConfig → ℤ → ℤ × Writes
unfolding assign_pid
limit_cpu k path config (pos zero) = assign_pid k path config
limit_cpu k path config (negsuc n) = assign_pid k path config
limit_cpu k path config (pos (suc n)) =
    and_then
      (write_cgroup_file k path (codes "cpu.max") (fit 32 (decimal (suc n) ++ codes " 100000")))
      (assign_pid k path config)

unfoldable pub limit_memory : Kernel → CString → TaskConfig → ℤ × Writes
unfolding limit_cpu
limit_memory k path config =
    and_then
      (write_cgroup_file k path (codes "memory.max")
        (fit 32 (signed_decimal config.memory_limit_mb ++ codes "M")))
      (limit_cpu k path config config.cpu_share)

abbrev pub task_path : TaskConfig → CString
task_path config = fit 256 (codes "/sys/fs/cgroup/resgroup/" ++ config.task_name)

-- `known` is whether the command is `IOCTL_ALLOCATE_TASK`.
unfoldable pub resman_ioctl : Kernel → Bool → TaskConfig → ℤ × Writes
unfolding limit_memory
resman_ioctl k known config =
    if not known
    then (einval, [])
    else if not k.copies
    then (efault, [])
    else if not (k.has_directory (task_path config))
    then (enoent, [])
    else limit_memory k (task_path config) config
