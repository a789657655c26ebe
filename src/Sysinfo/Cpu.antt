-- ===== src/Sysinfo/Cpu.antt =====
-- `get_cpu_info` and `get_cpu_usage` of src/uspacehelper/volcom_sysinfo/volcom_sysinfo.c over the lines
-- of /proc/cpuinfo and /proc/stat. The percentages, which are doubles, are left out.
pub mod Usage
use e19_4yp_voluntary_comput.Prelude.{
  ℕ, zero, suc, ◌+◌, ◌-◌, ◌*◌, ◌/◌, ◌%◌, ◌^◌, min, Bool, true, false, not, ◌&&◌, ◌||◌, Option, none,
  some, List, [], ◌∷◌, ltb, ◌==◌, if◌then◌else◌, get_elem?, set, drop, count, CString, codes,
  str_eq, starts_with,
}
use e19_4yp_voluntary_comput.Sysinfo.{
  int_max, is_space, is_digit, skip_space, read_digits, scan, ulong_max,
}
use e19_4yp_voluntary_comput.Sysinfo.Proc.{value_or}

pub record CpuCoreUsage : Type 0 where
  pub user : ℕ
  pub nice : ℕ
  pub system : ℕ
  pub idle : ℕ
  pub iowait : ℕ
  pub irq : ℕ
  pub softirq : ℕ
  pub steal : ℕ
  pub guest : ℕ
  pub guest_nice : ℕ
  pub total : ℕ
  pub used : ℕ

-- `core_usage` is NULL or an array.
pub record CpuInfo : Type 0 where
  pub cpu_count : ℕ
  pub logical_processors : ℕ
  pub model : CString
  pub overall_usage : CpuCoreUsage
  pub core_usage : Option (List CpuCoreUsage)

abbrev pub no_usage : CpuCoreUsage
no_usage = record {
  user = 0;
  nice = 0;
  system = 0;
  idle = 0;
  iowait = 0;
  irq = 0;
  softirq = 0;
  steal = 0;
  guest = 0;
  guest_nice = 0;
  total = 0;
  used = 0;
}

abbrev pub unknown_cpu : CpuInfo
unknown_cpu = record {
  cpu_count = 0;
  logical_processors = 0;
  model = codes "Unknown";
  overall_usage = no_usage;
  core_usage = none;
}

-- `%[^\n]`
abbrev pub up_to_newline : CString → CString
up_to_newline [] = []
up_to_newline (c ∷ s) = if c == 10 then [] else c ∷ up_to_newline s

abbrev pub text_or : CString → CString → CString
text_or old [] = old
text_or old (c ∷ s) = c ∷ s

-- `sscanf(line, "model name : %[^\n]", model)`, for a line that starts with the name: white space, the
-- colon, and white space.
abbrev pub after_colon : CString → CString → CString
after_colon old [] = old
after_colon old (c ∷ s) = if c == b':' then text_or old (up_to_newline (skip_space s)) else old

abbrev pub model_of : CString → CString → CString
model_of old line = after_colon old (skip_space (drop 10 line))

-- A round of the loop: whether the lines are still those of the first processor, and what is known.
unfoldable pub cpu_line : CString → Bool × CpuInfo → Bool × CpuInfo
unfolding scan skip_space
cpu_line line (first, c) = (
  first && not (starts_with (codes "power management") line || str_eq line (10 ∷ [])),
  record c {
    logical_processors =
        if starts_with (codes "processor") line
        then c.logical_processors + 1
        else c.logical_processors;
    cpu_count =
        if first && starts_with (codes "cpu cores") line
        then value_or c.cpu_count (scan (codes "cpu cores : ") int_max line)
        else c.cpu_count;
    model =
        if first && starts_with (codes "model name") line then model_of c.model line else c.model;
  },
)

unfoldable pub cpu_lines : List CString → Bool × CpuInfo → CpuInfo
unfolding cpu_line
cpu_lines [] (first, c) = c
cpu_lines (line ∷ lines) c = cpu_lines lines (cpu_line line c)

-- `none` is a file that cannot be opened.
unfoldable pub get_cpu_info : Option (List CString) → CpuInfo
unfolding cpu_lines
get_cpu_info none = unknown_cpu
get_cpu_info (some lines) = cpu_lines lines (true, unknown_cpu)

-- The numbers of successive `%lu`, up to the first that is missing.
abbrev pub drop_digits : CString → CString
drop_digits [] = []
drop_digits (c ∷ s) = if is_digit c then drop_digits s else c ∷ s

abbrev pub starts_digit : CString → Bool
starts_digit [] = false
starts_digit (c ∷ s) = is_digit c

unfoldable pub scan_numbers : ℕ → CString → List ℕ
unfolding skip_space read_digits
scan_numbers zero s = []
scan_numbers (suc n) s =
    let digits = skip_space s in
    let more = scan_numbers n (drop_digits digits) in
    if starts_digit digits then min ulong_max (read_digits 0 digits) ∷ more else []

abbrev pub number_or : ℕ → List ℕ → ℕ → ℕ
number_or old ns i = value_or old (get_elem? ns i)

abbrev pub assign_numbers : List ℕ → CpuCoreUsage → CpuCoreUsage
assign_numbers ns u = record u {
  user = number_or u.user ns 0;
  nice = number_or u.nice ns 1;
  system = number_or u.system ns 2;
  idle = number_or u.idle ns 3;
  iowait = number_or u.iowait ns 4;
  irq = number_or u.irq ns 5;
  softirq = number_or u.softirq ns 6;
  steal = number_or u.steal ns 7;
  guest = number_or u.guest ns 8;
  guest_nice = number_or u.guest_nice ns 9;
}

-- Sums and differences of `unsigned long`s, which wrap around at 2^64; each subtrahend is below it.
unfoldable pub summed : CpuCoreUsage → CpuCoreUsage
summed u =
    let total =
      (u.user + u.nice + u.system + u.idle + u.iowait + u.irq + u.softirq + u.steal)
      % 18446744073709551616 in
    record u {
      total = total;
      used = (total + 2 * 18446744073709551616 - u.idle - u.iowait) % 18446744073709551616;
    }

-- The entry of a core; `none` as a whole is a write out of the array.
abbrev pub write_core :
    CpuInfo → ℕ → List ℕ → List CpuCoreUsage → Option CpuCoreUsage → Option (ℕ × CpuInfo)
unfolding summed
write_core c current ns cores none = none
write_core c current ns cores (some u) =
    some (
      current + 1,
      record c { core_usage = some (set cores current (summed (assign_numbers ns u))) },
    )

abbrev pub core_line : CpuInfo → ℕ → List ℕ → Option (List CpuCoreUsage) → Option (ℕ × CpuInfo)
unfolding write_core
core_line c current ns none = none
core_line c current ns (some cores) = write_core c current ns cores (get_elem? cores current)

-- A round of the loop, with the number of cores seen.
unfoldable pub usage_line : CString → ℕ → CpuInfo → Option (ℕ × CpuInfo)
unfolding core_line summed scan_numbers
usage_line line current c =
    if starts_with (codes "cpu ") line
    then some (
      current,
      record c {
        overall_usage = summed (assign_numbers (scan_numbers 10 (drop 3 line)) c.overall_usage);
      },
    )
    else if starts_with (codes "cpu") line
        && (starts_digit (drop 3 line) && ltb current c.logical_processors)
    then core_line c current (scan_numbers 10 (drop_digits (drop 3 line))) c.core_usage
    else some (current, c)

abbrev pub and_lines : Option (ℕ × CpuInfo) → (ℕ → CpuInfo → Option CpuInfo) → Option CpuInfo
and_lines none next = none
and_lines (some (current, c)) next = next current c

unfoldable pub usage_lines : List CString → ℕ → CpuInfo → Option CpuInfo
unfolding usage_line
usage_lines [] current c = some c
usage_lines (line ∷ lines) current c = and_lines (usage_line line current c) (usage_lines lines)

-- The file, and the array that `malloc` gives.
unfoldable pub get_cpu_usage :
    Option (List CString) → Option (List CpuCoreUsage) → CpuInfo → Option CpuInfo
unfolding usage_lines
get_cpu_usage none memory c = some c
get_cpu_usage (some lines) none c = some (record c { core_usage = none })
get_cpu_usage (some lines) (some cores) c =
    usage_lines lines 0 (record c { core_usage = some cores })
