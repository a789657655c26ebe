-- ===== src/Sysinfo/Proc.antt =====
-- `get_memory_info` and `get_cpu_info` of volcom_sysinfo.c over the lines of /proc/meminfo and
-- /proc/cpuinfo, and `calculate_memory_usage_percent` up to its division.
use e19_4yp_voluntary_comput.Prelude.{
  ℕ, Option, none, some, List, [], ◌∷◌, ◌++◌, if◌then◌else◌, CString, codes, starts_with,
}
use e19_4yp_voluntary_comput.Sysinfo.{ulong_max, scan}

pub record MemoryInfo : Type 0 where
  pub total : ℕ
  pub free : ℕ
  pub buffers : ℕ
  pub cached : ℕ
  pub swap_total : ℕ
  pub swap_free : ℕ

abbrev pub no_memory_info : MemoryInfo
no_memory_info = record {
  total = 0;
  free = 0;
  buffers = 0;
  cached = 0;
  swap_total = 0;
  swap_free = 0;
}

-- The value of a line, or the one before where the conversion fails.
abbrev pub value_or : ℕ → Option ℕ → ℕ
value_or old none = old
value_or old (some n) = n

-- `sscanf(line, "<name>: %lu kB", &value)`
unfoldable pub scan_value : CString → CString → ℕ → ℕ
unfolding scan
scan_value name line old = value_or old (scan (name ++ 32 ∷ []) ulong_max line)

abbrev pub mem_total : CString
mem_total = codes "MemTotal:"

abbrev pub mem_free : CString
mem_free = codes "MemFree:"

abbrev pub mem_buffers : CString
mem_buffers = codes "Buffers:"

abbrev pub mem_cached : CString
mem_cached = codes "Cached:"

abbrev pub swap_total_name : CString
swap_total_name = codes "SwapTotal:"

abbrev pub swap_free_name : CString
swap_free_name = codes "SwapFree:"

-- A round of the loop.
unfoldable pub memory_line : CString → MemoryInfo → MemoryInfo
unfolding scan_value
memory_line line m =
    if starts_with mem_total line
    then record m { total = scan_value mem_total line m.total }
    else if starts_with mem_free line
    then record m { free = scan_value mem_free line m.free }
    else if starts_with mem_buffers line
    then record m { buffers = scan_value mem_buffers line m.buffers }
    else if starts_with mem_cached line
    then record m { cached = scan_value mem_cached line m.cached }
    else if starts_with swap_total_name line
    then record m { swap_total = scan_value swap_total_name line m.swap_total }
    else if starts_with swap_free_name line
    then record m { swap_free = scan_value swap_free_name line m.swap_free }
    else m

unfoldable pub memory_lines : List CString → MemoryInfo → MemoryInfo
unfolding memory_line
memory_lines [] m = m
memory_lines (line ∷ lines) m = memory_lines lines (memory_line line m)

-- `none` is a file that cannot be opened.
unfoldable pub get_memory_info : Option (List CString) → MemoryInfo
unfolding memory_lines
get_memory_info none = no_memory_info
get_memory_info (some lines) = memory_lines lines no_memory_info
