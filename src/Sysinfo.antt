-- ===== src/Sysinfo.antt =====
-- src/uspacehelper/volcom_sysinfo/volcom_sysinfo.c: the configuration file, and what is read from
-- /proc/meminfo and /proc/cpuinfo.
-- A file is the list of what `fgets` gives: its lines, with their newlines. Of `sscanf` there is what
-- the formats here use: white space, literal characters and the conversion of a number, which has no
-- sign. The structs of the configuration are those of Rcsmngr.Files.
pub mod Numbers
pub mod Configuration
pub mod Proc
pub mod Memory
pub mod Cpu
mod Tests
use e19_4yp_voluntary_comput.Prelude.{
  ℕ, ◌+◌, ◌-◌, ◌*◌, ◌/◌, min, ap, Bool, true, false, not, ◌&&◌, ◌||◌, Option, none, some, List, [],
  ◌∷◌, ◌++◌, leb, ◌==◌, if◌then◌else◌, set, All, CString, codes, decimal,
}
use e19_4yp_voluntary_comput.Prelude.Int.{ℤ, pos, minus_one}
use e19_4yp_voluntary_comput.Rcsmngr.Files.{Config, MemConfig, CpuConfig}

abbrev pub is_space : ℕ → Bool
is_space c = c == 32 || (leb 9 c && leb c 13)

abbrev pub is_digit : ℕ → Bool
is_digit c = leb b'0' c && leb c b'9'

unfoldable pub skip_space : CString → CString
skip_space [] = []
skip_space (c ∷ s) = let rest = skip_space s in if is_space c then rest else c ∷ s

unfoldable pub read_digits : ℕ → CString → ℕ
read_digits n [] = n
read_digits n (c ∷ s) =
    let more = read_digits (n * 10 + (c - b'0')) s in if is_digit c then more else n

-- A conversion to a type with this largest value.
unfoldable pub read_number : ℕ → CString → Option ℕ
unfolding read_digits
read_number largest [] = none
read_number largest (c ∷ s) =
    if is_digit c then some (min largest (read_digits 0 (c ∷ s))) else none

-- The format up to its conversion, and then the conversion.
unfoldable pub scan : CString → ℕ → CString → Option ℕ
unfolding skip_space read_number
scan [] largest s = read_number largest (skip_space s)
scan (f ∷ format) largest [] =
    let rest = scan format largest [] in if is_space f then rest else none
scan (f ∷ format) largest (c ∷ s) =
    let spaces = scan format largest (skip_space (c ∷ s)) in
    let rest = scan format largest s in if is_space f then spaces else if f == c then rest else none

-- `ULONG_MAX` and `INT_MAX`
abbrev pub ulong_max : ℕ
ulong_max = 18446744073709551615

abbrev pub int_max : ℕ
int_max = 2147483647

abbrev pub set_mem : (MemConfig → MemConfig) → Config → Config
set_mem f c = record c { mem_config = f c.mem_config }

abbrev pub set_cpu : (CpuConfig → CpuConfig) → Config → Config
set_cpu f c = record c { cpu_config = f c.cpu_config }

-- The lines that hold a value: the format, the largest value, and where the value goes.
abbrev pub Field : Type 0
Field = CString × ℕ × (ℕ → Config → Config)

abbrev pub memory_max : Field
memory_max = (
  codes "Memory Size (Max): ",
  ulong_max,
  λ n. set_mem (λ m. record m { allocated_memory_size_max = n }),
)

abbrev pub memory_high : Field
memory_high = (
  codes "Memory Size (High): ",
  ulong_max,
  λ n. set_mem (λ m. record m { allocated_memory_size_high = n }),
)

abbrev pub swap_max : Field
swap_max = (
  codes "Swap Memory Size (Max): ",
  ulong_max,
  λ n. set_mem (λ m. record m { allocated_swap_memory_size_max = n }),
)

abbrev pub swap_high : Field
swap_high = (
  codes "Swap Memory Size (High): ",
  ulong_max,
  λ n. set_mem (λ m. record m { allocated_swap_memory_size_high = n }),
)

abbrev pub oom_protection : Field
oom_protection = (
  codes "Memory OOM Protection: ",
  int_max,
  λ n. set_mem (λ m. record m { memory_oom_protection = n }),
)

abbrev pub processors : Field
processors = (
  codes "Allocated Logical Processors: ",
  int_max,
  λ n. set_cpu (λ m. record m { allocated_logical_processors = n }),
)

abbrev pub cpu_share : Field
cpu_share = (
  codes "Allocated CPU Share: ",
  int_max,
  λ n. set_cpu (λ m. record m { allocated_cpu_share = n }),
)

abbrev pub fields : List Field
fields =
    memory_max ∷ memory_high ∷ swap_max ∷ swap_high ∷ oom_protection ∷ processors ∷ cpu_share ∷ []

-- A line is that of the first field whose format it matches.
abbrev pub stored : (ℕ → Config → Config) → Config → Option ℕ → Config → Config
stored store c none later = later
stored store c (some n) later = store n c

unfoldable pub read_line : List Field → CString → Config → Config
unfolding scan
read_line [] line c = c
read_line ((format, largest, store) ∷ more) line c =
    stored store c (scan format largest line) (read_line more line c)

unfoldable pub read_lines : List CString → Config → Config
unfolding read_line
read_lines [] c = c
read_lines (line ∷ lines) c = read_lines lines (read_line fields line c)

abbrev pub or_default : ℕ → ℕ → ℕ
or_default default n = if n == 0 then default else n

-- 1 GB and 512 MB, in kB.
abbrev pub with_defaults : Config → Config
with_defaults c = record {
  mem_config = record {
    allocated_memory_size_max = or_default 1048576 c.mem_config.allocated_memory_size_max;
    allocated_memory_size_high = or_default 524288 c.mem_config.allocated_memory_size_high;
    allocated_swap_memory_size_max = or_default 1048576 c.mem_config.allocated_swap_memory_size_max;
    allocated_swap_memory_size_high =
        or_default 524288 c.mem_config.allocated_swap_memory_size_high;
    memory_oom_protection = or_default 1 c.mem_config.memory_oom_protection;
  };
  cpu_config = record {
    allocated_logical_processors = or_default 1 c.cpu_config.allocated_logical_processors;
    allocated_cpu_share = or_default 1024 c.cpu_config.allocated_cpu_share;
  };
}

abbrev pub no_config : Config
no_config = record {
  mem_config = record {
    allocated_memory_size_max = 0;
    allocated_memory_size_high = 0;
    allocated_swap_memory_size_max = 0;
    allocated_swap_memory_size_high = 0;
    memory_oom_protection = 0;
  };
  cpu_config = record { allocated_logical_processors = 0; allocated_cpu_share = 0 };
}

-- `none` is a file that cannot be opened: then there are no defaults.
unfoldable pub load_config : Option (List CString) → Config
unfolding read_lines
load_config none = no_config
load_config (some lines) = with_defaults (read_lines lines no_config)

abbrev pub newline : CString
newline = 10 ∷ []

abbrev pub kilobytes : CString → ℕ → CString
kilobytes name n = name ++ (decimal n ++ (codes " kB" ++ newline))

abbrev pub plain : CString → ℕ → CString
plain name n = name ++ (decimal n ++ newline)

abbrev pub heading : CString → CString
heading name = name ++ newline

abbrev pub rule : CString
rule = heading (codes "----------------------")

-- The lines that `save_config` writes.
unfoldable pub config_lines : Config → List CString
config_lines c =
    heading (codes "System Configuration:")
    ∷ rule
    ∷ newline
    ∷ heading (codes "Memory Configuration:")
    ∷ rule
    ∷ kilobytes (codes "Memory Size (Max): ") c.mem_config.allocated_memory_size_max
    ∷ kilobytes (codes "Memory Size (High): ") c.mem_config.allocated_memory_size_high
    ∷ kilobytes (codes "Swap Memory Size (Max): ") c.mem_config.allocated_swap_memory_size_max
    ∷ kilobytes (codes "Swap Memory Size (High): ") c.mem_config.allocated_swap_memory_size_high
    ∷ plain (codes "Memory OOM Protection: ") c.mem_config.memory_oom_protection
    ∷ newline
    ∷ heading (codes "CPU Configuration:")
    ∷ rule
    ∷ plain (codes "Allocated Logical Processors: ") c.cpu_config.allocated_logical_processors
    ∷ plain (codes "Allocated CPU Share: ") c.cpu_config.allocated_cpu_share
    ∷ []

-- The result, and the file where it can be opened.
unfoldable pub save_config : Bool → Config → ℤ × Option (List CString)
unfolding config_lines
save_config false c = (minus_one, none)
save_config true c = (pos 0, some (config_lines c))
