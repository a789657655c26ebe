-- ===== src/Sysinfo/Configuration.antt =====
-- What `load_config` of volcom_sysinfo.c makes of a file that `save_config` has written.
use e19_4yp_voluntary_comput.Prelude.{
  ℕ, zero, suc, ◌*◌, ◌≤◌, ◌≡◌, refl, ap, ◌∙◌, true, false, some, List, ◌∷◌, ◌++◌, arith, ◌==◌, drop,
  CString, codes,
}
use e19_4yp_voluntary_comput.Rcsmngr.Files.{Config}
use e19_4yp_voluntary_comput.Sysinfo.{
  or_default, with_defaults, pos, load_config, save_config, ulong_max, int_max, Field, memory_max,
  memory_high, swap_max, swap_high, oom_protection, processors, cpu_share, fields, stored,
  read_line, read_lines, scan, no_config, kilobytes, plain, newline, config_lines,
}
use e19_4yp_voluntary_comput.Sysinfo.Numbers.{read_number-decimal}

-- The values that the file's formats can carry.
pub record FitsFile (c : Config) : Type 0 where
  pub memory_max_fits : c.mem_config.allocated_memory_size_max ≤ ulong_max
  pub memory_high_fits : c.mem_config.allocated_memory_size_high ≤ ulong_max
  pub swap_max_fits : c.mem_config.allocated_swap_memory_size_max ≤ ulong_max
  pub swap_high_fits : c.mem_config.allocated_swap_memory_size_high ≤ ulong_max
  pub oom_fits : c.mem_config.memory_oom_protection ≤ int_max
  pub processors_fit : c.cpu_config.allocated_logical_processors ≤ int_max
  pub share_fits : c.cpu_config.allocated_cpu_share ≤ int_max

field_found :
    (f : Field) (more : List Field) (line : CString) (n : ℕ) (c : Config)
    → scan f.0 f.1 line ≡ some n
    → read_line (f ∷ more) line c ≡ f.2 n c
unfolding read_line
field_found f more line n c h = ap (λ o. stored f.2 c o (read_line more line c)) h

memory_max_line :
    (n : ℕ) (c : Config)
    → n ≤ ulong_max
    → read_line fields (kilobytes (codes "Memory Size (Max): ") n) c ≡ memory_max.2 n c
unfolding read_line scan
memory_max_line n c h =
    field_found memory_max (drop 1 fields) (kilobytes (codes "Memory Size (Max): ") n) n c
      (read_number-decimal ulong_max n (codes " kB" ++ newline) h refl)

memory_high_line :
    (n : ℕ) (c : Config)
    → n ≤ ulong_max
    → read_line fields (kilobytes (codes "Memory Size (High): ") n) c ≡ memory_high.2 n c
unfolding read_line scan
memory_high_line n c h =
    field_found memory_high (drop 2 fields) (kilobytes (codes "Memory Size (High): ") n) n c
      (read_number-decimal ulong_max n (codes " kB" ++ newline) h refl)

swap_max_line :
    (n : ℕ) (c : Config)
    → n ≤ ulong_max
    → read_line fields (kilobytes (codes "Swap Memory Size (Max): ") n) c ≡ swap_max.2 n c
unfolding read_line scan
swap_max_line n c h =
    field_found swap_max (drop 3 fields) (kilobytes (codes "Swap Memory Size (Max): ") n) n c
      (read_number-decimal ulong_max n (codes " kB" ++ newline) h refl)

swap_high_line :
    (n : ℕ) (c : Config)
    → n ≤ ulong_max
    → read_line fields (kilobytes (codes "Swap Memory Size (High): ") n) c ≡ swap_high.2 n c
unfolding read_line scan
swap_high_line n c h =
    field_found swap_high (drop 4 fields) (kilobytes (codes "Swap Memory Size (High): ") n) n c
      (read_number-decimal ulong_max n (codes " kB" ++ newline) h refl)

oom_protection_line :
    (n : ℕ) (c : Config)
    → n ≤ int_max
    → read_line fields (plain (codes "Memory OOM Protection: ") n) c ≡ oom_protection.2 n c
unfolding read_line scan
oom_protection_line n c h =
    field_found oom_protection (drop 5 fields) (plain (codes "Memory OOM Protection: ") n) n c
      (read_number-decimal int_max n newline h refl)

processors_line :
    (n : ℕ) (c : Config)
    → n ≤ int_max
    → read_line fields (plain (codes "Allocated Logical Processors: ") n) c ≡ processors.2 n c
unfolding read_line scan
processors_line n c h =
    field_found processors (drop 6 fields) (plain (codes "Allocated Logical Processors: ") n) n c
      (read_number-decimal int_max n newline h refl)

cpu_share_line :
    (n : ℕ) (c : Config)
    → n ≤ int_max
    → read_line fields (plain (codes "Allocated CPU Share: ") n) c ≡ cpu_share.2 n c
unfolding read_line scan
cpu_share_line n c h =
    field_found cpu_share (drop 7 fields) (plain (codes "Allocated CPU Share: ") n) n c
      (read_number-decimal int_max n newline h refl)

-- The lines of the file, one value after the other.
read_lines-config_lines : (c : Config) → FitsFile c → read_lines (config_lines c) no_config ≡ c
unfolding read_lines config_lines read_line scan
read_lines-config_lines c h =
    let m = c.mem_config in
    let p = c.cpu_config in
    let lines = config_lines c in
    let c1 = memory_max.2 m.allocated_memory_size_max no_config in
    let c2 = memory_high.2 m.allocated_memory_size_high c1 in
    let c3 = swap_max.2 m.allocated_swap_memory_size_max c2 in
    let c4 = swap_high.2 m.allocated_swap_memory_size_high c3 in
    let c5 = oom_protection.2 m.memory_oom_protection c4 in
    let c6 = processors.2 p.allocated_logical_processors c5 in
    ap (read_lines (drop 6 lines))
      (memory_max_line m.allocated_memory_size_max no_config h.memory_max_fits)
    ∙ ap (read_lines (drop 7 lines))
        (memory_high_line m.allocated_memory_size_high c1 h.memory_high_fits)
    ∙ ap (read_lines (drop 8 lines))
        (swap_max_line m.allocated_swap_memory_size_max c2 h.swap_max_fits)
    ∙ ap (read_lines (drop 9 lines))
        (swap_high_line m.allocated_swap_memory_size_high c3 h.swap_high_fits)
    ∙ ap (read_lines (drop 10 lines)) (oom_protection_line m.memory_oom_protection c4 h.oom_fits)
    ∙ ap (read_lines (drop 14 lines))
        (processors_line p.allocated_logical_processors c5 h.processors_fit)
    ∙ ap (read_lines (drop 15 lines)) (cpu_share_line p.allocated_cpu_share c6 h.share_fits)

-- A value that the file holds, or this default for 0.
abbrev pub unless_zero : ℕ → ℕ → ℕ
unless_zero zero default = default
unless_zero (suc n) default = suc n

-- The configuration with 1 GB and 512 MB, in kB, of memory and of swap, the protection on, one processor
-- and a share of 1024 in place of what is 0.
abbrev pub completed : Config → Config
completed c = record {
  mem_config = record {
    allocated_memory_size_max = unless_zero c.mem_config.allocated_memory_size_max (1024 * 1024);
    allocated_memory_size_high = unless_zero c.mem_config.allocated_memory_size_high (512 * 1024);
    allocated_swap_memory_size_max =
        unless_zero c.mem_config.allocated_swap_memory_size_max (1024 * 1024);
    allocated_swap_memory_size_high =
        unless_zero c.mem_config.allocated_swap_memory_size_high (512 * 1024);
    memory_oom_protection = unless_zero c.mem_config.memory_oom_protection 1;
  };
  cpu_config = record {
    allocated_logical_processors = unless_zero c.cpu_config.allocated_logical_processors 1;
    allocated_cpu_share = unless_zero c.cpu_config.allocated_cpu_share 1024;
  };
}

or_default-unless_zero : (default n : ℕ) → or_default default n ≡ unless_zero n default
or_default-unless_zero default zero = refl
or_default-unless_zero default (suc n) =
    let positive : (suc n == 0) ≡ false = ground arith in rw positive refl

with_defaults-completed : (c : Config) → with_defaults c ≡ completed c
with_defaults-completed c =
    let m = c.mem_config in
    let p = c.cpu_config in
    rw
      (
        or_default-unless_zero 1048576 m.allocated_memory_size_max,
        or_default-unless_zero 524288 m.allocated_memory_size_high,
        or_default-unless_zero 1048576 m.allocated_swap_memory_size_max,
        or_default-unless_zero 524288 m.allocated_swap_memory_size_high,
        or_default-unless_zero 1 m.memory_oom_protection,
        or_default-unless_zero 1 p.allocated_logical_processors,
        or_default-unless_zero 1024 p.allocated_cpu_share,
      )
      refl

-- A configuration with no value below 0, whose values the file's formats can carry, saved where the file can be opened: the
-- result is 0, and `load_config` of the file gives the same configuration, but for the values
-- that are 0: they become 1048576 kB for a largest size, 524288 kB for a high one, 1 for the memory
-- protection and the processors, and 1024 for the share. (So a memory protection that is off comes back as on.)
pub load_config-save_config :
    (c : Config)
    → FitsFile c
    → ((save_config true c).0 ≡ pos 0) × (load_config (save_config true c).1 ≡ completed c)
unfolding save_config load_config
load_config-save_config c h =
    (refl, ap with_defaults (read_lines-config_lines c h) ∙ with_defaults-completed c)
