-- ===== src/Sysinfo/Cpu/Usage.antt =====
-- `get_cpu_usage` of volcom_sysinfo.c stays within its array.
use e19_4yp_voluntary_comput.Prelude.{
  ℕ, ◌+◌, ◌%◌, ◌<◌, ◌≡◌, refl, ap, ◌∙◌, Bool, true, false, ◌&&◌, Option, some, List, [], ◌∷◌, arith,
  ltb, if◌then◌else◌, length, set, drop, length-set, get_elem?-some, CString, codes, starts_with,
}
use e19_4yp_voluntary_comput.Sysinfo.Cpu.{
  CpuCoreUsage, CpuInfo, scan_numbers, assign_numbers, summed, write_core, core_line, usage_line,
  and_lines, usage_lines, drop_digits, starts_digit, get_cpu_usage,
}

-- What has an entry for each logical processor.
abbrev pub HasCores : CpuInfo → Type 0
HasCores c =
    (cores : List CpuCoreUsage) × (c.core_usage ≡ some cores)
    × (length cores ≡ c.logical_processors)

abbrev Reaches : (A : Type 0) → (A → CpuInfo) → Option A → Type 0
Reaches A info r = (a : A) × (r ≡ some a) × HasCores (info a)

either :
    (b : Bool) (x y : Option (ℕ × CpuInfo))
    → (b ≡ true → Reaches (ℕ × CpuInfo) (λ r. r.1) x)
    → Reaches (ℕ × CpuInfo) (λ r. r.1) y
    → Reaches (ℕ × CpuInfo) (λ r. r.1) (if b then x else y)
either true x y hx hy = hx refl
either false x y hx hy = hy

core_line-HasCores :
    (c : CpuInfo) (current : ℕ) (ns : List ℕ) (cores : List CpuCoreUsage)
    → c.core_usage ≡ some cores
    → length cores ≡ c.logical_processors
    → current < c.logical_processors
    → Reaches (ℕ × CpuInfo) (λ r. r.1) (core_line c current ns c.core_usage)
unfolding core_line write_core
core_line-HasCores c current ns cores hc hl h =
    let (u, found) = get_elem?-some cores current (omega (arith, hl, h)) in
    let cores' = set cores current (summed (assign_numbers ns u)) in
    (
      (current + 1, record c { core_usage = some cores' }),
      ap (core_line c current ns) hc ∙ ap (write_core c current ns cores) found,
      (cores', refl, length-set cores current _ ∙ hl),
    )

in_range : (a b : Bool) (m n : ℕ) → (a && (b && ltb m n)) ≡ true → m < n
in_range a b m n h = ground (arith, h)

usage_line-HasCores :
    (line : CString) (current : ℕ) (c : CpuInfo)
    → HasCores c
    → Reaches (ℕ × CpuInfo) (λ r. r.1) (usage_line line current c)
unfolding usage_line
usage_line-HasCores line current c (cores, hc, hl) =
    either (starts_with (codes "cpu ") line) _ _ (λ q. (_, refl, (cores, hc, hl)))
      (either
        (starts_with (codes "cpu") line
          && (starts_digit (drop 3 line) && ltb current c.logical_processors))
        _ _
        (λ q.
          core_line-HasCores c current (scan_numbers 10 (drop_digits (drop 3 line))) cores hc hl
            (in_range _ _ current c.logical_processors q))
        ((current, c), refl, (cores, hc, hl)))

usage_lines-HasCores :
    (lines : List CString) (current : ℕ) (c : CpuInfo)
    → HasCores c
    → Reaches CpuInfo (λ c. c) (usage_lines lines current c)
unfolding usage_lines
usage_lines-HasCores [] current c h = (c, refl, h)
usage_lines-HasCores (line ∷ lines) current c h =
    let (r, e, h') = usage_line-HasCores line current c h in
    let (c', e', h'') = usage_lines-HasCores lines r.0 r.1 h' in
    (c', ap (λ o. and_lines o (usage_lines lines)) e ∙ e', h'')

-- Whatever the lines of /proc/stat are, and whatever the array that `malloc` gives holds, if it has an
-- entry for each logical processor, `get_cpu_usage` writes nothing out of it, and gives it with as
-- many entries.
pub get_cpu_usage-HasCores :
    (lines : List CString) (cores : List CpuCoreUsage) (c : CpuInfo)
    → length cores ≡ c.logical_processors
    → (c' : CpuInfo) × (get_cpu_usage (some lines) (some cores) c ≡ some c') × HasCores c'
unfolding get_cpu_usage
get_cpu_usage-HasCores lines cores c h =
    usage_lines-HasCores lines 0 (record c { core_usage = some cores }) (cores, refl, h)

-- The time in use of a core is the sum of its counters other than `idle` and `iowait`, as an
-- `unsigned long`, also where the sum of all has wrapped around.
pub summed-used :
    (u : CpuCoreUsage)
    → u.idle < 18446744073709551616
    → u.iowait < 18446744073709551616
    → (summed u).used
      ≡ (u.user + u.nice + u.system + u.irq + u.softirq + u.steal) % 18446744073709551616
unfolding summed
summed-used u hi hw = omega arith
