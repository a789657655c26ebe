-- ===== src/Sysinfo/Memory.antt =====
-- What `get_memory_info` of volcom_sysinfo.c finds: each value by its own format.
use e19_4yp_voluntary_comput.Prelude.{
  ℕ, ◌≡◌, refl, sym, ap, ◌∙◌, inl, inr, Bool, true, false, not, ◌&&◌, Option, none, some, List, [],
  ◌∷◌, ◌++◌, arith, ◌==◌, if◌then◌else◌, Bool-cases, CString, starts_with,
}
use e19_4yp_voluntary_comput.Sysinfo.{is_space, ulong_max, scan, skip_space}
use e19_4yp_voluntary_comput.Sysinfo.Proc.{
  MemoryInfo, no_memory_info, value_or, scan_value, mem_total, mem_free, mem_buffers, mem_cached,
  swap_total_name, swap_free_name, memory_line, memory_lines, get_memory_info,
}

-- The values of the lines that a format matches, and the last of them, or 0.
abbrev with_value : Option ℕ → List ℕ → List ℕ
with_value none ns = ns
with_value (some n) ns = n ∷ ns

abbrev pub values : CString → List CString → List ℕ
values name [] = []
values name (line ∷ lines) = with_value (scan (name ++ 32 ∷ []) ulong_max line) (values name lines)

abbrev pub last_or : ℕ → List ℕ → ℕ
last_or n [] = n
last_or n (x ∷ xs) = last_or x xs

abbrev pub last_value : CString → List CString → ℕ
last_value name lines = last_or 0 (values name lines)

-- The round of the loop with each value on its own.
abbrev each_value : CString → MemoryInfo → MemoryInfo
each_value line m = record {
  total = scan_value mem_total line m.total;
  free = scan_value mem_free line m.free;
  buffers = scan_value mem_buffers line m.buffers;
  cached = scan_value mem_cached line m.cached;
  swap_total = scan_value swap_total_name line m.swap_total;
  swap_free = scan_value swap_free_name line m.swap_free;
}

starts_with-rest :
    (name line : CString) → starts_with name line ≡ true → (rest : CString) × (line ≡ name ++ rest)
starts_with-rest [] line h = (line, refl)
starts_with-rest (c ∷ name) [] h = ground (arith, h)
starts_with-rest (c ∷ name) (d ∷ line) h =
    let (rest, e) = starts_with-rest name line (ground (arith, h)) in
    let same : c ≡ d = ground (arith, h) in
    (rest, ap (d ∷◌) e ∙ ap (λ x. x ∷ name ++ rest) (sym same))

abbrev no_space_in : CString → Bool
no_space_in [] = true
no_space_in (c ∷ name) = not (is_space c) && no_space_in name

no_space_first :
    (c : ℕ) (name : CString)
    → no_space_in (c ∷ name) ≡ true
    → (is_space c ≡ false) × (no_space_in name ≡ true)
no_space_first c name h = (ground (arith, h), ground (arith, h))

-- A format that starts with literal characters matches no line that does not start with them.
scan-none :
    (name format : CString) (largest : ℕ) (line : CString)
    → no_space_in name ≡ true
    → starts_with name line ≡ false
    → scan (name ++ format) largest line ≡ none
unfolding scan
scan-none [] format largest line h e = ground (arith, e)
scan-none (c ∷ name) format largest [] h e =
    ap (λ b. if b then scan (name ++ format) largest [] else none) (no_space_first c name h).0
scan-none (c ∷ name) format largest (d ∷ line) h e =
    ap
      (λ b.
        if b
        then scan (name ++ format) largest (skip_space (d ∷ line))
        else if c == d
        then scan (name ++ format) largest line
        else none)
      (no_space_first c name h).0
    ∙ elim (Bool-cases (c == d)) [
      | inl same ↦
          ap (λ b. if b then scan (name ++ format) largest line else none) same
          ∙ scan-none name format largest line (no_space_first c name h).1 (ground (arith, e, same))
      | inr other ↦ ap (λ b. if b then scan (name ++ format) largest line else none) other
    ]

unmatched :
    (name line : CString) (old : ℕ)
    → no_space_in name ≡ true
    → starts_with name line ≡ false
    → scan_value name line old ≡ old
unfolding scan_value
unmatched name line old h e = ap (value_or old) (scan-none name (32 ∷ []) ulong_max line h e)

matched :
    (name line : CString) (m : MemoryInfo)
    → ((rest : CString) → memory_line (name ++ rest) m ≡ each_value (name ++ rest) m)
    → starts_with name line ≡ true
    → memory_line line m ≡ each_value line m
matched name line m h e =
    let (rest, same) = starts_with-rest name line e in
    ap (λ l. memory_line l m) same ∙ h rest ∙ ap (λ l. each_value l m) (sym same)

-- A line that starts with none of the names.
no_line :
    (line : CString) (m : MemoryInfo)
    → starts_with mem_total line ≡ false
    → starts_with mem_free line ≡ false
    → starts_with mem_buffers line ≡ false
    → starts_with mem_cached line ≡ false
    → starts_with swap_total_name line ≡ false
    → starts_with swap_free_name line ≡ false
    → memory_line line m ≡ each_value line m
unfolding memory_line
no_line line m t f b c st sf = rw t (
    rw f (
      rw b (
        rw c (
          rw st (
            rw sf (
              rw (unmatched mem_total line m.total refl t) (
                rw (unmatched mem_free line m.free refl f) (
                  rw (unmatched mem_buffers line m.buffers refl b) (
                    rw (unmatched mem_cached line m.cached refl c) (
                      rw (unmatched swap_total_name line m.swap_total refl st)
                        (rw (unmatched swap_free_name line m.swap_free refl sf) refl)))))))))))

memory_line-each_value : (line : CString) (m : MemoryInfo) → memory_line line m ≡ each_value line m
unfolding memory_line scan_value scan
memory_line-each_value line m = elim (Bool-cases (starts_with mem_total line)) [
  | inl y ↦ matched mem_total line m (λ rest. refl) y
  | inr t ↦ elim (Bool-cases (starts_with mem_free line)) [
    | inl y ↦ matched mem_free line m (λ rest. refl) y
    | inr f ↦ elim (Bool-cases (starts_with mem_buffers line)) [
      | inl y ↦ matched mem_buffers line m (λ rest. refl) y
      | inr b ↦ elim (Bool-cases (starts_with mem_cached line)) [
        | inl y ↦ matched mem_cached line m (λ rest. refl) y
        | inr c ↦ elim (Bool-cases (starts_with swap_total_name line)) [
          | inl y ↦ matched swap_total_name line m (λ rest. refl) y
          | inr st ↦ elim (Bool-cases (starts_with swap_free_name line)) [
            | inl y ↦ matched swap_free_name line m (λ rest. refl) y
            | inr sf ↦ no_line line m t f b c st sf
          ]
        ]
      ]
    ]
  ]
]

last_with :
    (o : Option ℕ) (ns : List ℕ) (old : ℕ)
    → last_or old (with_value o ns) ≡ last_or (value_or old o) ns
last_with none ns old = refl
last_with (some n) ns old = refl

last_value-line :
    (name line : CString) (lines : List CString) (old : ℕ)
    → last_or old (values name (line ∷ lines))
      ≡ last_or (scan_value name line old) (values name lines)
unfolding scan_value
last_value-line name line lines old =
    last_with (scan (name ++ 32 ∷ []) ulong_max line) (values name lines) old

-- The values of the lines, behind those of `m`.
abbrev behind : List CString → MemoryInfo → MemoryInfo
behind lines m = record {
  total = last_or m.total (values mem_total lines);
  free = last_or m.free (values mem_free lines);
  buffers = last_or m.buffers (values mem_buffers lines);
  cached = last_or m.cached (values mem_cached lines);
  swap_total = last_or m.swap_total (values swap_total_name lines);
  swap_free = last_or m.swap_free (values swap_free_name lines);
}

behind_line :
    (line : CString) (lines : List CString) (m : MemoryInfo)
    → behind lines (each_value line m) ≡ behind (line ∷ lines) m
behind_line line lines m = λ i. record {
  total = sym (last_value-line mem_total line lines m.total) i;
  free = sym (last_value-line mem_free line lines m.free) i;
  buffers = sym (last_value-line mem_buffers line lines m.buffers) i;
  cached = sym (last_value-line mem_cached line lines m.cached) i;
  swap_total = sym (last_value-line swap_total_name line lines m.swap_total) i;
  swap_free = sym (last_value-line swap_free_name line lines m.swap_free) i;
}

memory_lines-behind :
    (lines : List CString) (m : MemoryInfo) → memory_lines lines m ≡ behind lines m
unfolding memory_lines
memory_lines-behind [] m = refl
memory_lines-behind (line ∷ lines) m =
    ap (memory_lines lines) (memory_line-each_value line m)
    ∙ memory_lines-behind lines (each_value line m)
    ∙ behind_line line lines m

-- Whatever the lines of /proc/meminfo are, each value that `get_memory_info` gives is the last number
-- that its own format reads from any of the lines, or 0 if there is none: the order of its tests, and
-- the lines of the other values, do not matter.
pub get_memory_info-last_value :
    (lines : List CString)
    → get_memory_info (some lines) ≡ record {
      total = last_value mem_total lines;
      free = last_value mem_free lines;
      buffers = last_value mem_buffers lines;
      cached = last_value mem_cached lines;
      swap_total = last_value swap_total_name lines;
      swap_free = last_value swap_free_name lines;
    }
unfolding get_memory_info
get_memory_info-last_value lines = memory_lines-behind lines no_memory_info
