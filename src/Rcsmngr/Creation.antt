-- ===== src/Rcsmngr/Creation.antt =====
-- What `volcom_create_main_cgroup` of volcom_rcsmngr.c writes.
use e19_4yp_voluntary_comput.Prelude.{
  ℕ, zero, suc, ◌*◌, ◌%◌, ◌^◌, ◌≤◌, ◌≡◌, refl, ap, ◌∙◌, Bool, true, false, not, ◌&&◌, [], ◌∷◌, ◌++◌,
  arith, ltb, ◌==◌, if◌then◌else◌, CString, codes, decimal,
}
use e19_4yp_voluntary_comput.Prelude.{suc, zero}
use e19_4yp_voluntary_comput.Rcsmngr.Files.{
  System, done, failed, Writes, Config, join_path, cpu_max_text, set_memory_limit, set_cpu_limit,
  enable_controllers, words_from, enable_each,
}
use e19_4yp_voluntary_comput.Rcsmngr.Manager.{Manager, limit_main, create_main_cgroup, kib}

-- A system on which every call succeeds.
abbrev pub permissive : System
permissive = record {
  cgroup_v2 = true;
  mkdir = λ path. true;
  rmdir = λ path. true;
  can_open = λ path. true;
  can_write = λ path text. true;
  malloc = λ request. true;
}

-- The quota of some processors in a period of 100000 microseconds.
abbrev pub quota : ℕ → CString
quota n = if n == 0 then codes "max 100000\n" else decimal (n * 100000) ++ codes " 100000\n"

quota-fits : (n : ℕ) → n ≤ 21474 → cpu_max_text n ≡ quota n
quota-fits zero h = refl
quota-fits (suc n) h =
    let positive : (suc n == 0) ≡ false = ground arith in
    let fits : ltb (suc n * 100000 % 2 ^ 32) (2 ^ 31) ≡ true = ground (arith, h) in
    let whole : suc n * 100000 % 2 ^ 32 ≡ suc n * 100000 = omega (arith, h) in
    rw (positive, fits, whole) refl

-- The five writes: the memory limit, the weight and the quota of the processor, and the two
-- controllers.
abbrev pub limits_with : CString → ℕ → ℕ → CString → Writes
limits_with path memory share quota =
    (join_path path (codes "memory.max"), decimal memory ++ codes "\n")
    ∷ (join_path path (codes "cpu.weight"), decimal share ++ codes "\n")
    ∷ (join_path path (codes "cpu.max"), quota)
    ∷ (join_path path (codes "cgroup.subtree_control"), codes "+memory")
    ∷ (join_path path (codes "cgroup.subtree_control"), codes "+cpu")
    ∷ []

-- Those of a configuration: the memory in bytes, in 64 bits, and the whole time of each processor.
abbrev pub main_limits : CString → Config → Writes
main_limits path c =
    limits_with path (1024 * c.mem_config.allocated_memory_size_max % 18446744073709551616)
      c.cpu_config.allocated_cpu_share (quota c.cpu_config.allocated_logical_processors)

-- As the code computes them.
abbrev written_limits : CString → Config → Writes
written_limits path c =
    limits_with path (kib c.mem_config.allocated_memory_size_max) c.cpu_config.allocated_cpu_share
      (cpu_max_text c.cpu_config.allocated_logical_processors)

written_limits-main_limits :
    (path : CString) (c : Config)
    → c.cpu_config.allocated_logical_processors ≤ 21474
    → written_limits path c ≡ main_limits path c
written_limits-main_limits path c h =
    let m = c.mem_config.allocated_memory_size_max in
    let bytes : kib m ≡ 1024 * m % 18446744073709551616 =
      ap (λ k. k % 18446744073709551616) (omega arith) in
    ap
      (λ k.
        limits_with path k c.cpu_config.allocated_cpu_share
          (cpu_max_text c.cpu_config.allocated_logical_processors))
      bytes
    ∙ ap (limits_with path (1024 * m % 18446744073709551616) c.cpu_config.allocated_cpu_share)
        (quota-fits c.cpu_config.allocated_logical_processors h)

abbrev flagged : Manager → Bool → Bool → Manager
flagged m initialized created = record m {
  is_initialized = initialized;
  main_cgroup = record m.main_cgroup { is_created = created };
}

create_flagged :
    (m : Manager) (c : Config) (initialized created : Bool)
    → create_main_cgroup permissive (flagged m initialized created) c ≡ (
        if initialized && not created
        then (done, flagged m initialized true, written_limits m.main_cgroup.path c)
        else (failed, flagged m initialized created, []))
unfolding create_main_cgroup limit_main set_memory_limit set_cpu_limit enable_controllers words_from
    enable_each
create_flagged m c false created = refl
create_flagged m c true true = refl
create_flagged m c true false = refl

-- Where every call of the system succeeds, for a configuration with at most 21474 processors and no value
-- below 0: volcom_create_main_cgroup succeeds exactly for an initialised manager whose main cgroup
-- is not created. It then writes the memory's limit in bytes, 1024 for each unit of the configuration
-- (modulo 2^64), the share as the weight, the quota of 100000 for each processor, or `max` for none,
-- in a period of 100000, and the two controllers, and only sets the flag; otherwise it writes nothing
-- and leaves the manager as it was.
pub create_main_cgroup-permissive :
    (m : Manager) (c : Config)
    → c.cpu_config.allocated_logical_processors ≤ 21474
    → create_main_cgroup permissive m c ≡ (
        if m.is_initialized && not m.main_cgroup.is_created
        then (
          done,
          record m { main_cgroup = record m.main_cgroup { is_created = true } },
          main_limits m.main_cgroup.path c,
        )
        else (failed, m, []))
create_main_cgroup-permissive m c h =
    create_flagged m c m.is_initialized m.main_cgroup.is_created
    ∙ ap
        (λ writes.
          if m.is_initialized && not m.main_cgroup.is_created
          then (done, record m { main_cgroup = record m.main_cgroup { is_created = true } }, writes)
          else (failed, m, []))
        (written_limits-main_limits m.main_cgroup.path c h)
