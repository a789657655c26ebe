-- ===== src/Sysinfo/Tests.antt =====
-- The theorems on volcom_sysinfo.c applied to a configuration and to lines of files under /proc.
use e19_4yp_voluntary_comput.Prelude.{
  str_eq, ◌≡◌, refl, true, some, List, [], ◌∷◌, arith, CString, codes,
}
use e19_4yp_voluntary_comput.Prelude.Int.{pos}
use e19_4yp_voluntary_comput.Rcsmngr.Files.{Config}
use e19_4yp_voluntary_comput.Sysinfo.{load_config, save_config}
use e19_4yp_voluntary_comput.Sysinfo.Configuration.{completed, load_config-save_config}
use e19_4yp_voluntary_comput.Sysinfo.Proc.{
  mem_total, mem_free, mem_buffers, mem_cached, swap_total_name, swap_free_name, get_memory_info,
}
use e19_4yp_voluntary_comput.Sysinfo.Memory.{last_value, get_memory_info-last_value}
use e19_4yp_voluntary_comput.Sysinfo.Cpu.{
  CpuInfo, unknown_cpu, no_usage, get_cpu_info, get_cpu_usage,
}
use e19_4yp_voluntary_comput.Sysinfo.Cpu.Usage.{HasCores, get_cpu_usage-HasCores}

abbrev unprotected : Config
unprotected = record {
  mem_config = record {
    allocated_memory_size_max = 2048;
    allocated_memory_size_high = 1024;
    allocated_swap_memory_size_max = 0;
    allocated_swap_memory_size_high = 512;
    memory_oom_protection = 0;
  };
  cpu_config = record { allocated_logical_processors = 2; allocated_cpu_share = 512 };
}

load_config-save_config_example :
    ((save_config true unprotected).0 ≡ pos 0)
    × (load_config (save_config true unprotected).1 ≡ completed unprotected)
load_config-save_config_example = load_config-save_config unprotected (record {
  memory_max_fits = omega arith;
  memory_high_fits = omega arith;
  swap_max_fits = omega arith;
  swap_high_fits = omega arith;
  oom_fits = omega arith;
  processors_fit = omega arith;
  share_fits = omega arith;
})

abbrev meminfo : List CString
meminfo =
    codes "MemTotal:  90 kB"
    ∷ codes "MemFree: 7 kB"
    ∷ codes "SwapCached: 3 kB"
    ∷ codes "Cached: 5 kB"
    ∷ []

-- `SwapCached` is not `Cached`.
meminfo_values :
    ((get_memory_info (some meminfo)).total ≡ 90) × ((get_memory_info (some meminfo)).cached ≡ 5)
unfolding get_memory_info
meminfo_values = (refl, refl)

get_memory_info-last_value_example : get_memory_info (some meminfo) ≡ record {
  total = last_value mem_total meminfo;
  free = last_value mem_free meminfo;
  buffers = last_value mem_buffers meminfo;
  cached = last_value mem_cached meminfo;
  swap_total = last_value swap_total_name meminfo;
  swap_free = last_value swap_free_name meminfo;
}
get_memory_info-last_value_example = get_memory_info-last_value meminfo

-- A processor with two cores, of which /proc/stat shows three.
abbrev two_cores : CpuInfo
two_cores = record unknown_cpu { logical_processors = 2 }

abbrev stat : List CString
stat =
    codes "cpu  9 0 3 80 1 0 0 0 0 0"
    ∷ codes "cpu0 4 0 1 40 1 0 0 0 0 0"
    ∷ codes "cpu1 5 0 2 40"
    ∷ codes "cpu2 5 0 2 40"
    ∷ codes "intr 5"
    ∷ []

get_cpu_usage-HasCores_example :
    (c : CpuInfo) × (get_cpu_usage (some stat) (some (no_usage ∷ no_usage ∷ [])) two_cores ≡ some c)
    × HasCores c
get_cpu_usage-HasCores_example =
    get_cpu_usage-HasCores stat (no_usage ∷ no_usage ∷ []) two_cores refl

-- Three lines of /proc/cpuinfo.
cpu_info_values :
    let c = get_cpu_info (
      some (
        codes "processor\t: 0"
        ∷ codes "model name\t: Some CPU"
        ∷ codes "cpu cores\t: 4"
        ∷ codes "processor\t: 1"
        ∷ [])) in
    (c.logical_processors ≡ 2) × (c.cpu_count ≡ 4) × (c.model ≡ codes "Some CPU")
unfolding get_cpu_info str_eq
cpu_info_values = (refl, refl, refl)
