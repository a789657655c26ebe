-- ===== src/Main/Tests.antt =====
-- Runs of volcom_main.c: from the console, and from a file.
use e19_4yp_voluntary_comput.Prelude.{
  ◌≡◌, refl, true, none, List, [], ◌∷◌, if◌then◌else◌, length, CString, codes, str_eq,
}
use e19_4yp_voluntary_comput.Main.{
  no_config, exited, nothing, key_value, Scanned, Answers, Surroundings, main, configure_by_cmd,
  process_from,
}
use e19_4yp_voluntary_comput.Main.Balance.{Keeps, main-Keeps}

abbrev answers : Answers
answers = record { inits = true; creates = true; children = λ i. exited i }

abbrev scanned : CString → Scanned
scanned arg = if str_eq arg (codes "memory 512") then key_value (codes "memory") 512 else nothing

abbrev surroundings : Surroundings
surroundings = record {
  is_root = true;
  file = none;
  scanned = scanned;
  employee_start = none;
  lines =
      (codes "config memory 512", answers)
      ∷ (codes "process {}", answers)
      ∷ (codes "q", answers)
      ∷ [];
}

abbrev argv : List CString
argv = codes "volcom_main" ∷ codes "--mode" ∷ codes "employer" ∷ []

-- Five calls for the one data point, and five for the agent.
calls : length (main surroundings argv answers).1 ≡ 10
unfolding main configure_by_cmd str_eq process_from
calls = refl

-- 512 MB are 524288 kB.
memory :
    (configure_by_cmd scanned surroundings.lines
      no_config).config.mem_config.allocated_memory_size_max
    ≡ 524288
unfolding configure_by_cmd str_eq process_from
memory = refl

main-Keeps_example : Keeps [] (main surroundings argv answers).1
unfolding str_eq
main-Keeps_example = main-Keeps surroundings argv answers refl
