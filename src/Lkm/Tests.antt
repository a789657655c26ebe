-- ===== src/Lkm/Tests.antt =====
-- The ioctl of volcom_rsucmngr.c where the process cannot be attached.
use e19_4yp_voluntary_comput.Prelude.{
  ◌≡◌, refl, true, not, none, length, codes, str_eq, digits_from, decimal,
}
use e19_4yp_voluntary_comput.Prelude.Int.{pos}
use e19_4yp_voluntary_comput.Lkm.{Kernel, TaskConfig, resman_ioctl}

abbrev kernel : Kernel
kernel = record {
  copies = true;
  has_directory = λ path. true;
  open_error = λ file. none;
  writes = λ file value. not (str_eq value (codes "42"));
}

abbrev config : TaskConfig
config = record {
  task_name = codes "t1";
  memory_limit_mb = pos 64;
  cpu_share = pos 20000;
  pid = pos 42;
}

-- Both limits are written.
not_attached : length (resman_ioctl kernel true config).1 ≡ 2
unfolding resman_ioctl decimal digits_from str_eq
not_attached = refl
