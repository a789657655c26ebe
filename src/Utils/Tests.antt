-- ===== src/Utils/Tests.antt =====
-- The store of net_utils.c with a configuration file of two lines.
use e19_4yp_voluntary_comput.Prelude.{
  str_eq, ◌≡◌, refl, true, some, List, [], ◌∷◌, ◌++◌, arith, CString, codes,
}
use e19_4yp_voluntary_comput.Utils.{
  ConfigValues, get_volcom_config_value, set_volcom_config_value, parse_line, load_lines,
  load_volcom_config,
}
use e19_4yp_voluntary_comput.Utils.Store.{get_value-set}

abbrev lines : List CString
lines = (codes "port=9876" ++ 10 ∷ []) ∷ (codes "ip=10.0.0.1" ++ 10 ∷ []) ∷ []

abbrev stored : ConfigValues
stored = (codes "port", codes "9876") ∷ (codes "ip", codes "10.0.0.1") ∷ []

load_two_lines : load_volcom_config (some lines) [] ≡ (true, stored)
unfolding load_volcom_config load_lines parse_line
load_two_lines = refl

get_value-set_example :
    (get_volcom_config_value
        (codes "port")
        (set_volcom_config_value (codes "port") (codes "80") stored)
      ≡ some (codes "80"))
    × (get_volcom_config_value
          (codes "ip")
          (set_volcom_config_value (codes "port") (codes "80") stored)
        ≡ get_volcom_config_value (codes "ip") stored)
unfolding str_eq
get_value-set_example =
    get_value-set (codes "port") (codes "80") (codes "ip") stored (omega arith) (omega arith) refl
      refl
