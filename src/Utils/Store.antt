-- ===== src/Utils/Store.antt =====
-- The configuration store of net_utils.c gives back what was set last, and loading stays within its
-- table.
use e19_4yp_voluntary_comput.Prelude.{
  List, ℕ, Option, ◌⊎◌, inl, inr, ◌≤◌, ◌+◌, ◌<◌, length-append, str_eq_iff, str_eq_refl, take_all,
  some, none, [], ◌++◌, if◌then◌else◌, fit, ◌<◌, ◌≡◌, refl, true, false, ◌&&◌, ◌||◌, none, some, [],
  ◌∷◌, ◌++◌, arith, ltb, if◌then◌else◌, length, take_all, CString, str_eq, str_eq_refl, fit,
}
use e19_4yp_voluntary_comput.Utils.{
  add_entry, entry, parse_line, load_lines, load_volcom_config, ConfigValues, max_config,
  get_volcom_config_value, has_key, update_value, set_volcom_config_value,
}

not_both : (a k k' : CString) → str_eq k k' ≡ false → (str_eq a k && str_eq a k') ≡ false
not_both a k k' h = ground (arith, h, str_eq_iff a k, str_eq_iff a k', str_eq_iff k k')

get-update_same :
    (key value : CString) (values : ConfigValues)
    → get_volcom_config_value key (update_value key value values)
      ≡ (if has_key key values then some (fit 256 value) else none)
unfolding get_volcom_config_value update_value
get-update_same key value [] = refl
get-update_same key value ((k, v) ∷ values) = ground (arith, get-update_same key value values)

get-append_same :
    (key value : CString) (values : ConfigValues)
    → get_volcom_config_value key (values ++ (key, value) ∷ [])
      ≡ (if has_key key values then get_volcom_config_value key values else some value)
unfolding get_volcom_config_value
get-append_same key value [] = ground (arith, str_eq_refl key)
get-append_same key value ((k, v) ∷ values) = ground (arith, get-append_same key value values)

get-update_other :
    (key other value : CString) (values : ConfigValues)
    → str_eq key other ≡ false
    → get_volcom_config_value other (update_value key value values)
      ≡ get_volcom_config_value other values
unfolding get_volcom_config_value update_value
get-update_other key other value [] h = refl
get-update_other key other value ((k, v) ∷ values) h =
    ground (arith, get-update_other key other value values h, not_both k key other h)

get-append_other :
    (key other value : CString) (values : ConfigValues)
    → str_eq key other ≡ false
    → get_volcom_config_value other (values ++ (key, value) ∷ [])
      ≡ get_volcom_config_value other values
unfolding get_volcom_config_value
get-append_other key other value [] h = ground (arith, h)
get-append_other key other value ((k, v) ∷ values) h =
    ground (arith, get-append_other key other value values h)

-- For a key and a value of at most 255 bytes, where the store has the key already or room for one
-- more: after `set_volcom_config_value` the store gives the value for the key, and for every other
-- key what it gave before.
pub get_value-set :
    (key value other : CString) (values : ConfigValues)
    → length key < 256
    → length value < 256
    → (has_key key values || ltb (length values) max_config) ≡ true
    → str_eq key other ≡ false
    → (get_volcom_config_value key (set_volcom_config_value key value values) ≡ some value)
      × (get_volcom_config_value other (set_volcom_config_value key value values)
          ≡ get_volcom_config_value other values)
unfolding set_volcom_config_value
get_value-set key value other values hk hv hr ho =
    let key_fits : fit 256 key ≡ key = take_all 255 key (omega (arith, hk)) in
    let value_fits : fit 256 value ≡ value = take_all 255 value (omega (arith, hv)) in
    (
      ground (
        arith,
        hr,
        key_fits,
        value_fits,
        get-update_same key value values,
        get-append_same key value values,
      ),
      ground (
        arith,
        hr,
        key_fits,
        value_fits,
        get-update_other key other value values ho,
        get-append_other key other value values ho,
      ),
    )

length-update :
    (key value : CString) (values : ConfigValues)
    → length (update_value key value values) ≡ length values
unfolding update_value
length-update key value [] = refl
length-update key value ((k, v) ∷ values) = ground (arith, length-update key value values)

length-add_entry :
    (e : Option (CString × CString)) (values : ConfigValues)
    → length (add_entry e values) ≤ length values + 1
length-add_entry none values = omega arith
length-add_entry (some e) values = omega (arith, length-append values (e ∷ []))

lt_or_ge : (m n : ℕ) → (m < n) ⊎ (n ≤ m)
lt_or_ge m n = ground arith

load_lines-le :
    (lines : List CString) (values : ConfigValues)
    → length values ≤ max_config
    → length (load_lines lines values) ≤ max_config
unfolding load_lines
load_lines-le [] values h = h
load_lines-le (line ∷ lines) values h = elim (lt_or_ge (length values) max_config) [
  | inl lt ↦ ground (
    arith,
    lt,
    load_lines-le lines (add_entry (parse_line line) values)
        (omega (arith, lt, length-add_entry (parse_line line) values)),
  )
  | inr ge ↦ ground (arith, h, ge)
]

load_le :
    (file : Option (List CString)) (values : ConfigValues)
    → length values ≤ max_config
    → length ((load_volcom_config file values).1) ≤ max_config
unfolding load_volcom_config
load_le none values h = h
load_le (some lines) values h = load_lines-le lines [] (omega arith)

set_le :
    (key value : CString) (values : ConfigValues)
    → length values ≤ max_config
    → length (set_volcom_config_value key value values) ≤ max_config
unfolding set_volcom_config_value
set_le key value values h =
    ground (arith, h, length-update key value values, length-append values (entry key value ∷ []))

-- The store stays within its table of 100 entries: loading any file, or none, and then setting any
-- key to any value leaves at most 100 entries, if there were at most 100 before.
pub store_bounded :
    (file : Option (List CString)) (key value : CString) (values : ConfigValues)
    → length values ≤ max_config
    → (let loaded = (load_volcom_config file values).1 in
        (length loaded ≤ max_config)
        × (length (set_volcom_config_value key value loaded) ≤ max_config))
store_bounded file key value values h =
    let loaded = load_le file values h in
    (loaded, set_le key value ((load_volcom_config file values).1) loaded)
