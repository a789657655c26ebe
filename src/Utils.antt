-- ===== src/Utils.antt =====
-- src/uspacehelper/volcom_utils/net_utils.c: the configuration store, a table of at most 100 keys with
-- their values, each in an array of 256 bytes.
-- A file is the list of what `fgets` reads from it, line by line.
pub mod Store
mod Tests
use e19_4yp_voluntary_comput.Prelude.{
  ℕ, ◌+◌, ◌-◌, ◌/◌, Bool, true, false, not, ◌||◌, Option, none, some, List, [], ◌∷◌, ◌++◌, ltb,
  ◌==◌, if◌then◌else◌, length, set, CString, str_eq, fit,
}

-- `config_values`, its entries in use.
abbrev pub ConfigValues : Type 0
ConfigValues = List (CString × CString)

abbrev pub max_config : ℕ
max_config = 100

abbrev pub entry : CString → CString → CString × CString
entry key value = (fit 256 key, fit 256 value)

unfoldable pub get_volcom_config_value : CString → ConfigValues → Option CString
get_volcom_config_value key [] = none
get_volcom_config_value key ((k, v) ∷ values) =
    let later = get_volcom_config_value key values in if str_eq k key then some v else later

abbrev pub has_key : CString → ConfigValues → Bool
has_key key [] = false
has_key key ((k, v) ∷ values) = str_eq k key || has_key key values

-- The loop that looks for the key, for a key that it finds.
unfoldable pub update_value : CString → CString → ConfigValues → ConfigValues
update_value key value [] = []
update_value key value ((k, v) ∷ values) =
    let later = update_value key value values in
    if str_eq k key then (k, fit 256 value) ∷ values else (k, v) ∷ later

unfoldable pub set_volcom_config_value : CString → CString → ConfigValues → ConfigValues
unfolding update_value
set_volcom_config_value key value values =
    if has_key key values
    then update_value key value values
    else if ltb (length values) max_config
    then values ++ entry key value ∷ []
    else values

-- The bytes before the first that is `d`, and those behind it.
abbrev until : ℕ → CString → CString × CString
until d [] = ([], [])
until d (b ∷ bs) = let (token, rest) = until d bs in if b == d then ([], bs) else (b ∷ token, rest)

abbrev skip : ℕ → CString → CString
skip d [] = []
skip d (b ∷ bs) = let rest = skip d bs in if b == d then rest else b ∷ bs

-- `strtok` with one delimiter: the token and what is left for the next call; none at the end.
abbrev pub strtok : ℕ → CString → Option (CString × CString)
strtok d s = elim (skip d s) [ [] ↦ none | b ∷ bs ↦ some (until d (b ∷ bs)) ]

-- The key and the value of a line, where it has both.
unfoldable pub parse_line : CString → Option (CString × CString)
parse_line line = elim (strtok b'=' line) [
  | none ↦ none
  | some (key, rest) ↦ elim (strtok 10 rest) [
    | none ↦ none
    | some (value, end) ↦ some (entry key value)
  ]
]

abbrev pub add_entry : Option (CString × CString) → ConfigValues → ConfigValues
add_entry none values = values
add_entry (some e) values = values ++ e ∷ []

-- The loop over the lines, which ends when the table is full.
unfoldable pub load_lines : List CString → ConfigValues → ConfigValues
unfolding parse_line
load_lines [] values = values
load_lines (line ∷ lines) values =
    let loaded = load_lines lines (add_entry (parse_line line) values) in
    if ltb (length values) max_config then loaded else values

-- Whether the file could be read, and the table: it starts anew, and duplicate keys are all added.
unfoldable pub load_volcom_config : Option (List CString) → ConfigValues → Bool × ConfigValues
unfolding load_lines
load_volcom_config none values = (false, values)
load_volcom_config (some lines) values = (true, load_lines lines [])
