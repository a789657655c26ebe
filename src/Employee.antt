-- ===== src/Employee.antt =====
-- src/uspacehelper/volcom_agents/employee/volcom_employee.c: `receive_complete_json_response`, which
-- reads the answer of a script from a Unix socket until a JSON object is complete.
-- What successive calls of `unix_socket_client_receive_message` give is a list: an error, or bytes,
-- none of them when the script has closed the connection.
pub mod Scanner
pub mod Worker
pub mod Ownership
pub mod Connection
pub mod Mode
mod Tests
use e19_4yp_voluntary_comput.Prelude.{
  ℕ, zero, suc, ◌+◌, ◌-◌, ◌/◌, min, ap, Bool, true, false, not, ◌&&◌, Option, none, some, List, [],
  ◌∷◌, ◌++◌, ltb, leb, ◌==◌, if◌then◌else◌, length, take, count, CString, fit,
}
use e19_4yp_voluntary_comput.Prelude.Int.{ℤ, pos, negsuc, minus_one, sub_int}

-- The scanner's variables.
pub record Scan : Type 0 where
  pub brace_count : ℤ
  pub in_string : Bool
  pub escape_next : Bool
  pub json_started : Bool

abbrev pub start : Scan
start = record { brace_count = pos 0; in_string = false; escape_next = false; json_started = false }

abbrev plus_one : ℤ → ℤ
plus_one (pos n) = pos (n + 1)
plus_one (negsuc zero) = pos 0
plus_one (negsuc (suc n)) = negsuc n

abbrev is_zero : ℤ → Bool
is_zero (pos n) = n == 0
is_zero (negsuc n) = false

-- A byte outside of strings: the variables after it, and whether the object is complete.
abbrev scan_outside : Scan → ℕ → Scan × Bool
scan_outside s c =
    if c == b'"'
    then (record s { in_string = true }, false)
    else if c == b'{'
    then (record s { json_started = true; brace_count = plus_one s.brace_count }, false)
    else if c == b'}'
    then (
      record s { brace_count = sub_int s.brace_count 1 },
      s.json_started && is_zero (sub_int s.brace_count 1),
    )
    else (s, false)

unfoldable pub scan_byte : Scan → ℕ → Scan × Bool
scan_byte s c =
    if s.escape_next
    then (record s { escape_next = false }, false)
    else if s.in_string
    then (if c == 92
        then (record s { escape_next = true }, false)
        else if c == b'"'
        then (record s { in_string = false }, false)
        else (s, false))
    else scan_outside s c

-- Where the scan of some bytes ends: within them, with those left after the object's last, or with
-- the variables for the bytes to come.
pub data Scanned : Type 0 where
  complete : List ℕ → Scanned
  more : Scan → Scanned

abbrev pub or_on : Scan × Bool → List ℕ → (Scan → Scanned) → Scanned
or_on (s, true) cs next = complete cs
or_on (s, false) cs next = next s

unfoldable pub scan : Scan → List ℕ → Scanned
unfolding scan_byte
scan s [] = more s
scan s (c ∷ cs) = or_on (scan_byte s c) cs (λ s'. scan s' cs)

-- What the call returns with the text in its buffer, or that it waits for bytes.
pub data Response : Type 0 where
  returned : ℤ → CString → Response
  waiting : Response

-- An answer without bytes: it is returned itself only if nothing has been read.
abbrev pub cut_short : ℤ → CString → Response
cut_short answer [] = returned answer []
cut_short answer (b ∷ bs) = returned (pos (length (b ∷ bs))) (b ∷ bs)

-- The part of a chunk that fits a buffer of `size` bytes which has `n` already.
abbrev pub clip : ℕ → ℕ → List ℕ → List ℕ
clip size n chunk = if leb size (n + length chunk) then take (size - n - 1) chunk else chunk

abbrev pub or_return : Scanned → CString → (Scan → Response) → Response
or_return (complete rest) buffer next = returned (pos (length buffer)) buffer
or_return (more s) buffer next = next s

-- The loop, with the bytes read so far.
unfoldable pub read_on : ℕ → CString → Scan → List (Option (List ℕ)) → Response
unfolding scan
read_on size buffer s [] =
    if ltb (length buffer) (size - 1) then waiting else returned (pos (length buffer)) buffer
read_on size buffer s (none ∷ answers) =
    if ltb (length buffer) (size - 1)
    then cut_short minus_one buffer
    else returned (pos (length buffer)) buffer
read_on size buffer s (some [] ∷ answers) =
    if ltb (length buffer) (size - 1)
    then cut_short (pos 0) buffer
    else returned (pos (length buffer)) buffer
read_on size buffer s (some (b ∷ bs) ∷ answers) =
    let chunk = clip size (length buffer) (b ∷ bs) in
    let on =
      or_return (scan s chunk) (buffer ++ chunk)
        (λ s'. read_on size (buffer ++ chunk) s' answers) in
    if ltb (length buffer) (size - 1) then on else returned (pos (length buffer)) buffer

-- A null pointer for a buffer, or one of no bytes, is refused.
unfoldable pub receive_complete_json_response : Bool → ℕ → List (Option (List ℕ)) → Response
unfolding read_on
receive_complete_json_response false size answers = returned minus_one []
receive_complete_json_response true zero answers = returned minus_one []
receive_complete_json_response true (suc size) answers = read_on (suc size) [] start answers
