-- ===== src/Protocol.antt =====
-- src/uspacehelper/volcom_net/protocol.c: JSON messages framed by a four-byte length, and the
-- sockets that the agents open for them.
-- cJSON is not part of the repository: its printing and parsing are parameters. A connection is
-- seen from its two ends: `write` takes a prefix of what it is given, or fails, as the kernel
-- answers; what arrives is a list of segments, and a `read` gives at most one of them.
pub mod Streams
pub mod Framing
pub mod Connections
mod Tests
use e19_4yp_voluntary_comput.Prelude.{
  ℕ, zero, suc, ◌+◌, ◌-◌, ◌*◌, ◌/◌, ◌%◌, ◌^◌, Bool, true, false, not, ◌||◌, Option, none, some,
  List, [], ◌∷◌, ◌++◌, ltb, ◌==◌, if◌then◌else◌, length, take, drop, CString,
}

-- `PROTOCOL_OK`, `PROTOCOL_ERR` and `PROTOCOL_CONN_CLOSED`
pub data ProtocolStatus : Type 0 where
  ok err conn_closed : ProtocolStatus

-- `MAX_JSON_SIZE`, and the bound in `recv_json`.
abbrev pub max_json_size : ℕ
max_json_size = 65536

-- The four bytes of `htonl(n)` in memory, and `ntohl` of four bytes.
abbrev pub be32 : ℕ → List ℕ
be32 n = n / 16777216 % 256 ∷ n / 65536 % 256 ∷ n / 256 % 256 ∷ n % 256 ∷ []

abbrev from_be : List ℕ → ℕ → ℕ
from_be [] n = n
from_be (b ∷ bs) n = from_be bs (n * 256 + b)

abbrev pub from_be32 : List ℕ → ℕ
from_be32 bs = from_be bs 0

-- The bytes before the first NUL: a buffer as a C string.
abbrev pub until_nul : List ℕ → CString
until_nul [] = []
until_nul (b ∷ bs) = if b == 0 then [] else b ∷ until_nul bs

-- What `write` does with the bytes it is given: fails, or takes the first so many.
abbrev pub Writer : Type 0
Writer = List ℕ → Option ℕ

-- Whether all of the bytes were written, and which were.
abbrev pub written : List ℕ → Option ℕ → Bool × List ℕ
written bytes none = (false, [])
written bytes (some n) = (n == length bytes, take n bytes)

-- The two writes of `send_json`, of which an incomplete one ends the function.
abbrev pub both_written : Bool × List ℕ → Bool × List ℕ → ProtocolStatus × List ℕ
both_written (false, sent) second = (err, sent)
both_written (true, sent) (false, sent') = (err, sent ++ sent')
both_written (true, sent) (true, sent') = (ok, sent ++ sent')

abbrev pub write_both : Writer → Writer → List ℕ → List ℕ → ProtocolStatus × List ℕ
write_both first second header text =
    both_written (written header (first header)) (written text (second text))

-- The segments after part of the first has been read.
abbrev pub put_back : List ℕ → List (List ℕ) → List (List ℕ)
put_back [] fs = fs
put_back (b ∷ bs) fs = (b ∷ bs) ∷ fs

-- One `read` of at most `n` bytes: what it gives (nothing, once the peer has closed), and the
-- segments left.
abbrev pub read_some : ℕ → List (List ℕ) → List ℕ × List (List ℕ)
read_some n [] = ([], [])
read_some n (f ∷ fs) = (take n f, put_back (drop n f) fs)

-- How the loop of `recv_json` ends within the rounds given: with the bytes and the segments left,
-- by a `read` that gives nothing, or not yet.
pub data Received : Type 0 where
  whole : List ℕ → List (List ℕ) → Received
  broken : List (List ℕ) → Received
  running : Received

abbrev pub prepend : List ℕ → Received → Received
prepend bs (whole cs fs) = whole (bs ++ cs) fs
prepend bs (broken fs) = broken fs
prepend bs running = running

-- The loop, with `need` bytes left to read.
unfoldable pub read_rest : ℕ → ℕ → List (List ℕ) → Received
read_rest fuel zero fs = whole [] fs
read_rest zero (suc need) fs = running
read_rest (suc fuel) (suc need) [] = broken []
read_rest (suc fuel) (suc need) ([] ∷ fs) = broken fs
read_rest (suc fuel) (suc need) ((b ∷ bs) ∷ fs) =
    prepend (b ∷ take need bs)
      (read_rest fuel (need - length (take need bs)) (put_back (drop need bs) fs))

-- The text that cJSON gives for a message is sent; if it gives none, nothing is.
abbrev pub send_text : Writer → Writer → Option CString → ProtocolStatus × List ℕ
send_text first second none = (err, [])
send_text first second (some text) = write_both first second (be32 (length text % 2 ^ 32)) text

module _ {ℓ} {J : Type ℓ} where
  unfoldable pub send_json : (J → Option CString) → Writer → Writer → J → ProtocolStatus × List ℕ
  send_json print first second json = send_text first second (print json)

  abbrev pub delivered : Option J → List (List ℕ) → ProtocolStatus × Option J × List (List ℕ)
  delivered none fs = (err, none, fs)
  delivered (some json) fs = (ok, some json, fs)

  -- The status and the message, with the segments left; `none` while the rounds given are too few.
  abbrev pub parsed :
      (CString → Option J) → Received → Option (ProtocolStatus × Option J × List (List ℕ))
  parsed parse running = none
  parsed parse (broken fs) = some (err, none, fs)
  parsed parse (whole text fs) = some (delivered (parse (until_nul text)) fs)

  -- What follows the four bytes of the length. `can_malloc` is whether `malloc` gives a buffer.
  abbrev pub recv_payload :
      (CString → Option J)
      → Bool
      → ℕ
      → ℕ
      → List (List ℕ)
      → Option (ProtocolStatus × Option J × List (List ℕ))
  recv_payload parse can_malloc fuel len rest =
      if len == 0 || ltb max_json_size len
      then some (err, none, rest)
      else if not can_malloc
      then some (err, none, rest)
      else parsed parse (read_rest fuel len rest)

  abbrev pub recv_framed :
      (CString → Option J)
      → Bool
      → ℕ
      → List ℕ × List (List ℕ)
      → Option (ProtocolStatus × Option J × List (List ℕ))
  recv_framed parse can_malloc fuel (header, rest) =
      if not (length header == 4)
      then some (err, none, rest)
      else recv_payload parse can_malloc fuel (from_be32 header) rest

  unfoldable pub recv_json :
      (CString → Option J)
      → Bool
      → ℕ
      → List (List ℕ)
      → Option (ProtocolStatus × Option J × List (List ℕ))
  recv_json parse can_malloc fuel fs = recv_framed parse can_malloc fuel (read_some 4 fs)

  -- `recv` with `MSG_PEEK` gives what a read would, and takes nothing: the segments stay. `has_out`
  -- is whether the caller passes a pointer for the message, and a negative result of the first
  -- `recv` is no list.
  unfoldable pub recv_json_peek :
      (CString → Option J)
      → Bool
      → Bool
      → Option (List ℕ)
      → (ℕ → Option (List ℕ))
      → ProtocolStatus × Option J
  recv_json_peek parse false can_malloc header peek = (err, none)
  recv_json_peek parse true can_malloc none peek = (err, none)
  recv_json_peek parse true can_malloc (some []) peek = (conn_closed, none)
  recv_json_peek parse true can_malloc (some (b ∷ bs)) peek =
      let len = from_be32 (b ∷ bs) in
      if not (length (b ∷ bs) == 4)
      then (err, none)
      else if ltb max_json_size len
      then (err, none)
      else if not can_malloc
      then (err, none)
      else elim (peek (4 + len)) [
        | none ↦ (err, none)
        | some bytes ↦
            if not (length bytes == 4 + len)
            then (err, none)
            else elim (parse (until_nul (drop 4 bytes))) [
              | none ↦ (err, none)
              | some json ↦ (ok, some json)
            ]
      ]
