-- ===== src/Net.antt =====
-- src/uspacehelper/volcom_net/volcom_net.c: the static sockets of a process, and the functions that
-- open, use and close them.
-- A descriptor is a number, and `none` where the code has a negative one. What the kernel answers
-- during a call is an argument. The lists of the process's open descriptors and of the unlinked
-- paths are the effects that the sockets have outside themselves.
pub mod Inet
pub mod Unix
pub mod Messages
pub mod Lifecycle
pub mod Delivery
mod Tests
use e19_4yp_voluntary_comput.Prelude.{
  ℕ, zero, suc, ◌+◌, ◌-◌, ◌/◌, min, Bool, true, false, not, Option, none, some, List, [], ◌∷◌, ◌++◌,
  ◌==◌, if◌then◌else◌, length, set, take, count, CString,
}
use e19_4yp_voluntary_comput.Prelude.Int.{ℤ, pos, negsuc, minus_one}

-- What the kernel and the C library answer: a new descriptor, or none on an error; whether a call
-- succeeds; the number of bytes that `send` takes of so many; the bytes that `recv` gives, asked for
-- at most so many (no bytes when the peer has closed).
pub record Kernel : Type 0 where
  pub socket : Option ℕ
  pub setsockopt : Bool
  pub inet_pton : CString → Option ℕ
  pub bind : Bool
  pub listen : Bool
  pub accept : Option ℕ
  pub connect : Bool
  pub send : CString → Option ℕ
  pub recv : ℕ → Option CString

-- A static descriptor with its address, and what the process has open.
pub record Endpoint {ℓ} (A : Type ℓ) : Type ℓ where
  pub sockfd : Option ℕ
  pub addr : A
  pub open_fds : List ℕ
  pub unlinked : List CString

abbrev pub remove_fd : ℕ → List ℕ → List ℕ
remove_fd fd [] = []
remove_fd fd (x ∷ xs) = if x == fd then xs else x ∷ remove_fd fd xs

module _ {ℓ} {A : Type ℓ} where
  -- The assignment of what `socket` returns.
  abbrev pub assign_fd : Kernel → Endpoint A → Endpoint A
  assign_fd k e = elim k.socket [
    | none ↦ record e { sockfd = none }
    | some fd ↦ record e { sockfd = some fd; open_fds = fd ∷ e.open_fds }
  ]

  -- `close(sockfd); sockfd = -1;`
  abbrev pub close_fd : Endpoint A → Endpoint A
  close_fd e = elim e.sockfd [
    | none ↦ e
    | some fd ↦ record e { sockfd = none; open_fds = remove_fd fd e.open_fds }
  ]

  abbrev pub fail_closed : Endpoint A → Bool × Endpoint A
  fail_closed e = (false, close_fd e)

-- A length-checked `send` of a whole string, and its result as the functions report it.
abbrev pub send_whole : Kernel → Option ℕ → Option CString → Bool
send_whole k none message = false
send_whole k (some fd) none = false
send_whole k (some fd) (some text) = elim (k.send text) [
  | none ↦ false
  | some sent ↦ sent == length text
]

-- What a receiving function makes of the answer of `recv`.
abbrev pub receive_result : Option CString → ℤ × Option CString
receive_result none = (minus_one, none)
receive_result (some []) = (pos 0, none)
receive_result (some (b ∷ bytes)) = (pos (length (b ∷ bytes)), some (b ∷ bytes ++ 0 ∷ []))

-- The count that a receiving function returns, and what it writes to the buffer, which has room for
-- `size` bytes: `none` where it writes nothing.
abbrev pub receive_text : Kernel → Option ℕ → Bool → ℕ → ℤ × Option CString
receive_text k none has_buffer size = (minus_one, none)
receive_text k (some fd) false size = (minus_one, none)
receive_text k (some fd) true zero = (minus_one, none)
receive_text k (some fd) true (suc size) = receive_result (k.recv size)

-- The descriptor of a connection that a listening socket accepts.
abbrev pub accept_from {ℓ} : {A : Type ℓ} → Kernel → Endpoint A → Option ℕ × Endpoint A
accept_from k e = elim e.sockfd [
  | none ↦ (none, e)
  | some fd ↦ elim k.accept [
    | none ↦ (none, e)
    | some client ↦ (some client, record e { open_fds = client ∷ e.open_fds })
  ]
]

abbrev pub connect_to {ℓ} : {A : Type ℓ} → Kernel → Endpoint A → Bool
connect_to k e = elim e.sockfd [ none ↦ false | some fd ↦ k.connect ]
