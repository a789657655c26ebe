-- ===== src/Protocol/Connections.antt =====
-- The descriptors that protocol.c opens for one connection and returns to its caller: the state is
-- the list of the descriptors that the process has open.
use e19_4yp_voluntary_comput.Prelude.{
  refl, ◌∙◌, ap, ℕ, ◌-◌, ◌≡◌, Bool, true, false, not, Option, none, some, List, [], ◌∷◌, ◌++◌,
  arith, if◌then◌else◌, length, CString,
}
use e19_4yp_voluntary_comput.Prelude.Int.{ℤ, pos, minus_one}
use e19_4yp_voluntary_comput.Net.{Kernel, remove_fd}

-- A descriptor and the others open, from what `socket` answers.
abbrev open_socket : Option ℕ → List ℕ → (ℕ → List ℕ → Option ℕ × List ℕ) → Option ℕ × List ℕ
open_socket none fds next = (none, fds)
open_socket (some fd) fds next = next fd (fd ∷ fds)

abbrev give_up : ℕ → List ℕ → Option ℕ × List ℕ
give_up fd fds = (none, remove_fd fd fds)

abbrev connect_at : Kernel → Option ℕ → ℕ → List ℕ → Option ℕ × List ℕ
connect_at k none fd fds = give_up fd fds
connect_at k (some ip) fd fds = if not k.connect then give_up fd fds else (some fd, fds)

unfoldable pub create_tcp_connection : Kernel → CString → List ℕ → Option ℕ × List ℕ
create_tcp_connection k host fds = open_socket k.socket fds (connect_at k (k.inet_pton host))

unfoldable pub close_tcp_connection : Option ℕ → List ℕ → List ℕ
close_tcp_connection none fds = fds
close_tcp_connection (some fd) fds = remove_fd fd fds

abbrev listen_at : Kernel → ℕ → List ℕ → Option ℕ × List ℕ
listen_at k fd fds =
    if not k.setsockopt
    then give_up fd fds
    else if not k.bind
    then give_up fd fds
    else (some fd, fds)

unfoldable pub setup_udp_listener : Kernel → List ℕ → Option ℕ × List ℕ
setup_udp_listener k fds = open_socket k.socket fds (listen_at k)

-- The count that is returned, and what is written to a buffer of `size` bytes, of which there is at
-- least one: an empty datagram gives an empty string.
unfoldable pub receive_udp_broadcast : Kernel → ℕ → ℤ × Option CString
receive_udp_broadcast k size = elim (k.recv (size - 1)) [
  | none ↦ (minus_one, none)
  | some bytes ↦ (pos (length bytes), some (bytes ++ 0 ∷ []))
]

-- Whether the message was sent, and the descriptors open afterwards.
abbrev send_at : Kernel → CString → ℕ → List ℕ → Bool × List ℕ
send_at k message fd fds =
    if not k.setsockopt then (false, remove_fd fd fds) else elim (k.send message) [
      | none ↦ (false, remove_fd fd fds)
      | some n ↦ (true, remove_fd fd fds)
    ]

unfoldable pub send_udp_broadcast : Kernel → CString → List ℕ → Bool × List ℕ
send_udp_broadcast k message fds = elim k.socket [
  | none ↦ (false, fds)
  | some fd ↦ send_at k message fd (fd ∷ fds)
]

-- `connection_info_t`
pub record ConnectionInfo : Type 0 where
  pub sockfd : Option ℕ
  pub peer_ip : CString
  pub peer_port : ℕ
  pub connect_time : ℕ

-- `memset` leaves the descriptor 0, not -1.
unfoldable pub cleanup_connection : Option ConnectionInfo → List ℕ → Option ConnectionInfo × List ℕ
unfolding close_tcp_connection
cleanup_connection none fds = (none, fds)
cleanup_connection (some c) fds = (
  some (record { sockfd = some 0; peer_ip = []; peer_port = 0; connect_time = 0 }),
  close_tcp_connection c.sockfd fds,
)

-- `now` is what `time` gives.
unfoldable pub handle_connection : ℕ → Option ConnectionInfo → ℤ × Option ConnectionInfo
handle_connection now none = (minus_one, none)
handle_connection now (some c) = (pos 0, some (record c { connect_time = now }))

remove_first : (fd : ℕ) (fds : List ℕ) → remove_fd fd (fd ∷ fds) ≡ fds
remove_first fd fds = ground arith

-- A descriptor that is returned is the one that is open beside those before; where none is, those
-- before are open.
abbrev pub OwnsResult : List ℕ → Option ℕ × List ℕ → Type 0
OwnsResult before (none, fds) = fds ≡ before
OwnsResult before (some fd, fds) = fds ≡ fd ∷ before

create-OwnsResult :
    (k : Kernel) (host : CString) (fds : List ℕ) (socket ip : Option ℕ) (connect : Bool)
    → OwnsResult fds (
        create_tcp_connection
          (record k { socket = socket; inet_pton = λ h. ip; connect = connect })
          host
          fds)
unfolding create_tcp_connection
create-OwnsResult k host fds none ip connect = refl
create-OwnsResult k host fds (some fd) none connect = remove_first fd fds
create-OwnsResult k host fds (some fd) (some ip) false = remove_first fd fds
create-OwnsResult k host fds (some fd) (some ip) true = refl

setup-OwnsResult :
    (k : Kernel) (fds : List ℕ) (socket : Option ℕ) (setsockopt bind : Bool)
    → OwnsResult fds (
        setup_udp_listener (record k { socket = socket; setsockopt = setsockopt; bind = bind }) fds)
unfolding setup_udp_listener
setup-OwnsResult k fds none setsockopt bind = refl
setup-OwnsResult k fds (some fd) false bind = remove_first fd fds
setup-OwnsResult k fds (some fd) true false = remove_first fd fds
setup-OwnsResult k fds (some fd) true true = refl

send-closes :
    (k : Kernel) (message : CString) (fds : List ℕ) (socket : Option ℕ) (setsockopt : Bool)
    (sent : Option ℕ)
    → (send_udp_broadcast
        (record k { socket = socket; setsockopt = setsockopt; send = λ t. sent })
        message
        fds).1
      ≡ fds
unfolding send_udp_broadcast
send-closes k message fds none setsockopt sent = refl
send-closes k message fds (some fd) false sent = remove_first fd fds
send-closes k message fds (some fd) true none = remove_first fd fds
send-closes k message fds (some fd) true (some n) = remove_first fd fds

create_owns :
    (k : Kernel) (host : CString) (fds : List ℕ) → OwnsResult fds (create_tcp_connection k host fds)
unfolding create_tcp_connection
create_owns k host fds = create-OwnsResult k host fds k.socket (k.inet_pton host) k.connect

setup_owns : (k : Kernel) (fds : List ℕ) → OwnsResult fds (setup_udp_listener k fds)
setup_owns k fds = setup-OwnsResult k fds k.socket k.setsockopt k.bind

send_owns : (k : Kernel) (m : CString) (fds : List ℕ) → (send_udp_broadcast k m fds).1 ≡ fds
unfolding send_udp_broadcast
send_owns k m fds = send-closes k m fds k.socket k.setsockopt (k.send m)

-- Whatever the kernel answers: a descriptor that `create_tcp_connection` or `setup_udp_listener`
-- returns is the only one it leaves open beside those open before, a failure of either leaves those
-- alone, and `send_udp_broadcast` always leaves those alone.
pub connections_closed :
    (k : Kernel) (host message : CString) (fds : List ℕ)
    → OwnsResult fds (create_tcp_connection k host fds)
      × OwnsResult fds (setup_udp_listener k fds)
      × ((send_udp_broadcast k message fds).1 ≡ fds)
connections_closed k host message fds =
    (create_owns k host fds, setup_owns k fds, send_owns k message fds)

-- A second `cleanup_connection` of a connection closes descriptor 0, beside the connection's own that
-- the first has closed.
pub cleanup_connection_twice :
    (c : ConnectionInfo) (fd : ℕ) (fds : List ℕ)
    → c.sockfd ≡ some fd
    → (let (c', once) = cleanup_connection (some c) (fd ∷ fds) in
        (once ≡ fds) × ((cleanup_connection c' once).1 ≡ remove_fd 0 fds))
unfolding cleanup_connection close_tcp_connection
cleanup_connection_twice c fd fds h =
    let once : close_tcp_connection c.sockfd (fd ∷ fds) ≡ fds =
      ap (λ s. close_tcp_connection s (fd ∷ fds)) h ∙ remove_first fd fds in
    (once, ap (remove_fd 0) once)
