-- ===== src/Net/Inet.antt =====
-- The UDP broadcaster and the TCP server and client of volcom_net.c: opening and closing them.
use e19_4yp_voluntary_comput.Prelude.{
  ℕ, ◌%◌, ◌^◌, Bool, true, false, not, Option, none, some, List, [], ◌∷◌, if◌then◌else◌, take,
  CString, codes, str_eq, fit,
}
use e19_4yp_voluntary_comput.Net.{
  Kernel, Endpoint, assign_fd, close_fd, fail_closed, accept_from, connect_to,
}

pub record UdpConfig : Type 0 where
  pub port : ℕ
  pub ip : CString

pub record TcpConfig : Type 0 where
  pub port : ℕ
  pub ip : CString
  pub max_connections : ℕ

-- The fields of `struct sockaddr_in` that the code sets: the port, as `htons` gets it, and the
-- address.
pub record InetAddr : Type 0 where
  pub sin_port : ℕ
  pub sin_addr : ℕ

-- The address after `memset` and the port's assignment.
abbrev port_addr : ℕ → InetAddr
port_addr port = record { sin_port = port % 2 ^ 16; sin_addr = 0 }

abbrev pub set_ip : ℕ → Endpoint InetAddr → Endpoint InetAddr
set_ip ip e = record e { addr = record e.addr { sin_addr = ip } }

-- The result of `inet_pton`, a failure of which closes the socket.
abbrev pub with_ip :
    Option ℕ
    → Endpoint InetAddr
    → (Endpoint InetAddr → Bool × Endpoint InetAddr)
    → Bool × Endpoint InetAddr
with_ip none e next = fail_closed e
with_ip (some ip) e next = next (set_ip ip e)

unfoldable pub udp_broadcaster_init :
    Kernel → Option UdpConfig → Endpoint InetAddr → Bool × Endpoint InetAddr
udp_broadcaster_init k none e = (false, e)
udp_broadcaster_init k (some config) e =
    let opened = assign_fd k e in
    let prepared = record opened { addr = port_addr config.port } in
    elim opened.sockfd [
      | none ↦ (false, opened)
      | some fd ↦
          if not k.setsockopt
          then fail_closed opened
          else with_ip (k.inet_pton config.ip) prepared (λ e. (true, e))
    ]

unfoldable pub send_udp_broadcast1 : Kernel → Endpoint InetAddr → CString → Bool
send_udp_broadcast1 k e message = elim e.sockfd [
  | none ↦ false
  | some fd ↦ elim (k.send message) [ none ↦ false | some sent ↦ true ]
]

unfoldable pub udp_broadcaster_cleanup : Endpoint InetAddr → Endpoint InetAddr
udp_broadcaster_cleanup e = close_fd e

unfoldable pub tcp_server_init :
    Kernel → Option TcpConfig → Endpoint InetAddr → Bool × Endpoint InetAddr
tcp_server_init k none e = (false, e)
tcp_server_init k (some config) e =
    let opened = assign_fd k e in
    let prepared = record opened { addr = port_addr config.port } in
    elim opened.sockfd [
      | none ↦ (false, opened)
      | some fd ↦
          if not k.setsockopt
          then fail_closed opened
          else with_ip (k.inet_pton config.ip) prepared (λ e.
            if not k.bind then fail_closed e else if not k.listen then fail_closed e else (true, e))
    ]

unfoldable pub tcp_server_accept_connection :
    Kernel → Endpoint InetAddr → Option ℕ × Endpoint InetAddr
tcp_server_accept_connection k e = accept_from k e

unfoldable pub tcp_server_cleanup : Endpoint InetAddr → Endpoint InetAddr
tcp_server_cleanup e = close_fd e

unfoldable pub tcp_client_init :
    Kernel → Option TcpConfig → Endpoint InetAddr → Bool × Endpoint InetAddr
tcp_client_init k none e = (false, e)
tcp_client_init k (some config) e =
    let opened = assign_fd k e in
    let prepared = record opened { addr = port_addr config.port } in
    elim opened.sockfd [
      | none ↦ (false, opened)
      | some fd ↦ with_ip (k.inet_pton config.ip) prepared (λ e. (true, e))
    ]

unfoldable pub tcp_client_connect : Kernel → Endpoint InetAddr → Bool
tcp_client_connect k e = connect_to k e

unfoldable pub tcp_client_cleanup : Endpoint InetAddr → Endpoint InetAddr
tcp_client_cleanup e = close_fd e

-- An entry of the list that `getifaddrs` gives: no address, one of another family, or an Internet
-- address as `inet_ntoa` prints it.
pub data Interface : Type 0 where
  no_address other_family : Interface
  inet : CString → Interface

abbrev pub localhost : CString
localhost = codes "127.0.0.1"

-- `strncmp(ip_str, "127.", 4) == 0`
abbrev pub is_loopback : CString → Bool
is_loopback ip = str_eq (take 4 ip) (codes "127.")

-- The loop over the interfaces, with what follows it.
unfoldable pub first_ip : ℕ → List Interface → CString
first_ip size [] = fit size localhost
first_ip size (no_address ∷ is) = first_ip size is
first_ip size (other_family ∷ is) = first_ip size is
first_ip size (inet ip ∷ is) =
    let later = first_ip size is in if is_loopback ip then later else fit size ip

-- The string that the caller's buffer of `size` bytes holds after `get_local_ip_n`.
unfoldable pub get_local_ip_n : Option (List Interface) → ℕ → CString
unfolding first_ip
get_local_ip_n none size = fit size localhost
get_local_ip_n (some is) size = first_ip size is
