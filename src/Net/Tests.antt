-- ===== src/Net/Tests.antt =====
-- The theorems on volcom_net.c applied to a kernel that gives descriptor 7.
use e19_4yp_voluntary_comput.Prelude.{
  ℕ, ◌≤◌, ◌≡◌, subst, true, false, none, some, [], ◌∷◌, arith, length, take, length-take, CString,
  codes,
}
use e19_4yp_voluntary_comput.Net.{Option, Kernel, Endpoint}
use e19_4yp_voluntary_comput.Net.Inet.{
  InetAddr, UdpConfig, TcpConfig, udp_broadcaster_init, udp_broadcaster_cleanup, tcp_server_init,
  tcp_server_cleanup, tcp_client_init, tcp_client_cleanup,
}
use e19_4yp_voluntary_comput.Net.Unix.{
  UnixConfig, unix_socket_server_init, unix_socket_server_cleanup, unix_socket_client_init,
  unix_socket_client_cleanup,
}
use e19_4yp_voluntary_comput.Net.Messages.{
  tcp_server_receive_message, tcp_client_receive_message, unix_socket_server_receive_message,
  unix_socket_client_receive_message,
}
use e19_4yp_voluntary_comput.Net.Lifecycle.{OpensOne, Closed, init-OpensOne, cleanup-init}
use e19_4yp_voluntary_comput.Net.Delivery.{FitsBuffer, receive_message-FitsBuffer}

abbrev first_bytes : ℕ → CString
first_bytes n = take n (codes "hello")

-- A kernel on which `listen` alone fails.
abbrev kernel : Kernel
kernel = record {
  socket = some 7;
  setsockopt = true;
  inet_pton = λ ip. some 16777343;
  bind = true;
  listen = false;
  accept = none;
  connect = true;
  send = λ text. some (length text);
  recv = λ n. some (first_bytes n);
}

abbrev udp : UdpConfig
udp = record { port = 9876; ip = codes "255.255.255.255" }

abbrev tcp : TcpConfig
tcp = record { port = 12345; ip = codes "127.0.0.1"; max_connections = 5 }

abbrev unix : UnixConfig
unix = record { socket_path = codes "/tmp/volcom.sock" }

abbrev inet : Endpoint InetAddr
inet = record {
  sockfd = some 7;
  addr = record { sin_port = 0; sin_addr = 0 };
  open_fds = 0 ∷ 1 ∷ 2 ∷ [];
  unlinked = [];
}

abbrev local : Endpoint CString
local = record { sockfd = some 7; addr = []; open_fds = 0 ∷ 1 ∷ 2 ∷ []; unlinked = [] }

init-OpensOne_example :
    OpensOne inet (udp_broadcaster_init kernel (some udp) inet)
    × OpensOne inet (tcp_server_init kernel (some tcp) inet)
    × OpensOne inet (tcp_client_init kernel (some tcp) inet)
    × OpensOne local (unix_socket_server_init kernel (some unix) local)
    × OpensOne local (unix_socket_client_init kernel (some unix) local)
init-OpensOne_example = init-OpensOne kernel udp tcp unix inet local

cleanup-init_example :
    Closed inet (udp_broadcaster_cleanup ((udp_broadcaster_init kernel (some udp) inet).1))
    × Closed inet (tcp_server_cleanup ((tcp_server_init kernel (some tcp) inet).1))
    × Closed inet (tcp_client_cleanup ((tcp_client_init kernel (some tcp) inet).1))
    × Closed local
        (unix_socket_server_cleanup ((unix_socket_server_init kernel (some unix) local).1))
    × Closed local
        (unix_socket_client_cleanup ((unix_socket_client_init kernel (some unix) local).1))
cleanup-init_example = cleanup-init kernel udp tcp unix inet local

abbrev bytes_of : Option CString → CString
bytes_of none = []
bytes_of (some bytes) = bytes

at_most : (n : ℕ) (bytes : CString) → some (first_bytes n) ≡ some bytes → length bytes ≤ n
at_most n bytes h =
    subst (λ o. length (bytes_of o) ≤ n) h (omega (arith, length-take n (codes "hello")))

receive_message-FitsBuffer_example :
    FitsBuffer 4 (tcp_server_receive_message kernel (some 7) true 4)
    × FitsBuffer 4 (tcp_client_receive_message kernel inet true 4)
    × FitsBuffer 4 (unix_socket_server_receive_message kernel (some 7) true 4)
    × FitsBuffer 4 (unix_socket_client_receive_message kernel local true 4)
receive_message-FitsBuffer_example =
    receive_message-FitsBuffer kernel (some 7) true 4 inet local at_most
