-- ===== src/Protocol/Tests.antt =====
-- The theorems on protocol.c applied to messages and a connection.
use e19_4yp_voluntary_comput.Prelude.{
  ℕ, ◌≡◌, refl, true, false, Option, none, some, List, [], ◌∷◌, ◌++◌, arith, length, CString, codes,
}
use e19_4yp_voluntary_comput.Net.{Kernel, remove_fd}
use e19_4yp_voluntary_comput.Protocol.{ok, be32, Writer, recv_json, send_json}
use e19_4yp_voluntary_comput.Protocol.Streams.{stream}
use e19_4yp_voluntary_comput.Protocol.Framing.{recv_json-send_json}
use e19_4yp_voluntary_comput.Protocol.Connections.{
  ConnectionInfo, create_tcp_connection, setup_udp_listener, send_udp_broadcast, cleanup_connection,
  OwnsResult, connections_closed, cleanup_connection_twice,
}

-- Messages that are their own text, and a `write` that takes everything.
abbrev print_text : CString → Option CString
print_text text = some text

abbrev take_all_bytes : Writer
take_all_bytes bytes = some (length bytes)

-- The message "hi" and the start of another, cut after the first byte of the text.
recv_json-send_json_example :
    (left : List (List ℕ)) × (recv_json print_text true 2
        ((0 ∷ 0 ∷ 0 ∷ 2 ∷ b'h' ∷ []) ∷ (b'i' ∷ 0 ∷ []) ∷ [])
      ≡ some (ok, some (codes "hi"), left))
    × (stream left ≡ 0 ∷ [])
unfolding send_json
recv_json-send_json_example =
    recv_json-send_json print_text print_text (codes "hi") (codes "hi") take_all_bytes
      take_all_bytes (be32 2 ++ codes "hi") (0 ∷ 0 ∷ 0 ∷ 2 ∷ b'h' ∷ []) ((b'i' ∷ 0 ∷ []) ∷ [])
      (0 ∷ []) refl refl refl (omega arith) (omega arith) refl (omega arith) (omega arith, tt) refl

-- A kernel on which `connect` and `bind` fail.
abbrev kernel : Kernel
kernel = record {
  socket = some 7;
  setsockopt = true;
  inet_pton = λ ip. some 16777343;
  bind = false;
  listen = true;
  accept = none;
  connect = false;
  send = λ text. some (length text);
  recv = λ n. none;
}

connections_closed_example :
    OwnsResult (0 ∷ 1 ∷ 2 ∷ []) (create_tcp_connection kernel (codes "10.0.0.1") (0 ∷ 1 ∷ 2 ∷ []))
    × OwnsResult (0 ∷ 1 ∷ 2 ∷ []) (setup_udp_listener kernel (0 ∷ 1 ∷ 2 ∷ []))
    × ((send_udp_broadcast kernel (codes "hi") (0 ∷ 1 ∷ 2 ∷ [])).1 ≡ 0 ∷ 1 ∷ 2 ∷ [])
connections_closed_example =
    connections_closed kernel (codes "10.0.0.1") (codes "hi") (0 ∷ 1 ∷ 2 ∷ [])

abbrev connection : ConnectionInfo
connection = record {
  sockfd = some 7;
  peer_ip = codes "10.0.0.1";
  peer_port = 12345;
  connect_time = 0;
}

cleanup_connection_twice_example :
    (let (c', once) = cleanup_connection (some connection) (7 ∷ 0 ∷ 1 ∷ 2 ∷ []) in
      (once ≡ 0 ∷ 1 ∷ 2 ∷ []) × ((cleanup_connection c' once).1 ≡ remove_fd 0 (0 ∷ 1 ∷ 2 ∷ [])))
cleanup_connection_twice_example = cleanup_connection_twice connection 7 (0 ∷ 1 ∷ 2 ∷ []) refl
