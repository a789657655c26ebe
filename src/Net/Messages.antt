-- ===== src/Net/Messages.antt =====
-- The functions of volcom_net.c that send and receive a text on a connected socket: those of a
-- server on the descriptor of the accepted connection, those of a client on its static one.
use e19_4yp_voluntary_comput.Prelude.{ℕ, Bool, Option, CString}
use e19_4yp_voluntary_comput.Prelude.Int.{ℤ}
use e19_4yp_voluntary_comput.Net.{Kernel, Endpoint, send_whole, receive_text}
use e19_4yp_voluntary_comput.Net.Inet.{InetAddr}

unfoldable pub tcp_server_send_message : Kernel → Option ℕ → Option CString → Bool
tcp_server_send_message k client_fd message = send_whole k client_fd message

unfoldable pub tcp_server_receive_message : Kernel → Option ℕ → Bool → ℕ → ℤ × Option CString
tcp_server_receive_message k client_fd has_buffer size = receive_text k client_fd has_buffer size

unfoldable pub tcp_client_send_message : Kernel → Endpoint InetAddr → Option CString → Bool
tcp_client_send_message k e message = send_whole k e.sockfd message

unfoldable pub tcp_client_receive_message :
    Kernel → Endpoint InetAddr → Bool → ℕ → ℤ × Option CString
tcp_client_receive_message k e has_buffer size = receive_text k e.sockfd has_buffer size

unfoldable pub unix_socket_server_send_message : Kernel → Option ℕ → Option CString → Bool
unix_socket_server_send_message k client_fd message = send_whole k client_fd message

unfoldable pub unix_socket_server_receive_message :
    Kernel → Option ℕ → Bool → ℕ → ℤ × Option CString
unix_socket_server_receive_message k client_fd has_buffer size =
    receive_text k client_fd has_buffer size

unfoldable pub unix_socket_client_send_message : Kernel → Endpoint CString → Option CString → Bool
unix_socket_client_send_message k e message = send_whole k e.sockfd message

unfoldable pub unix_socket_client_receive_message :
    Kernel → Endpoint CString → Bool → ℕ → ℤ × Option CString
unix_socket_client_receive_message k e has_buffer size = receive_text k e.sockfd has_buffer size
