-- ===== src/Net/Unix.antt =====
-- The Unix socket server and client of volcom_net.c: opening and closing them.
use e19_4yp_voluntary_comput.Prelude.{
  ℕ, Bool, true, false, not, Option, none, some, ◌∷◌, if◌then◌else◌, CString, fit,
}
use e19_4yp_voluntary_comput.Net.{
  Kernel, Endpoint, assign_fd, close_fd, fail_closed, accept_from, connect_to,
}

pub record UnixConfig : Type 0 where
  pub socket_path : CString

-- `sizeof(sun_path)`; the address is `sun_path`.
abbrev pub sun_path_size : ℕ
sun_path_size = 108

abbrev set_path : CString → Endpoint CString → Endpoint CString
set_path path e = record e { addr = fit sun_path_size path }

-- `unlink`, whose result the code does not look at.
abbrev unlink : CString → Endpoint CString → Endpoint CString
unlink path e = record e { unlinked = path ∷ e.unlinked }

unfoldable pub unix_socket_server_init :
    Kernel → Option UnixConfig → Endpoint CString → Bool × Endpoint CString
unix_socket_server_init k none e = (false, e)
unix_socket_server_init k (some config) e =
    let opened = assign_fd k e in
    let prepared = unlink config.socket_path (set_path config.socket_path opened) in
    elim opened.sockfd [
      | none ↦ (false, opened)
      | some fd ↦
          if not k.bind
          then fail_closed prepared
          else if not k.listen
          then fail_closed prepared
          else (true, prepared)
    ]

unfoldable pub unix_socket_server_accept : Kernel → Endpoint CString → Option ℕ × Endpoint CString
unix_socket_server_accept k e = accept_from k e

-- The path is unlinked whether or not the socket is open.
unfoldable pub unix_socket_server_cleanup : Endpoint CString → Endpoint CString
unix_socket_server_cleanup e = unlink e.addr (close_fd e)

unfoldable pub unix_socket_client_init :
    Kernel → Option UnixConfig → Endpoint CString → Bool × Endpoint CString
unix_socket_client_init k none e = (false, e)
unix_socket_client_init k (some config) e =
    let opened = assign_fd k e in
    elim opened.sockfd [
      | none ↦ (false, opened)
      | some fd ↦ (true, set_path config.socket_path opened)
    ]

unfoldable pub unix_socket_client_connect : Kernel → Endpoint CString → Bool
unix_socket_client_connect k e = connect_to k e

unfoldable pub unix_socket_client_cleanup : Endpoint CString → Endpoint CString
unix_socket_client_cleanup e = close_fd e
