-- ===== src/Net/Lifecycle.antt =====
-- What the functions of volcom_net.c do to the process's open descriptors.
use e19_4yp_voluntary_comput.Prelude.{
  not, if◌then◌else◌, ℕ, ◌≡◌, refl, sym, ap, subst, ◌∙◌, Bool, true, false, Option, none, some,
  List, ◌∷◌, arith, CString,
}
use e19_4yp_voluntary_comput.Net.{Kernel, Endpoint, remove_fd, close_fd, fail_closed}
use e19_4yp_voluntary_comput.Net.Inet.{
  InetAddr, with_ip, set_ip, UdpConfig, TcpConfig, udp_broadcaster_init, udp_broadcaster_cleanup,
  tcp_server_init, tcp_server_cleanup, tcp_client_init, tcp_client_cleanup,
}
use e19_4yp_voluntary_comput.Net.Unix.{
  UnixConfig, unix_socket_server_init, unix_socket_server_cleanup, unix_socket_client_init,
  unix_socket_client_cleanup,
}

module _ {ℓ} {A : Type ℓ} where
  -- On success one descriptor more than before is open, and the static holds it; on failure the
  -- same are open as before, and the static holds none.
  abbrev pub OpensOne : Endpoint A → Bool × Endpoint A → Type 0
  OpensOne before (true, e) = (fd : ℕ) × (e.sockfd ≡ some fd) × (e.open_fds ≡ fd ∷ before.open_fds)
  OpensOne before (false, e) = (e.sockfd ≡ none) × (e.open_fds ≡ before.open_fds)

  -- The static holds no descriptor, and the same are open as before.
  abbrev pub Closed : Endpoint A → Endpoint A → Type 0
  Closed before e = (e.sockfd ≡ none) × (e.open_fds ≡ before.open_fds)

remove_fd_head : (fd : ℕ) (fds : List ℕ) → remove_fd fd (fd ∷ fds) ≡ fds
remove_fd_head fd fds = ground arith

module _ {ℓ} {A : Type ℓ} (before : Endpoint A) (fd : ℕ) where
  -- The static holds the one descriptor that is open beside those before.
  abbrev Holding : Endpoint A → Type 0
  Holding e = (e.sockfd ≡ some fd) × (e.open_fds ≡ fd ∷ before.open_fds)

  close_opens : (e : Endpoint A) → Holding e → OpensOne before (fail_closed e)
  close_opens e (held, opened) =
      subst (λ s. OpensOne before (fail_closed (record e { sockfd = s }))) (sym held)
        (refl, ap (remove_fd fd) opened ∙ remove_fd_head fd before.open_fds)

  check_opens :
      (ok : Bool) (e : Endpoint A) (next : Bool × Endpoint A)
      → Holding e
      → OpensOne before next
      → OpensOne before (if not ok then fail_closed e else next)
  check_opens false e next h hn = close_opens e h
  check_opens true e next h hn = hn

ip_opens :
    (before : Endpoint InetAddr) (fd : ℕ) (ip : Option ℕ) (e : Endpoint InetAddr)
    (next : Endpoint InetAddr → Bool × Endpoint InetAddr)
    → Holding before fd e
    → ((e' : Endpoint InetAddr) → Holding before fd e' → OpensOne before (next e'))
    → OpensOne before (with_ip ip e next)
ip_opens before fd none e next h hn = close_opens before fd e h
ip_opens before fd (some ip) e next h hn = hn (set_ip ip e) h

udp_opens :
    (k : Kernel) (c : UdpConfig) (e : Endpoint InetAddr)
    → OpensOne e (udp_broadcaster_init k (some c) e)
unfolding udp_broadcaster_init
udp_opens k c e =
    elim k.socket as (λ s. OpensOne e (udp_broadcaster_init (record k { socket = s }) (some c) e)) [
      | none ↦ (refl, refl)
      | some fd ↦
          check_opens e fd k.setsockopt _ _ (refl, refl)
            (ip_opens e fd (k.inet_pton c.ip) _ _ (refl, refl) (λ e' h. (fd, h.0, h.1)))
    ]

tcp_server_opens :
    (k : Kernel) (c : TcpConfig) (e : Endpoint InetAddr) → OpensOne e (tcp_server_init k (some c) e)
unfolding tcp_server_init
tcp_server_opens k c e =
    elim k.socket as (λ s. OpensOne e (tcp_server_init (record k { socket = s }) (some c) e)) [
      | none ↦ (refl, refl)
      | some fd ↦
          check_opens e fd k.setsockopt _ _ (refl, refl)
            (ip_opens e fd (k.inet_pton c.ip) _ _ (refl, refl)
              (λ e' h.
                check_opens e fd k.bind e' _ h (check_opens e fd k.listen e' _ h (fd, h.0, h.1))))
    ]

tcp_client_opens :
    (k : Kernel) (c : TcpConfig) (e : Endpoint InetAddr) → OpensOne e (tcp_client_init k (some c) e)
unfolding tcp_client_init
tcp_client_opens k c e =
    elim k.socket as (λ s. OpensOne e (tcp_client_init (record k { socket = s }) (some c) e)) [
      | none ↦ (refl, refl)
      | some fd ↦ ip_opens e fd (k.inet_pton c.ip) _ _ (refl, refl) (λ e' h. (fd, h.0, h.1))
    ]

unix_server_opens :
    (k : Kernel) (c : UnixConfig) (e : Endpoint CString)
    → OpensOne e (unix_socket_server_init k (some c) e)
unfolding unix_socket_server_init
unix_server_opens k c e =
    elim k.socket
      as (λ s. OpensOne e (unix_socket_server_init (record k { socket = s }) (some c) e)) [
        | none ↦ (refl, refl)
        | some fd ↦
            check_opens e fd k.bind _ _ (refl, refl)
              (check_opens e fd k.listen _ _ (refl, refl) (fd, refl, refl))
      ]

unix_client_opens :
    (k : Kernel) (c : UnixConfig) (e : Endpoint CString)
    → OpensOne e (unix_socket_client_init k (some c) e)
unfolding unix_socket_client_init
unix_client_opens k c e =
    elim k.socket
      as (λ s. OpensOne e (unix_socket_client_init (record k { socket = s }) (some c) e)) [
        | none ↦ (refl, refl)
        | some fd ↦ (fd, refl, refl)
      ]

-- Given a configuration, each of the five functions that open a socket ends in one of two ways,
-- whatever the kernel answers: true with one more descriptor open, which the static holds, or false
-- with the same open as before and none in the static.
pub init-OpensOne :
    (k : Kernel) (u : UdpConfig) (t : TcpConfig) (x : UnixConfig) (i : Endpoint InetAddr)
    (e : Endpoint CString)
    → OpensOne i (udp_broadcaster_init k (some u) i)
      × OpensOne i (tcp_server_init k (some t) i)
      × OpensOne i (tcp_client_init k (some t) i)
      × OpensOne e (unix_socket_server_init k (some x) e)
      × OpensOne e (unix_socket_client_init k (some x) e)
init-OpensOne k u t x i e = (
  udp_opens k u i,
  tcp_server_opens k t i,
  tcp_client_opens k t i,
  unix_server_opens k x e,
  unix_client_opens k x e,
)

module _ {ℓ} {A : Type ℓ} where
  close_fd-OpensOne :
      (before : Endpoint A) (r : Bool × Endpoint A)
      → OpensOne before r
      → Closed before (close_fd (r.1))
  close_fd-OpensOne before (true, e) (fd, held, opened) =
      subst (λ s. Closed before (close_fd (record e { sockfd = s }))) (sym held)
        (refl, ap (remove_fd fd) opened ∙ remove_fd_head fd before.open_fds)
  close_fd-OpensOne before (false, e) (held, opened) =
      subst (λ s. Closed before (close_fd (record e { sockfd = s }))) (sym held) (refl, opened)

-- Given a configuration, the matching cleanup after an init leaves exactly the descriptors open that
-- were open before the init, and none in the static, whatever the init answered. This holds also
-- when the static already held a descriptor: that one stays open, and no static holds it any more.
pub cleanup-init :
    (k : Kernel) (u : UdpConfig) (t : TcpConfig) (x : UnixConfig) (i : Endpoint InetAddr)
    (e : Endpoint CString)
    → Closed i (udp_broadcaster_cleanup ((udp_broadcaster_init k (some u) i).1))
      × Closed i (tcp_server_cleanup ((tcp_server_init k (some t) i).1))
      × Closed i (tcp_client_cleanup ((tcp_client_init k (some t) i).1))
      × Closed e (unix_socket_server_cleanup ((unix_socket_server_init k (some x) e).1))
      × Closed e (unix_socket_client_cleanup ((unix_socket_client_init k (some x) e).1))
unfolding udp_broadcaster_cleanup tcp_server_cleanup tcp_client_cleanup unix_socket_server_cleanup
    unix_socket_client_cleanup
cleanup-init k u t x i e = (
  close_fd-OpensOne i (udp_broadcaster_init k (some u) i) (udp_opens k u i),
  close_fd-OpensOne i (tcp_server_init k (some t) i) (tcp_server_opens k t i),
  close_fd-OpensOne i (tcp_client_init k (some t) i) (tcp_client_opens k t i),
  close_fd-OpensOne e (unix_socket_server_init k (some x) e) (unix_server_opens k x e),
  close_fd-OpensOne e (unix_socket_client_init k (some x) e) (unix_client_opens k x e),
)
