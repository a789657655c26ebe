-- ===== src/Net/Delivery.antt =====
-- What the results of the sending and receiving functions of volcom_net.c say about the texts.
use e19_4yp_voluntary_comput.Prelude.{
  ℕ, zero, suc, ◌≤◌, ◌≡◌, refl, sym, subst, ◌↔◌, Bool, true, false, Option, none, some, [], ◌∷◌,
  arith, length, length-append, CString,
}
use e19_4yp_voluntary_comput.Prelude.Int.{ℤ}
use e19_4yp_voluntary_comput.Net.{Kernel, Endpoint, send_whole, receive_text, receive_result}
use e19_4yp_voluntary_comput.Net.Inet.{InetAddr}
use e19_4yp_voluntary_comput.Net.Messages.{
  tcp_server_send_message, tcp_server_receive_message, tcp_client_send_message,
  tcp_client_receive_message, unix_socket_server_send_message, unix_socket_server_receive_message,
  unix_socket_client_send_message, unix_socket_client_receive_message,
}

-- What the four sending functions report for a valid descriptor and a text: true exactly when the
-- kernel took every byte.
abbrev pub SentWhole : Kernel → CString → Bool → Type 0
SentWhole k text ok = (ok ≡ true) ↔ (k.send text ≡ some (length text))

sent_whole :
    (k : Kernel) (fd : ℕ) (text : CString) → SentWhole k text (send_whole k (some fd) (some text))
sent_whole k fd text = elim (k.send text) [ none ↦ ground arith | some n ↦ ground arith ]

-- On a valid descriptor each of the four sending functions returns true if and only if the kernel
-- took every byte of the text.
pub send_message-true :
    (k : Kernel) (fd : ℕ) (text : CString) (i : Endpoint InetAddr) (e : Endpoint CString)
    → i.sockfd ≡ some fd
    → e.sockfd ≡ some fd
    → SentWhole k text (tcp_server_send_message k (some fd) (some text))
      × SentWhole k text (tcp_client_send_message k i (some text))
      × SentWhole k text (unix_socket_server_send_message k (some fd) (some text))
      × SentWhole k text (unix_socket_client_send_message k e (some text))
unfolding tcp_server_send_message tcp_client_send_message unix_socket_server_send_message
    unix_socket_client_send_message
send_message-true k fd text i e hi he = (
  sent_whole k fd text,
  subst (λ s. SentWhole k text (send_whole k s (some text))) (sym hi) (sent_whole k fd text),
  sent_whole k fd text,
  subst (λ s. SentWhole k text (send_whole k s (some text))) (sym he) (sent_whole k fd text),
)

-- What is written to a buffer fits its size.
abbrev pub FitsBuffer : ℕ → ℤ × Option CString → Type 0
FitsBuffer size (n, none) = Unit
FitsBuffer size (n, some text) = length text ≤ size

received_fits :
    (size : ℕ) (r : Option CString)
    → ((bytes : CString) → r ≡ some bytes → length bytes ≤ size)
    → FitsBuffer (suc size) (receive_result r)
received_fits size none h = tt
received_fits size (some []) h = tt
received_fits size (some (b ∷ bytes)) h =
    ground (arith, h (b ∷ bytes) refl, length-append bytes (0 ∷ []))

receive_fits :
    (k : Kernel) (fd : Option ℕ) (has_buffer : Bool) (size : ℕ)
    → ((n : ℕ) (bytes : CString) → k.recv n ≡ some bytes → length bytes ≤ n)
    → FitsBuffer size (receive_text k fd has_buffer size)
receive_fits k none has_buffer size h = tt
receive_fits k (some fd) false size h = tt
receive_fits k (some fd) true zero h = tt
receive_fits k (some fd) true (suc size) h = received_fits size (k.recv size) (h size)

-- If the kernel gives at most as many bytes as it is asked for, what each of the four receiving
-- functions writes to a buffer, the final NUL included, fits the buffer's size.
pub receive_message-FitsBuffer :
    (k : Kernel) (fd : Option ℕ) (has_buffer : Bool) (size : ℕ) (i : Endpoint InetAddr)
    (e : Endpoint CString)
    → ((n : ℕ) (bytes : CString) → k.recv n ≡ some bytes → length bytes ≤ n)
    → FitsBuffer size (tcp_server_receive_message k fd has_buffer size)
      × FitsBuffer size (tcp_client_receive_message k i has_buffer size)
      × FitsBuffer size (unix_socket_server_receive_message k fd has_buffer size)
      × FitsBuffer size (unix_socket_client_receive_message k e has_buffer size)
unfolding tcp_server_receive_message tcp_client_receive_message unix_socket_server_receive_message
    unix_socket_client_receive_message
receive_message-FitsBuffer k fd has_buffer size i e h = (
  receive_fits k fd has_buffer size h,
  receive_fits k i.sockfd has_buffer size h,
  receive_fits k fd has_buffer size h,
  receive_fits k e.sockfd has_buffer size h,
)
