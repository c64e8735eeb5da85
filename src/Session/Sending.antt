-- ===== src/Session/Sending.antt =====
-- The bytes that nghttp2 hands over for the peer: `send_cb` of `Session` (src/transport/session.cpp).
use http2_server.Prelude.{
  ◌≡◌, refl, ap, ◌≢◌, ◌⊎◌, inl, inr, none, some, Option-cases, Bool, true, false, length,
  if◌then◌else◌,
}
use http2_server.Prelude.Text.{Text}
use http2_server.Nghttp2.{SendResult, bytes_sent, callback_failure, AsioWrite, WritesAll}

-- `ssl_socket_` or `plain_socket_`
unfoldable pub send_cb : AsioWrite → AsioWrite → Bool → Text → SendResult
send_cb ssl_socket plain_socket use_ssl content =
    let (written, ec) = if use_ssl then ssl_socket content else plain_socket content in
    elim ec [ some message ↦ callback_failure | none ↦ bytes_sent written ]

-- If the two sockets write all unless they report an error: nghttp2 is told that all bytes were sent,
-- or that the callback failed, and the second exactly if the socket in use reported an error.
send_cb_all :
    (ssl_socket plain_socket : AsioWrite) (use_ssl : Bool) (content : Text)
    → WritesAll ssl_socket
    → WritesAll plain_socket
    → let ec = ((if use_ssl then ssl_socket else plain_socket) content).1 in
      ((ec ≡ none)
        × (send_cb ssl_socket plain_socket use_ssl content ≡ bytes_sent (length content)))
      ⊎ ((ec ≢ none) × (send_cb ssl_socket plain_socket use_ssl content ≡ callback_failure))
unfolding send_cb
send_cb_all ssl_socket plain_socket true content s p = elim (Option-cases (ssl_socket content).1) [
  | inl e ↦ inl (e, rw (send_cb, e) (ap bytes_sent (s content e)))
  | inr (message, e) ↦ inr ((λ q. cc), rw (send_cb, e) refl)
]
send_cb_all ssl_socket plain_socket false content s p =
    elim (Option-cases (plain_socket content).1) [
      | inl e ↦ inl (e, rw (send_cb, e) (ap bytes_sent (p content e)))
      | inr (message, e) ↦ inr ((λ q. cc), rw (send_cb, e) refl)
    ]
