-- ===== src/Http2Client/Sending.antt =====
-- The bytes that nghttp2 hands over for the server: `send_cb` of `Http2Client`
-- (src/transport/http2_client.cpp). The socket is the one that the client has at the time.
use http2_server.Prelude.{◌≡◌, refl, none, some, false}
use http2_server.Prelude.Text.{Text}
use http2_server.Nghttp2.{SendResult, bytes_sent, callback_failure, AsioWrite}
use http2_server.Session.Sending

unfoldable pub send_cb : AsioWrite → Text → SendResult
send_cb socket content =
    let (written, ec) = socket content in
    elim ec [ some message ↦ callback_failure | none ↦ bytes_sent written ]

-- Over one socket the client tells nghttp2 what a plain session of the server tells it.
send_cb-plain :
    (ssl_socket socket : AsioWrite) (content : Text)
    → send_cb socket content ≡ Sending.send_cb ssl_socket socket false content
unfolding send_cb Sending.send_cb
send_cb-plain ssl_socket socket content = refl
