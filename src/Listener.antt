-- ===== src/Listener.antt =====
-- The two loops that accept connections: `Server` (src/core/server.h and server.cpp) and
-- `Http1ProxyServer` (src/transport/http1_proxy.hpp and http1_proxy.cpp). An accept operation is
-- under way until it completes; what the code calls of the acceptor and of OpenSSL is not part of the
-- repository. The request handler is kept as data, of a type `H` that the caller chooses.
pub mod Accepting
use http2_server.Prelude.{
  ℕ, zero, suc, ◌+◌, Option, none, some, List, [], ◌∷◌, ◌++◌, Bool, true, false, if◌then◌else◌,
}
use http2_server.Prelude.Text.{Text, codes}

-- What both loops keep: the accept operations that are under way, and the sessions started.
pub record Acceptor (S : Type 0) : Type 0 where
  pub accepting : ℕ
  pub sessions : List S

abbrev pub new_acceptor : {S : Type 0} → Acceptor S
new_acceptor = record { accepting = 0; sessions = [] }

abbrev pub begin_accept : {S : Type 0} → Acceptor S → Acceptor S
begin_accept a = record a { accepting = a.accepting + 1 }

abbrev pub make_session : {S : Type 0} → S → Acceptor S → Acceptor S
make_session s a = record a { sessions = a.sessions ++ s ∷ [] }

pub data SslOption : Type 0 where
  default_workarounds no_sslv2 no_sslv3 single_dh_use : SslOption

-- `ssl::context::tlsv12` with what it has been given.
pub record SslContext : Type 0 where
  pub options : List SslOption
  pub certificate_chain_file : Text
  pub private_key_file : Text
  -- A selection callback has been set.
  pub selects_alpn : Bool

-- `SSL_select_next_proto` of the server's list and the client's: whether they have one in common.
abbrev pub SelectNextProto : Type 0
SelectNextProto = Text → Text → Bool

pub data AlpnResult : Type 0 where
  ok noack : AlpnResult

-- The lambda given to `SSL_CTX_set_alpn_select_cb`: the server's list is the name "h2" behind its length.
unfoldable pub alpn_select : SelectNextProto → Text → AlpnResult
alpn_select negotiates offered = if negotiates (2 ∷ codes "h2") offered then ok else noack

-- The session of a connection, with what its constructor is given.
pub data Started (H : Type 0) : Type 0 where
  tls_session : SslContext → Option H → Started H
  plain_session : Option H → Started H

pub record Server (H : Type 0) : Type 0 where
  pub acceptor : Acceptor (Started H)
  pub request_handler : Option H
  pub ssl_context : Option SslContext
  pub use_ssl : Bool

-- An accept operation ends, or another handler is set.
pub data ServerEvent (H : Type 0) : Type 0 where
  accept_ended : Option Text → ServerEvent H
  handler_set : H → ServerEvent H

-- Whether the certificate and the key can be loaded; if not, OpenSSL's wrapper throws.
abbrev pub Loads : Type 0
Loads = Text → Text → Bool

module _ {H : Type 0} where
  unfoldable pub setup_ssl_context : Loads → Text → Text → Server H → Option (Server H)
  setup_ssl_context loads cert_file key_file s =
      if loads cert_file key_file
      then some (record s {
        ssl_context = some (record {
          options = default_workarounds ∷ no_sslv2 ∷ no_sslv3 ∷ single_dh_use ∷ [];
          certificate_chain_file = cert_file;
          private_key_file = key_file;
          selects_alpn = true;
        });
      })
      else none

  -- `Server::Server` without files.
  unfoldable pub plain_server : Server H
  plain_server = record {
    acceptor = new_acceptor;
    request_handler = none;
    ssl_context = none;
    use_ssl = false;
  }

  -- `Server::Server` with files.
  unfoldable pub tls_server : Loads → Text → Text → Option (Server H)
  unfolding setup_ssl_context plain_server
  tls_server loads cert_file key_file =
      setup_ssl_context loads cert_file key_file (record plain_server { use_ssl = true })

  unfoldable pub set_request_handler : H → Server H → Server H
  set_request_handler handler s = record s { request_handler = some handler }

  -- `Server::accept_connection`
  unfoldable pub accept_connection : Server H → Server H
  accept_connection s = record s { acceptor = begin_accept s.acceptor }

  -- `Server::start`
  unfoldable pub start_server : Server H → Server H
  unfolding accept_connection
  start_server s = accept_connection s

  -- The session that is made; `none` if it is made with a context that is not there.
  unfoldable pub new_session : Server H → Option (Started H)
  new_session s =
      if s.use_ssl
      then elim s.ssl_context [
        | none ↦ none
        | some context ↦ some (tls_session context s.request_handler)
      ]
      else some (plain_session s.request_handler)

  -- The lambda of `Server::accept_connection`, with the error's message if there is one.
  unfoldable pub on_connection : Option Text → Server H → Option (Server H)
  unfolding accept_connection new_session
  on_connection none s = elim (new_session s) [
    | none ↦ none
    | some session ↦
        some (accept_connection (record s { acceptor = make_session session s.acceptor }))
  ]
  on_connection (some message) s = some (accept_connection s)

  unfoldable pub on_event : ServerEvent H → Server H → Option (Server H)
  unfolding on_connection set_request_handler
  on_event (accept_ended ec) s = elim s.acceptor.accepting [
    | zero ↦ some s
    | suc n ↦ on_connection ec (record s { acceptor = record (s.acceptor) { accepting = n } })
  ]
  on_event (handler_set handler) s = some (set_request_handler handler s)

  unfoldable pub run_server : Server H → List (ServerEvent H) → Option (Server H)
  unfolding on_event
  run_server s [] = some s
  run_server s (e ∷ es) = elim (on_event e s) [ none ↦ none | some next ↦ run_server next es ]

-- A session of the proxy.
pub data ProxySession : Type 0 where
  proxy_session : ProxySession

-- `Http1ProxyServer::accept_connections`
unfoldable pub accept_connections : Acceptor ProxySession → Acceptor ProxySession
accept_connections a = begin_accept a

-- `Http1ProxyServer::start`
unfoldable pub start_proxy : Acceptor ProxySession → Acceptor ProxySession
unfolding accept_connections
start_proxy a = accept_connections a

-- The lambda of `Http1ProxyServer::accept_connections`.
unfoldable pub on_proxy_connection : Option Text → Acceptor ProxySession → Acceptor ProxySession
unfolding accept_connections
on_proxy_connection none a = accept_connections (make_session proxy_session a)
on_proxy_connection (some message) a = accept_connections a

unfoldable pub run_proxy : Acceptor ProxySession → List (Option Text) → Acceptor ProxySession
unfolding on_proxy_connection
run_proxy a [] = a
run_proxy a (ec ∷ ecs) = elim a.accepting [
  | zero ↦ run_proxy a ecs
  | suc n ↦ run_proxy (on_proxy_connection ec (record a { accepting = n })) ecs
]
