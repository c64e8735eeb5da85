-- ===== src/Lib.antt =====
-- An HTTP/2 server that forwards requests to registered backends, written in C++ on Boost.Asio,
-- Boost.Beast, nghttp2 and nlohmann::json.
--
-- A connection is a `Session`, which collects the frames of each stream and passes a complete request
-- on to the handler that `main` has set. That handler answers the server's own paths by a table of
-- routes and gives every other path to the proxy, which looks up a backend in the registry and starts a
-- call of the HTTP/1.1 client. When the call ends, its callback sends the reply through the session
-- that asked. Backends register over HTTP, with the registration client or by hand. Browsers use a
-- second port, whose sessions forward requests over HTTP/1.1 and keep them in a manager. The example
-- program, the forwarding client, registers a backend with both ports, through the HTTP/1.1 client and
-- through the HTTP/2 client.
--
--   Common            src/transport/common.h
--   Nghttp2           the frames, flags and calls that the program exchanges with nghttp2
--   Session           src/transport/session.h and session.cpp: the callbacks and the response;
--                     Session.Connection has the handshake and the read loop, Session.Sending the
--                     bytes that leave
--   Http2Site         all connections of src/core/server.cpp with the handler of src/main.cpp: each
--                     reply goes through the session that asked, which may be gone
--   Json              what the program uses of nlohmann::json, a parameter with laws
--   Registry          `BackendRegistry` in src/transport/proxy_handler.hpp and proxy_handler.cpp;
--                     Registry.View is the registry without the layout of its map
--   HttpClient        src/transport/http_client.hpp and http_client.cpp
--   World             the state that the handlers share, and the monad in which they run
--   ProxyHandler      `ForwardingHandler` and `ProxyRequestHandler` in src/transport/proxy_handler.cpp
--   RequestHandler    src/transport/request_handler.h and request_handler.cpp
--   Server            the handler and the routes of src/main.cpp, and the server's life
--   ProxyClient       src/transport/proxy_client.hpp and proxy_client.cpp
--   ActiveRequest     src/transport/active_request.hpp and active_request.cpp; in
--                     ActiveRequest.Threads any number of threads use the manager at once
--   Prelude           what the others share: texts as lists of bytes, maps, decimal numbers
--   Http1Proxy        the session in src/transport/http1_proxy.hpp and http1_proxy.cpp; Http1Proxy.Site
--                     has all sessions of the server
--   Http2Client       src/transport/http2_client.hpp and http2_client.cpp; Http2Client.Callbacks has
--                     the callbacks of nghttp2, Http2Client.Connection the asynchronous operations
--   ForwardingClient  src/examples/forwarding_client.hpp and forwarding_client.cpp;
--                     ForwardingClient.Arguments has src/examples/forwarding_main.cpp
--   Startup           the environment, the ports and the threads of src/main.cpp, and how it ends
--   Listener          the accept loops of src/core/server.cpp, with the TLS context and the handler
--                     that each session is given, and of src/transport/http1_proxy.cpp
--   Logger            src/utils/logger.h
--   Tests             runs at concrete inputs
--
-- Functions keep the names of the source. A function that changes the shared state takes a `World`
-- and returns the next one, with `none` in place of a result if an exception escapes. An
-- asynchronous operation is a state that waits for its completion, so an interleaving is a list of
-- events, and each event is one turn of the event loop. The thread pool of src/main.cpp may run
-- several turns at once; only ActiveRequest.Threads models that, step by step, where a mutex and an
-- atomic counter guard the state. A callback is kept as the data that its lambda captures. The order
-- in which a hash table is walked, the verbs, the limit of a field and the payload preparation of
-- Boost.Beast, which may throw, what a write to a socket returns, whether a certificate can be
-- loaded or a thread created, and the JSON library are parameters. All loops run over lists, so no
-- fuel is needed, except to print a number, where the number bounds the digits.
--
-- Not modelled: sockets, TLS itself, which socket and session of the HTTP/2 client an operation
-- belongs to when several requests overlap, the races of turns that run at once without a mutex,
-- the text of the example's help, and the lifetime of objects other than the sessions of the server.
pub mod Prelude
pub mod Common
pub mod Json
pub mod Registry
pub mod HttpClient
pub mod World
pub mod ProxyHandler
pub mod RequestHandler
pub mod Server
pub mod ProxyClient
pub mod Nghttp2
pub mod Session
pub mod ActiveRequest
pub mod Http1Proxy
pub mod Http2Client
pub mod Http2Site
pub mod ForwardingClient
pub mod Startup
pub mod Listener
pub mod Logger
pub mod Tests
