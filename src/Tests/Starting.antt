-- ===== src/Tests/Starting.antt =====
-- The start of the server (src/main.cpp) and its loop of accepts (src/core/server.cpp) in a concrete environment.
use mathlib.Core.Option
use http2_server.Prelude.{
  ℕ, Bool, false, ◌⊎◌, nat_eq, List, [], ◌∷◌, ◌≡◌, refl, inl, inr, ◌<◌, ◌^◌, ◌↔◌, none, some, true,
  ◌==◌, if◌then◌else◌, arith,
}
use http2_server.Prelude.Text.{codes, text_eq, text_beq}
use http2_server.Prelude.Int.{pos, negsuc}
use http2_server.Prelude.Decimal.{to_string}
use http2_server.Startup.{
  Settings, Environment, flag_variable, start, server_port, http1_proxy_port, unsigned_short,
}
use http2_server.Startup.Shutdown.{
  RunEnd, Started, returned, threw, exited, main, AllReturned, IsCaught, main_exits,
}
use http2_server.Listener.{
  new_acceptor, default_workarounds, no_sslv2, no_sslv3, single_dh_use, SslContext, tls_session,
  Server, ServerEvent, accept_ended, handler_set, plain_server, tls_server, setup_ssl_context,
  start_server, run_server,
}
use http2_server.Listener.Accepting.{serving, has_context, server_goes_on}
use http2_server.Startup.Config.{settings_of, workers, IsPort, start_serves, server_port_lem}

-- A port that does not fit 16 bits, and nothing else.
abbrev getenv : Environment
getenv name = if name == codes "PORT" then some (to_string (pos 70000)) else none

-- Without TLS, what is to be opened is there.
abbrev opens : Settings → Bool
opens settings = if settings.use_ssl then false else true

start_serves_example : start opens getenv ≡ (
    if opens (settings_of getenv (pos 70000) (pos 9080) (pos 4))
    then Option.map
        (λ n. record {
          port = unsigned_short (pos 70000);
          http1_port = unsigned_short (pos 9080);
          use_ssl = flag_variable getenv (codes "USE_SSL");
          threads = n;
        })
        (workers (pos 4))
    else none)
start_serves_example =
    start_serves opens getenv (pos 70000) (pos 9080) (pos 4)
      (inr (unfold codes in unfold text_beq in refl, omega arith))
      (inl (unfold codes in unfold text_beq in refl, refl))
      (inl (unfold codes in unfold text_beq in refl, refl))

server_port_lem_example :
    (server_port (negsuc 0) ≡ http1_proxy_port (negsuc 0))
    × (server_port (negsuc 0) < 2 ^ 16)
    × ((negsuc 0 ≡ pos (server_port (negsuc 0))) ↔ IsPort (negsuc 0))
server_port_lem_example = server_port_lem (negsuc 0)

-- The last thread of the pool cannot be created.
abbrev creates : ℕ → Bool
creates i = if i == 2 then false else true

abbrev ends : ℕ → RunEnd
ends i = if i == 1 then threw else returned

main_exits_example :
    ((main opens getenv creates returned ends ≡ exited 0)
      ↔ Started (start opens getenv) (AllReturned creates returned ends))
    × ((main opens getenv creates returned ends ≡ exited 1)
        ↔ ((start opens getenv ≡ none) ⊎ Started (start opens getenv) (IsCaught creates returned)))
main_exits_example = main_exits opens getenv creates returned ends

-- A connection, a failed accept, another handler, and a connection again.
abbrev accepts : List (ServerEvent ℕ)
accepts =
    handler_set 1
    ∷ accept_ended none
    ∷ accept_ended (some (codes "too many files"))
    ∷ handler_set 2
    ∷ accept_ended none
    ∷ []

abbrev certified : SslContext
certified = record {
  options = default_workarounds ∷ no_sslv2 ∷ no_sslv3 ∷ single_dh_use ∷ [];
  certificate_chain_file = codes "c";
  private_key_file = codes "k";
  selects_alpn = true;
}

abbrev secured : Server ℕ
secured = record {
  acceptor = new_acceptor;
  request_handler = none;
  ssl_context = some certified;
  use_ssl = true;
}

server_goes_on_example :
    (run_server (start_server secured) accepts
      ≡ some (
          serving
            (some certified)
            (some 2)
            (tls_session certified (some 1) ∷ tls_session certified (some 2) ∷ [])))
    × (has_context (some certified) ≡ true)
unfolding tls_server setup_ssl_context plain_server
server_goes_on_example =
    server_goes_on (λ c k. true) (codes "c") (codes "k") secured true accepts refl
