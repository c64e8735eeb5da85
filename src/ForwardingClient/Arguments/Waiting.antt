-- ===== src/ForwardingClient/Arguments/Waiting.antt =====
-- What the forwarding client (src/examples/forwarding_main.cpp) does with its choices.
use http2_server.Prelude.{◌≡◌, refl, some, List, [], true, All}
use http2_server.Prelude.Text.{Text, codes}
use http2_server.Prelude.Int.{ℤ}
use http2_server.Json.{JsonLib}
use http2_server.HttpClient.{Beast, Connection}
use http2_server.ProxyClient.{registration}
use http2_server.ForwardingClient.{
  TunnelConfig, tunnel_config, Captured, new_forwarder, registration_data,
}
use http2_server.ForwardingClient.Tunnel.{asked, over_http2, Starts, start_tunnel-asked}
use http2_server.ForwardingClient.Arguments.{main, waits, run_tunnel, parse_arguments}
use http2_server.ForwardingClient.Arguments.Options.{
  Choice, IsSmall, all_written, choose_all, parse_arguments-all_written,
}

module _ (J : JsonLib) (beast : Beast) where
  -- If each number fits an `int`, the local port is not negative, the text of the registration can be
  -- printed and the HTTP/1.1 client can start it: with any choices as arguments, `main` ends up in its
  -- waiting loop, with the tunnel of the configuration that they mean, which is active, and having
  -- asked each front door of its protocol to register it. The proxy's port has no effect on what is
  -- asked.
  pub main_waits :
      (drawn : ℤ) (xs : List Choice) (config : TunnelConfig) (body : Text) (k : Connection Captured)
      → All IsSmall xs
      → choose_all xs (tunnel_config drawn) ≡ config
      → J.dump (J.object (registration_data J beast config)) ≡ some body
      → Starts J beast config.proxy_host (codes "POST") registration body k
      → main J beast drawn (all_written xs [])
        ≡ waits
            (record (asked config.protocol config.proxy_host k
              (over_http2 (codes "POST") registration body)
              new_forwarder) { active_tunnel = some config; is_tunnel_active = true })
  unfolding main run_tunnel
  main_waits drawn xs config body k small e d h =
      rw
        (
          main,
          parse_arguments-all_written xs (tunnel_config drawn) [] small,
          parse_arguments,
          e,
          start_tunnel-asked J beast config body k new_forwarder d h,
        )
        refl
