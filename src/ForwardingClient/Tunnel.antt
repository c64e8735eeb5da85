-- ===== src/ForwardingClient/Tunnel.antt =====
-- Which requests a tunnel (src/examples/forwarding_client.cpp) makes over its life.
use http2_server.Prelude.{◌≡◌, refl, some, [], ◌∷◌, ◌++◌, Bool, true, false, if◌then◌else◌}
use http2_server.Prelude.Text.{Text, codes}
use http2_server.Prelude.Int.{pos, int_eq}
use http2_server.Json.{JsonLib}
use http2_server.HttpClient.{Beast, Connection}
use http2_server.Http2Client.{Operation, resolve, begin_operation, send_request, connect_and_send}
use http2_server.ProxyClient.{Purpose, registration, unregistration}
use http2_server.ForwardingClient.{
  RegistrationProtocol, http1_only, http2_only, both, TunnelConfig, Captured, Forwarder, in_turn,
  set_active, send, registration_data, unregistration_data, register_with_server,
  unregister_from_server, register_with, unregister_with, start_tunnel, stop_tunnel,
}

abbrev pub uses_http1 : RegistrationProtocol → Bool
uses_http1 http1_only = true
uses_http1 http2_only = false
uses_http1 both = true

abbrev pub uses_http2 : RegistrationProtocol → Bool
uses_http2 http1_only = false
uses_http2 http2_only = true
uses_http2 both = true

-- A request for the registration path over HTTP/2, as it waits for the name to be resolved.
abbrev pub over_http2 : Text → Purpose → Text → Operation Captured
over_http2 method purpose body = resolve (record {
  method = method;
  path = codes "/proxy/register";
  body = body;
  callback = record { purpose = purpose; port = pos 8080 };
})

-- The client after a request over each protocol that the tunnel uses.
abbrev pub asked :
    RegistrationProtocol → Text → Connection Captured → Operation Captured → Forwarder → Forwarder
asked p host k o f = record f {
  http_client = if uses_http1 p then f.http_client ++ k ∷ [] else f.http_client;
  http2_client =
      if uses_http2 p
      then begin_operation o
          (record (f.http2_client) { current_host = host; current_port = pos 8080 })
      else f.http2_client;
}

module _ (J : JsonLib) (beast : Beast) where
  -- What the HTTP/1.1 client starts for a request for the registration path.
  abbrev pub Starts : Text → Text → Purpose → Text → Connection Captured → Type 0
  Starts host method purpose body k =
      http2_server.HttpClient.send_request beast host (pos 9080) method (codes "/proxy/register")
        body (record { purpose = purpose; port = pos 9080 })
      ≡ some k

  send-http1 :
      (host method body : Text) (purpose : Purpose) (k : Connection Captured) (f : Forwarder)
      → Starts host method purpose body k
      → send J beast host (pos 9080) method purpose (some body) f
        ≡ (record f { http_client = f.http_client ++ k ∷ [] }, true)
  unfolding send
  send-http1 host method body purpose k f h = rw h refl

  send-http2 :
      (host method body : Text) (purpose : Purpose) (f : Forwarder)
      → send J beast host (pos 8080) method purpose (some body) f ≡ (
        record f {
          http2_client =
              begin_operation
                (over_http2 method purpose body)
                (record (f.http2_client) { current_host = host; current_port = pos 8080 });
        },
        true,
      )
  unfolding send send_request connect_and_send
  send-http2 host method body purpose f = refl

  register_with-asked :
      (config : TunnelConfig) (p : RegistrationProtocol) (body : Text) (k : Connection Captured)
      (f : Forwarder)
      → J.dump (J.object (registration_data J beast config)) ≡ some body
      → Starts config.proxy_host (codes "POST") registration body k
      → register_with J beast config p f
        ≡ (asked p config.proxy_host k (over_http2 (codes "POST") registration body) f, true)
  unfolding register_with register_with_server in_turn
  register_with-asked config http1_only body k f d h =
      rw d (send-http1 config.proxy_host (codes "POST") body registration k f h)
  register_with-asked config http2_only body k f d h =
      rw d (send-http2 config.proxy_host (codes "POST") body registration f)
  register_with-asked config both body k f d h =
      rw (d, send-http1 config.proxy_host (codes "POST") body registration k f h)
        (send-http2 config.proxy_host (codes "POST") body registration _)

  unregister_with-asked :
      (config : TunnelConfig) (p : RegistrationProtocol) (body : Text) (k : Connection Captured)
      (f : Forwarder)
      → J.dump (J.object (unregistration_data J beast config)) ≡ some body
      → Starts config.proxy_host (codes "DELETE") unregistration body k
      → unregister_with J beast config p f
        ≡ (asked p config.proxy_host k (over_http2 (codes "DELETE") unregistration body) f, true)
  unfolding unregister_with unregister_from_server in_turn
  unregister_with-asked config http1_only body k f d h =
      rw d (send-http1 config.proxy_host (codes "DELETE") body unregistration k f h)
  unregister_with-asked config http2_only body k f d h =
      rw d (send-http2 config.proxy_host (codes "DELETE") body unregistration f)
  unregister_with-asked config both body k f d h =
      rw (d, send-http1 config.proxy_host (codes "DELETE") body unregistration k f h)
        (send-http2 config.proxy_host (codes "DELETE") body unregistration _)

  pub start_tunnel-asked :
      (config : TunnelConfig) (body : Text) (k : Connection Captured) (f : Forwarder)
      → J.dump (J.object (registration_data J beast config)) ≡ some body
      → Starts config.proxy_host (codes "POST") registration body k
      → start_tunnel J beast config f ≡ (
        record (asked config.protocol config.proxy_host k
            (over_http2 (codes "POST") registration body)
            f) { active_tunnel = some config; is_tunnel_active = true },
        true,
      )
  unfolding start_tunnel in_turn set_active
  start_tunnel-asked config body k f d h =
      rw
        (register_with-asked config config.protocol body k
          (record f { active_tunnel = some config }) d h)
        refl

  -- If both texts can be printed and the HTTP/1.1 client can start both requests: starting a tunnel
  -- asks each front door that its protocol names to register it, and nothing else; stopping it asks
  -- the same ones, at the same host, to remove it; stopping it again asks nothing; and nothing is
  -- thrown.
  pub stop_tunnel-start_tunnel :
      (config : TunnelConfig) (body last_body : Text) (k l : Connection Captured) (f : Forwarder)
      → J.dump (J.object (registration_data J beast config)) ≡ some body
      → J.dump (J.object (unregistration_data J beast config)) ≡ some last_body
      → Starts config.proxy_host (codes "POST") registration body k
      → Starts config.proxy_host (codes "DELETE") unregistration last_body l
      → (opened closed : Forwarder) × (start_tunnel J beast config f ≡ (opened, true))
        × (stop_tunnel J beast opened ≡ some (closed, true))
        × (stop_tunnel J beast closed ≡ some (closed, true))
        × (opened
            ≡ record (asked config.protocol config.proxy_host k
                (over_http2 (codes "POST") registration body)
                f) { active_tunnel = some config; is_tunnel_active = true })
        × (closed
            ≡ record (asked config.protocol config.proxy_host l
                (over_http2 (codes "DELETE") unregistration last_body)
                opened) { is_tunnel_active = false })
  unfolding stop_tunnel in_turn set_active
  stop_tunnel-start_tunnel config body last_body k l f d e h i = (
    _,
    _,
    start_tunnel-asked config body k f d h,
    rw (unregister_with-asked config config.protocol last_body l _ e i) refl,
    refl,
    refl,
    refl,
  )
