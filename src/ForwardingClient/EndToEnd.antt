-- ===== src/ForwardingClient/EndToEnd.antt =====
-- From a tunnel (src/examples/forwarding_client.cpp) to the registry of the server
-- (src/transport/proxy_handler.cpp).
use http2_server.Prelude.{◌≡◌, ap, ◌∙◌, none, some, ◌==◌, if◌then◌else◌}
use http2_server.Prelude.Text.{Text, codes, text_eq}
use http2_server.Prelude.Int.{ℤ}
use http2_server.Prelude.Map.{lookup, lookup-insert, lookup-erase}
use http2_server.Json.{JsonLib, JsonLaws}
use http2_server.Registry.{Order, Registry, ForwardingRule, register_backend, unregister_backend}
use http2_server.Registry.Selection.{WellFormed}
use http2_server.HttpClient.{Beast}
use http2_server.World.{World, ResponseSender, respond}
use http2_server.ProxyHandler.{handle_registration_request}
use http2_server.ProxyHandler.Registration.{posted, deleted}
use http2_server.ProxyClient.{
  RegistrationRequest, registration_fields, unregistration_fields, registration_body,
  unregistration_body,
}
use http2_server.ProxyClient.EndToEnd.{register_backend_arrives, unregister_backend_arrives}
use http2_server.ForwardingClient.{TunnelConfig, registration_data, unregistration_data}

-- The backend of a tunnel, as the registration client would name it.
abbrev pub request_of : TunnelConfig → RegistrationRequest
request_of config = record {
  backend_id = config.tunnel_id;
  host = config.local_host;
  port = config.local_port;
  path_pattern = config.path_pattern;
}

-- The rule that the registry is to hold for a tunnel.
abbrev pub rule_of : TunnelConfig → ForwardingRule
rule_of config = record {
  backend_id = config.tunnel_id;
  target_host = config.local_host;
  target_port = config.local_port;
  path_pattern = config.path_pattern;
}

module _ (J : JsonLib) (laws : JsonLaws J) (beast : Beast) (order : Order)
    (config : TunnelConfig) where
  tunnel_body :
      (body : Text)
      → J.dump (J.object (registration_data J beast config)) ≡ some body
      → registration_body J beast (request_of config) ≡ some body
  unfolding registration_data registration_fields registration_body
  tunnel_body body h = h

  tunnel_last_body :
      (body : Text)
      → J.dump (J.object (unregistration_data J beast config)) ≡ some body
      → unregistration_body J beast config.tunnel_id ≡ some body
  unfolding unregistration_data unregistration_fields unregistration_body
  tunnel_last_body body h = h

  tunnel_opens :
      (path body : Text) (i : ℤ) (s : ResponseSender) (w : World)
      → J.dump (J.object (registration_data J beast config)) ≡ some body
      → (handle_registration_request J beast order (codes "POST") path body i s w).1.registry
        ≡ register_backend config.tunnel_id config.local_host config.local_port config.path_pattern
            w.registry
  unfolding posted respond
  tunnel_opens path body i s w d =
      ap (λ x. x.1.registry)
        (register_backend_arrives J laws beast order (request_of config) path body i s w
          (tunnel_body body d))

  tunnel_closes :
      (path body : Text) (i : ℤ) (s : ResponseSender) (w : World)
      → J.dump (J.object (unregistration_data J beast config)) ≡ some body
      → (handle_registration_request J beast order (codes "DELETE") path body i s w).1.registry
        ≡ unregister_backend config.tunnel_id w.registry
  unfolding deleted respond
  tunnel_closes path body i s w d =
      ap (λ x. x.1.registry)
        (unregister_backend_arrives J laws beast order config.tunnel_id path body i s w
          (tunnel_last_body body d))

  -- With the laws of the JSON library, and if both texts of a tunnel can be printed: what its start
  -- sends makes the server hold the tunnel's backend under the tunnel's id, and what its stop sends,
  -- at any later moment when the registry is well formed, leaves nothing under it. Neither touches
  -- any other id.
  pub tunnel_arrives :
      (path last_path body last_body : Text) (i j : ℤ) (s t : ResponseSender) (w v : World)
      (id : Text)
      → J.dump (J.object (registration_data J beast config)) ≡ some body
      → J.dump (J.object (unregistration_data J beast config)) ≡ some last_body
      → WellFormed v.registry
      → (lookup id
            (handle_registration_request J beast order
              (codes "POST")
              path
              body
              i
              s
              w).1.registry.backends
          ≡ (if config.tunnel_id == id
              then some (rule_of config)
              else lookup id w.registry.backends))
        × (lookup id
              (handle_registration_request J beast order
                (codes "DELETE")
                last_path
                last_body
                j
                t
                v).1.registry.backends
            ≡ (if config.tunnel_id == id then none else lookup id v.registry.backends))
  unfolding register_backend unregister_backend
  tunnel_arrives path last_path body last_body i j s t w v id d e q = (
    ap (λ (r : Registry). lookup id r.backends) (tunnel_opens path body i s w d)
        ∙ lookup-insert config.tunnel_id id (rule_of config) w.registry.backends,
    ap (λ (r : Registry). lookup id r.backends) (tunnel_closes last_path last_body j t v e)
        ∙ lookup-erase config.tunnel_id id v.registry.backends q.distinct,
  )
