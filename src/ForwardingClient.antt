-- ===== src/ForwardingClient.antt =====
-- `ForwardingClient` (src/examples/forwarding_client.hpp and forwarding_client.cpp): a tunnel, which is a
-- backend that is registered with the two front doors of a server and removed from them again. What a
-- lambda prints is a `Notice`.
pub mod Tunnel
pub mod Uses
pub mod EndToEnd
pub mod Arguments
use http2_server.Prelude.{
  Option, none, some, List, [], ◌∷◌, ◌++◌, Bool, true, false, is_empty, if◌then◌else◌, ◌==◌,
}
use http2_server.Prelude.Text.{Text, codes}
use http2_server.Prelude.Int.{ℤ, pos, int_eq}
use http2_server.Prelude.Decimal.{to_string}
use http2_server.Prelude.Map.{Map}
use http2_server.Json.{JsonLib}
use http2_server.HttpClient.{Beast, Connection}
use http2_server.Http2Client.{Client, new_client}
use http2_server.ProxyClient.{Purpose, registration, unregistration}

pub data RegistrationProtocol : Type 0 where
  http1_only http2_only both : RegistrationProtocol

pub record TunnelConfig : Type 0 where
  pub local_host : Text
  pub local_port : ℤ
  pub proxy_host : Text
  pub proxy_port : ℤ
  pub path_pattern : Text
  pub tunnel_id : Text
  pub protocol : RegistrationProtocol

-- The default constructor, with the number between 1000 and 9999 that was drawn.
unfoldable pub tunnel_config : ℤ → TunnelConfig
tunnel_config drawn = record {
  local_host = codes "localhost";
  local_port = pos 9999;
  proxy_host = codes "192.168.80.132";
  proxy_port = pos 9080;
  path_pattern = codes "/";
  tunnel_id = codes "tunnel-" ++ to_string drawn;
  protocol = both;
}

-- Which lambda was captured, and the port that it captures.
pub record Captured : Type 0 where
  pub purpose : Purpose
  pub port : ℤ

-- What a lambda prints.
pub data Notice : Type 0 where
  failed : ℤ → Text → Notice
  rejected : ℤ → ℤ → Text → Notice
  carried_out : ℤ → Notice
  nothing : Notice

-- The four lambdas, by the status, the body and the error that they are called with. Those of a
-- removal print nothing for another status.
unfoldable pub on_response : Captured → ℤ → Text → Text → Notice
on_response c status body error =
    if is_empty error
    then if status == pos 200
      then carried_out c.port
      else elim c.purpose [ registration ↦ rejected c.port status body | unregistration ↦ nothing ]
    else failed c.port error

pub record Forwarder : Type 0 where
  pub active_tunnel : Option TunnelConfig
  pub is_tunnel_active : Bool
  -- The requests that `http_client_` has started.
  pub http_client : List (Connection Captured)
  pub http2_client : Client Captured

-- The constructor.
abbrev pub new_forwarder : Forwarder
new_forwarder = record {
  active_tunnel = none;
  is_tunnel_active = false;
  http_client = [];
  http2_client = new_client;
}

-- What is left, and whether it was left without an exception.
abbrev pub Action : Type 0
Action = Forwarder → Forwarder × Bool

-- One statement after another; an exception skips the second.
unfoldable pub in_turn : Action → Action → Action
in_turn first second f = let left = first f in if left.1 then second left.0 else left

unfoldable pub set_active : Bool → Action
set_active active f = (record f { is_tunnel_active = active }, true)

-- `http_client_->send_request`, with what it started if it threw nothing.
abbrev pub started : Option (Connection Captured) → Action
started none f = (f, false)
started (some k) f = (record f { http_client = f.http_client ++ k ∷ [] }, true)

module _ (J : JsonLib) (beast : Beast) where
  -- `registration_data`
  unfoldable pub registration_data : TunnelConfig → Map Text J.Value
  registration_data config =
      (codes "backend_id", J.string_value config.tunnel_id)
      ∷ (codes "host", J.string_value config.local_host)
      ∷ (codes "port", J.int_value config.local_port)
      ∷ (codes "path_pattern", J.string_value config.path_pattern)
      ∷ []

  -- `unregistration_data`
  unfoldable pub unregistration_data : TunnelConfig → Map Text J.Value
  unregistration_data config = (codes "backend_id", J.string_value config.tunnel_id) ∷ []

  -- The request of a body over the protocol that the port stands for; no body is the exception of
  -- `dump`.
  unfoldable pub send : Text → ℤ → Text → Purpose → Option Text → Action
  send host port method purpose none f = (f, false)
  send host port method purpose (some body) f =
      let captured : Captured = record { purpose = purpose; port = port } in
      if port == pos 8080
      then (
        record f {
          http2_client =
              http2_server.Http2Client.send_request host port method (codes "/proxy/register") body
                captured f.http2_client;
        },
        true,
      )
      else started
          (http2_server.HttpClient.send_request beast host port method (codes "/proxy/register")
            body captured)
          f

  unfoldable pub register_with_server : TunnelConfig → ℤ → Action
  register_with_server config port =
      send config.proxy_host port (codes "POST") registration
        (J.dump (J.object (registration_data config)))

  unfoldable pub unregister_from_server : TunnelConfig → ℤ → Action
  unregister_from_server config port =
      send config.proxy_host port (codes "DELETE") unregistration
        (J.dump (J.object (unregistration_data config)))

  -- The switch of `start_tunnel`.
  unfoldable pub register_with : TunnelConfig → RegistrationProtocol → Action
  register_with config http1_only = register_with_server config (pos 9080)
  register_with config http2_only = register_with_server config (pos 8080)
  register_with config both =
      in_turn (register_with_server config (pos 9080)) (register_with_server config (pos 8080))

  unfoldable pub start_tunnel : TunnelConfig → Action
  start_tunnel config f =
      in_turn (register_with config config.protocol) (set_active true)
        (record f { active_tunnel = some config })

  -- The switch of `stop_tunnel`.
  unfoldable pub unregister_with : TunnelConfig → RegistrationProtocol → Action
  unregister_with config http1_only = unregister_from_server config (pos 9080)
  unregister_with config http2_only = unregister_from_server config (pos 8080)
  unregister_with config both =
      in_turn (unregister_from_server config (pos 9080)) (unregister_from_server config (pos 8080))

  -- Whether or not there is a tunnel, its id is logged first: `none` is the read through the null
  -- pointer.
  unfoldable pub stop_tunnel : Forwarder → Option (Forwarder × Bool)
  stop_tunnel f = elim f.active_tunnel [
    | none ↦ none
    | some config ↦ some (
        if f.is_tunnel_active
        then in_turn (unregister_with config config.protocol) (set_active false) f
        else (f, true))
  ]

  -- The destructor.
  unfoldable pub destroy : Forwarder → Option (Forwarder × Bool)
  unfolding stop_tunnel
  destroy f = if f.is_tunnel_active then stop_tunnel f else some (f, true)

-- A line that `display_status` prints for a front door.
unfoldable pub public_url : Text → TunnelConfig → Text → Text → Text
public_url label config port remark =
    label
    ++ (codes "http://"
        ++ (config.proxy_host ++ (codes ":" ++ (port ++ (config.path_pattern ++ remark)))))

unfoldable pub public_urls : TunnelConfig → RegistrationProtocol → List Text
public_urls config http1_only =
    public_url (codes "  HTTP/1.1:    ") config (codes "9080") (codes " (HTTP/1.1 only)") ∷ []
public_urls config http2_only =
    public_url (codes "  HTTP/2:      ") config (codes "8080") (codes " (HTTP/2 only)") ∷ []
public_urls config both =
    public_url (codes "  HTTP/2:      ") config (codes "8080") []
    ∷ public_url (codes "  HTTP/1.1:    ") config (codes "9080") []
    ∷ []

-- The lines that are printed.
unfoldable pub display_status : Forwarder → List Text
unfolding public_urls
display_status f = elim f.active_tunnel [
  | none ↦ codes "No active tunnel" ∷ []
  | some config ↦
      (codes "Tunnel ID:     " ++ config.tunnel_id)
      ∷ (codes "Local Backend: "
          ++ (config.local_host ++ (codes ":" ++ to_string config.local_port)))
      ∷ (codes "Status:        "
          ++ (if f.is_tunnel_active then codes "Active" else codes "Inactive"))
      ∷ []
      ∷ codes "Public URLs:"
      ∷ public_urls config config.protocol
]
