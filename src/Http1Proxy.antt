-- ===== src/Http1Proxy.antt =====
-- `Http1ProxySession` (src/transport/http1_proxy.hpp and http1_proxy.cpp): one connection of the proxy
-- for HTTP/1.1, which serves one request. Its request is an object of the manager, and the session is a
-- state that waits for the completion of an asynchronous operation. The sockets are not modelled.
pub mod Held
pub mod Lifecycle
pub mod Replies
pub mod FrontDoors
pub mod Site
pub mod Expected
pub mod Responses
use http2_server.Prelude.{
  ℕ, Option, none, some, List, [], ◌∷◌, ◌++◌, Bool, ◌==◌, ◌||◌, ◌&&◌, if◌then◌else◌, nat_eq,
}
use http2_server.Prelude.Text.{Text, codes, text_eq}
use http2_server.Prelude.Int.{ℤ, pos}
use http2_server.Prelude.Map.{lookup}
use http2_server.Json.{JsonLib}
use http2_server.Registry.{
  Registry, Order, ForwardingRule, find_backend, register_backend, unregister_backend,
}
use http2_server.HttpClient.{HttpRequest, HttpMessage}
use http2_server.ActiveRequest.{
  Manager, Pointer, parsing, forwarding, waiting_backend, sending_response, completed, failed,
  create_request, complete_request, set_state, set_request, set_response,
}

-- The operation under way. `replying` is a write to the client.
pub data Phase : Type 0 where
  unstarted reading resolving connecting writing awaiting replying ended : Phase

-- A session with what it shares: the registry and the manager. `sent` has the writes to the client that
-- have been started.
pub record Session : Type 0 where
  pub registry : Registry
  pub manager : Manager
  pub active_request : Pointer
  pub request_id : ℕ
  pub phase : Phase
  pub sent : List HttpMessage

-- The completion of the operation under way: whether it failed, and the message that a read has parsed.
pub record Completion : Type 0 where
  pub ec : Bool
  pub request : HttpRequest
  pub response : HttpMessage

-- The constructor, with the manager's id for the new request.
unfoldable pub new_session : ℕ → Registry → Manager → Session
new_session now registry manager = record {
  registry = registry;
  manager = (create_request now manager).1;
  active_request = (create_request now manager).0;
  request_id = manager.next_request_id;
  phase = unstarted;
  sent = [];
}

abbrev pub on_manager : (Manager → Manager) → Session → Session
on_manager f s = record s { manager = f s.manager }

-- `active_request_->get_request()`
unfoldable pub request_of : Pointer → Manager → Option HttpRequest
request_of p m = elim (lookup p m.heap) [ none ↦ none | some r ↦ r.request ]

unfoldable pub read_request : Session → Session
read_request s = record (on_manager (set_state s.active_request parsing) s) { phase = reading }

unfoldable pub start : Session → Session
unfolding read_request
start s = read_request s

-- `complete_request` at the end of a handler that starts nothing.
unfoldable pub close : Session → Session
close s = record (on_manager (complete_request s.request_id) s) { phase = ended }

-- A write of this response to the client.
unfoldable pub write_response : HttpMessage → Session → Session
write_response response s =
    record (on_manager
      (λ m. set_state s.active_request sending_response (set_response s.active_request response m))
      s) { phase = replying; sent = s.sent ++ response ∷ [] }

module _ (J : JsonLib) (order : Order) (prepare_payload : HttpMessage → HttpMessage) where
  unfoldable pub send_response : ℤ → Text → Session → Session
  send_response status body s =
      write_response
        (prepare_payload (record {
          result_int = status;
          body = body;
          fields =
              (codes "Server", codes "HTTP1-Proxy/1.0")
              ∷ (codes "Content-Type", codes "application/json")
              ∷ [];
        }))
        s

  unfoldable pub forward_found : Option ForwardingRule → Session → Session
  forward_found none s =
      send_response (pos 404) (codes "{\"error\":\"No backend found for this path\"}") s
  forward_found (some rule) s = record (on_manager (set_state s.active_request forwarding) s) {
    phase = resolving;
  }

  unfoldable pub forward_to_backend : Text → Session → Session
  forward_to_backend path s = forward_found (find_backend order s.registry path) s

  -- The registry after a POST; `none` is an exception.
  unfoldable pub registration : J.Value → Registry → Option Registry
  registration j r = elim (J.get_string j (codes "backend_id")) [
    | none ↦ none
    | some backend_id ↦ elim (J.get_string j (codes "host")) [
      | none ↦ none
      | some host ↦ elim (J.get_int j (codes "port")) [
        | none ↦ none
        | some port ↦ elim (J.get_string j (codes "path_pattern")) [
          | none ↦ none
          | some path_pattern ↦ some (register_backend backend_id host port path_pattern r)
        ]
      ]
    ]
  ]

  -- The registry after a DELETE.
  unfoldable pub unregistration : J.Value → Registry → Option Registry
  unregistration j r = elim (J.get_string j (codes "backend_id")) [
    | none ↦ none
    | some backend_id ↦ some (unregister_backend backend_id r)
  ]

  -- The end of the `try` block, or the `catch`.
  unfoldable pub conclude : Text → Option Registry → Session → Session
  conclude message none s = send_response (pos 400) (codes "{\"error\":\"Invalid JSON\"}") s
  conclude message (some r) s = send_response (pos 200) message (record s { registry = r })

  unfoldable pub register_directly : Text → Option J.Value → Session → Session
  register_directly method none s = conclude [] none s
  register_directly method (some j) s =
      if method == codes "POST"
      then conclude (codes "{\"status\":\"success\",\"message\":\"Backend registered\"}")
          (registration j s.registry) s
      else conclude (codes "{\"status\":\"success\",\"message\":\"Backend unregistered\"}")
          (unregistration j s.registry) s

  unfoldable pub dispatch : Option HttpRequest → Session → Session
  dispatch none s = record s { phase = ended }
  dispatch (some request) s =
      if (request.target == codes "/proxy/register")
        && ((request.method == codes "POST") || (request.method == codes "DELETE"))
      then register_directly request.method (J.parse request.body) s
      else forward_to_backend request.target s

  unfoldable pub handle_request : Session → Session
  handle_request s = dispatch (request_of s.active_request s.manager) s

  -- The handler of the operation under way. Nothing is under way before the start and after the end.
  unfoldable pub on_completion : Phase → Completion → Session → Session
  on_completion unstarted c s = s
  on_completion reading c s =
      if c.ec
      then close (on_manager (set_state s.active_request failed) s)
      else handle_request (on_manager (set_request s.active_request c.request) s)
  on_completion resolving c s =
      if c.ec
      then send_response (pos 502) (codes "{\"error\":\"Backend resolve failed\"}") s
      else record s { phase = connecting }
  on_completion connecting c s =
      if c.ec
      then send_response (pos 502) (codes "{\"error\":\"Backend connection failed\"}") s
      else record (on_manager (set_state s.active_request waiting_backend) s) { phase = writing }
  on_completion writing c s =
      if c.ec
      then send_response (pos 502) (codes "{\"error\":\"Backend write failed\"}") s
      else record s { phase = awaiting }
  on_completion awaiting c s =
      if c.ec
      then send_response (pos 502) (codes "{\"error\":\"Backend read failed\"}") s
      else write_response c.response s
  on_completion replying c s =
      close (on_manager (set_state s.active_request (if c.ec then failed else completed)) s)
  on_completion ended c s = s

  unfoldable pub live : Session → List Completion → Session
  live s [] = s
  live s (c ∷ cs) = live (on_completion s.phase c s) cs
