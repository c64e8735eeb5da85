-- ===== src/Server.antt =====
-- The request handler that `main` (src/main.cpp) gives to the server, with the routes that it
-- registers, and the server's life as a list of events.
pub mod Answers
pub mod Table
pub mod Appends
pub mod Replies
pub mod Site
use http2_server.Prelude.{
  ℕ, Option, none, some, List, [], ◌∷◌, false, true, ◌||◌, ◌==◌, if◌then◌else◌,
}
use http2_server.Prelude.Text.{Text, codes, text_eq}
use http2_server.Prelude.Int.{ℤ, pos}
use http2_server.Common.{http_response}
use http2_server.Json.{JsonLib}
use http2_server.Registry.{Order, empty}
use http2_server.HttpClient.{Beast, Completion}
use http2_server.World.{World, Exec, ResponseSender, respond}
use http2_server.RequestHandler.{
  RequestCb, RequestHandler, no_routes, register_route, handle_request,
}
use http2_server.ProxyHandler.{
  handle_registration_request, handle_proxy_request, initialize, network_event,
}

-- The lambda of the route GET /test.
unfoldable pub test_route : RequestCb
test_route method path body stream_id sender = respond sender stream_id (http_response (pos 204) [])

-- What the connections and the event loop bring in.
pub data Event : Type 0 where
  request : Text → Text → Text → ℤ → ResponseSender → Event
  network : ℕ → Completion → Event

-- The rest of a history, which an exception cuts off.
abbrev pub resume : Option (Unit {0}) → World → (World → Option World) → Option World
resume none w rest = none
resume (some done) w rest = rest w

module _ (J : JsonLib) (beast : Beast) (order : Order) where
  -- The calls of `register_route`, in their order.
  unfoldable pub routes : RequestHandler
  routes =
      register_route (codes "DELETE") (codes "/proxy/register")
        (handle_registration_request J beast order)
        (register_route (codes "POST") (codes "/proxy/register")
          (handle_registration_request J beast order)
          (register_route (codes "GET") (codes "/test") test_route no_routes))

  -- The lambda given to `set_request_handler`.
  unfoldable pub request_handler : RequestCb
  request_handler method path body stream_id sender =
      if (path == codes "/test") || (path == codes "/proxy/register")
      then handle_request J routes method path body stream_id sender
      else handle_proxy_request J beast order method path body stream_id sender

  unfoldable pub on_event : Event → Exec (Unit {0})
  on_event (request method path body stream_id sender) =
      request_handler method path body stream_id sender
  on_event (network i c) = network_event i c

  -- The world after some events; `none` if an exception escaped, which ends the program.
  unfoldable pub serve : World → List Event → Option World
  serve w [] = some w
  serve w (e ∷ es) = resume (on_event e w).0 (on_event e w).1 (λ next. serve next es)

-- The state once `initialize` has run.
abbrev pub initial : World
initial = initialize (record { registry = empty; initialized = false; sent = []; calls = [] })
