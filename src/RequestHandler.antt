-- ===== src/RequestHandler.antt =====
-- `RequestHandler` (src/transport/request_handler.h and request_handler.cpp): routes by method and
-- path, the default routes, and the reply to an exception. Its callers pass views of whole
-- `std::string` values or of literals, so the bytes behind `data()` end at a NUL.
pub mod Routes
use http2_server.Prelude.{
  ◌≡◌, Option, none, some, List, [], ◌∷◌, true, ◌&&◌, ◌==◌, if◌then◌else◌, pair_eq,
}
use http2_server.Prelude.Text.{Text, codes, text_eq, c_str}
use http2_server.Prelude.Int.{ℤ, pos}
use http2_server.Prelude.Map.{Map, lookup, insert}
use http2_server.Common.{http_response}
use http2_server.Json.{JsonLib}
use http2_server.World.{Exec, ResponseSender, lift, try_catch, respond, ◌>>=◌}

-- `RequestCB` (src/transport/common.h): method, path, body, stream id and sender.
abbrev pub RequestCb : Type 0
RequestCb = Text → Text → Text → ℤ → ResponseSender → Exec (Unit {0})

abbrev pub RouteKey : Type 0
RouteKey = Text × Text

pub record RequestHandler : Type 0 where
  pub route_handlers : Map RouteKey RequestCb

abbrev pub no_routes : RequestHandler
no_routes = record { route_handlers = [] }

unfoldable pub route_key : Text → Text → RouteKey
route_key method path = (c_str method, c_str path)

unfoldable pub register_route : Text → Text → RequestCb → RequestHandler → RequestHandler
unfolding route_key
register_route method path callback h = record {
  route_handlers = insert (route_key method path) callback h.route_handlers;
}

module _ (J : JsonLib) where
  unfoldable pub create_error_response : ℤ → Text → J.Value
  create_error_response code message = J.object (
      (codes "error", J.bool_value true)
      ∷ (codes "code", J.int_value code)
      ∷ (codes "message", J.string_value message)
      ∷ [])

  -- The loop over `data.items()`.
  set_items : J.Value → List (Text × J.Value) → J.Value
  set_items response [] = response
  set_items response ((key, value) ∷ rest) = set_items (J.set_item response key value) rest

  unfoldable pub create_success_response : J.Value → J.Value
  unfolding set_items
  create_success_response content =
      set_items (J.object ((codes "success", J.bool_value true) ∷ [])) (J.items content)

  -- `sender(stream_id, HttpResponse(status, value.dump()))`
  unfoldable pub respond_json : ResponseSender → ℤ → ℤ → J.Value → Exec (Unit {0})
  respond_json sender stream_id status value = do
    text ← lift (J.dump value)
    respond sender stream_id (http_response status text)

  unfoldable pub handle_default_routes : RequestCb
  handle_default_routes method path body stream_id sender =
      if (method == codes "GET") && (path == codes "/health")
      then respond_json sender stream_id (pos 200)
          (J.object ((codes "status", J.string_value (codes "ok")) ∷ []))
      else respond_json sender stream_id (pos 404)
          (create_error_response (pos 404) (codes "Route not found"))

  -- What the `try` block does with the result of the search.
  unfoldable pub run_route : Option RequestCb → RequestCb
  run_route (some callback) method path body stream_id sender =
      callback method path body stream_id sender
  run_route none method path body stream_id sender =
      handle_default_routes method path body stream_id sender

  unfoldable pub handle_request : RequestHandler → RequestCb
  handle_request h method path body stream_id sender =
      try_catch
        (run_route (lookup (route_key method path) h.route_handlers) method path body stream_id
          sender)
        (respond_json sender stream_id (pos 500)
          (create_error_response (pos 500) (codes "Internal server error")))
