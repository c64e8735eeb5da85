-- ===== src/ProxyHandler.antt =====
-- `ForwardingHandler` and `ProxyRequestHandler` (src/transport/proxy_handler.cpp).
pub mod Registration
pub mod Accounting
pub mod Network
pub mod Relay
use http2_server.Prelude.{
  ℕ, zero, suc, ◌≡◌, Option, none, some, List, [], ◌∷◌, ◌++◌, Bool, true, false, ◌==◌, is_empty,
  take, if◌then◌else◌,
}
use http2_server.Prelude.Text.{Text, codes, text_eq, found_at_start, substr}
use http2_server.Prelude.Int.{ℤ, pos}
use http2_server.Common.{HttpResponse, http_response}
use http2_server.Json.{JsonLib}
use http2_server.Registry.{
  Registry, Order, ForwardingRule, find_backend, register_backend, unregister_backend,
}
use http2_server.HttpClient.{
  Beast, Connection, Completion, Outcome, ProxyResponse, send_request, complete,
}
use http2_server.World.{
  World, Exec, ResponseSender, Reply, Captured, pure, throw, lift, gets, modify, try_catch, respond,
  ◌>>=◌, ◌>>◌,
}

abbrev pub no_backend_body : Text
no_backend_body = codes "{\"error\": \"No backend found for this path\"}"

abbrev pub request_failed_body : Text
request_failed_body = codes "{\"error\": \"Backend request failed\"}"

abbrev pub not_initialized_body : Text
not_initialized_body = codes "{\"error\": \"Proxy not initialized\"}"

abbrev pub not_allowed_body : Text
not_allowed_body = codes "{\"error\": \"Method not allowed\"}"

abbrev pub invalid_data_body : Text
invalid_data_body = codes "{\"error\": \"Invalid request data\"}"

-- `ForwardingHandler::matches_pattern`
unfoldable pub matches_pattern : Text → Text → Bool
matches_pattern path pattern = found_at_start path pattern

-- The lambda that `forward_request` passes to `send_request`.
unfoldable pub forward_reply : Captured → Outcome → Exec (Unit {0})
forward_reply c o =
    if is_empty o.error
    then respond c.sender c.stream_id (http_response o.response.status_code o.response.body)
    else respond c.sender c.stream_id (http_response (pos 502) request_failed_body)

module _ (J : JsonLib) (beast : Beast) (order : Order) where
  -- The connection is new and its first operation is under way.
  unfoldable pub start_call : Connection Captured → Exec (Unit {0})
  start_call k = modify λ w. record w { calls = w.calls ++ k ∷ [] }

  -- `forward_request` once the rule has been looked up.
  unfoldable pub forward_found :
      Text → Text → Text → ℤ → ResponseSender → Option ForwardingRule → Exec (Unit {0})
  forward_found method path body stream_id sender none =
      respond sender stream_id (http_response (pos 404) no_backend_body)
  forward_found method path body stream_id sender (some rule) = do
    k ← lift (
        send_request beast rule.target_host rule.target_port method path body
          (record { sender = sender; stream_id = stream_id }))
    start_call k

  -- `ForwardingHandler::forward_request`
  unfoldable pub forward_request : Text → Text → Text → ℤ → ResponseSender → Exec (Unit {0})
  forward_request method path body stream_id sender = do
    rule ← gets λ w. find_backend order w.registry path
    forward_found method path body stream_id sender rule

  unfoldable pub success_body : Text → Text → Option Text
  success_body backend_id message = J.dump (
      J.object (
        (codes "status", J.string_value (codes "success"))
        ∷ (codes "backend_id", J.string_value backend_id)
        ∷ (codes "message", J.string_value message)
        ∷ []))

  unfoldable pub post_registration : J.Value → ℤ → ResponseSender → Exec (Unit {0})
  post_registration request_json stream_id sender = do
    backend_id ← lift (J.get_string request_json (codes "backend_id"))
    host ← lift (J.get_string request_json (codes "host"))
    port ← lift (J.get_int request_json (codes "port"))
    path_pattern ← lift (J.get_string request_json (codes "path_pattern"))
    modify
        λ w. record w { registry = register_backend backend_id host port path_pattern w.registry }
    response ← lift (success_body backend_id (codes "Backend registered successfully"))
    respond sender stream_id (http_response (pos 200) response)

  unfoldable pub delete_registration : J.Value → ℤ → ResponseSender → Exec (Unit {0})
  delete_registration request_json stream_id sender = do
    backend_id ← lift (J.get_string request_json (codes "backend_id"))
    modify λ w. record w { registry = unregister_backend backend_id w.registry }
    response ← lift (success_body backend_id (codes "Backend unregistered successfully"))
    respond sender stream_id (http_response (pos 200) response)

  -- The body of the `try` block.
  unfoldable pub registration_request : Text → Text → ℤ → ResponseSender → Exec (Unit {0})
  registration_request method body stream_id sender = do
    request_json ← lift (J.parse body)
    if method == codes "POST"
        then post_registration request_json stream_id sender
        else if method == codes "DELETE"
        then delete_registration request_json stream_id sender
        else respond sender stream_id (http_response (pos 405) not_allowed_body)

  -- `ProxyRequestHandler::handle_registration_request`. The path is not read.
  unfoldable pub handle_registration_request :
      Text → Text → Text → ℤ → ResponseSender → Exec (Unit {0})
  handle_registration_request method path body stream_id sender =
      try_catch (registration_request method body stream_id sender)
        (respond sender stream_id (http_response (pos 400) invalid_data_body))

  -- `ProxyRequestHandler::handle_proxy_request`
  unfoldable pub handle_proxy_request : Text → Text → Text → ℤ → ResponseSender → Exec (Unit {0})
  handle_proxy_request method path body stream_id sender = do
    ready ← gets λ w. w.initialized
    if ready
        then if substr path 15 == codes "/proxy/register"
          then handle_registration_request method path body stream_id sender
          else forward_request method path body stream_id sender
        else respond sender stream_id (http_response (pos 500) not_initialized_body)

-- The operation under way in the call at a position completes.
pub complete_at :
    ℕ
    → Completion
    → List (Connection Captured)
    → List (Connection Captured) × Option (Captured × Outcome)
complete_at i c [] = ([], none)
complete_at zero c (k ∷ ks) =
    let (next, outcome) = complete k c in
    (next ∷ ks, elim outcome [ none ↦ none | some o ↦ some (k.callback, o) ])
complete_at (suc i) c (k ∷ ks) = let (rest, called) = complete_at i c ks in (k ∷ rest, called)

call_back : Option (Captured × Outcome) → Exec (Unit {0})
call_back none = pure tt
call_back (some (c, o)) = forward_reply c o

-- One turn of the event loop for a call of `http_client_`: the handler runs, and at the end of the
-- chain the lambda of `forward_request`.
unfoldable pub network_event : ℕ → Completion → Exec (Unit {0})
unfolding complete_at call_back
network_event i c w =
    let (calls, called) = complete_at i c w.calls in call_back called (record w { calls = calls })

-- `ProxyRequestHandler::initialize`
unfoldable pub initialize : World → World
initialize w = record w { initialized = true }
