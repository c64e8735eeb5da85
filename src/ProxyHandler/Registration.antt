-- ===== src/ProxyHandler/Registration.antt =====
-- What `handle_registration_request` (src/transport/proxy_handler.cpp) does, against a plain reading of
-- its request.
use http2_server.Prelude.{◌≡◌, refl, Option, none, some, ◌==◌, if◌then◌else◌, arith}
use http2_server.Prelude.Text.{Text, codes, text_eq, text_beq}
use http2_server.Prelude.Int.{ℤ, pos}
use http2_server.Common.{HttpResponse, http_response}
use http2_server.Json.{JsonLib}
use http2_server.Registry.{Registry, Order, register_backend, unregister_backend}
use http2_server.HttpClient.{Beast}
use http2_server.World.{World, Exec, ResponseSender, try_catch, respond, ◌>>=◌}
use http2_server.ProxyHandler.{
  invalid_data_body, not_allowed_body, success_body, post_registration, delete_registration,
  registration_request, handle_registration_request,
}

-- What a registration names.
pub record Registration : Type 0 where
  pub backend_id : Text
  pub host : Text
  pub port : ℤ
  pub path_pattern : Text

abbrev pub refused : HttpResponse
refused = http_response (pos 400) invalid_data_body

-- The reply to a request that has been carried out; it is refused if its text cannot be printed.
abbrev pub confirmed : Option Text → HttpResponse
confirmed none = refused
confirmed (some text) = http_response (pos 200) text

module _ (J : JsonLib) (beast : Beast) (order : Order) where
  abbrev pub read_registration : J.Value → Option Registration
  read_registration j = elim (J.get_string j (codes "backend_id")) [
    | none ↦ none
    | some id ↦ elim (J.get_string j (codes "host")) [
      | none ↦ none
      | some host ↦ elim (J.get_int j (codes "port")) [
        | none ↦ none
        | some port ↦ elim (J.get_string j (codes "path_pattern")) [
          | none ↦ none
          | some pattern ↦
              some (record { backend_id = id; host = host; port = port; path_pattern = pattern })
        ]
      ]
    ]
  ]

  -- The registry after a POST, and the reply.
  unfoldable pub posted : Option Registration → Registry → Registry × HttpResponse
  posted none r = (r, refused)
  posted (some q) r = (
    register_backend q.backend_id q.host q.port q.path_pattern r,
    confirmed (success_body J beast order q.backend_id (codes "Backend registered successfully")),
  )

  -- The registry after a DELETE, and the reply.
  unfoldable pub deleted : Option Text → Registry → Registry × HttpResponse
  deleted none r = (r, refused)
  deleted (some id) r = (
    unregister_backend id r,
    confirmed (success_body J beast order id (codes "Backend unregistered successfully")),
  )

  -- The plain reading of a request: a body that does not parse is refused whatever the method is.
  unfoldable pub registered : Text → Option J.Value → Registry → Registry × HttpResponse
  registered method none r = (r, refused)
  registered method (some j) r =
      if method == codes "POST"
      then posted (read_registration j) r
      else if method == codes "DELETE"
      then deleted (J.get_string j (codes "backend_id")) r
      else (r, http_response (pos 405) not_allowed_body)

  pub registered-post :
      (j : J.Value) (r : Registry)
      → registered (codes "POST") (some j) r ≡ posted (read_registration j) r
  unfolding registered codes text_beq
  registered-post j r = refl

  pub registered-delete :
      (j : J.Value) (r : Registry)
      → registered (codes "DELETE") (some j) r ≡ deleted (J.get_string j (codes "backend_id")) r
  unfolding registered codes text_beq
  registered-delete j r = refl

  -- The action that sends this reply and leaves this registry.
  abbrev pub carry_out : ResponseSender → ℤ → Registry × HttpResponse → Exec (Unit {0})
  carry_out s i (r, response) w = respond s i response (record w { registry = r })

  -- Whatever the request, the path included: the one reply and the new registry are those of the
  -- plain reading; nothing else of the shared state changes, and nothing is thrown.
  pub handle_registration_request_lem :
      (method path body : Text) (i : ℤ) (s : ResponseSender) (w : World)
      → handle_registration_request J beast order method path body i s w
        ≡ carry_out s i (registered method (J.parse body) w.registry) w
  unfolding handle_registration_request registration_request post_registration delete_registration
      registered posted deleted try_catch ◌>>=◌ respond
  handle_registration_request_lem method path body i s w = ground arith
