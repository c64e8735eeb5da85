-- ===== src/ProxyClient/EndToEnd.antt =====
-- From `ProxyClient` to the registry of the proxy: what the client asks for is what the server does.
use http2_server.Prelude.{◌≡◌, refl, ap, ◌∙◌, some, arith}
use http2_server.Prelude.Text.{Text, codes, text_eq, text_beq}
use http2_server.Prelude.Int.{ℤ}
use http2_server.Prelude.Map.{lookup}
use http2_server.Json.{JsonLib, JsonLaws}
use http2_server.Registry.{Order}
use http2_server.HttpClient.{Beast}
use http2_server.World.{World, ResponseSender}
use http2_server.ProxyHandler.{handle_registration_request}
use http2_server.ProxyHandler.Registration.{
  registered-post, registered-delete, Registration, posted, deleted, registered, carry_out,
  read_registration, handle_registration_request_lem,
}
use http2_server.ProxyClient.{
  RegistrationRequest, registration_body, unregistration_body, registration_fields,
  unregistration_fields,
}

abbrev pub asked : RegistrationRequest → Registration
asked q = record {
  backend_id = q.backend_id;
  host = q.host;
  port = q.port;
  path_pattern = q.path_pattern;
}

module _ (J : JsonLib) (beast : Beast) (q : RegistrationRequest) where
  -- The four fields are under the keys that the server reads.
  registration_fields-keys :
      (lookup (codes "backend_id") (registration_fields J beast q)
        ≡ some (J.string_value q.backend_id))
      × (lookup (codes "host") (registration_fields J beast q) ≡ some (J.string_value q.host))
      × (lookup (codes "port") (registration_fields J beast q) ≡ some (J.int_value q.port))
      × (lookup (codes "path_pattern") (registration_fields J beast q)
          ≡ some (J.string_value q.path_pattern))
  unfolding registration_fields codes lookup text_beq
  registration_fields-keys = (refl, refl, refl, refl)

unregistration_fields-key :
    (J : JsonLib) (beast : Beast) (id : Text)
    → lookup (codes "backend_id") (unregistration_fields J beast id) ≡ some (J.string_value id)
unfolding unregistration_fields codes lookup text_beq
unregistration_fields-key J beast id = refl

module _ (J : JsonLib) (laws : JsonLaws J) (beast : Beast) (order : Order) where
  read_registration-fields :
      (q : RegistrationRequest)
      → read_registration J beast order (J.object (registration_fields J beast q)) ≡ some (asked q)
  read_registration-fields q =
      let fields = registration_fields J beast q in
      let (id, host, port, pattern) = registration_fields-keys J beast q in
      ground (
        arith,
        laws.get_string-object fields (codes "backend_id") q.backend_id id,
        laws.get_string-object fields (codes "host") q.host host,
        laws.get_int-object fields (codes "port") q.port port,
        laws.get_string-object fields (codes "path_pattern") q.path_pattern pattern,
      )

  -- With the laws of the JSON library, and if the request can be printed: what
  -- `ProxyClient::register_backend` sends makes the proxy register exactly the backend that was
  -- asked for, and confirm it; the reply refuses it if its own text cannot be printed.
  pub register_backend_arrives :
      (q : RegistrationRequest) (path body : Text) (i : ℤ) (s : ResponseSender) (w : World)
      → registration_body J beast q ≡ some body
      → handle_registration_request J beast order (codes "POST") path body i s w
        ≡ carry_out J beast order s i (posted J beast order (some (asked q)) w.registry) w
  unfolding registration_body
  register_backend_arrives q path body i s w h =
      let j = J.object (registration_fields J beast q) in
      handle_registration_request_lem J beast order (codes "POST") path body i s w
      ∙ ap (λ o. carry_out J beast order s i o w)
          (ap (λ o. registered J beast order (codes "POST") o w.registry)
              (laws.parse-dump (registration_fields J beast q) body h)
            ∙ registered-post J beast order j w.registry
            ∙ ap (λ o. posted J beast order o w.registry) (read_registration-fields q))

  -- With the laws of the JSON library, and if the request can be printed: what
  -- `ProxyClient::unregister_backend` sends makes the proxy remove exactly that id, and confirm
  -- it; the reply refuses it if its own text cannot be printed.
  pub unregister_backend_arrives :
      (id path body : Text) (i : ℤ) (s : ResponseSender) (w : World)
      → unregistration_body J beast id ≡ some body
      → handle_registration_request J beast order (codes "DELETE") path body i s w
        ≡ carry_out J beast order s i (deleted J beast order (some id) w.registry) w
  unfolding unregistration_body
  unregister_backend_arrives id path body i s w h =
      let fields = unregistration_fields J beast id in
      handle_registration_request_lem J beast order (codes "DELETE") path body i s w
      ∙ ap (λ o. carry_out J beast order s i o w)
          (ap (λ o. registered J beast order (codes "DELETE") o w.registry)
              (laws.parse-dump fields body h)
            ∙ registered-delete J beast order (J.object fields) w.registry
            ∙ ap (λ o. deleted J beast order o w.registry)
                (laws.get_string-object fields (codes "backend_id") id
                  (unregistration_fields-key J beast id)))
