-- ===== src/ProxyClient.antt =====
-- `ProxyClient` (src/transport/proxy_client.hpp and proxy_client.cpp): registering a backend with a
-- proxy and removing it. The user's `RegistrationCallback` is called with the pair that is returned.
pub mod EndToEnd
use http2_server.Prelude.{
  Option, none, some, [], ◌∷◌, ◌++◌, Bool, true, false, is_empty, if◌then◌else◌, ◌==◌,
}
use http2_server.Prelude.Text.{Text, codes}
use http2_server.Prelude.Int.{ℤ, pos, int_eq}
use http2_server.Prelude.Map.{Map}
use http2_server.Json.{JsonLib}
use http2_server.HttpClient.{Beast, Connection, Outcome, send_request}

pub record RegistrationRequest : Type 0 where
  pub backend_id : Text
  pub host : Text
  pub port : ℤ
  pub path_pattern : Text

-- Which of the two lambdas was captured.
pub data Purpose : Type 0 where
  registration unregistration : Purpose

-- The common part of the two lambdas: `done` and `what` are their texts.
judge : Text → Text → Outcome → Bool × Text
judge done what o =
    if is_empty o.error
    then if o.response.status_code == pos 200
      then (true, done)
      else (false, what ++ o.response.body)
    else (false, o.error)

-- The lambda given to `send_request`: success and message for the user's callback.
unfoldable pub on_response : Purpose → Outcome → Bool × Text
unfolding judge
on_response registration o =
    judge (codes "Registration successful") (codes "Registration failed: ") o
on_response unregistration o =
    judge (codes "Unregistration successful") (codes "Unregistration failed: ") o

module _ (J : JsonLib) (beast : Beast) where
  -- `registration_data`
  unfoldable pub registration_fields : RegistrationRequest → Map Text J.Value
  registration_fields q =
      (codes "backend_id", J.string_value q.backend_id)
      ∷ (codes "host", J.string_value q.host)
      ∷ (codes "port", J.int_value q.port)
      ∷ (codes "path_pattern", J.string_value q.path_pattern)
      ∷ []

  -- `unregistration_data`
  unfoldable pub unregistration_fields : Text → Map Text J.Value
  unregistration_fields backend_id = (codes "backend_id", J.string_value backend_id) ∷ []

  unfoldable pub registration_body : RegistrationRequest → Option Text
  registration_body q = J.dump (J.object (registration_fields q))

  unfoldable pub unregistration_body : Text → Option Text
  unregistration_body backend_id = J.dump (J.object (unregistration_fields backend_id))

  start : Text → ℤ → Text → Purpose → Option Text → Option (Connection Purpose)
  start host port method purpose none = none
  start host port method purpose (some body) =
      send_request beast host port method (codes "/proxy/register") body purpose

  -- `none` is an exception, thrown before anything is sent.
  unfoldable pub register_backend : Text → ℤ → RegistrationRequest → Option (Connection Purpose)
  unfolding start registration_body
  register_backend proxy_host proxy_port q =
      start proxy_host proxy_port (codes "POST") registration (registration_body q)

  unfoldable pub unregister_backend : Text → ℤ → Text → Option (Connection Purpose)
  unfolding start unregistration_body
  unregister_backend proxy_host proxy_port backend_id =
      start proxy_host proxy_port (codes "DELETE") unregistration (unregistration_body backend_id)
