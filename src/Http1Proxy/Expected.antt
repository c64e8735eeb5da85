-- ===== src/Http1Proxy/Expected.antt =====
-- The response that a client of the proxy for HTTP/1.1 (src/transport/http1_proxy.cpp) is to get, read off
-- its request, the registry and the operations that follow.
use http2_server.Prelude.{Option, none, some, [], ◌∷◌, if◌then◌else◌, ◌==◌, ◌||◌, ◌&&◌}
use http2_server.Prelude.Text.{Text, codes, text_eq}
use http2_server.Prelude.Int.{ℤ, pos}
use http2_server.Json.{JsonLib}
use http2_server.Registry.{Registry, Order, find_backend}
use http2_server.HttpClient.{HttpRequest, HttpMessage}
use http2_server.Http1Proxy.{Completion}

module _ (J : JsonLib) (order : Order) (prepare_payload : HttpMessage → HttpMessage) where
  -- A response of the proxy itself.
  abbrev pub own_response : ℤ → Text → HttpMessage
  own_response status body = prepare_payload (record {
    result_int = status;
    body = body;
    fields =
        (codes "Server", codes "HTTP1-Proxy/1.0")
        ∷ (codes "Content-Type", codes "application/json")
        ∷ [];
  })

  -- The registration of a backend: only whether the body can be read matters.
  abbrev pub registration_response : Text → Option J.Value → HttpMessage
  registration_response method body = elim body [
    | none ↦ own_response (pos 400) (codes "{\"error\":\"Invalid JSON\"}")
    | some j ↦
        if method == codes "POST"
        then elim (J.get_string j (codes "backend_id")) [
          | none ↦ own_response (pos 400) (codes "{\"error\":\"Invalid JSON\"}")
          | some backend_id ↦ elim (J.get_string j (codes "host")) [
            | none ↦ own_response (pos 400) (codes "{\"error\":\"Invalid JSON\"}")
            | some host ↦ elim (J.get_int j (codes "port")) [
              | none ↦ own_response (pos 400) (codes "{\"error\":\"Invalid JSON\"}")
              | some port ↦ elim (J.get_string j (codes "path_pattern")) [
                | none ↦ own_response (pos 400) (codes "{\"error\":\"Invalid JSON\"}")
                | some pattern ↦
                    own_response (pos 200)
                      (codes "{\"status\":\"success\",\"message\":\"Backend registered\"}")
              ]
            ]
          ]
        ]
        else elim (J.get_string j (codes "backend_id")) [
          | none ↦ own_response (pos 400) (codes "{\"error\":\"Invalid JSON\"}")
          | some backend_id ↦
              own_response (pos 200)
                (codes "{\"status\":\"success\",\"message\":\"Backend unregistered\"}")
        ]
  ]

  -- The first operation that fails decides.
  abbrev pub relayed : Completion → Completion → Completion → Completion → HttpMessage
  relayed resolve connect write read =
      if resolve.ec
      then own_response (pos 502) (codes "{\"error\":\"Backend resolve failed\"}")
      else if connect.ec
      then own_response (pos 502) (codes "{\"error\":\"Backend connection failed\"}")
      else if write.ec
      then own_response (pos 502) (codes "{\"error\":\"Backend write failed\"}")
      else if read.ec
      then own_response (pos 502) (codes "{\"error\":\"Backend read failed\"}")
      else read.response

  abbrev pub expected :
      Registry → HttpRequest → Completion → Completion → Completion → Completion → HttpMessage
  expected r q resolve connect write read =
      if (q.target == codes "/proxy/register")
        && ((q.method == codes "POST") || (q.method == codes "DELETE"))
      then registration_response q.method (J.parse q.body)
      else elim (find_backend order r q.target) [
        | none ↦ own_response (pos 404) (codes "{\"error\":\"No backend found for this path\"}")
        | some rule ↦ relayed resolve connect write read
      ]
