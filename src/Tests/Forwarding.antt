-- ===== src/Tests/Forwarding.antt =====
-- Requests to a running server with one backend (src/main.cpp).
use http2_server.Prelude.{◌≡◌, refl, none, some, [], ◌∷◌, map, true, arith}
use http2_server.Prelude.Text.{Text, codes, text_beq, NoNul, find, found_at_start, starts_with}
use http2_server.Prelude.Int.{pos}
use http2_server.Registry.{ForwardingRule, find_backend, first_match}
use http2_server.HttpClient.{Completion}
use http2_server.World.{World}
use http2_server.Server.{request, network, request_handler, serve}
use http2_server.Server.Replies.{IsProxied, relayed, forwarded, unknown_verb_escapes}
use http2_server.Server.Site.{site, request_handler_lem}
use http2_server.Tests.Samples.{json, beast, order}

abbrev api : ForwardingRule
api = record {
  backend_id = codes "a";
  target_host = codes "h";
  target_port = pos 80;
  path_pattern = codes "/api";
}

abbrev running : World
running = record {
  registry = record { backends = (codes "a", api) ∷ [] };
  initialized = true;
  sent = [];
  calls = [];
}

abbrev path : Text
path = codes "/api/x"

path-IsProxied : IsProxied path
unfolding codes text_beq
path-IsProxied = (refl, refl)

found : find_backend order running.registry path ≡ some api
unfolding find_backend first_match codes text_beq find found_at_start starts_with
found = refl

abbrev succeeded : Completion
succeeded = record {
  ec = none;
  message = record { result_int = pos 201; body = codes "hi"; fields = [] };
}

forwarded_example :
    (v : World) × (serve json beast order running (
        request (codes "GET") path [] (pos 1) 7
        ∷ map (network 0) (succeeded ∷ succeeded ∷ succeeded ∷ succeeded ∷ []))
      ≡ some v)
    × (v.sent
        ≡ record {
          sender = 7;
          stream_id = pos 1;
          response = relayed succeeded succeeded succeeded succeeded;
        }
          ∷ [])
    × (v.registry ≡ running.registry)
forwarded_example =
    forwarded json beast order (codes "GET") path [] (pos 1) 7 running api (codes "GET") succeeded
      succeeded succeeded succeeded refl path-IsProxied found (unfold codes text_beq in refl)
      (λ (e, f). cc) (unfold codes in omega arith)

unknown_verb_escapes_example :
    serve json beast order running (request (codes "BREW") path [] (pos 1) 7 ∷ []) ≡ none
unknown_verb_escapes_example =
    unknown_verb_escapes json beast order (codes "BREW") path [] (pos 1) 7 running api [] refl
      path-IsProxied found (unfold codes text_beq in refl)

get_NoNul : NoNul (codes "GET")
unfolding codes
get_NoNul = (λ h. cc, (λ h. cc, (λ h. cc, tt)))

health_NoNul : NoNul (codes "/health")
unfolding codes
health_NoNul = ground arith

request_handler_lem_example :
    request_handler json beast order (codes "GET") (codes "/health") [] (pos 1) 7 running
    ≡ site json beast order (codes "GET") (codes "/health") [] (pos 1) 7 running
request_handler_lem_example =
    request_handler_lem json beast order (codes "GET") (codes "/health") [] (pos 1) 7 running
      get_NoNul health_NoNul refl
