-- ===== src/Tests/Proxying.antt =====
-- A session of the proxy for HTTP/1.1 (src/transport/http1_proxy.cpp) that finds no backend.
use http2_server.Prelude.{◌≡◌, refl, List, [], ◌∷◌, true, false, length, arith}
use http2_server.Prelude.Text.{codes}
use http2_server.Prelude.Int.{pos}
use http2_server.Registry.{empty}
use http2_server.ActiveRequest.{no_requests}
use http2_server.ActiveRequest.Tracking.{no_requests-WellFormed}
use http2_server.Http1Proxy.{Completion, new_session, start, live, ended}
use http2_server.Http1Proxy.Lifecycle.{IsTracked, live-IsTracked}
use http2_server.Http1Proxy.Replies.{live_replies}
use http2_server.Http1Proxy.Expected.{expected}
use http2_server.Http1Proxy.Responses.{live_responds}
use http2_server.Http1Proxy.Site.{Event, connected, completion, new_site, life}
use http2_server.Http1Proxy.Site.{is_ended}
use http2_server.Http1Proxy.Site.Entries.{open_entries}
use http2_server.Http1Proxy.Site.Counting.{life_counts}
use http2_server.ActiveRequest.{get_active_count}
use http2_server.Prelude.Map.{Distinct}
use http2_server.Prelude.{not, keep_if, nat_eq}
use http2_server.Http1Proxy.{register_directly}
use http2_server.Http1Proxy.FrontDoors.{register_directly-same_registry}
use http2_server.Prelude.Text.{text_beq}
use http2_server.ProxyHandler.{handle_registration_request}
use http2_server.Server.{initial}
use http2_server.ProxyHandler.{initialize}
use http2_server.Tests.Samples.{json, beast, order}

abbrev asks : Completion
asks = record {
  ec = false;
  request = record {
    version = 11;
    method = codes "GET";
    target = codes "/a";
    fields = [];
    body = [];
  };
  response = record { result_int = pos 0; body = []; fields = [] };
}

abbrev broken : Completion
broken = record asks { ec = true }

abbrev six : List Completion
six = asks ∷ broken ∷ asks ∷ asks ∷ asks ∷ asks ∷ []

live-IsTracked_example :
    IsTracked (live json order (λ x. x) (start (new_session 5 empty no_requests)) six)
live-IsTracked_example =
    live-IsTracked json order (λ x. x) 5 empty no_requests six no_requests-WellFormed (omega arith)

live_replies_example :
    ((live json order (λ x. x) (start (new_session 5 empty no_requests)) six).phase ≡ ended)
    × (length (live json order (λ x. x) (start (new_session 5 empty no_requests)) six).sent ≡ 1)
live_replies_example =
    live_replies json order (λ x. x) 5 empty no_requests asks
      (broken ∷ asks ∷ asks ∷ asks ∷ asks ∷ []) no_requests-WellFormed (omega arith) refl
      (omega arith)

register_directly-same_registry_example :
    (register_directly json order
      (λ x. x)
      (codes "DELETE")
      (json.parse [])
      (new_session 5 empty no_requests)).registry
    ≡ (handle_registration_request json beast order
        (codes "DELETE")
        (codes "/proxy/register")
        []
        (pos 1)
        7
        initial).1.registry
register_directly-same_registry_example =
    register_directly-same_registry json beast order (λ x. x) (codes "DELETE")
      (codes "/proxy/register") [] (pos 1) 7 initial (new_session 5 empty no_requests)
      (unfold codes text_beq in refl) (unfold new_session initialize in refl)

live_responds_example :
    (live json order
      (λ x. x)
      (start (new_session 5 empty no_requests))
      (asks ∷ asks ∷ asks ∷ broken ∷ asks ∷ [])).sent
    ≡ expected json order (λ x. x) empty asks.request asks asks broken asks ∷ []
live_responds_example =
    live_responds json order (λ x. x) 5 empty no_requests asks asks asks broken asks []
      no_requests-WellFormed (omega arith) refl

-- Two sessions, of which the first fails to read its request.
abbrev happenings : List Event
happenings = connected 5 ∷ connected 6 ∷ completion 0 broken ∷ completion 1 asks ∷ connected 7 ∷ []

life_counts_example :
    let s = life json order (λ x. x) (new_site empty) happenings in
    (s.manager.active_requests ≡ open_entries s.members)
    × (get_active_count s.manager ≡ length (keep_if (λ x. not (is_ended x.phase)) s.members))
    × Distinct s.manager.active_requests
life_counts_example = life_counts json order (λ x. x) empty happenings (omega arith)
