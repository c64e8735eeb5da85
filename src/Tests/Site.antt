-- ===== src/Tests/Site.antt =====
-- A whole server (src/core/server.cpp, src/transport/session.cpp, src/main.cpp): a client registers a
-- backend and is then forwarded to it; and another hangs up before the backend has answered.
use http2_server.Prelude.{
  ◌≡◌, ◌↔◌, ℕ, refl, Bool, none, some, List, [], ◌∷◌, ◌++◌, true, false, All,
}
use http2_server.Prelude.Text.{Text, codes, text_beq, c_str, find, found_at_start, starts_with}
use http2_server.Prelude.Int.{ℤ, pos}
use http2_server.Prelude.Map.{lookup, insert}
use http2_server.Prelude.Decimal.{size_to_string, to_string}
use http2_server.HttpClient
use http2_server.HttpClient.{finished, complete, send_request}
use http2_server.Nghttp2.{Frame, headers_frame, request_headers}
use http2_server.Registry.{find_backend, first_match, register_backend}
use http2_server.RequestHandler.{handle_request, run_route, register_route, route_key}
use http2_server.ProxyHandler.{
  handle_registration_request, registration_request, post_registration, forward_found,
  forward_reply, forward_request, handle_proxy_request, initialize, network_event, start_call,
  success_body,
}
use http2_server.World.{Captured, gets, lift, modify, respond, ◌>>=◌, try_catch}
use http2_server.Server.{Event, serve, on_event, request_handler, routes, initial, test_route}
use http2_server.Session
use http2_server.Session.{header, frame_recv, data_chunk, run, step, store_header}
use http2_server.Session.Connection.{
  read, new, start, on_completion, on_handshake, on_read, setup_nghttp2, read_data,
}
use http2_server.Http2Site.{
  Site, new_site, Move, accepted, completion, backend, sent_last, Outcome, going, thrown, dangling,
  session_at, live, happen, deliver, accept, handle_events,
}
use http2_server.Http2Site.Changes.{requests_of}
use http2_server.Http2Site.Delivery.{submissions, responses_to}
use http2_server.Http2Site.Refinement.{live_served}
use http2_server.Http2Site.Answers.{live_answers, submitted_on, passed_on}
use http2_server.Http2Site.Dangling.{hung_up}
use http2_server.Http2Site.Lives.{HitsWithin, live-dangling_iff}
use http2_server.Tests.Samples.{
  json, beast, order, parsed, encode, get, get_int, field, here, rest_of, int_of, of_int,
}

abbrev head : ℤ → ℕ → Frame
head i flags = record { type = headers_frame; cat = request_headers; flags = flags; stream_id = i }

-- A request whose headers end it.
abbrev pub ask : ℤ → Text → List Session.Event
ask i path =
    header (head i 5) (codes ":method") (codes "GET")
    ∷ header (head i 5) (codes ":path") path
    ∷ frame_recv (head i 5)
    ∷ []

abbrev pub register : List Session.Event
register =
    header (head (pos 1) 4) (codes ":method") (codes "POST")
    ∷ header (head (pos 1) 4) (codes ":path") (codes "/proxy/register")
    ∷ frame_recv (head (pos 1) 4)
    ∷ data_chunk 1 (pos 1) (
        json.object (
          (codes "backend_id", codes "b")
          ∷ (codes "host", codes "h")
          ∷ (codes "port", json.int_value (pos 80))
          ∷ (codes "path_pattern", codes "/api")
          ∷ []))
    ∷ []

abbrev pub done : HttpClient.Completion
done = record {
  ec = none;
  message = record { result_int = pos 200; body = codes "hi"; fields = [] };
}

abbrev connected : List Move
connected =
    accepted false
    ∷ accepted false
    ∷ completion 0 (read false register false)
    ∷ completion 1 (read false (ask (pos 3) (codes "/api/x")) false)
    ∷ backend 0 done
    ∷ completion 0 (read false (ask (pos 3) (codes "/test")) false)
    ∷ backend 0 done
    ∷ backend 0 done
    ∷ []

abbrev moves : List Move
moves = connected ++ backend 0 done ∷ sent_last 1 (pos 3) ∷ []

site_of : Outcome → Site
site_of (going s) = s
site_of thrown = new_site
site_of dangling = new_site

abbrev final : Site
final = site_of (live json beast order new_site moves)

abbrev goes_on : Outcome → Bool
goes_on (going s) = true
goes_on thrown = false
goes_on dangling = false

going-site_of : (o : Outcome) → goes_on o ≡ true → o ≡ going (site_of o)
unfolding site_of
going-site_of (going s) h = refl
going-site_of thrown h = cc
going-site_of dangling h = cc

ran : live json beast order new_site moves ≡ going final
unfolding live store_header happen deliver accept handle_events new start on_completion on_handshake
    on_read setup_nghttp2 read_data run step serve on_event request_handler text_beq codes
    handle_request try_catch run_route lookup routes register_route insert c_str
    handle_registration_request registration_request ◌>>=◌ parsed post_registration complete
    send_request size_to_string to_string find found_at_start starts_with forward_found
    forward_reply forward_request handle_proxy_request initialize network_event start_call
    success_body find_backend first_match register_backend route_key gets lift modify respond encode
    get get_int field here rest_of int_of of_int test_route
ran = going-site_of (live json beast order new_site moves) refl

calls_settled : All (λ k. k.phase ≡ finished) final.world.calls
unfolding site_of live store_header happen deliver accept handle_events new start on_completion
    on_handshake on_read setup_nghttp2 read_data run step serve on_event request_handler text_beq
    codes handle_request try_catch run_route lookup routes register_route insert c_str
    handle_registration_request registration_request ◌>>=◌ parsed post_registration complete
    send_request size_to_string to_string find found_at_start starts_with forward_found
    forward_reply forward_request handle_proxy_request initialize network_event start_call
    success_body find_backend first_match register_backend route_key gets lift modify respond encode
    get get_int field here rest_of int_of of_int test_route
calls_settled = (refl, tt)

live_served_example :
    (es : List Event) × (serve json beast order initial es ≡ some final.world)
    × ((n : ℕ) → requests_of n es ≡ (session_at n final.sessions).invoked)
    × ((n : ℕ) → submissions (session_at n final.sessions).calls ≡ responses_to n final.world.sent)
live_served_example = live_served json beast order moves final ran

live_answers_example :
    submitted_on (pos 3) (session_at 1 final.sessions).calls
    ≡ passed_on (pos 3) (session_at 1 final.sessions).invoked
live_answers_example = live_answers json beast order moves final 1 (pos 3) ran calls_settled

abbrev waiting_call : HttpClient.Connection Captured
waiting_call = record {
  host = codes "h";
  service = codes "80";
  request = record {
    version = 11;
    method = codes "GET";
    target = codes "/";
    fields = [];
    body = [];
  };
  phase = HttpClient.reading;
  callback = record { sender = 0; stream_id = pos 1 };
}

-- One plain session, and a call for it that waits for its response.
abbrev waiting_site : Site
waiting_site = record {
  world = record initial { calls = waiting_call ∷ [] };
  sessions = start (new false) ∷ [];
}

hung_up_example :
    live json beast order waiting_site (completion 0 (read true [] false) ∷ backend 0 done ∷ [])
    ≡ dangling
unfolding start new setup_nghttp2 read_data
hung_up_example =
    hung_up json beast order waiting_site 0 [] waiting_call [] false done refl refl refl refl

live-dangling_iff_example :
    (live json beast order waiting_site (completion 0 (read true [] false) ∷ backend 0 done ∷ [])
      ≡ dangling)
    ↔ HitsWithin json beast order waiting_site
        (completion 0 (read true [] false) ∷ backend 0 done ∷ [])
live-dangling_iff_example =
    live-dangling_iff json beast order (completion 0 (read true [] false) ∷ backend 0 done ∷ [])
      waiting_site
