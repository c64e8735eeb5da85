-- ===== src/Tests/Outages.antt =====
-- A whole server (src/core/server.cpp, src/transport/session.cpp, src/main.cpp): a client registers a
-- backend, is forwarded to it, and hangs up when it has its response.
use http2_server.Prelude.{
  ◌≡◌, ◌⊎◌, ℕ, zero, suc, refl, inl, inr, List, [], ◌∷◌, true, false, All, arith,
}
use http2_server.Prelude.Text.{codes, text_beq, c_str, find, found_at_start, starts_with}
use http2_server.Prelude.Int.{ℤ, pos}
use http2_server.Prelude.Map.{lookup, insert}
use http2_server.Prelude.Decimal.{size_to_string, to_string}
use http2_server.HttpClient.{complete, send_request}
use http2_server.Registry.{find_backend, first_match, register_backend}
use http2_server.RequestHandler.{handle_request, run_route, register_route, route_key}
use http2_server.ProxyHandler.{
  handle_registration_request, registration_request, post_registration, forward_found,
  forward_reply, forward_request, handle_proxy_request, initialize, network_event, start_call,
  success_body,
}
use http2_server.World.{gets, lift, modify, respond, ◌>>=◌, try_catch}
use http2_server.Server.{serve, on_event, request_handler, routes, test_route}
use http2_server.Session.{sender, send_response, write_data, run, step, store_header}
use http2_server.Session.Connection.{
  Connection, read, new, start, on_completion, on_handshake, on_read, setup_nghttp2, read_data,
}
use http2_server.Http2Site.{
  Site, new_site, Move, accepted, completion, backend, Outcome, going, thrown, dangling, session_at,
  is_reading, live, happen, deliver, accept, handle_events,
}
use http2_server.Http2Site.Answers.{submitted_on, passed_on}
use http2_server.Http2Site.Survival.{SettledAlong, Prints, SendableAlong, live_goes_on}
use http2_server.Tests.Samples.{
  json, beast, order, parsed, encode, get, get_int, field, here, rest_of, int_of, of_int,
}
use http2_server.Tests.Site.{ask, register, done}

-- A session that is alive, or has been answered on all streams.
abbrev AtRest : Connection → Type 0
AtRest x =
    (is_reading x.waiting ≡ true) ⊎ ((j : ℤ) → passed_on j x.invoked ≡ submitted_on j x.calls)

AtRest-Settled :
    (xs : List Connection) (n : ℕ) (j : ℤ)
    → All AtRest xs
    → is_reading (session_at n xs).waiting ≡ false
    → passed_on j (session_at n xs).invoked ≡ submitted_on j (session_at n xs).calls
unfolding new passed_on submitted_on
AtRest-Settled [] n j h gone = refl
AtRest-Settled (x ∷ xs) zero j (inl e, h) gone = cc
AtRest-Settled (x ∷ xs) zero j (inr e, h) gone = e j
AtRest-Settled (x ∷ xs) (suc n) j h gone = AtRest-Settled xs n j h.1 gone

abbrev AtRestAlong : Outcome → List Move → Type 0
AtRestAlong thrown ms = Unit
AtRestAlong dangling ms = Unit
AtRestAlong (going s) [] = All AtRest s.sessions
AtRestAlong (going s) (m ∷ ms) =
    All AtRest s.sessions × AtRestAlong (happen json beast order m s) ms

settled_along :
    (o : Outcome) (ms : List Move) → AtRestAlong o ms → SettledAlong json beast order o ms
settled_along thrown ms h = tt
settled_along dangling ms h = tt
settled_along (going s) [] h = λ n j. AtRest-Settled s.sessions n j h
settled_along (going s) (m ∷ ms) h =
    (λ n j. AtRest-Settled s.sessions n j h.0, settled_along (happen json beast order m s) ms h.1)

abbrev visit : List Move
visit =
    accepted false
    ∷ completion 0 (read false register false)
    ∷ completion 0 (read false (ask (pos 3) (codes "/api/x")) false)
    ∷ backend 0 done
    ∷ backend 0 done
    ∷ backend 0 done
    ∷ backend 0 done
    ∷ completion 0 (read true [] false)
    ∷ []

prints : Prints json
prints h = cc

verbs : SendableAlong json beast order (going new_site) visit
unfolding store_header happen deliver accept handle_events new start on_completion on_handshake
    on_read setup_nghttp2 read_data run step serve on_event request_handler text_beq codes
    handle_request try_catch run_route lookup routes register_route insert c_str
    handle_registration_request registration_request ◌>>=◌ parsed post_registration complete
    send_request size_to_string to_string find found_at_start starts_with forward_found
    forward_reply forward_request handle_proxy_request initialize network_event start_call
    success_body find_backend first_match register_backend route_key gets lift modify respond encode
    get get_int field here rest_of int_of of_int test_route
verbs =
    (tt, ((tt, tt), (((_, refl, λ (e, f). cc, omega arith), tt), (tt, (tt, (tt, (tt, (tt, tt))))))))

rests : SettledAlong json beast order (going new_site) visit
unfolding store_header happen deliver accept handle_events new start on_completion on_handshake
    on_read setup_nghttp2 read_data run step serve on_event request_handler text_beq codes
    handle_request try_catch run_route lookup routes register_route insert c_str
    handle_registration_request registration_request ◌>>=◌ parsed post_registration complete
    send_request size_to_string to_string find found_at_start starts_with forward_found
    forward_reply forward_request handle_proxy_request initialize network_event start_call
    success_body find_backend first_match register_backend route_key gets lift modify respond encode
    get get_int field here rest_of int_of of_int test_route passed_on submitted_on sender
    send_response write_data
rests = settled_along (going new_site) visit (
  tt,
  (
    (inl refl, tt),
    (
      (inl refl, tt),
      (
        (inl refl, tt),
        (
          (inl refl, tt),
          ((inl refl, tt), ((inl refl, tt), ((inl refl, tt), (inr (λ j. omega arith), tt)))),
        ),
      ),
    ),
  ),
)

live_goes_on_example : (t : Site) × (live json beast order new_site visit ≡ going t)
live_goes_on_example = live_goes_on json beast order visit prints verbs rests
