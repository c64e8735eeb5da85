-- ===== src/Server/Answers.antt =====
-- Every request to the server (src/main.cpp with src/transport/proxy_handler.cpp,
-- request_handler.cpp and http_client.cpp) is answered once.
use http2_server.Prelude.{
  ℕ, ◌+◌, ◌≤◌, ◌≡◌, refl, ◌∙◌, ◌≢◌, Option, none, some, List, [], ◌∷◌, arith, nat_eq, pair_eq, All,
}
use http2_server.Prelude.Text.{Text, codes, text_eq}
use http2_server.Prelude.Int.{ℤ, int_eq, pos}
use http2_server.Json.{JsonLib}
use http2_server.Registry.{Order, find_backend}
use http2_server.HttpClient.{finished, Beast, Connection, Completion}
use http2_server.World.{World, ResponseSender, Captured}
use http2_server.World.Answers.{
  Counts, Counts-respond, Counts-if, answered, one, unless_thrown, sent_to, pending_for,
}
use http2_server.RequestHandler.{RequestCb, create_error_response}
use http2_server.RequestHandler.Routes.{route, handle_request-Counts, handle_request-Total}
use http2_server.ProxyHandler.{network_event, initialize}
use http2_server.ProxyHandler.Accounting.{
  IsRelayable, handle_proxy_request-Counts, handle_proxy_request-returns,
  handle_registration_request-Counts,
}
use http2_server.ProxyHandler.Network.{network_event_answers}
use http2_server.Server.Table.{route-registered}
use http2_server.Server.{
  Event, request, network, test_route, routes, request_handler, on_event, resume, serve, initial,
}

test_route-Counts :
    (s : ResponseSender) (i : ℤ) (method path body : Text)
    → Counts s i (test_route method path body i s)
unfolding test_route
test_route-Counts s i method path body = Counts-respond s i _

-- How often a stream of a session has asked.
unfoldable pub requests_for : ResponseSender → ℤ → List Event → ℕ
requests_for t j [] = 0
requests_for t j (request method path body i s ∷ es) = one t j s i + requests_for t j es
requests_for t j (network n c ∷ es) = requests_for t j es

requests_for-cons :
    (t : ResponseSender) (j : ℤ) (e : Event) (es : List Event)
    → requests_for t j (e ∷ es) ≡ requests_for t j (e ∷ []) + requests_for t j es
unfolding requests_for
requests_for-cons t j (request method path body i s) es = omega arith
requests_for-cons t j (network n c) es = omega arith

pending_for_finished :
    (t : ResponseSender) (j : ℤ) (ks : List (Connection Captured))
    → All (λ k. k.phase ≡ finished) ks
    → pending_for t j ks ≡ 0
unfolding pending_for
pending_for_finished t j [] h = refl
pending_for_finished t j (k ∷ ks) h = ground (arith, pending_for_finished t j ks h.1)

pub resume-some :
    (o : Option (Unit {0})) (w : World) (rest : World → Option World) {v : World}
    → resume o w rest ≡ some v
    → (o ≡ some tt) × (rest w ≡ some v)
resume-some none w rest h = cc
resume-some (some done) w rest h = (refl, h)

module _ (J : JsonLib) (beast : Beast) (order : Order) where
  route-Counts :
      (s : ResponseSender) (i : ℤ) (method path body : Text) (callback : RequestCb)
      → route (routes J beast order) method path ≡ some callback
      → Counts s i (callback method path body i s)
  route-Counts s i method path body callback h =
      route-registered J beast order (λ cb. Counts s i (cb method path body i s)) method path
        callback (test_route-Counts s i method path body)
        (handle_registration_request-Counts J beast order s i method path body) h

  request_handler-Counts :
      (s : ResponseSender) (i : ℤ) (method path body : Text)
      → Counts s i (request_handler J beast order method path body i s)
  unfolding request_handler
  request_handler-Counts s i method path body =
      Counts-if s i _ _ _
        (handle_request-Counts J s i _ method path body (route-Counts s i method path body))
        (handle_proxy_request-Counts J beast order s i method path body)

  network_event-answered : (n : ℕ) (c : Completion) (w : World) → (network_event n c w).0 ≡ some tt
  network_event-answered n c w = (network_event_answers n c w 0 (pos 0)).0

  on_event-answers :
      (e : Event) (w : World) (t : ResponseSender) (j : ℤ)
      → answered t j (on_event J beast order e w).1
        ≡ answered t j w + unless_thrown (on_event J beast order e w).0 (requests_for t j (e ∷ []))
  unfolding on_event requests_for
  on_event-answers (request method path body i s) w t j =
      ground (arith, (request_handler-Counts s i method path body).counted w t j)
  on_event-answers (network n c) w t j = ground (arith, network_event_answers n c w t j)

  -- After any events that the server survives, the replies that a stream of a session has been sent,
  -- together with those that a call under way still owes it, are as many more as it has asked since.
  serve_answers :
      (es : List Event) (w v : World) (t : ResponseSender) (j : ℤ)
      → serve J beast order w es ≡ some v
      → answered t j v ≡ answered t j w + requests_for t j es
  unfolding serve
  serve_answers [] w v t j h =
      let e : w ≡ v = ground arith in rw e (unfold requests_for in omega arith)
  serve_answers (e ∷ es) w v t j h =
      let (returned, rest) =
        resume-some (on_event J beast order e w).0 (on_event J beast order e w).1
          (λ next. serve J beast order next es) h in
      ground (
        arith,
        returned,
        serve_answers es (on_event J beast order e w).1 v t j rest,
        on_event-answers e w t j,
        requests_for-cons t j e es,
      )

  pub from_start :
      (es : List Event) (v : World) (t : ResponseSender) (j : ℤ)
      → serve J beast order initial es ≡ some v
      → answered t j v ≡ requests_for t j es
  from_start es v t j h =
      serve_answers es initial v t j h ∙ (unfold initialize sent_to pending_for in omega arith)

  -- From the start, if the server survives the events: no stream of any session has been sent more
  -- replies than it has asked.
  pub serve_never_more :
      (es : List Event) (v : World) (t : ResponseSender) (j : ℤ)
      → serve J beast order initial es ≡ some v
      → sent_to t j v.sent ≤ requests_for t j es
  serve_never_more es v t j h = omega (arith, from_start es v t j h)

  -- From the start, if the server survives the events: once no call to a backend is under way any
  -- more, every stream of every session has been sent exactly as many replies as it has asked.
  pub serve_settled :
      (es : List Event) (v : World) (t : ResponseSender) (j : ℤ)
      → serve J beast order initial es ≡ some v
      → All (λ k. k.phase ≡ finished) v.calls
      → sent_to t j v.sent ≡ requests_for t j es
  serve_settled es v t j h settled =
      omega (arith, from_start es v t j h, pending_for_finished t j v.calls settled)

  -- If a backend is found for a request, it can be sent there: its method is a verb of Boost.Beast,
  -- and not TRACE if there is a body, and the backend's host is shorter than 65534 bytes.
  abbrev pub CanBeSent : Event → World → Type 0
  CanBeSent (request method path body i s) w =
      IsRelayable beast method body (find_backend order w.registry path)
  CanBeSent (network n c) w = Unit

  -- Each of the events, when it comes to it.
  abbrev pub AllSent : List Event → World → Type 0
  AllSent [] w = Unit
  AllSent (e ∷ es) w = CanBeSent e w × AllSent es (on_event J beast order e w).1

  request_handler-returns :
      (s : ResponseSender) (i : ℤ) (method path body : Text) (w : World)
      → J.dump (create_error_response J (pos 500) (codes "Internal server error")) ≢ none
      → IsRelayable beast method body (find_backend order w.registry path)
      → (request_handler J beast order method path body i s w).0 ≡ some tt
  unfolding request_handler
  request_handler-returns s i method path body w d v = ground (
    arith,
    (handle_request-Total J s i (routes J beast order) method path body d).returns w,
    handle_proxy_request-returns J beast order s i method path body w v,
  )

  on_event-returns :
      (e : Event) (w : World)
      → J.dump (create_error_response J (pos 500) (codes "Internal server error")) ≢ none
      → CanBeSent e w
      → (on_event J beast order e w).0 ≡ some tt
  unfolding on_event
  on_event-returns (request method path body i s) w d h =
      request_handler-returns s i method path body w d h
  on_event-returns (network n c) w d h = network_event-answered n c w

  -- The server survives every history in which each request that has a backend can be sent there, if
  -- the library can print the program's own error object.
  pub serve_survives :
      (es : List Event) (w : World)
      → J.dump (create_error_response J (pos 500) (codes "Internal server error")) ≢ none
      → AllSent es w
      → (v : World) × (serve J beast order w es ≡ some v)
  unfolding serve
  serve_survives [] w d h = (w, refl)
  serve_survives (e ∷ es) w d h =
      let (v, rest) = serve_survives es (on_event J beast order e w).1 d h.1 in
      (v, rw (on_event-returns e w d h.0) rest)
