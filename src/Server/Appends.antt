-- ===== src/Server/Appends.antt =====
-- The replies that a request to the server (src/main.cpp) brings about at once, and those of a
-- completion for a call, stand at the end of what has been sent.
use mathlib.Core.Option
use http2_server.Prelude.{subst, ◌≡◌, refl, sym, ap, Option, none, some, List, [], ◌∷◌, All, nat_eq}
use http2_server.Prelude.Text.{Text, text_eq}
use http2_server.Prelude.Int.{ℤ}
use http2_server.Json.{JsonLib}
use http2_server.Registry.{Order, ForwardingRule}
use http2_server.HttpClient.{Beast, Connection}
use http2_server.World.{World, ResponseSender, Captured}
use http2_server.World.Appends.{
  Appends, Appends-modify, Appends-respond, Appends-if, appends_rules, Extends, Extends-none,
  Extends-then,
}
use http2_server.RequestHandler.Routes.{handle_request-Appends}
use http2_server.ProxyHandler.{
  forward_request, forward_found, start_call, post_registration, delete_registration,
  registration_request, handle_registration_request, handle_proxy_request,
}
use http2_server.Server.{Event, request, network, test_route, request_handler, on_event, serve}
use http2_server.Server.Answers.{resume-some}
use http2_server.Server.Table.{route-registered}

module _ (J : JsonLib) (beast : Beast) (order : Order) (s : ResponseSender) (i : ℤ) where
  start_call-Appends : (k : Connection Captured) → Appends s (start_call J beast order k)
  unfolding start_call
  start_call-Appends k = Appends-modify s _ (λ w. refl)

  forward_found-Appends :
      (method path body : Text) (found : Option ForwardingRule)
      → Appends s (forward_found J beast order method path body i s found)
  unfolding forward_found
  forward_found-Appends method path body none = Appends-respond s i _
  forward_found-Appends method path body (some rule) = search (appends_rules, start_call-Appends)

  forward_request-Appends :
      (method path body : Text) → Appends s (forward_request J beast order method path body i s)
  unfolding forward_request
  forward_request-Appends method path body =
      search (appends_rules, forward_found-Appends method path body)

  post_registration-Appends : (j : J.Value) → Appends s (post_registration J beast order j i s)
  unfolding post_registration
  post_registration-Appends j = search (appends_rules, Appends-modify) depth 20

  delete_registration-Appends : (j : J.Value) → Appends s (delete_registration J beast order j i s)
  unfolding delete_registration
  delete_registration-Appends j = search (appends_rules, Appends-modify) depth 20

  registration_request-Appends :
      (method body : Text) → Appends s (registration_request J beast order method body i s)
  unfolding registration_request
  registration_request-Appends method body =
      search (appends_rules, post_registration-Appends, delete_registration-Appends) depth 8

  handle_registration_request-Appends :
      (method path body : Text)
      → Appends s (handle_registration_request J beast order method path body i s)
  unfolding handle_registration_request
  handle_registration_request-Appends method path body =
      search (appends_rules, registration_request-Appends)

  handle_proxy_request-Appends :
      (method path body : Text)
      → Appends s (handle_proxy_request J beast order method path body i s)
  unfolding handle_proxy_request
  handle_proxy_request-Appends method path body =
      search (appends_rules, handle_registration_request-Appends, forward_request-Appends) depth 8

  test_route-Appends : (method path body : Text) → Appends s (test_route method path body i s)
  unfolding test_route
  test_route-Appends method path body = Appends-respond s i _

  -- Whatever is asked, only the stream's own sender is replied to.
  request_handler-Appends :
      (method path body : Text) → Appends s (request_handler J beast order method path body i s)
  unfolding request_handler
  request_handler-Appends method path body =
      Appends-if s _ _ _
        (handle_request-Appends J s i _ method path body (λ callback h.
          route-registered J beast order (λ cb. Appends s (cb method path body i s)) method path
            callback (test_route-Appends method path body)
            (handle_registration_request-Appends method path body) h))
        (handle_proxy_request-Appends method path body)

-- An event that is a request of this sender.
abbrev pub IsFrom : ResponseSender → Event → Type 0
IsFrom n (request method path body i s) = s ≡ n
IsFrom n (network k c) = ⊥

module _ (J : JsonLib) (beast : Beast) (order : Order) where
  -- Requests of one sender: what they are replied to at once goes to that sender.
  pub serve-Extends :
      (n : ResponseSender) (es : List Event) (w v : World)
      → All (IsFrom n) es
      → serve J beast order w es ≡ some v
      → Extends n w.sent v.sent
  unfolding serve on_event
  serve-Extends n [] w v a h =
      Extends-none n (ap (λ (x : World). x.sent) (sym (Option.some-injective w v h)))
  serve-Extends n (request method path body i s ∷ es) w v a h =
      let (returned, rest) =
        resume-some (on_event J beast order (request method path body i s) w).0
          (on_event J beast order (request method path body i s) w).1
          (λ next. serve J beast order next es) h in
      Extends-then
        (subst (λ t. Extends t w.sent (request_handler J beast order method path body i s w).1.sent)
          a.0 ((request_handler-Appends J beast order s i method path body).extends w))
        (serve-Extends n es _ v a.1 rest)
  serve-Extends n (network k c ∷ es) w v a h = absurd a.0
