-- ===== src/Server/Site.antt =====
-- Which request reaches which handler (src/main.cpp with src/transport/request_handler.cpp and
-- proxy_handler.cpp).
use http2_server.Prelude.{
  ◌≡◌, refl, ap, ◌∙◌, Option, none, some, [], true, false, ◌==◌, ◌||◌, ◌&&◌, if◌then◌else◌, arith,
  eq_iff, eq_refl,
}
use http2_server.Prelude.Text.{Text, codes, text_eq, text_beq, substr, NoNul}
use http2_server.Prelude.Int.{ℤ, pos}
use http2_server.Prelude.Map.{lookup}
use http2_server.Common.{http_response}
use http2_server.Json.{JsonLib}
use http2_server.Registry.{Order}
use http2_server.HttpClient.{Beast}
use http2_server.World.{World, ResponseSender, Exec, respond, try_catch, gets, ◌>>=◌}
use http2_server.RequestHandler.{
  RequestCb, register_route, no_routes, handle_request, run_route, handle_default_routes,
  respond_json, create_error_response,
}
use http2_server.RequestHandler.Routes.{route, route-register_route}
use http2_server.ProxyHandler.{handle_registration_request, handle_proxy_request, forward_request}
use http2_server.ProxyHandler.Registration.{handle_registration_request_lem}
use http2_server.Server.{test_route, routes, request_handler}

-- No exception reaches the `catch`.
try_catch_of_returns :
    {A : Type 0} (m h : Exec A) (w : World) {a : A} → (m w).0 ≡ some a → try_catch m h w ≡ m w
unfolding try_catch
try_catch_of_returns m h w e = ground arith

delete_NoNul : NoNul (codes "DELETE")
unfolding codes
delete_NoNul = (λ h. cc, (λ h. cc, (λ h. cc, (λ h. cc, (λ h. cc, (λ h. cc, tt))))))

post_NoNul : NoNul (codes "POST")
unfolding codes
post_NoNul = (λ h. cc, (λ h. cc, (λ h. cc, (λ h. cc, tt))))

get_NoNul : NoNul (codes "GET")
unfolding codes
get_NoNul = (λ h. cc, (λ h. cc, (λ h. cc, tt)))

test_NoNul : NoNul (codes "/test")
unfolding codes
test_NoNul = ground arith

register_NoNul : NoNul (codes "/proxy/register")
unfolding codes
register_NoNul = ground arith

-- The three literal paths differ.
other_page : (codes "/proxy/register" == codes "/test") ≡ false
unfolding codes text_beq
other_page = refl

not_test : (codes "/test" == codes "/proxy/register") ≡ false
unfolding codes text_beq
not_test = refl

not_health :
    ((codes "/test" == codes "/health") ≡ false)
    × ((codes "/proxy/register" == codes "/health") ≡ false)
unfolding codes text_beq
not_health = (refl, refl)

module _ (J : JsonLib) (beast : Beast) (order : Order) where
  -- The reply where a path has a route, but not for this method.
  abbrev pub no_route : RequestCb
  no_route method path body i s =
      try_catch
        (respond_json J s i (pos 404) (create_error_response J (pos 404) (codes "Route not found")))
        (respond_json J s i (pos 500)
          (create_error_response J (pos 500) (codes "Internal server error")))

  -- The plain reading of the routes of a running server.
  abbrev pub site : RequestCb
  site method path body i s =
      if path == codes "/test"
      then if method == codes "GET"
        then respond s i (http_response (pos 204) [])
        else no_route method path body i s
      else if path == codes "/proxy/register"
      then if (method == codes "POST") || (method == codes "DELETE")
        then handle_registration_request J beast order method path body i s
        else no_route method path body i s
      else if substr path 15 == codes "/proxy/register"
      then handle_registration_request J beast order method path body i s
      else forward_request J beast order method path body i s

  registration_returns :
      (method path body : Text) (i : ℤ) (s : ResponseSender) (w : World)
      → (handle_registration_request J beast order method path body i s w).0 ≡ some tt
  registration_returns method path body i s w =
      ap (λ (r : Option (Unit {0}) × World). r.0)
        (handle_registration_request_lem J beast order method path body i s w)
      ∙ (unfold respond in refl)

  routed :
      (method path : Text)
      → NoNul method
      → NoNul path
      → route (routes J beast order) method path ≡ (
          if (codes "DELETE" == method) && (codes "/proxy/register" == path)
          then some (handle_registration_request J beast order)
          else if (codes "POST" == method) && (codes "/proxy/register" == path)
          then some (handle_registration_request J beast order)
          else if (codes "GET" == method) && (codes "/test" == path)
          then some test_route
          else none)
  unfolding routes
  routed method path m p =
      let registration = handle_registration_request J beast order in
      let one = register_route (codes "GET") (codes "/test") test_route no_routes in
      let two = register_route (codes "POST") (codes "/proxy/register") registration one in
      rw
        (
          route-register_route two (codes "DELETE") (codes "/proxy/register") method path
              registration delete_NoNul register_NoNul m p,
          route-register_route one (codes "POST") (codes "/proxy/register") method path registration
              post_NoNul register_NoNul m p,
          route-register_route no_routes (codes "GET") (codes "/test") method path test_route
              get_NoNul test_NoNul m p,
        )
        (unfold lookup in refl)

  test_page :
      (method body : Text) (i : ℤ) (s : ResponseSender) (w : World)
      → NoNul method
      → handle_request J (routes J beast order) method (codes "/test") body i s w
        ≡ (if method == codes "GET"
              then respond s i (http_response (pos 204) [])
              else no_route method (codes "/test") body i s)
            w
  unfolding handle_request run_route test_route handle_default_routes
  test_page method body i s w m =
      rw (handle_request, routed method (codes "/test") m test_NoNul)
        (ground (
          arith,
          eq_refl (codes "/test"),
          eq_iff method (codes "GET"),
          eq_iff (codes "GET") method,
          other_page,
          not_health,
          try_catch_of_returns (respond s i (http_response (pos 204) []))
              (respond_json J s i (pos 500)
                (create_error_response J (pos 500) (codes "Internal server error")))
              w (unfold respond in refl),
        ))

  register_page :
      (method body : Text) (i : ℤ) (s : ResponseSender) (w : World)
      → NoNul method
      → handle_request J (routes J beast order) method (codes "/proxy/register") body i s w
        ≡ (if (method == codes "POST") || (method == codes "DELETE")
              then handle_registration_request J beast order method
                  (codes "/proxy/register")
                  body
                  i
                  s
              else no_route method (codes "/proxy/register") body i s)
            w
  unfolding handle_request run_route handle_default_routes
  register_page method body i s w m =
      rw (handle_request, routed method (codes "/proxy/register") m register_NoNul)
        (ground (
          arith,
          eq_refl (codes "/proxy/register"),
          eq_iff method (codes "POST"),
          eq_iff (codes "POST") method,
          eq_iff method (codes "DELETE"),
          eq_iff (codes "DELETE") method,
          not_test,
          not_health,
          try_catch_of_returns
              (handle_registration_request J beast order method (codes "/proxy/register") body i s)
              (respond_json J s i (pos 500)
                (create_error_response J (pos 500) (codes "Internal server error")))
              w (registration_returns method (codes "/proxy/register") body i s w),
        ))

  -- On a running server, a request whose method and path hold no NUL is handled as in the plain
  -- reading `site`, which lists what each path and method is answered by.
  pub request_handler_lem :
      (method path body : Text) (i : ℤ) (s : ResponseSender) (w : World)
      → NoNul method
      → NoNul path
      → w.initialized ≡ true
      → request_handler J beast order method path body i s w ≡ site method path body i s w
  unfolding request_handler handle_proxy_request gets ◌>>=◌
  request_handler_lem method path body i s w m p ready = ground (
    arith,
    eq_iff path (codes "/test"),
    eq_iff path (codes "/proxy/register"),
    other_page,
    test_page method body i s w m,
    register_page method body i s w m,
  )
